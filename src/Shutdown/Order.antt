-- ===== src/Shutdown/Order.antt =====
-- Shutdown: the functors of `Stop` run in order, as far as they run at all.
use light_rpc.Prelude.{
  ℕ, ◌<◌, ◌≡◌, inl, inr, refl, sym, ap, ◌∙◌, subst, Bool, true, false, List, [], ◌∷◌, ◌++◌,
  append_assoc, replicate, arith, Bool-cases,
}
use light_rpc.Buffer.{Written}
use light_rpc.Codec.{ProtoMessage}
use light_rpc.Rpc.{RpcResponse}
use light_rpc.ThreadPool.{Pool, wait_for_tasks}
use light_rpc.Server.{Task}
use light_rpc.EventLoop
use light_rpc.EventLoop.{Place, outside, testing, polling, swapping, running}
use light_rpc.EventLoop.Functors
use light_rpc.EventLoop.Functors.{in_hand, pushed, step-IsSound, step_queued}
use light_rpc.TcpServer.{TcpServer}
use light_rpc.Shutdown.{
  Functor, accept_stops, goes_away, stops_all, MainStep, shuts_listener, queues, wakes_loop, waits,
  marks_stopped, sets_quit, joins, stop_steps, RpcServer, Event, main_runs, loop_tests, loop_polls,
  loop_swaps, loop_executes, is_outside, main_step, step, run,
}

abbrev pub stop_functors : List Functor
stop_functors = accept_stops ∷ goes_away ∷ stops_all ∷ []

-- The functors that the caller has still to queue.
abbrev pub to_queue : List MainStep → List Functor
to_queue [] = []
to_queue (shuts_listener ∷ rest) = to_queue rest
to_queue (queues cb ∷ rest) = cb ∷ to_queue rest
to_queue (wakes_loop ∷ rest) = to_queue rest
to_queue (waits ∷ rest) = to_queue rest
to_queue (marks_stopped ∷ rest) = to_queue rest
to_queue (sets_quit ∷ rest) = to_queue rest
to_queue (joins ∷ rest) = to_queue rest

-- The caller goes through `Stop` up to its `join`, the loop tests `quit_`, and the `join` returns.
abbrev pub schedule : Pool Task → List Event
schedule pool = replicate 11 (main_runs pool) ++ (loop_tests ∷ main_runs pool ∷ [])

module _ (response_proto : ProtoMessage RpcResponse) (written : ℕ → Written)
    (fd_write fd_read : ℕ → ℕ) (signals : (n : ℕ) → 0 < fd_write n) where
  record IsSound (all : List Functor) (r : RpcServer) : Type 0 where
    sound : Functors.IsSound r.loop
    all_queued : r.loop.queued ++ to_queue r.main ≡ all

  left_to_queue :
      {all : List Functor} {steps : List MainStep} {r : RpcServer}
      → r.main ≡ steps
      → IsSound all r
      → r.loop.queued ++ to_queue steps ≡ all
  left_to_queue {all = all} {r = r} e v =
      subst (λ m. r.loop.queued ++ to_queue m ≡ all) e v.all_queued

  -- A step of the loop's, and what is left for the caller to do.
  loop-IsSound :
      (e : EventLoop.Event Functor) (all : List Functor) (r : RpcServer) (rest : List MainStep)
      (s : TcpServer)
      → Functors.IsSound r.loop
      → r.loop.queued ++ (pushed e ++ to_queue rest) ≡ all
      → IsSound all
          (record { main = rest; loop = EventLoop.step fd_write fd_read e r.loop; tcp_server = s })
  loop-IsSound e all r rest s v h = record {
    sound = step-IsSound fd_write fd_read signals e r.loop v;
    all_queued =
        ap (λ q. q ++ to_queue rest) (step_queued fd_write fd_read signals e r.loop)
        ∙ append_assoc r.loop.queued (pushed e) (to_queue rest)
        ∙ h;
  }

  main-IsSound :
      (idle : Bool) (steps : List MainStep) (all : List Functor) (r : RpcServer)
      → r.main ≡ steps
      → IsSound all r
      → IsSound all (main_step response_proto written fd_write fd_read idle steps r)
  unfolding main_step
  main-IsSound idle [] all r e v = v
  main-IsSound idle (shuts_listener ∷ rest) all r e v = record {
    sound = v.sound;
    all_queued = left_to_queue e v;
  }
  main-IsSound idle (queues cb ∷ rest) all r e v =
      loop-IsSound (EventLoop.pushes cb) all r rest r.tcp_server v.sound (left_to_queue e v)
  main-IsSound idle (wakes_loop ∷ rest) all r e v =
      loop-IsSound EventLoop.wakes all r rest r.tcp_server v.sound (left_to_queue e v)
  main-IsSound true (waits ∷ rest) all r e v = record {
    sound = v.sound;
    all_queued = left_to_queue e v;
  }
  main-IsSound false (waits ∷ rest) all r e v = v
  main-IsSound idle (marks_stopped ∷ rest) all r e v = record {
    sound = v.sound;
    all_queued = left_to_queue e v;
  }
  main-IsSound idle (sets_quit ∷ rest) all r e v =
      loop-IsSound EventLoop.quits all r rest r.tcp_server v.sound (left_to_queue e v)
  main-IsSound idle (joins ∷ rest) all r e v =
      elim (Bool-cases (is_outside response_proto written fd_write fd_read r.loop.place)) [
        | inl h ↦ rw (h) (record { sound = v.sound; all_queued = left_to_queue e v })
        | inr h ↦ rw (h) v
      ]

  step-IsSound_lem :
      (e : Event) (all : List Functor) (r : RpcServer)
      → IsSound all r
      → IsSound all (step response_proto written fd_write fd_read e r)
  unfolding step
  step-IsSound_lem (main_runs pool) all r v = main-IsSound (wait_for_tasks pool) r.main all r refl v
  step-IsSound_lem loop_tests all r v =
      loop-IsSound EventLoop.tests all r r.main r.tcp_server v.sound v.all_queued
  step-IsSound_lem (loop_polls es) all r v =
      loop-IsSound (EventLoop.polls es) all r r.main r.tcp_server v.sound v.all_queued
  step-IsSound_lem loop_swaps all r v =
      loop-IsSound EventLoop.swaps all r r.main r.tcp_server v.sound v.all_queued
  step-IsSound_lem loop_executes all r v =
      loop-IsSound EventLoop.executes all r r.main _ v.sound v.all_queued

  run-IsSound :
      (es : List Event) (all : List Functor) (r : RpcServer)
      → IsSound all r
      → IsSound all (run response_proto written fd_write fd_read es r)
  unfolding run
  run-IsSound [] all r v = v
  run-IsSound (e ∷ es) all r v =
      run-IsSound es all (step response_proto written fd_write fd_read e r)
        (step-IsSound_lem e all r v)

  -- However the caller of `Stop` and the loop's thread interleave, and whenever the tasks end: the
  -- functors that have run, those that the loop has in hand, those that wait, and those still to be
  -- queued are, in this order, the end of accepting, the broadcast, and the closing of all
  -- connections, each once.
  pub stop_in_order :
      (es : List Event) (r : RpcServer)
      → r.main ≡ stop_steps
      → Functors.IsSound r.loop
      → r.loop.queued ≡ []
      → let r' = run response_proto written fd_write fd_read es r in
        r'.loop.ran
          ++ (in_hand r'.loop.place ++ (r'.loop.loop.pending_functors ++ to_queue r'.main))
        ≡ stop_functors
  stop_in_order es r m v q =
      let start : IsSound stop_functors r = record { sound = v; all_queued = rw (q, m) refl } in
      let r' : RpcServer = run response_proto written fd_write fd_read es r in
      let v' = run-IsSound es stop_functors r start in
      let hand : List Functor = in_hand r'.loop.place in
      let pending : List Functor = r'.loop.loop.pending_functors in
      let left : List Functor = to_queue r'.main in
      ap (λ x. r'.loop.ran ++ x) (sym (append_assoc hand pending left))
      ∙ sym (append_assoc r'.loop.ran (hand ++ pending) left)
      ∙ ap (λ x. x ++ left) (sym v'.sound.fifo)
      ∙ v'.all_queued

  -- `Stop` can return and leave every connection open and unanswered. Where the loop's thread is about
  -- to test `quit_` while the caller, with no task in the pool, goes through `Stop`, the loop returns with
  -- the three functors waiting: `Stop` joins the thread and returns; neither the broadcast nor the
  -- closing has run, and the connections are as they were.
  pub stop_can_skip_all :
      (pool : Pool Task) (r : RpcServer)
      → r.main ≡ stop_steps
      → r.loop.place ≡ testing
      → wait_for_tasks pool ≡ true
      → let r' = run response_proto written fd_write fd_read (schedule pool) r in
        (r'.main ≡ [])
        × (r'.loop.ran ≡ r.loop.ran)
        × (r'.tcp_server.connections ≡ r.tcp_server.connections)
        × (r'.tcp_server.closed ≡ r.tcp_server.closed)
  unfolding run step main_step is_outside EventLoop.step EventLoop.push_functor EventLoop.wakeup
      EventLoop.wake_step EventLoop.test_place
  stop_can_skip_all pool r m p w = ground (arith, m, p, w)
