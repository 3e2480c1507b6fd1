-- ===== src/Lifecycle/Late.antt =====
-- Lifecycle: what is queued after the `join` of `RpcClient::Stop`.
use light_rpc.Prelude.{
  ℕ, ◌<◌, ◌≡◌, refl, sym, ap, ◌∙◌, subst, Bool, true, false, ◌&&◌, List, [], ◌∷◌, ◌++◌, arith,
  if◌then◌else◌, inl, inr,
}
use light_rpc.EventLoop
use light_rpc.EventLoop.{Place, outside, testing, polling, swapping, running}
use light_rpc.EventLoop.Functors
use light_rpc.EventLoop.Functors.{in_hand, pushed, step-IsSound, step_queued}
use light_rpc.Lifecycle.{
  Functor, connects, disconnects, stops, MainStep, marks_stopped, spawns, drops_pending, queues,
  wakes_loop, sets_quit, joins, start_steps, stop_steps, create, Thread, absent, created, entered,
  ended, RpcClient, Event, main_runs, thread_enters, loop_tests, loop_polls, loop_swaps,
  loop_executes, loop_step, can_join, main_step, enter, in_loop, test, step, run,
}

-- No `StopInLoop` among these.
abbrev pub is_clean : List Functor → Bool
is_clean [] = true
is_clean (connects ∷ cbs) = is_clean cbs
is_clean (disconnects ∷ cbs) = is_clean cbs
is_clean (stops ∷ cbs) = false

is_clean-append : (xs ys : List Functor) → is_clean (xs ++ ys) ≡ (is_clean xs && is_clean ys)
is_clean-append [] ys = refl
is_clean-append (connects ∷ xs) ys = is_clean-append xs ys
is_clean-append (disconnects ∷ xs) ys = is_clean-append xs ys
is_clean-append (stops ∷ xs) ys = refl

-- No thread is created by these steps.
abbrev no_spawn : List MainStep → Bool
no_spawn [] = true
no_spawn (marks_stopped ∷ rest) = no_spawn rest
no_spawn (spawns ∷ rest) = false
no_spawn (drops_pending ∷ rest) = no_spawn rest
no_spawn (queues cb ∷ rest) = no_spawn rest
no_spawn (wakes_loop ∷ rest) = no_spawn rest
no_spawn (sets_quit ∷ rest) = no_spawn rest
no_spawn (joins ∷ rest) = no_spawn rest

-- `StopInLoop` is not queued before a `join`, and no thread is created after one.
abbrev is_ready : List MainStep → Bool
is_ready [] = true
is_ready (marks_stopped ∷ rest) = is_ready rest
is_ready (spawns ∷ rest) = is_ready rest
is_ready (drops_pending ∷ rest) = is_ready rest
is_ready (queues cb ∷ rest) = is_clean (cb ∷ []) && is_ready rest
is_ready (wakes_loop ∷ rest) = is_ready rest
is_ready (sets_quit ∷ rest) = is_ready rest
is_ready (joins ∷ rest) = no_spawn rest

abbrev is_idle : Thread → Bool
is_idle absent = true
is_idle created = false
is_idle entered = false
is_idle ended = true

module _ (fd_write fd_read : ℕ → ℕ) (signals : (n : ℕ) → 0 < fd_write n) where
  -- Before the `join`, no `StopInLoop` has been queued; after it, no thread runs what is queued.
  data Held (c : RpcClient) : Type 0 where
    before_join :
        is_ready c.main ≡ true → is_clean c.loop.queued ≡ true → Functors.IsSound c.loop → Held c
    past_join :
        is_clean c.loop.ran ≡ true → is_idle c.thread ≡ true → no_spawn c.main ≡ true → Held c

  ran-Held : (c : RpcClient) → Held c → is_clean c.loop.ran ≡ true
  ran-Held c (past_join h i n) = h
  ran-Held c (before_join ready h v) = ground (
    arith,
    ap is_clean v.fifo,
    is_clean-append c.loop.ran (in_hand c.loop.place ++ c.loop.loop.pending_functors),
    h,
  )

  -- An event of the loop before the `join`.
  loop_before :
      (e : EventLoop.Event Functor) (c : RpcClient) (rest : List MainStep) (t : Thread)
      → is_ready rest ≡ true
      → is_clean (pushed e) ≡ true
      → is_clean c.loop.queued ≡ true
      → Functors.IsSound c.loop
      → Held (record c { main = rest; thread = t; loop = EventLoop.step fd_write fd_read e c.loop })
  loop_before e c rest t ready new h v =
      before_join ready
        (ap is_clean (step_queued fd_write fd_read signals e c.loop)
          ∙ is_clean-append c.loop.queued (pushed e)
          ∙ ap (λ b. b && is_clean (pushed e)) h
          ∙ new)
        (step-IsSound fd_write fd_read signals e c.loop v)

  main_before :
      (steps : List MainStep) (c : RpcClient)
      → is_ready steps ≡ true
      → is_clean c.loop.queued ≡ true
      → Functors.IsSound c.loop
      → c.main ≡ steps
      → Held (main_step fd_write fd_read steps c)
  unfolding main_step loop_step can_join
  main_before [] c ready h v e = before_join (ap is_ready e) h v
  main_before (marks_stopped ∷ rest) c ready h v e = before_join ready h v
  main_before (spawns ∷ rest) c ready h v e = before_join ready h v
  main_before (drops_pending ∷ rest) c ready h v e = before_join ready h v
  main_before (queues cb ∷ rest) c ready h v e =
      loop_before (EventLoop.pushes cb) c rest c.thread (ground (arith, ready))
        (ground (arith, ready)) h v
  main_before (wakes_loop ∷ rest) c ready h v e =
      loop_before EventLoop.wakes c rest c.thread ready refl h v
  main_before (sets_quit ∷ rest) c ready h v e =
      loop_before EventLoop.quits c rest c.thread ready refl h v
  main_before (joins ∷ rest) c ready h v e = at_join c.thread refl
    where
      at_join :
          (t : Thread)
          → c.thread ≡ t
          → Held (if can_join fd_write fd_read t then record c { main = rest } else c)
      at_join absent s =
          past_join (ran-Held c (before_join (ap is_ready e ∙ ready) h v)) (ap is_idle s) ready
      at_join created s = before_join (ap is_ready e ∙ ready) h v
      at_join entered s = before_join (ap is_ready e ∙ ready) h v
      at_join ended s =
          past_join (ran-Held c (before_join (ap is_ready e ∙ ready) h v)) (ap is_idle s) ready

  main_past :
      (steps : List MainStep) (c : RpcClient)
      → is_clean c.loop.ran ≡ true
      → is_idle c.thread ≡ true
      → no_spawn steps ≡ true
      → c.main ≡ steps
      → Held (main_step fd_write fd_read steps c)
  unfolding main_step loop_step can_join EventLoop.step EventLoop.wake_step
  main_past [] c h i n e = past_join h i (ap no_spawn e)
  main_past (marks_stopped ∷ rest) c h i n e = past_join h i n
  main_past (spawns ∷ rest) c h i n e = absurd (ground (arith, n))
  main_past (drops_pending ∷ rest) c h i n e = past_join h i n
  main_past (queues cb ∷ rest) c h i n e = past_join h i n
  main_past (wakes_loop ∷ rest) c h i n e = past_join (ground (arith, h)) i n
  main_past (sets_quit ∷ rest) c h i n e = past_join h i n
  main_past (joins ∷ rest) c h i n e = at_join c.thread refl
    where
      at_join :
          (t : Thread)
          → c.thread ≡ t
          → Held (if can_join fd_write fd_read t then record c { main = rest } else c)
      at_join absent s = past_join h i n
      at_join created s = past_join h i (ap no_spawn e ∙ n)
      at_join entered s = past_join h i (ap no_spawn e ∙ n)
      at_join ended s = past_join h i n

  module _ (c : RpcClient) (ready : is_ready c.main ≡ true) (h : is_clean c.loop.queued ≡ true)
      (v : Functors.IsSound c.loop) where
    enter_before : (t : Thread) → Held (enter fd_write fd_read t c)
    unfolding enter loop_step
    enter_before absent = before_join ready h v
    enter_before created = loop_before EventLoop.starts c c.main entered ready refl h v
    enter_before entered = before_join ready h v
    enter_before ended = before_join ready h v

    test_before : (t : Thread) → Held (test fd_write fd_read t c)
    unfolding test loop_step
    test_before absent = before_join ready h v
    test_before created = before_join ready h v
    test_before entered = loop_before EventLoop.tests c c.main _ ready refl h v
    test_before ended = before_join ready h v

    in_loop_before :
        (e : EventLoop.Event Functor) (t : Thread)
        → is_clean (pushed e) ≡ true
        → Held (in_loop fd_write fd_read e t c)
    unfolding in_loop loop_step
    in_loop_before e absent new = before_join ready h v
    in_loop_before e created new = before_join ready h v
    in_loop_before e entered new = loop_before e c c.main c.thread ready new h v
    in_loop_before e ended new = before_join ready h v

  -- An idle thread does nothing.
  thread_past :
      (t : Thread) (c : RpcClient)
      → is_idle t ≡ true
      → (enter fd_write fd_read t c ≡ c)
        × (test fd_write fd_read t c ≡ c)
        × ((e : EventLoop.Event Functor) → in_loop fd_write fd_read e t c ≡ c)
  unfolding enter test in_loop
  thread_past absent c i = (refl, refl, λ e. refl)
  thread_past created c i = absurd (ground (arith, i))
  thread_past entered c i = absurd (ground (arith, i))
  thread_past ended c i = (refl, refl, λ e. refl)

  step-Held : (e : Event) (c : RpcClient) → Held c → Held (step fd_write fd_read e c)
  unfolding step
  step-Held main_runs c (before_join r h v) = main_before c.main c r h v refl
  step-Held main_runs c (past_join h i n) = main_past c.main c h i n refl
  step-Held thread_enters c (before_join r h v) = enter_before c r h v c.thread
  step-Held thread_enters c (past_join h i n) =
      subst Held (sym (thread_past c.thread c i).0) (past_join h i n)
  step-Held loop_tests c (before_join r h v) = test_before c r h v c.thread
  step-Held loop_tests c (past_join h i n) =
      subst Held (sym (thread_past c.thread c i).1) (past_join h i n)
  step-Held (loop_polls es) c (before_join r h v) =
      in_loop_before c r h v (EventLoop.polls es) c.thread refl
  step-Held (loop_polls es) c (past_join h i n) =
      subst Held (sym ((thread_past c.thread c i).2 (EventLoop.polls es))) (past_join h i n)
  step-Held loop_swaps c (before_join r h v) = in_loop_before c r h v EventLoop.swaps c.thread refl
  step-Held loop_swaps c (past_join h i n) =
      subst Held (sym ((thread_past c.thread c i).2 EventLoop.swaps)) (past_join h i n)
  step-Held loop_executes c (before_join r h v) =
      in_loop_before c r h v EventLoop.executes c.thread refl
  step-Held loop_executes c (past_join h i n) =
      subst Held (sym ((thread_past c.thread c i).2 EventLoop.executes)) (past_join h i n)

  run-Held : (es : List Event) (c : RpcClient) → Held c → Held (run fd_write fd_read es c)
  unfolding run
  run-Held [] c v = v
  run-Held (e ∷ es) c v = run-Held es (step fd_write fd_read e c) (step-Held e c v)

  create-Held : Held (create (start_steps ++ stop_steps))
  unfolding create EventLoop.fresh
  create-Held = before_join refl refl (record { fifo = refl; woken = inr (inl refl) })

  -- The functor that `TcpClient::Stop` queues at the end of `RpcClient::Stop` never runs: whatever the
  -- interleaving of a client's start and stop with its loop's thread, it is queued only once the
  -- thread has ended, and no other runs it.
  pub late_stop_never_runs :
      (es : List Event)
      → is_clean (run fd_write fd_read es (create (start_steps ++ stop_steps))).loop.ran ≡ true
  late_stop_never_runs es =
      ran-Held (run fd_write fd_read es (create (start_steps ++ stop_steps)))
        (run-Held es (create (start_steps ++ stop_steps)) create-Held)
