-- ===== src/Connection/Remote/Arrival.antt =====
-- TcpConnection: what other threads send arrives in the order of their calls.
use light_rpc.Prelude.{
  ℕ, ◌+◌, ◌<◌, ◌≡◌, refl, sym, ap, ◌∙◌, List, [], ◌∷◌, ◌++◌, length, append_assoc, append-nil,
  arith,
}
use light_rpc.Prelude.Words.{size_mod}
use light_rpc.Buffer.{Written}
use light_rpc.EventLoop
use light_rpc.EventLoop.{Place, outside, testing, polling, swapping, running}
use light_rpc.EventLoop.Functors
use light_rpc.EventLoop.Functors.{in_hand, next_functor, run_now, step-IsSound, step_ran}
use light_rpc.Connection
use light_rpc.Connection.{
  TcpConnection, connected, disconnected, send, handle_write, handle_close, writable, closes_down,
}
use light_rpc.Connection.Effects.{IsSound, stream}
use light_rpc.Connection.Output.{accepted, cost, run_delivers}
use light_rpc.Connection.Remote.{
  Job, sends, closes, Remote, Event, others_send, others_close, others_wake, loop_tests, loop_polls,
  loop_swaps, loop_runs, loop_writes, run_job, send_remotely, run_first, step, run,
}

-- The bytes of the jobs before the first close.
abbrev pub accepted_jobs : List Job → List ℕ
accepted_jobs [] = []
accepted_jobs (sends src ∷ jobs) = src ++ accepted_jobs jobs
accepted_jobs (closes ∷ jobs) = []

module _ (fd_write fd_read : ℕ → ℕ) (signals : (n : ℕ) → 0 < fd_write n) where
  -- What an event does to the connection, as events of the loop's thread alone.
  abbrev job_event : Job → Written → Connection.Event
  job_event (sends src) w = Connection.sends src w
  job_event closes w = closes_down

  abbrev first_event : Place Job → Written → List Connection.Event
  first_event (running (cb ∷ cbs)) w = job_event cb w ∷ []
  first_event _ w = []

  abbrev events_of : Event → Remote → List Connection.Event
  events_of (loop_runs w) r = first_event r.loop.place w
  events_of (loop_writes w) r = writable w ∷ []
  events_of _ r = []

  abbrev pub trace : List Event → Remote → List Connection.Event
  trace [] r = []
  trace (e ∷ es) r = events_of e r ++ trace es (step fd_write fd_read e r)

  -- The jobs that are run.
  abbrev jobs_of : Event → Remote → List Job
  jobs_of (loop_runs w) r = next_functor r.loop.place
  jobs_of _ r = []

  abbrev jobs : List Event → Remote → List Job
  jobs [] r = []
  jobs (e ∷ es) r = jobs_of e r ++ jobs es (step fd_write fd_read e r)

  run-append :
      (xs ys : List Connection.Event) (c : TcpConnection)
      → Connection.run (xs ++ ys) c ≡ Connection.run ys (Connection.run xs c)
  unfolding Connection.run
  run-append [] ys c = refl
  run-append (x ∷ xs) ys c = run-append xs ys (Connection.step x c)

  first_runs :
      (p : Place Job) (w : Written) (c : TcpConnection)
      → run_first fd_write fd_read p w c ≡ Connection.run (first_event p w) c
  unfolding run_first run_job Connection.run Connection.step
  first_runs outside w c = refl
  first_runs testing w c = refl
  first_runs polling w c = refl
  first_runs swapping w c = refl
  first_runs (running []) w c = refl
  first_runs (running (sends src ∷ cbs)) w c = refl
  first_runs (running (closes ∷ cbs)) w c = refl

  step_connection :
      (e : Event) (r : Remote)
      → (step fd_write fd_read e r).connection ≡ Connection.run (events_of e r) r.connection
  unfolding step send_remotely Connection.run Connection.step
  step_connection (others_send src) r = ground arith
  step_connection others_close r = refl
  step_connection others_wake r = refl
  step_connection loop_tests r = refl
  step_connection (loop_polls es) r = refl
  step_connection loop_swaps r = refl
  step_connection (loop_runs w) r = first_runs r.loop.place w r.connection
  step_connection (loop_writes w) r = refl

  run_connection :
      (es : List Event) (r : Remote)
      → (run fd_write fd_read es r).connection ≡ Connection.run (trace es r) r.connection
  unfolding run Connection.run
  run_connection [] r = refl
  run_connection (e ∷ es) r =
      run_connection es (step fd_write fd_read e r)
      ∙ ap (Connection.run (trace es (step fd_write fd_read e r))) (step_connection e r)
      ∙ sym (run-append (events_of e r) (trace es (step fd_write fd_read e r)) r.connection)

  first_accepted :
      (p : Place Job) (w : Written) (es : List Connection.Event) (js : List Job)
      → accepted es ≡ accepted_jobs js
      → accepted (first_event p w ++ es) ≡ accepted_jobs (next_functor p ++ js)
  first_accepted outside w es js h = h
  first_accepted testing w es js h = h
  first_accepted polling w es js h = h
  first_accepted swapping w es js h = h
  first_accepted (running []) w es js h = h
  first_accepted (running (sends src ∷ cbs)) w es js h = ap (λ x. src ++ x) h
  first_accepted (running (closes ∷ cbs)) w es js h = refl

  trace_accepted :
      (es : List Event) (r : Remote) → accepted (trace es r) ≡ accepted_jobs (jobs es r)
  trace_accepted [] r = refl
  trace_accepted (others_send src ∷ es) r =
      trace_accepted es (step fd_write fd_read (others_send src) r)
  trace_accepted (others_close ∷ es) r = trace_accepted es (step fd_write fd_read others_close r)
  trace_accepted (others_wake ∷ es) r = trace_accepted es (step fd_write fd_read others_wake r)
  trace_accepted (loop_tests ∷ es) r = trace_accepted es (step fd_write fd_read loop_tests r)
  trace_accepted (loop_polls ready ∷ es) r =
      trace_accepted es (step fd_write fd_read (loop_polls ready) r)
  trace_accepted (loop_swaps ∷ es) r = trace_accepted es (step fd_write fd_read loop_swaps r)
  trace_accepted (loop_runs w ∷ es) r =
      first_accepted r.loop.place w (trace es (step fd_write fd_read (loop_runs w) r))
        (jobs es (step fd_write fd_read (loop_runs w) r))
        (trace_accepted es (step fd_write fd_read (loop_runs w) r))
  trace_accepted (loop_writes w ∷ es) r =
      trace_accepted es (step fd_write fd_read (loop_writes w) r)

  loop_lem :
      (e : EventLoop.Event Job) (l : EventLoop.Run Job)
      → Functors.IsSound l
      → Functors.IsSound (EventLoop.step fd_write fd_read e l)
        × ((EventLoop.step fd_write fd_read e l).ran ≡ l.ran ++ run_now e l.place)
  loop_lem e l v =
      (step-IsSound fd_write fd_read signals e l v, step_ran fd_write fd_read signals e l)

  step_loop :
      (e : Event) (r : Remote)
      → Functors.IsSound r.loop
      → Functors.IsSound (step fd_write fd_read e r).loop
        × ((step fd_write fd_read e r).loop.ran ≡ r.loop.ran ++ jobs_of e r)
  unfolding step send_remotely
  step_loop (others_send src) r v =
      ground (arith, loop_lem (EventLoop.pushes (sends src)) r.loop v, append-nil r.loop.ran)
  step_loop others_close r v = loop_lem (EventLoop.pushes closes) r.loop v
  step_loop others_wake r v = loop_lem EventLoop.wakes r.loop v
  step_loop loop_tests r v = loop_lem EventLoop.tests r.loop v
  step_loop (loop_polls es) r v = loop_lem (EventLoop.polls es) r.loop v
  step_loop loop_swaps r v = loop_lem EventLoop.swaps r.loop v
  step_loop (loop_runs w) r v = loop_lem EventLoop.executes r.loop v
  step_loop (loop_writes w) r v = (v, sym (append-nil r.loop.ran))

  run_loop :
      (es : List Event) (r : Remote)
      → Functors.IsSound r.loop
      → Functors.IsSound (run fd_write fd_read es r).loop
        × ((run fd_write fd_read es r).loop.ran ≡ r.loop.ran ++ jobs es r)
  unfolding run
  run_loop [] r v = (v, sym (append-nil r.loop.ran))
  run_loop (e ∷ es) r v =
      let (v1, more) = step_loop e r v in
      let (v2, rest) = run_loop es (step fd_write fd_read e r) v1 in
      (
        v2,
        rest
            ∙ ap (λ x. x ++ jobs es (step fd_write fd_read e r)) more
            ∙ append_assoc r.loop.ran (jobs_of e r) (jobs es (step fd_write fd_read e r)),
      )

  -- However other threads' calls of `send` and `close` and the loop's thread interleave, and whatever
  -- the kernel takes: the calls that queued a job are, in their order and each once, those that the loop
  -- has run, those it has in hand, and those pending; and the bytes on the wire, with those in the
  -- output buffer behind them, are those that were there before and then the data of the jobs run
  -- before the first close, in that order. (The output buffer does not outgrow `size_t`.)
  pub remote_sends_arrive :
      (es : List Event) (r : Remote)
      → Functors.IsSound r.loop
      → r.loop.ran ≡ []
      → IsSound r.connection
      → r.connection.state ≡ connected
      → length r.connection.output_buffer.bytes + cost (trace es r) < size_mod
      → ((run fd_write fd_read es r).loop.queued
          ≡ (run fd_write fd_read es r).loop.ran
            ++ (in_hand (run fd_write fd_read es r).loop.place
                ++ (run fd_write fd_read es r).loop.loop.pending_functors))
        × (stream (run fd_write fd_read es r).connection
            ≡ stream r.connection ++ accepted_jobs (run fd_write fd_read es r).loop.ran)
  remote_sends_arrive es r v none_ran c live small =
      let (v', more) = run_loop es r v in
      let (_, arrived) = run_delivers (trace es r) r.connection c live small in
      (
        v'.fifo,
        ap stream (run_connection es r)
            ∙ arrived
            ∙ ap (λ x. stream r.connection ++ x)
                (trace_accepted es r
                  ∙ sym (ap accepted_jobs (more ∙ ap (λ x. x ++ jobs es r) none_ran))),
      )
