-- ===== src/Lifecycle.antt =====
-- code/rpc/rpc_client.cc, `RpcClient::Start` and `Stop`: the thread that calls them, against the loop's
-- thread, from its creation to its end. What the caller does is a list of steps; each functor that it
-- queues runs on the loop's thread. Any sequence of events is a possible interleaving. What the
-- functors and `DropAllPending` do is in TcpClient and Client, and logging is left out.
pub mod Joining
pub mod Leaving
pub mod Late
mod Tests
use light_rpc.Prelude.{ℕ, Bool, true, false, List, [], ◌∷◌, if◌then◌else◌}
use light_rpc.Epoller.{EpollEvent}
use light_rpc.EventLoop
use light_rpc.EventLoop.{Place, outside, testing, polling, swapping, running}

-- `Connect`, `DisconnectInLoop`, and the `StopInLoop` of `TcpClient::Stop`.
pub data Functor : Type 0 where
  connects disconnects stops : Functor

pub data MainStep : Type 0 where
  marks_stopped : MainStep
  spawns : MainStep
  drops_pending : MainStep
  queues : Functor → MainStep
  wakes_loop : MainStep
  sets_quit : MainStep
  joins : MainStep

-- The loop's thread: not created, created, in `Loop`, or past it.
pub data Thread : Type 0 where
  absent created entered ended : Thread

pub record RpcClient : Type 0 where
  pub main : List MainStep
  pub stopped : Bool
  pub dropped : Bool
  pub thread : Thread
  pub loop : EventLoop.Run Functor

pub data Event : Type 0 where
  main_runs : Event
  thread_enters : Event
  loop_tests : Event
  loop_polls : List EpollEvent → Event
  loop_swaps : Event
  loop_executes : Event

-- With the calls of `RunInLoop` written out; the caller is not the loop's thread.
abbrev pub start_steps : List MainStep
start_steps = spawns ∷ queues connects ∷ wakes_loop ∷ []

abbrev pub stop_steps : List MainStep
stop_steps =
    marks_stopped
    ∷ drops_pending
    ∷ queues disconnects
    ∷ wakes_loop
    ∷ sets_quit
    ∷ wakes_loop
    ∷ joins
    ∷ queues stops
    ∷ wakes_loop
    ∷ []

abbrev pub start : Bool → List MainStep
start stopped = if stopped then [] else start_steps

abbrev pub stop : Bool → List MainStep
stop stopped = if stopped then [] else stop_steps

-- A new client whose caller will take these steps.
pub create : List MainStep → RpcClient
create steps = record {
  main = steps;
  stopped = false;
  dropped = false;
  thread = absent;
  loop = EventLoop.fresh (λ n. n) (λ n. n) 0;
}

-- A thread whose loop has returned has ended.
after_test : Place Functor → Thread
after_test outside = ended
after_test _ = entered

module _ (fd_write fd_read : ℕ → ℕ) where
  loop_step : EventLoop.Event Functor → RpcClient → RpcClient
  loop_step e c = record c { loop = EventLoop.step fd_write fd_read e c.loop }

  -- `joinable` and `join`: nothing to wait for where there is no thread.
  can_join : Thread → Bool
  can_join absent = true
  can_join created = false
  can_join entered = false
  can_join ended = true

  main_step : List MainStep → RpcClient → RpcClient
  unfolding loop_step can_join
  main_step [] c = c
  main_step (marks_stopped ∷ rest) c = record c { main = rest; stopped = true }
  main_step (spawns ∷ rest) c = record c { main = rest; thread = created }
  main_step (drops_pending ∷ rest) c = record c { main = rest; dropped = true }
  main_step (queues cb ∷ rest) c = loop_step (EventLoop.pushes cb) (record c { main = rest })
  main_step (wakes_loop ∷ rest) c = loop_step EventLoop.wakes (record c { main = rest })
  main_step (sets_quit ∷ rest) c = loop_step EventLoop.quits (record c { main = rest })
  main_step (joins ∷ rest) c = if can_join c.thread then record c { main = rest } else c

  enter : Thread → RpcClient → RpcClient
  unfolding loop_step
  enter created c = loop_step EventLoop.starts (record c { thread = entered })
  enter _ c = c

  -- What the loop's thread does while it is in `Loop`.
  in_loop : EventLoop.Event Functor → Thread → RpcClient → RpcClient
  unfolding loop_step
  in_loop e entered c = loop_step e c
  in_loop e _ c = c

  -- The test of `quit_`, and the end of the thread where it leaves the loop.
  test : Thread → RpcClient → RpcClient
  unfolding loop_step after_test
  test entered c =
      let c' : RpcClient = loop_step EventLoop.tests c in
      record c' { thread = after_test c'.loop.place }
  test _ c = c

  pub step : Event → RpcClient → RpcClient
  unfolding main_step enter in_loop test
  step main_runs c = main_step c.main c
  step thread_enters c = enter c.thread c
  step loop_tests c = test c.thread c
  step (loop_polls es) c = in_loop (EventLoop.polls es) c.thread c
  step loop_swaps c = in_loop EventLoop.swaps c.thread c
  step loop_executes c = in_loop EventLoop.executes c.thread c

  pub run : List Event → RpcClient → RpcClient
  run [] c = c
  run (e ∷ es) c = run es (step e c)
