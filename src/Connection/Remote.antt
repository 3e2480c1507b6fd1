-- ===== src/Connection/Remote.antt =====
-- TcpConnection: `send` and `close` from other threads, through the loop's queue. A worker's `send`
-- tests the state and queues a copy; the functor tests it again when the loop runs it, and writes. The
-- loop's thread itself writes when the socket is writable.
pub mod Arrival
mod Tests
use light_rpc.Prelude.{
  ℕ, ◌+◌, ◌<◌, ◌≡◌, refl, sym, ap, ◌∙◌, subst, List, [], ◌∷◌, ◌++◌, length, append_assoc,
  append-nil, arith,
}
use light_rpc.Prelude.Words.{size_mod}
use light_rpc.Buffer.{Written}
use light_rpc.Epoller.{EpollEvent}
use light_rpc.EventLoop
use light_rpc.EventLoop.{Place, outside, testing, polling, swapping, running}
use light_rpc.EventLoop.Functors
use light_rpc.EventLoop.Functors.{in_hand, next_functor, run_now, step-IsSound, step_ran}
use light_rpc.Connection
use light_rpc.Connection.{
  TcpConnection, connected, disconnected, send, handle_write, handle_close, writable, closes_down,
}
use light_rpc.Connection.Effects.{IsSound, stream}
use light_rpc.Connection.Output.{accepted, cost, run_delivers}

-- The lambdas that `send` and `close` queue.
pub data Job : Type 0 where
  sends : List ℕ → Job
  closes : Job

pub record Remote : Type 0 where
  pub connection : TcpConnection
  pub loop : EventLoop.Run Job

pub data Event : Type 0 where
  others_send : List ℕ → Event
  others_close : Event
  others_wake : Event
  loop_tests : Event
  loop_polls : List EpollEvent → Event
  loop_swaps : Event
  loop_runs : Written → Event
  loop_writes : Written → Event

pub run_job : Job → Written → TcpConnection → TcpConnection
run_job (sends src) w c = send src w c
run_job closes w c = handle_close c

module _ (fd_write fd_read : ℕ → ℕ) where
  abbrev loop_step : EventLoop.Event Job → Remote → Remote
  loop_step e r = record r { loop = EventLoop.step fd_write fd_read e r.loop }

  -- The caller's side of `send`.
  send_remotely : List ℕ → Remote → Remote
  send_remotely src r = elim r.connection.state [
    | disconnected ↦ r
    | connected ↦ loop_step (EventLoop.pushes (sends src)) r
  ]

  run_first : Place Job → Written → TcpConnection → TcpConnection
  unfolding run_job
  run_first (running (cb ∷ cbs)) w c = run_job cb w c
  run_first _ w c = c

  pub step : Event → Remote → Remote
  unfolding send_remotely run_first
  step (others_send src) r = send_remotely src r
  step others_close r = loop_step (EventLoop.pushes closes) r
  step others_wake r = loop_step EventLoop.wakes r
  step loop_tests r = loop_step EventLoop.tests r
  step (loop_polls es) r = loop_step (EventLoop.polls es) r
  step loop_swaps r = loop_step EventLoop.swaps r
  step (loop_runs w) r = record {
    connection = run_first r.loop.place w r.connection;
    loop = EventLoop.step fd_write fd_read EventLoop.executes r.loop;
  }
  step (loop_writes w) r = record r { connection = handle_write w r.connection }

  pub run : List Event → Remote → Remote
  run [] r = r
  run (e ∷ es) r = run es (step e r)
