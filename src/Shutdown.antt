-- ===== src/Shutdown.antt =====
-- code/rpc/rpc_server.cc, `RpcServer::Stop`: the thread that calls it, against the loop's thread. What
-- the caller does is a list of steps; each functor it queues runs on the loop's thread, on the
-- server's connections. Any sequence of events is a possible interleaving. The pool, as it stands when
-- the caller looks at it, comes with the event, and so does what a `write` on each connection gives.
pub mod Order
pub mod Goodbye
mod Tests
use light_rpc.Prelude.{ℕ, Bool, true, false, List, [], ◌∷◌, ◌++◌, Option, none, some, if◌then◌else◌}
use light_rpc.Prelude.Eq.{Text, codes}
use light_rpc.Buffer.{Written}
use light_rpc.Codec.{ProtoMessage, encode}
use light_rpc.ErrorCode.{number, server_shutting_down}
use light_rpc.Rpc.{RpcResponse, empty_response}
use light_rpc.ThreadPool.{Pool, wait_for_tasks}
use light_rpc.Server.{Task}
use light_rpc.Epoller.{EpollEvent}
use light_rpc.Connection
use light_rpc.Connection.{TcpConnection}
use light_rpc.EventLoop
use light_rpc.EventLoop.{Place, outside, testing, polling, swapping, running}
use light_rpc.TcpServer.{TcpServer, stop_accepting_in_loop, stop_in_loop}

-- What runs on the loop's thread: `StopAcceptingInLoop`, the broadcast, `StopInLoop`.
pub data Functor : Type 0 where
  accept_stops goes_away stops_all : Functor

pub data MainStep : Type 0 where
  shuts_listener : MainStep
  queues : Functor → MainStep
  wakes_loop : MainStep
  waits : MainStep
  marks_stopped : MainStep
  sets_quit : MainStep
  joins : MainStep

-- `Stop`, once it has set `stopped_`, with the calls of `StopAccepting`, `TcpServer::Stop` and `Quit`
-- written out; the caller is not the loop's thread. The pool is freed after these.
abbrev pub stop_steps : List MainStep
stop_steps =
    shuts_listener
    ∷ queues accept_stops
    ∷ wakes_loop
    ∷ queues goes_away
    ∷ wakes_loop
    ∷ waits
    ∷ marks_stopped
    ∷ queues stops_all
    ∷ wakes_loop
    ∷ sets_quit
    ∷ wakes_loop
    ∷ joins
    ∷ []

abbrev pub stop : Bool → List MainStep
stop stopped = if stopped then [] else stop_steps

abbrev pub goodbye : RpcResponse
goodbye = record empty_response {
  code = number server_shutting_down;
  msg = codes "server shutting down";
}

pub record RpcServer : Type 0 where
  pub main : List MainStep
  pub loop : EventLoop.Run Functor
  pub tcp_server : TcpServer

pub data Event : Type 0 where
  main_runs : Pool Task → Event
  loop_tests : Event
  loop_polls : List EpollEvent → Event
  loop_swaps : Event
  loop_executes : Event

module _ (response_proto : ProtoMessage RpcResponse) (written : ℕ → Written) where
  -- `ForEachConnectionInLoop` with the broadcast's lambda.
  pub send_all : List ℕ → List (ℕ × TcpConnection) → List (ℕ × TcpConnection)
  send_all bytes [] = []
  send_all bytes ((fd, c) ∷ m) = (fd, Connection.send bytes (written fd) c) ∷ send_all bytes m

  pub broadcast : TcpServer → TcpServer
  unfolding send_all
  broadcast s = elim (encode response_proto goodbye) [
    | none ↦ s
    | some encoded ↦ record s { connections = send_all encoded s.connections }
  ]

  pub apply : Functor → TcpServer → TcpServer
  unfolding broadcast
  apply accept_stops s = stop_accepting_in_loop s
  apply goes_away s = broadcast s
  apply stops_all s = stop_in_loop s

  module _ (fd_write fd_read : ℕ → ℕ) where
    -- The functor that the loop is about to run, on the server.
    run_first : Place Functor → TcpServer → TcpServer
    unfolding apply
    run_first outside s = s
    run_first testing s = s
    run_first polling s = s
    run_first swapping s = s
    run_first (running []) s = s
    run_first (running (cb ∷ cbs)) s = apply cb s

    is_outside : Place Functor → Bool
    is_outside outside = true
    is_outside _ = false

    -- The caller's next step, and whether it can be taken now.
    main_step : Bool → List MainStep → RpcServer → RpcServer
    unfolding is_outside
    main_step idle [] r = r
    main_step idle (shuts_listener ∷ rest) r = record r {
      main = rest;
      tcp_server = record r.tcp_server { shut_down = true };
    }
    main_step idle (queues cb ∷ rest) r = record r {
      main = rest;
      loop = EventLoop.step fd_write fd_read (EventLoop.pushes cb) r.loop;
    }
    main_step idle (wakes_loop ∷ rest) r = record r {
      main = rest;
      loop = EventLoop.step fd_write fd_read EventLoop.wakes r.loop;
    }
    main_step idle (waits ∷ rest) r = if idle then record r { main = rest } else r
    main_step idle (marks_stopped ∷ rest) r = record r {
      main = rest;
      tcp_server = record r.tcp_server { stopped = true };
    }
    main_step idle (sets_quit ∷ rest) r = record r {
      main = rest;
      loop = EventLoop.step fd_write fd_read EventLoop.quits r.loop;
    }
    main_step idle (joins ∷ rest) r =
        if is_outside r.loop.place then record r { main = rest } else r

    pub step : Event → RpcServer → RpcServer
    unfolding run_first main_step
    step (main_runs pool) r = main_step (wait_for_tasks pool) r.main r
    step loop_tests r = record r { loop = EventLoop.step fd_write fd_read EventLoop.tests r.loop }
    step (loop_polls es) r = record r {
      loop = EventLoop.step fd_write fd_read (EventLoop.polls es) r.loop;
    }
    step loop_swaps r = record r { loop = EventLoop.step fd_write fd_read EventLoop.swaps r.loop }
    step loop_executes r = record r {
      loop = EventLoop.step fd_write fd_read EventLoop.executes r.loop;
      tcp_server = run_first r.loop.place r.tcp_server;
    }

    pub run : List Event → RpcServer → RpcServer
    run [] r = r
    run (e ∷ es) r = run es (step e r)
