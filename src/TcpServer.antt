-- ===== src/TcpServer.antt =====
-- code/network/tcp/tcp_server.h and tcp_server.cc: the connections that a server has accepted.
-- `Start`, `StopAccepting` and `Stop` may be called on the loop's thread, where their functor runs at
-- once, or on another, where it is queued (`Hosted`). What `accept4` returns is an argument. `opened`
-- records the descriptors accepted and `closed` those whose connection has closed; a connection's
-- close callback runs `RemoveConnection` at once, since the close is on the loop's thread. The socket
-- calls of the constructor are left out, and so is the closing of a descriptor, which a connection's
-- destructor does.
pub mod Connections
pub mod Steps
pub mod Accounts
pub mod Closing
mod Tests
use light_rpc.Prelude.{ℕ, Bool, true, false, List, [], ◌∷◌, ◌++◌, Option, none, some, if◌then◌else◌}
use light_rpc.Prelude.Eq.{nat_eq}
use light_rpc.Prelude.Assoc.{lookup, insert, erase}
use light_rpc.Channel
use light_rpc.Channel.{Channel}
use light_rpc.Connection
use light_rpc.Connection.{State, TcpConnection, connected, disconnected, handle_close}

pub record TcpServer : Type 0 where
  pub listen_fd : ℕ
  pub shut_down : Bool
  pub accept_channel : Option Channel
  pub connections : List (ℕ × TcpConnection)
  pub stopped : Bool
  pub opened : List ℕ
  pub closed : List ℕ

pub create : ℕ → TcpServer
create listen_fd = record {
  listen_fd = listen_fd;
  shut_down = false;
  accept_channel = none;
  connections = [];
  stopped = false;
  opened = [];
  closed = [];
}

-- The functor of `Start`.
pub start_in_loop : TcpServer → TcpServer
start_in_loop s = record s {
  accept_channel =
      some (Channel.enable_reading (record (Channel.create s.listen_fd) { read_callback = true }));
}

pub handle_accept : Option ℕ → TcpServer → TcpServer
handle_accept conn_fd s = if s.stopped then s else (elim conn_fd [
  | none ↦ s
  | some fd ↦ record s {
    connections = insert fd (Connection.create fd) s.connections;
    opened = s.opened ++ (fd ∷ []);
  }
])

pub remove_connection : ℕ → TcpServer → TcpServer
remove_connection fd s = if s.stopped then s else record s { connections = erase fd s.connections }

-- `handleClose` of a connection that the server holds: the connection and the callbacks.
close_live : ℕ → TcpConnection → TcpServer → TcpServer
unfolding remove_connection handle_close
close_live fd c s = elim c.state [
  | disconnected ↦ s
  | connected ↦
      remove_connection fd (record s {
        connections = insert fd (handle_close c) s.connections;
        closed = fd ∷ s.closed;
      })
]

pub close_connection : ℕ → TcpServer → TcpServer
unfolding close_live
close_connection fd s = elim (lookup fd s.connections) [ none ↦ s | some c ↦ close_live fd c s ]

pub stop_accepting_in_loop : TcpServer → TcpServer
stop_accepting_in_loop s = record s { accept_channel = none }

-- The loop over the copied pointers: the copy names each connection by its descriptor.
close_all : List (ℕ × TcpConnection) → TcpServer → TcpServer
unfolding close_connection
close_all [] s = s
close_all ((fd, c) ∷ conns) s = close_all conns (close_connection fd s)

pub stop_in_loop : TcpServer → TcpServer
unfolding close_all stop_accepting_in_loop
stop_in_loop s =
    let s1 : TcpServer = record (stop_accepting_in_loop s) { shut_down = true } in
    record (close_all s1.connections s1) { connections = [] }

-- The functors of `Start`, `StopAccepting` and `Stop`.
pub data Functor : Type 0 where
  listens stops_listening closes_all : Functor

pub run_functor : Functor → TcpServer → TcpServer
unfolding start_in_loop stop_accepting_in_loop stop_in_loop
run_functor listens s = start_in_loop s
run_functor stops_listening s = stop_accepting_in_loop s
run_functor closes_all s = stop_in_loop s

-- A server, and those of its functors that the loop has still to run.
pub record Hosted : Type 0 where
  pub server : TcpServer
  pub functors : List Functor

pub host : ℕ → Hosted
unfolding create
host listen_fd = record { server = create listen_fd; functors = [] }

-- `RunInLoop`, with whether it is called on the loop's thread.
pub run_in_loop : Bool → Functor → Hosted → Hosted
unfolding run_functor
run_in_loop in_loop cb h =
    if in_loop
    then record h { server = run_functor cb h.server }
    else record h { functors = h.functors ++ (cb ∷ []) }

pub start : Bool → Hosted → Hosted
unfolding run_in_loop
start in_loop h = run_in_loop in_loop listens h

pub stop_accepting : Bool → Hosted → Hosted
unfolding run_in_loop
stop_accepting in_loop h =
    run_in_loop in_loop stops_listening (record h { server = record h.server { shut_down = true } })

-- `Stop`: the first call only.
pub stop : Bool → Hosted → Hosted
unfolding run_in_loop
stop in_loop h =
    if h.server.stopped
    then h
    else run_in_loop in_loop closes_all (record h { server = record h.server { stopped = true } })

-- The loop comes to the next of the functors.
pub run_next : List Functor → Hosted → Hosted
unfolding run_functor
run_next [] h = h
run_next (cb ∷ cbs) h = record { server = run_functor cb h.server; functors = cbs }

pub data Event : Type 0 where
  starts : Bool → Event
  accepts : Option ℕ → Event
  closes : ℕ → Event
  stops_accepting : Bool → Event
  stops : Bool → Event
  runs_functor : Event

pub step : Event → Hosted → Hosted
unfolding start handle_accept close_connection stop_accepting stop run_next
step (starts in_loop) h = start in_loop h
step (accepts conn_fd) h = record h { server = handle_accept conn_fd h.server }
step (closes fd) h = record h { server = close_connection fd h.server }
step (stops_accepting in_loop) h = stop_accepting in_loop h
step (stops in_loop) h = stop in_loop h
step runs_functor h = run_next h.functors h

pub run : List Event → Hosted → Hosted
run [] h = h
run (e ∷ es) h = run es (step e h)
