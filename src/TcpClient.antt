-- ===== src/TcpClient.antt =====
-- code/network/tcp/tcp_client.h and tcp_client.cc: a client's socket, on the loop's thread, with `Stop`
-- from any thread. The
-- results of `socket`, `connect` and `getsockopt` are arguments. `closed_fds` records the calls of
-- `close` on a descriptor, and `errors` and `told` the runs of the error and the connection callback.
-- The client holds the only pointer to its connection, so resetting it runs the destructor, which
-- closes the connection's descriptor.
pub mod Contract
pub mod Phases
pub mod Runs
mod Tests
use light_rpc.Prelude.{
  ℕ, suc, Bool, true, false, ◌||◌, List, [], ◌∷◌, ◌++◌, Option, none, some, if◌then◌else◌, ◌==◌,
}
use light_rpc.Buffer.{Written}
use light_rpc.Channel
use light_rpc.Channel.{Channel}
use light_rpc.Connection
use light_rpc.Connection.{State, TcpConnection, connected, disconnected, handle_close}

pub data ConnectResult : Type 0 where
  at_once in_progress : ConnectResult
  refused : ℕ → ConnectResult

pub data SocketResult : Type 0 where
  no_socket : ℕ → SocketResult
  opened : ℕ → ConnectResult → SocketResult

pub record TcpClient : Type 0 where
  pub sock_fd : Option ℕ
  pub connection : Option TcpConnection
  pub channel : Option Channel
  pub connecting : Bool
  pub stopped : Bool
  pub is_connected : Bool
  pub closed_fds : List ℕ
  pub errors : List ℕ
  pub told : ℕ

pub create : TcpClient
create = record {
  sock_fd = none;
  connection = none;
  channel = none;
  connecting = false;
  stopped = false;
  is_connected = false;
  closed_fds = [];
  errors = [];
  told = 0;
}

abbrev is_some : {A : Type 0} → Option A → Bool
is_some none = false
is_some (some a) = true

-- The descriptor that the destructor of a connection closes.
abbrev released : Option TcpConnection → List ℕ
released none = []
released (some k) = k.fd ∷ []

abbrev fd_list : Option ℕ → List ℕ
fd_list none = []
fd_list (some fd) = fd ∷ []

-- A new connection, and the callback.
establish : ℕ → TcpClient → TcpClient
establish fd c = record c {
  connection = some (Connection.create fd);
  is_connected = true;
  closed_fds = c.closed_fds ++ released c.connection;
  told = suc c.told;
}

after_connect : ℕ → ConnectResult → TcpClient → TcpClient
unfolding establish
after_connect fd at_once c = establish fd (record c { connecting = false })
after_connect fd in_progress c = record c {
  channel = some (
      Channel.enable_writing
        (record (Channel.create fd) { write_callback = true; error_callback = true }));
}
after_connect fd (refused errno) c = record c {
  connecting = false;
  closed_fds = c.closed_fds ++ (fd ∷ []);
  sock_fd = none;
  errors = c.errors ++ (errno ∷ []);
}

-- What follows the test of `Connect`.
open_socket : SocketResult → TcpClient → TcpClient
unfolding after_connect
open_socket (no_socket errno) c = record c { connecting = false; errors = c.errors ++ (errno ∷ []) }
open_socket (opened fd r) c = after_connect fd r (record c { connecting = true; sock_fd = some fd })

pub connect : SocketResult → TcpClient → TcpClient
unfolding open_socket
connect r c = if is_some c.sock_fd || c.connecting then c else open_socket r c

-- The end of a connection attempt that failed.
give_up : ℕ → TcpClient → TcpClient
give_up err c = record c {
  connecting = false;
  channel = none;
  closed_fds = c.closed_fds ++ fd_list c.sock_fd;
  sock_fd = none;
  errors = c.errors ++ (err ∷ []);
}

-- `HandleWrite`, where `getsockopt` gives `err`; the channel calls it. While there is a channel there is
-- a descriptor, so the case without one, where the source would go on with -1, does not come up.
pub handle_write : ℕ → TcpClient → TcpClient
unfolding establish give_up
handle_write err c = elim c.channel [
  | none ↦ c
  | some ch ↦ elim c.sock_fd [
    | none ↦ record c { connecting = false; channel = none }
    | some fd ↦
        if err == 0
        then establish fd (record c { connecting = false; channel = none })
        else give_up err c
  ]
]

pub handle_error : ℕ → TcpClient → TcpClient
unfolding give_up
handle_error err c = elim c.channel [
  | none ↦ c
  | some ch ↦ elim c.sock_fd [
    | none ↦ record c { connecting = false; channel = none }
    | some fd ↦ give_up err c
  ]
]

-- `handleClose` of the connection, with the callbacks that the client has set.
close_connection : TcpConnection → TcpClient → TcpClient
unfolding handle_close
close_connection k c = elim k.state [
  | disconnected ↦ c
  | connected ↦ record c {
    connection = some (handle_close k);
    is_connected = false;
    told = suc c.told;
  }
]

-- The close that the connection itself has noticed.
pub peer_closes : TcpClient → TcpClient
unfolding close_connection
peer_closes c = elim c.connection [ none ↦ c | some k ↦ close_connection k c ]

drop_connection : TcpClient → TcpClient
unfolding close_connection
drop_connection c = elim c.connection [
  | none ↦ c
  | some k ↦ record (close_connection k c) {
    connection = none;
    closed_fds = c.closed_fds ++ (k.fd ∷ []);
  }
]

pub disconnect_in_loop : TcpClient → TcpClient
unfolding drop_connection
disconnect_in_loop c =
    let c1 : TcpClient = drop_connection (record c { is_connected = false; channel = none }) in
    record c1 {
      closed_fds = c1.closed_fds ++ fd_list c1.sock_fd;
      sock_fd = none;
      connecting = false;
    }

-- `Stop`, with whether it is called on the loop's thread. If it is not, `StopInLoop` is queued, which
-- is `Disconnect`: where the loop comes to it, that is an event of its own (`disconnects`).
pub stop : Bool → TcpClient → TcpClient
unfolding disconnect_in_loop
stop in_loop c =
    if c.stopped
    then c
    else if in_loop
    then disconnect_in_loop (record c { stopped = true })
    else record c { stopped = true }

pub send : List ℕ → Written → TcpClient → TcpClient
send src w c = elim c.connection [
  | none ↦ c
  | some k ↦ record c { connection = some (Connection.send src w k) }
]

pub data Event : Type 0 where
  connects : SocketResult → Event
  writable : ℕ → Event
  fails : ℕ → Event
  peer_gone : Event
  disconnects : Event
  stops : Bool → Event
  sends : List ℕ → Written → Event

pub step : Event → TcpClient → TcpClient
unfolding connect handle_write handle_error peer_closes disconnect_in_loop stop send
step (connects r) c = connect r c
step (writable err) c = handle_write err c
step (fails err) c = handle_error err c
step peer_gone c = peer_closes c
step disconnects c = disconnect_in_loop c
step (stops in_loop) c = stop in_loop c
step (sends src w) c = send src w c

pub run : List Event → TcpClient → TcpClient
run [] c = c
run (e ∷ es) c = run es (step e c)
