-- ===== src/TcpClient/Phases.antt =====
-- TcpClient: connecting, step by step, against the contract.
use light_rpc.Prelude.{
  ℕ, ◌≡◌, inl, inr, refl, ◌∙◌, Bool, true, false, Bool-cases, none, some, if◌then◌else◌, ◌==◌,
  arith,
}
use light_rpc.Connection
use light_rpc.Connection.{State, TcpConnection, connected, disconnected, handle_close}
use light_rpc.TcpClient.{
  TcpClient, at_once, in_progress, refused, SocketResult, no_socket, opened, establish,
  after_connect, open_socket, connect, give_up, handle_write, handle_error, connects, writable,
  fails,
}
use light_rpc.TcpClient.Contract.{
  Phase, idle, trying, live, broken, connect_phase, phase_step, IsIdle, IsTrying, HasConnection,
  InPhase, Implements,
}

establish-live :
    (fd : ℕ) (c : TcpClient)
    → c.sock_fd ≡ some fd
    → c.channel ≡ none
    → c.connecting ≡ false
    → HasConnection fd connected true (establish fd c)
unfolding establish Connection.create
establish-live fd c has_fd no_channel done = record {
  has_fd = has_fd;
  held = (Connection.create fd, refl, refl, refl);
  no_channel = no_channel;
  flags = (done, refl);
}

connect_idle : (r : SocketResult) (c : TcpClient) → IsIdle c → connect r c ≡ open_socket r c
unfolding connect
connect_idle r c h = ground arith

pub connect_busy :
    (r : SocketResult) (fd : ℕ) (c : TcpClient) → c.sock_fd ≡ some fd → connect r c ≡ c
unfolding connect
connect_busy r fd c h = ground arith

open_socket-InPhase :
    (r : SocketResult) (c : TcpClient) → IsIdle c → InPhase (connect_phase r) (open_socket r c)
unfolding open_socket after_connect
open_socket-InPhase (no_socket errno) c h = ground arith
open_socket-InPhase (opened fd at_once) c h =
    establish-live fd (record c { connecting = false; sock_fd = some fd }) refl h.no_channel refl
open_socket-InPhase (opened fd in_progress) c h = record {
  has_fd = refl;
  no_connection = h.no_connection;
  watched = (_, refl, refl);
  flags = (refl, h.flags.1);
}
open_socket-InPhase (opened fd (refused errno)) c h = ground arith

open_socket_stopped : (r : SocketResult) (c : TcpClient) → (open_socket r c).stopped ≡ c.stopped
unfolding open_socket after_connect establish
open_socket_stopped (no_socket errno) c = refl
open_socket_stopped (opened fd at_once) c = refl
open_socket_stopped (opened fd in_progress) c = refl
open_socket_stopped (opened fd (refused errno)) c = refl

pub connect-Implements :
    (r : SocketResult) (p : Phase) (b : Bool) (c : TcpClient)
    → Implements (p, b) c
    → Implements (phase_step (connects r) (p, b)) (connect r c)
connect-Implements r idle b c (h, s) =
    rw (connect_idle r c h) (open_socket-InPhase r c h, open_socket_stopped r c ∙ s)
connect-Implements r (trying fd) b c (h, s) = rw (connect_busy r fd c h.has_fd) (h, s)
connect-Implements r (live fd) b c (h, s) = rw (connect_busy r fd c h.has_fd) (h, s)
connect-Implements r (broken fd) b c (h, s) = rw (connect_busy r fd c h.has_fd) (h, s)

-- The channel's callbacks run only while there is a channel.
no_callback :
    (err : ℕ) (c : TcpClient)
    → c.channel ≡ none
    → (handle_write err c ≡ c) × (handle_error err c ≡ c)
unfolding handle_write handle_error
no_callback err c h = ground arith

connected_or_not :
    (err fd : ℕ) (c : TcpClient)
    → IsTrying fd c
    → (handle_write err c ≡ (
        if err == 0
        then establish fd (record c { connecting = false; channel = none })
        else give_up err c))
      × (handle_error err c ≡ give_up err c)
unfolding handle_write handle_error
connected_or_not err fd c h = ground (arith, h.watched.1)

give_up-IsIdle :
    (err fd : ℕ) (c : TcpClient)
    → IsTrying fd c
    → IsIdle (give_up err c) × ((give_up err c).stopped ≡ c.stopped)
unfolding give_up
give_up-IsIdle err fd c h = ground arith

establish_stopped : (fd : ℕ) (c : TcpClient) → (establish fd c).stopped ≡ c.stopped
unfolding establish
establish_stopped fd c = refl

pub writable-Implements :
    (err : ℕ) (p : Phase) (b : Bool) (c : TcpClient)
    → Implements (p, b) c
    → Implements (phase_step (writable err) (p, b)) (handle_write err c)
writable-Implements err idle b c (h, s) = rw (no_callback err c h.no_channel).0 (h, s)
writable-Implements err (live fd) b c (h, s) = rw (no_callback err c h.no_channel).0 (h, s)
writable-Implements err (broken fd) b c (h, s) = rw (no_callback err c h.no_channel).0 (h, s)
writable-Implements err (trying fd) b c (h, s) =
    rw (connected_or_not err fd c h).0 (elim (Bool-cases (err == 0)) [
      | inl e ↦ rw e (
        establish-live fd (record c { connecting = false; channel = none }) h.has_fd refl refl,
        establish_stopped fd _ ∙ s,
      )
      | inr e ↦ let (i, same) = give_up-IsIdle err fd c h in rw e (i, same ∙ s)
    ])

pub fails-Implements :
    (err : ℕ) (p : Phase) (b : Bool) (c : TcpClient)
    → Implements (p, b) c
    → Implements (phase_step (fails err) (p, b)) (handle_error err c)
fails-Implements err idle b c (h, s) = rw (no_callback err c h.no_channel).1 (h, s)
fails-Implements err (live fd) b c (h, s) = rw (no_callback err c h.no_channel).1 (h, s)
fails-Implements err (broken fd) b c (h, s) = rw (no_callback err c h.no_channel).1 (h, s)
fails-Implements err (trying fd) b c (h, s) =
    let (i, same) = give_up-IsIdle err fd c h in rw (connected_or_not err fd c h).1 (i, same ∙ s)
