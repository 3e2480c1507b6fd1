-- ===== src/TcpClient/Contract.antt =====
-- TcpClient: its contract, a machine of four phases.
use light_rpc.Prelude.{ℕ, ◌≡◌, Bool, true, false, List, [], ◌∷◌, none, some, if◌then◌else◌, ◌==◌}
use light_rpc.Channel.{Channel}
use light_rpc.Connection.{State, TcpConnection, connected, disconnected}
use light_rpc.TcpClient.{
  TcpClient, at_once, in_progress, refused, SocketResult, no_socket, opened, Event, connects,
  writable, fails, peer_gone, disconnects, stops, sends,
}

-- No socket; one that is being connected; a live connection; one that the peer has closed.
pub data Phase : Type 0 where
  idle : Phase
  trying : ℕ → Phase
  live : ℕ → Phase
  broken : ℕ → Phase

abbrev pub connect_phase : SocketResult → Phase
connect_phase (no_socket errno) = idle
connect_phase (opened fd at_once) = live fd
connect_phase (opened fd in_progress) = trying fd
connect_phase (opened fd (refused errno)) = idle

-- What each call and event does to the phase, and whether the client has been stopped.
abbrev pub phase_step : Event → Phase × Bool → Phase × Bool
phase_step (connects r) (idle, stopped) = (connect_phase r, stopped)
phase_step (connects r) (trying fd, stopped) = (trying fd, stopped)
phase_step (connects r) (live fd, stopped) = (live fd, stopped)
phase_step (connects r) (broken fd, stopped) = (broken fd, stopped)
phase_step (writable err) (idle, stopped) = (idle, stopped)
phase_step (writable err) (trying fd, stopped) = (if err == 0 then live fd else idle, stopped)
phase_step (writable err) (live fd, stopped) = (live fd, stopped)
phase_step (writable err) (broken fd, stopped) = (broken fd, stopped)
phase_step (fails err) (idle, stopped) = (idle, stopped)
phase_step (fails err) (trying fd, stopped) = (idle, stopped)
phase_step (fails err) (live fd, stopped) = (live fd, stopped)
phase_step (fails err) (broken fd, stopped) = (broken fd, stopped)
phase_step peer_gone (idle, stopped) = (idle, stopped)
phase_step peer_gone (trying fd, stopped) = (trying fd, stopped)
phase_step peer_gone (live fd, stopped) = (broken fd, stopped)
phase_step peer_gone (broken fd, stopped) = (broken fd, stopped)
phase_step disconnects (p, stopped) = (idle, stopped)
phase_step (stops in_loop) (p, true) = (p, true)
phase_step (stops true) (p, false) = (idle, true)
phase_step (stops false) (p, false) = (p, true)
phase_step (sends src w) (p, stopped) = (p, stopped)

abbrev pub phases : List Event → Phase × Bool → Phase × Bool
phases [] p = p
phases (e ∷ es) p = phases es (phase_step e p)

-- A client with no connection and no attempt.
pub record IsIdle (c : TcpClient) : Type 0 where
  pub no_fd : c.sock_fd ≡ none
  pub no_connection : c.connection ≡ none
  pub no_channel : c.channel ≡ none
  pub flags : (c.connecting ≡ false) × (c.is_connected ≡ false)

pub record IsTrying (fd : ℕ) (c : TcpClient) : Type 0 where
  pub has_fd : c.sock_fd ≡ some fd
  pub no_connection : c.connection ≡ none
  pub watched : (ch : Channel) × (c.channel ≡ some ch) × (ch.events.output ≡ true)
  pub flags : (c.connecting ≡ true) × (c.is_connected ≡ false)

-- A connection on the client's descriptor, in the state that `IsConnected` tells.
pub record HasConnection (fd : ℕ) (state : State) (flag : Bool) (c : TcpClient) : Type 0 where
  pub has_fd : c.sock_fd ≡ some fd
  pub held : (k : TcpConnection) × (c.connection ≡ some k) × (k.fd ≡ fd) × (k.state ≡ state)
  pub no_channel : c.channel ≡ none
  pub flags : (c.connecting ≡ false) × (c.is_connected ≡ flag)

abbrev pub InPhase : Phase → TcpClient → Type 0
InPhase idle c = IsIdle c
InPhase (trying fd) c = IsTrying fd c
InPhase (live fd) c = HasConnection fd connected true c
InPhase (broken fd) c = HasConnection fd disconnected false c

abbrev pub Implements : Phase × Bool → TcpClient → Type 0
Implements (p, stopped) c = InPhase p c × (c.stopped ≡ stopped)
