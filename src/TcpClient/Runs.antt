-- ===== src/TcpClient/Runs.antt =====
-- TcpClient: every sequence of calls and events follows the contract.
use light_rpc.Prelude.{
  ℕ, suc, ◌≡◌, inl, inr, refl, ap, ◌∙◌, subst, Bool, true, false, Option-cases, List, [], ◌∷◌, ◌++◌,
  none, some, arith, append_assoc,
}
use light_rpc.Buffer.{Written}
use light_rpc.Connection
use light_rpc.Connection.{State, TcpConnection, connected, disconnected, handle_close}
use light_rpc.Connection.Effects.{send_same}
use light_rpc.TcpClient.{
  TcpClient, create, SocketResult, connect, close_connection, peer_closes, drop_connection,
  disconnect_in_loop, stop, send, Event, connects, writable, fails, peer_gone, disconnects, stops,
  sends, step, run,
}
use light_rpc.TcpClient.Contract.{
  InPhase, Phase, idle, trying, live, broken, phase_step, phases, IsIdle, HasConnection, Implements,
}
use light_rpc.TcpClient.Phases.{
  connect-Implements, writable-Implements, fails-Implements, connect_busy,
}

peer_none : (c : TcpClient) → c.connection ≡ none → peer_closes c ≡ c
unfolding peer_closes
peer_none c h = ground arith

peer_held :
    (k : TcpConnection) (c : TcpClient)
    → c.connection ≡ some k
    → peer_closes c ≡ close_connection k c
unfolding peer_closes
peer_held k c h = ground arith

close_broken :
    (k : TcpConnection) (c : TcpClient) → k.state ≡ disconnected → close_connection k c ≡ c
unfolding close_connection
close_broken k c h = ground arith

close_live :
    (k : TcpConnection) (c : TcpClient)
    → k.state ≡ connected
    → close_connection k c
      ≡ record c { connection = some (handle_close k); is_connected = false; told = suc c.told }
unfolding close_connection
close_live k c h = ground arith

handle_close_live :
    (k : TcpConnection)
    → k.state ≡ connected
    → ((handle_close k).fd ≡ k.fd) × ((handle_close k).state ≡ disconnected)
unfolding handle_close
handle_close_live k h = ground arith

peer_gone-Implements :
    (p : Phase) (b : Bool) (c : TcpClient)
    → Implements (p, b) c
    → Implements (phase_step peer_gone (p, b)) (peer_closes c)
peer_gone-Implements idle b c (h, s) = rw (peer_none c h.no_connection) (h, s)
peer_gone-Implements (trying fd) b c (h, s) = rw (peer_none c h.no_connection) (h, s)
peer_gone-Implements (broken fd) b c (h, s) =
    let (k, held, _, down) = h.held in rw (peer_held k c held ∙ close_broken k c down) (h, s)
peer_gone-Implements (live fd) b c (h, s) =
    let (k, held, own, up) = h.held in
    let (same, down) = handle_close_live k up in
    rw (peer_held k c held ∙ close_live k c up) (
      record {
        has_fd = h.has_fd;
        held = (handle_close k, refl, same ∙ own, down);
        no_channel = h.no_channel;
        flags = (h.flags.0, refl);
      },
      s,
    )

close_connection_rest :
    (k : TcpConnection) (c : TcpClient)
    → ((close_connection k c).sock_fd ≡ c.sock_fd)
      × ((close_connection k c).stopped ≡ c.stopped)
      × ((close_connection k c).channel ≡ c.channel)
      × (c.is_connected ≡ false → (close_connection k c).is_connected ≡ false)
unfolding close_connection
close_connection_rest k c = ground arith

disconnect-IsIdle :
    (c : TcpClient) → IsIdle (disconnect_in_loop c) × ((disconnect_in_loop c).stopped ≡ c.stopped)
unfolding disconnect_in_loop drop_connection
disconnect-IsIdle c = elim (Option-cases c.connection) [
  | inl e ↦ ground arith
  | inr (k, e) ↦
      ground (arith, close_connection_rest k (record c { is_connected = false; channel = none }))
]

stopped-InPhase :
    (p : Phase) (c : TcpClient) → InPhase p c → InPhase p (record c { stopped = true })
stopped-InPhase idle c h = record {
  no_fd = h.no_fd;
  no_connection = h.no_connection;
  no_channel = h.no_channel;
  flags = h.flags;
}
stopped-InPhase (trying fd) c h = record {
  has_fd = h.has_fd;
  no_connection = h.no_connection;
  watched = h.watched;
  flags = h.flags;
}
stopped-InPhase (live fd) c h = record {
  has_fd = h.has_fd;
  held = h.held;
  no_channel = h.no_channel;
  flags = h.flags;
}
stopped-InPhase (broken fd) c h = record {
  has_fd = h.has_fd;
  held = h.held;
  no_channel = h.no_channel;
  flags = h.flags;
}

stop-Implements :
    (in_loop : Bool) (p : Phase) (b : Bool) (c : TcpClient)
    → Implements (p, b) c
    → Implements (phase_step (stops in_loop) (p, b)) (stop in_loop c)
unfolding stop
stop-Implements in_loop p true c (h, s) = subst (Implements (p, true)) (ground arith) (h, s)
stop-Implements true p false c (h, s) =
    let (i, same) = disconnect-IsIdle (record c { stopped = true }) in
    subst (Implements (idle, true)) (ground arith) (i, same)
stop-Implements false p false c (h, s) =
    subst (Implements (p, true)) (ground arith) (stopped-InPhase p c h, refl)

no_connection_sends :
    (src : List ℕ) (w : Written) (c : TcpClient) → c.connection ≡ none → send src w c ≡ c
unfolding send
no_connection_sends src w c h = ground arith

send_held :
    (src : List ℕ) (w : Written) (k : TcpConnection) (c : TcpClient)
    → c.connection ≡ some k
    → send src w c ≡ record c { connection = some (Connection.send src w k) }
unfolding send
send_held src w k c h = ground arith

send-HasConnection :
    (src : List ℕ) (w : Written) (fd : ℕ) (state : State) (b : Bool) (c : TcpClient)
    → HasConnection fd state b c
    → HasConnection fd state b (send src w c) × ((send src w c).stopped ≡ c.stopped)
send-HasConnection src w fd state b c h =
    let (k, held, own, up) = h.held in
    let (same_state, same_fd) = send_same src w k in
    rw (send_held src w k c held) (
      record {
        has_fd = h.has_fd;
        held = (Connection.send src w k, refl, same_fd ∙ own, same_state ∙ up);
        no_channel = h.no_channel;
        flags = h.flags;
      },
      refl,
    )

send-Implements :
    (src : List ℕ) (w : Written) (p : Phase) (b : Bool) (c : TcpClient)
    → Implements (p, b) c
    → Implements (p, b) (send src w c)
send-Implements src w idle b c (h, s) = rw (no_connection_sends src w c h.no_connection) (h, s)
send-Implements src w (trying fd) b c (h, s) =
    rw (no_connection_sends src w c h.no_connection) (h, s)
send-Implements src w (live fd) b c (h, s) =
    let (i, same) = send-HasConnection src w fd connected true c h in (i, same ∙ s)
send-Implements src w (broken fd) b c (h, s) =
    let (i, same) = send-HasConnection src w fd disconnected false c h in (i, same ∙ s)

step-Implements :
    (e : Event) (p : Phase) (b : Bool) (c : TcpClient)
    → Implements (p, b) c
    → Implements (phase_step e (p, b)) (step e c)
unfolding step
step-Implements (connects r) p b c h = connect-Implements r p b c h
step-Implements (writable err) p b c h = writable-Implements err p b c h
step-Implements (fails err) p b c h = fails-Implements err p b c h
step-Implements peer_gone p b c h = peer_gone-Implements p b c h
step-Implements disconnects p b c (h, s) = let (i, same) = disconnect-IsIdle c in (i, same ∙ s)
step-Implements (stops in_loop) p b c h = stop-Implements in_loop p b c h
step-Implements (sends src w) p b c h = send-Implements src w p b c h

run-Implements :
    (es : List Event) (p : Phase × Bool) (c : TcpClient)
    → Implements p c
    → Implements (phases es p) (run es c)
unfolding run
run-Implements [] p c h = h
run-Implements (e ∷ es) (p, b) c h =
    run-Implements es (phase_step e (p, b)) (step e c) (step-Implements e p b c h)

-- The refinement. Whatever calls are made and whatever the kernel answers, the client's descriptor,
-- connection, channel and flags are those of the phase that the contract gives: `IsConnected` is
-- true exactly in a live connection, which is on the client's descriptor, and a channel watches for
-- writing exactly during an attempt to connect.
pub run-create-Implements : (es : List Event) → Implements (phases es (idle, false)) (run es create)
unfolding create
run-create-Implements es =
    run-Implements es (idle, false) create
      (record { no_fd = refl; no_connection = refl; no_channel = refl; flags = (refl, refl) }, refl)

drop_held :
    (k : TcpConnection) (fd : ℕ) (c : TcpClient)
    → c.connection ≡ some k
    → c.sock_fd ≡ some fd
    → (disconnect_in_loop c).closed_fds ≡ (c.closed_fds ++ (k.fd ∷ [])) ++ (fd ∷ [])
unfolding disconnect_in_loop drop_connection
drop_held k fd c h h' =
    ground (arith, close_connection_rest k (record c { is_connected = false; channel = none }))

broken_lem :
    (fd : ℕ) (r : SocketResult) (c : TcpClient)
    → HasConnection fd disconnected false c
    → (connect r c ≡ c) × ((disconnect_in_loop c).closed_fds ≡ c.closed_fds ++ (fd ∷ fd ∷ []))
broken_lem fd r c h =
    let (k, held, own, _) = h.held in
    (
      connect_busy r fd c h.has_fd,
      drop_held k fd c held h.has_fd
          ∙ append_assoc c.closed_fds (k.fd ∷ []) (fd ∷ [])
          ∙ ap (λ x. c.closed_fds ++ (x ∷ fd ∷ [])) own,
    )

-- After the peer has closed, the client cannot connect again: `Connect` does nothing, since the
-- descriptor is kept. And the `Disconnect` that would free it closes that descriptor twice: the
-- connection's destructor closes it, and then `DisconnectInLoop` itself.
pub broken_needs_disconnect :
    (es : List Event) (fd : ℕ) (b : Bool) (r : SocketResult)
    → phases es (idle, false) ≡ (broken fd, b)
    → (connect r (run es create) ≡ run es create)
      × ((disconnect_in_loop (run es create)).closed_fds
          ≡ (run es create).closed_fds ++ (fd ∷ fd ∷ []))
broken_needs_disconnect es fd b r e =
    let (h, _) : Implements (broken fd, b) (run es create) =
      subst (λ p. Implements p (run es create)) e (run-create-Implements es) in
    broken_lem fd r (run es create) h
