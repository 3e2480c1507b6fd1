-- ===== src/Shutdown/Goodbye.antt =====
-- Shutdown: what the functors of `Stop` do to the connections, when they run.
use mathlib.Core.List.{Perm}
use light_rpc.Prelude.{
  ℕ, ◌≡◌, inl, refl, sym, ap, ◌∙◌, subst, true, false, List, [], ◌∷◌, ◌++◌, append-nil, none, some,
  arith,
}
use light_rpc.Prelude.Eq.{nat_eq}
use light_rpc.Prelude.Assoc.{lookup, Uniq}
use light_rpc.Buffer.{Written}
use light_rpc.Codec.{ProtoMessage, encode}
use light_rpc.Rpc.{RpcResponse}
use light_rpc.Connection
use light_rpc.Connection.{TcpConnection, connected}
use light_rpc.Connection.Effects.{send_same}
use light_rpc.TcpServer.{TcpServer, stop_in_loop, stop_accepting_in_loop}
use light_rpc.TcpServer.Connections.{keys, live_keys, AllConnected}
use light_rpc.TcpServer.Steps.{
  IsSound, IsStopping-IsSound, stop_in_loop-IsStopping, stop_accepting-IsSound,
}
use light_rpc.Shutdown.{accept_stops, goes_away, stops_all, goodbye, send_all, broadcast, apply}

module _ (response_proto : ProtoMessage RpcResponse) (written : ℕ → Written) where
  keys-send_all :
      (bytes : List ℕ) (m : List (ℕ × TcpConnection))
      → keys (send_all response_proto written bytes m) ≡ keys m
  unfolding send_all
  keys-send_all bytes [] = refl
  keys-send_all bytes ((fd, c) ∷ m) = ap (◌∷◌ fd) (keys-send_all bytes m)

  send_all-AllConnected :
      (bytes : List ℕ) (m : List (ℕ × TcpConnection))
      → AllConnected m
      → AllConnected (send_all response_proto written bytes m)
  unfolding send_all
  send_all-AllConnected bytes [] h = tt
  send_all-AllConnected bytes ((fd, c) ∷ m) (up, h) =
      ((send_same bytes (written fd) c).0 ∙ up, send_all-AllConnected bytes m h)

  lookup_absent :
      (bytes : List ℕ) (fd : ℕ) (m : List (ℕ × TcpConnection))
      → lookup fd m ≡ none
      → lookup fd (send_all response_proto written bytes m) ≡ none
  unfolding send_all lookup
  lookup_absent bytes fd [] h = refl
  lookup_absent bytes fd ((k, c) ∷ m) h = ground (arith, lookup_absent bytes fd m)

  lookup-send_all :
      (bytes : List ℕ) (fd : ℕ) (c : TcpConnection) (m : List (ℕ × TcpConnection))
      → lookup fd m ≡ some c
      → lookup fd (send_all response_proto written bytes m)
        ≡ some (Connection.send bytes (written fd) c)
  unfolding send_all lookup
  lookup-send_all bytes fd c [] h = absurd (ground arith)
  lookup-send_all bytes fd c ((k, d) ∷ m) h = ground (arith, lookup-send_all bytes fd c m)

  send_all-Uniq :
      (bytes : List ℕ) (m : List (ℕ × TcpConnection))
      → Uniq m
      → Uniq (send_all response_proto written bytes m)
  unfolding send_all
  send_all-Uniq bytes [] u = tt
  send_all-Uniq bytes ((fd, c) ∷ m) (new, u) =
      (lookup_absent bytes fd m new, send_all-Uniq bytes m u)

  broadcast_frame :
      (frame : List ℕ) (s : TcpServer)
      → encode response_proto goodbye ≡ some frame
      → broadcast response_proto written s
        ≡ record s { connections = send_all response_proto written frame s.connections }
  unfolding broadcast
  broadcast_frame frame s e = ground (arith, e)

  broadcast-IsSound :
      (frame : List ℕ) (s : TcpServer)
      → encode response_proto goodbye ≡ some frame
      → IsSound s
      → s.stopped ≡ false
      → IsSound (broadcast response_proto written s)
  broadcast-IsSound frame s e v h = rw (broadcast_frame frame s e) (record {
    uniq = send_all-Uniq frame s.connections v.uniq;
    live = send_all-AllConnected frame s.connections v.live;
    once =
        subst (λ ks. Perm s.opened (s.closed ++ ks)) (sym (keys-send_all frame s.connections))
          v.once;
    quiet = inl h;
  })

  -- When the three functors of `Stop` run, every connection that the server holds is first sent the
  -- frame that announces the shutdown, and then closed: in the end none is left, and every connection
  -- ever accepted has been closed exactly once. (The frame can be encoded, the server has not been stopped before, and
  -- `TcpServer::Stop` sets `stopped_` before the third.)
  pub says_goodbye :
      (frame : List ℕ) (fd : ℕ) (c : TcpConnection) (s : TcpServer)
      → encode response_proto goodbye ≡ some frame
      → IsSound s
      → s.stopped ≡ false
      → lookup fd s.connections ≡ some c
      → let told =
          apply response_proto written goes_away (apply response_proto written accept_stops s) in
        let ended = apply response_proto written stops_all (record told { stopped = true }) in
        (lookup fd told.connections ≡ some (Connection.send frame (written fd) c))
        × (ended.connections ≡ [])
        × Perm ended.opened ended.closed
  unfolding apply
  says_goodbye frame fd c s e v h held =
      let (v1, same_stopped, _, same) = stop_accepting-IsSound s v in
      let s1 : TcpServer = stop_accepting_in_loop s in
      let running : s1.stopped ≡ false = same_stopped ∙ h in
      let s2 : TcpServer = broadcast response_proto written s1 in
      let b = broadcast_frame frame s1 e in
      let v2 = broadcast-IsSound frame s1 e v1 running in
      let running2 : s2.stopped ≡ false = ap (λ (x : TcpServer). x.stopped) b ∙ running in
      let ended : TcpServer = stop_in_loop (record s2 { stopped = true }) in
      let (v3, none_left) =
        stop_in_loop-IsStopping (record s2 { stopped = true }) (IsStopping-IsSound s2 v2) in
      (
        ap (λ (x : TcpServer). lookup fd x.connections) b
            ∙ lookup-send_all frame fd c s1.connections (ap (lookup fd) same ∙ held),
        none_left,
        subst (Perm ended.opened) (append-nil ended.closed)
            (subst (λ m. Perm ended.opened (ended.closed ++ live_keys m)) none_left v3.once),
      )
