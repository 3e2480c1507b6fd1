-- ===== src/TcpServer/Steps.antt =====
-- TcpServer: each operation keeps account of the connections.
use mathlib.Core.List.{Perm, perm_middle}
use mathlib.Core.List.Perm
use light_rpc.Prelude.{
  ℕ, ◌≡◌, ◌⊎◌, inl, inr, refl, sym, subst, true, false, List, [], ◌∷◌, ◌++◌, Option, none, some,
  arith, append-nil, append_assoc, Option-cases, Bool-cases,
}
use light_rpc.Prelude.Eq.{nat_eq}
use light_rpc.Prelude.Assoc.{lookup, insert, erase, Uniq, Uniq-insert, Uniq-erase, lookup-insert}
use light_rpc.Connection
use light_rpc.Connection.{State, TcpConnection, connected, disconnected, handle_close}
use light_rpc.TcpServer.{
  TcpServer, handle_accept, remove_connection, close_live, close_connection, stop_accepting_in_loop,
  close_all, stop_in_loop,
}
use light_rpc.TcpServer.Connections.{
  keys, live_cons, live_keys, live_keys-AllConnected, live_keys-insert, AllConnected,
  keys-insert_new, AllConnected-insert, AllConnected-erase, AllConnected-lookup, erase-insert,
  keys-erase,
}

-- What holds while the server runs: every descriptor accepted is that of a connection held, which
-- lives, or has been closed: one of these, once.
pub record IsSound (s : TcpServer) : Type 0 where
  pub uniq : Uniq s.connections
  pub live : AllConnected s.connections
  pub once : Perm s.opened (s.closed ++ keys s.connections)
  pub quiet : (s.stopped ≡ false) ⊎ (s.connections ≡ [])

accepts_new :
    (fd : ℕ) (s : TcpServer)
    → s.stopped ≡ false
    → handle_accept (some fd) s ≡ record s {
      connections = insert fd (Connection.create fd) s.connections;
      opened = s.opened ++ (fd ∷ []);
    }
unfolding handle_accept
accepts_new fd s h = ground arith

pub accepts_none :
    (conn_fd : Option ℕ) (s : TcpServer) → s.stopped ≡ true → handle_accept conn_fd s ≡ s
unfolding handle_accept
accepts_none conn_fd s h = ground arith

accept_new :
    (fd : ℕ) (s : TcpServer)
    → IsSound s
    → s.stopped ≡ false
    → lookup fd s.connections ≡ none
    → IsSound (handle_accept (some fd) s)
unfolding Connection.create
accept_new fd s v h new = rw (accepts_new fd s h) (record {
  uniq = Uniq-insert fd (Connection.create fd) s.connections v.uniq;
  live = AllConnected-insert fd (Connection.create fd) s.connections refl v.live;
  once =
      subst (λ l. Perm (s.opened ++ (fd ∷ [])) (s.closed ++ l))
        (sym (keys-insert_new fd (Connection.create fd) s.connections new))
        (subst (Perm (s.opened ++ (fd ∷ []))) (append_assoc s.closed (keys s.connections) (fd ∷ []))
          (Perm.append_right (fd ∷ []) v.once));
  quiet = inl h;
})

pub accept-IsSound :
    (conn_fd : Option ℕ) (s : TcpServer)
    → IsSound s
    → ((fd : ℕ) → conn_fd ≡ some fd → lookup fd s.connections ≡ none)
    → IsSound (handle_accept conn_fd s)
unfolding handle_accept
accept-IsSound none s v new = ground arith
accept-IsSound (some fd) s v new = elim (Bool-cases s.stopped) [
  | inl h ↦ rw (accepts_none (some fd) s h) v
  | inr h ↦ accept_new fd s v h (new fd refl)
]

close_held :
    (fd : ℕ) (c : TcpConnection) (s : TcpServer)
    → s.stopped ≡ false
    → c.state ≡ connected
    → lookup fd s.connections ≡ some c
    → close_connection fd s
      ≡ record s { connections = erase fd s.connections; closed = fd ∷ s.closed }
unfolding close_connection close_live remove_connection handle_close
close_held fd c s h l e = ground (arith, erase-insert fd (handle_close c) s.connections)

pub close-IsSound :
    (fd : ℕ) (s : TcpServer) → IsSound s → s.stopped ≡ false → IsSound (close_connection fd s)
unfolding close_connection
close-IsSound fd s v h = elim (Option-cases (lookup fd s.connections)) [
  | inl e ↦ rw (e, close_connection) v
  | inr (c, e) ↦
      rw (close_held fd c s h (AllConnected-lookup fd c s.connections v.live e) e) (record {
        uniq = Uniq-erase fd s.connections v.uniq;
        live = AllConnected-erase fd s.connections v.live;
        once = Perm.trans v.once (
            Perm.trans (Perm.append_left s.closed (keys-erase fd c s.connections v.uniq e))
              (perm_middle s.closed (keys (erase fd s.connections))));
        quiet = inl h;
      })
]

-- The connections of the list are held.
abbrev AllHeld : List (ℕ × TcpConnection) → List (ℕ × TcpConnection) → Type 0
AllHeld [] held = Unit {0}
AllHeld ((fd, c) ∷ m) held = (lookup fd held ≡ some c) × AllHeld m held

AllHeld-insert :
    (fd : ℕ) (c : TcpConnection) (m held : List (ℕ × TcpConnection))
    → lookup fd m ≡ none
    → AllHeld m held
    → AllHeld m (insert fd c held)
unfolding lookup
AllHeld-insert fd c [] held n h = tt
AllHeld-insert fd c ((k, d) ∷ m) held n (first, h) =
    (ground (arith, lookup-insert fd k c held), AllHeld-insert fd c m held (ground arith) h)

AllHeld-cons :
    (k : ℕ) (d : TcpConnection) (m held : List (ℕ × TcpConnection))
    → lookup k m ≡ none
    → AllHeld m held
    → AllHeld m ((k, d) ∷ held)
unfolding lookup
AllHeld-cons k d [] held n h = tt
AllHeld-cons k d ((j, e) ∷ m) held n (first, h) =
    (ground arith, AllHeld-cons k d m held (ground arith) h)

AllHeld-self : (m : List (ℕ × TcpConnection)) → Uniq m → AllHeld m m
unfolding lookup
AllHeld-self [] u = tt
AllHeld-self ((k, d) ∷ m) (new, u) = (ground arith, AllHeld-cons k d m m new (AllHeld-self m u))

-- Once `stopped_` is set, a close leaves the connection in the map.
close_stopped :
    (fd : ℕ) (c : TcpConnection) (s : TcpServer)
    → s.stopped ≡ true
    → c.state ≡ connected
    → lookup fd s.connections ≡ some c
    → close_connection fd s
      ≡ record s { connections = insert fd (handle_close c) s.connections; closed = fd ∷ s.closed }
unfolding close_connection close_live remove_connection
close_stopped fd c s h l e = ground arith

close_dead :
    (fd : ℕ) (c : TcpConnection) (s : TcpServer)
    → c.state ≡ disconnected
    → lookup fd s.connections ≡ some c
    → close_connection fd s ≡ s
unfolding close_connection close_live
close_dead fd c s l e = ground arith

handle_close_lem : (c : TcpConnection) → c.state ≡ connected → (handle_close c).state ≡ disconnected
unfolding handle_close
handle_close_lem c h = ground arith

-- A connection lives or not.
state_cases : (state : State) → (state ≡ disconnected) ⊎ (state ≡ connected)
state_cases disconnected = inl refl
state_cases connected = inr refl

-- What holds of a server whose `stopped_` is set: a connection that has closed may still be in the
-- map.
pub record IsStopping (s : TcpServer) : Type 0 where
  pub stopped : s.stopped ≡ true
  pub uniq : Uniq s.connections
  pub once : Perm s.opened (s.closed ++ live_keys s.connections)

pub close-IsStopping : (fd : ℕ) (s : TcpServer) → IsStopping s → IsStopping (close_connection fd s)
unfolding close_connection
close-IsStopping fd s v = elim (Option-cases (lookup fd s.connections)) [
  | inl e ↦ rw (e, close_connection) v
  | inr (c, e) ↦ elim (state_cases c.state) [
    | inl dead ↦ subst IsStopping (sym (close_dead fd c s dead e)) v
    | inr live ↦ subst IsStopping (sym (close_stopped fd c s v.stopped live e)) (record {
      stopped = v.stopped;
      uniq = Uniq-insert fd (handle_close c) s.connections v.uniq;
      once = Perm.trans v.once (
          Perm.trans
            (Perm.append_left s.closed (
              live_keys-insert fd c (handle_close c) s.connections e live
                (handle_close_lem c live)))
            (perm_middle s.closed (live_keys (insert fd (handle_close c) s.connections))));
    })
  ]
]

-- Closing the connections of the list closes the descriptors of `fds`, besides those closed.
abbrev Closes : List (ℕ × TcpConnection) → List ℕ → List ℕ → List ℕ → TcpServer → Type 0
Closes conns opened closed fds s =
    Perm (close_all conns s).closed (closed ++ fds)
    × ((close_all conns s).opened ≡ opened)
    × ((close_all conns s).stopped ≡ true)

close_all_lem :
    (conns : List (ℕ × TcpConnection)) (s : TcpServer)
    → s.stopped ≡ true
    → Uniq conns
    → AllHeld conns s.connections
    → Closes conns s.opened s.closed (live_keys conns) s
unfolding close_all
close_all_lem [] s h u held =
    (subst (Perm s.closed) (sym (append-nil s.closed)) (Perm.refl _), refl, h)
close_all_lem ((fd, c) ∷ conns) s h (new, u) (found, held) = elim (state_cases c.state) [
  | inl dead ↦
      subst (Closes conns s.opened s.closed (live_cons c.state fd (live_keys conns)))
        (sym (close_dead fd c s dead found))
        (subst (λ st. Closes conns s.opened s.closed (live_cons st fd (live_keys conns)) s)
          (sym dead) (close_all_lem conns s h u held))
  | inr live ↦
      let s' : TcpServer = record s {
        connections = insert fd (handle_close c) s.connections;
        closed = fd ∷ s.closed;
      } in
      let (p, same, still) =
        close_all_lem conns s' h u
          (AllHeld-insert fd (handle_close c) conns s.connections new held) in
      subst (Closes conns s.opened s.closed (live_cons c.state fd (live_keys conns)))
        (sym (close_stopped fd c s h live found))
        (subst (λ st. Closes conns s.opened s.closed (live_cons st fd (live_keys conns)) s')
          (sym live)
          (Perm.trans p (Perm.symm (perm_middle s.closed (live_keys conns))), same, still))
]

-- `StopInLoop` closes what is not yet closed, and empties the map.
pub stop_in_loop-IsStopping :
    (s : TcpServer)
    → IsStopping s
    → IsStopping (stop_in_loop s) × ((stop_in_loop s).connections ≡ [])
unfolding stop_in_loop stop_accepting_in_loop
stop_in_loop-IsStopping s v =
    let s1 : TcpServer = record s { accept_channel = none; shut_down = true } in
    let (p, same, still) =
      close_all_lem s.connections s1 v.stopped v.uniq (AllHeld-self s.connections v.uniq) in
    (
      record {
        stopped = still;
        uniq = tt;
        once =
            subst (λ l. Perm l ((close_all s.connections s1).closed ++ [])) (sym same)
              (subst (Perm s.opened) (sym (append-nil _)) (Perm.trans v.once (Perm.symm p)));
      },
      refl,
    )

-- `stopped_` is set while the server runs.
pub IsStopping-IsSound : (s : TcpServer) → IsSound s → IsStopping (record s { stopped = true })
IsStopping-IsSound s v = record {
  stopped = refl;
  uniq = v.uniq;
  once =
      subst (λ ks. Perm s.opened (s.closed ++ ks))
        (sym (live_keys-AllConnected s.connections v.live)) v.once;
}

pub stop_accepting-IsSound :
    (s : TcpServer)
    → IsSound s
    → IsSound (stop_accepting_in_loop s)
      × ((stop_accepting_in_loop s).stopped ≡ s.stopped)
      × ((stop_accepting_in_loop s).opened ≡ s.opened)
      × ((stop_accepting_in_loop s).connections ≡ s.connections)
unfolding stop_accepting_in_loop
stop_accepting-IsSound s v =
    (record { uniq = v.uniq; live = v.live; once = v.once; quiet = v.quiet }, refl, refl, refl)
