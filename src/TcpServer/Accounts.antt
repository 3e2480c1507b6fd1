-- ===== src/TcpServer/Accounts.antt =====
-- TcpServer: the phases of a server, and that each of its events keeps account of the connections.
use light_rpc.Prelude.{
  ℕ, ◌≡◌, inl, inr, refl, subst, sym, Bool, true, false, List, [], ◌∷◌, ◌++◌, Option, none, some,
  arith, Option-cases,
}
use light_rpc.Prelude.Eq.{nat_eq}
use light_rpc.Prelude.Assoc.{lookup}
use light_rpc.Connection.{TcpConnection}
use light_rpc.TcpServer.{
  TcpServer, close_live, remove_connection, start_in_loop, handle_accept, close_connection,
  stop_accepting_in_loop, Functor, listens, stops_listening, closes_all, run_functor, Hosted,
  run_in_loop, stop, run_next,
}
use light_rpc.TcpServer.Steps.{
  IsSound, IsStopping, accepts_none, accept-IsSound, close-IsSound, close-IsStopping,
  stop_in_loop-IsStopping, IsStopping-IsSound,
}

-- Whether the functor of `Stop` waits.
abbrev pub has_close : List Functor → Bool
has_close [] = false
has_close (closes_all ∷ cbs) = true
has_close (listens ∷ cbs) = has_close cbs
has_close (stops_listening ∷ cbs) = has_close cbs

-- Either the server runs; or `stopped_` is set and the functor of `Stop` waits; or it has run, and
-- no connection is held.
pub data IsAccounted (s : TcpServer) (cbs : List Functor) : Type 0 where
  is_running : s.stopped ≡ false → has_close cbs ≡ false → IsSound s → IsAccounted s cbs
  is_stopping : IsStopping s → has_close cbs ≡ true → IsAccounted s cbs
  is_emptied : IsStopping s → s.connections ≡ [] → IsAccounted s cbs

-- Without connections nothing closes.
close_none : (fd : ℕ) (s : TcpServer) → s.connections ≡ [] → close_connection fd s ≡ s
unfolding close_connection lookup
close_none fd s h = ground arith

pub accept-IsAccounted :
    (conn_fd : Option ℕ) (s : TcpServer) (cbs : List Functor)
    → IsAccounted s cbs
    → ((fd : ℕ) → conn_fd ≡ some fd → lookup fd s.connections ≡ none)
    → IsAccounted (handle_accept conn_fd s) cbs
unfolding handle_accept
accept-IsAccounted conn_fd s cbs (is_running h q v) new =
    is_running (ground arith) q (accept-IsSound conn_fd s v new)
accept-IsAccounted conn_fd s cbs (is_stopping v q) new =
    subst (λ t. IsAccounted t cbs) (sym (accepts_none conn_fd s v.stopped)) (is_stopping v q)
accept-IsAccounted conn_fd s cbs (is_emptied v q) new =
    subst (λ t. IsAccounted t cbs) (sym (accepts_none conn_fd s v.stopped)) (is_emptied v q)

close_live_running :
    (fd : ℕ) (c : TcpConnection) (s : TcpServer)
    → s.stopped ≡ false
    → (close_live fd c s).stopped ≡ false
unfolding close_live remove_connection
close_live_running fd c s h = ground arith

close_running :
    (fd : ℕ) (s : TcpServer) → s.stopped ≡ false → (close_connection fd s).stopped ≡ false
unfolding close_connection
close_running fd s h = elim (Option-cases (lookup fd s.connections)) [
  | inl e ↦ rw (e, close_connection) h
  | inr (c, e) ↦ rw (e, close_connection) (close_live_running fd c s h)
]

pub close-IsAccounted :
    (fd : ℕ) (s : TcpServer) (cbs : List Functor)
    → IsAccounted s cbs
    → IsAccounted (close_connection fd s) cbs
close-IsAccounted fd s cbs (is_running h q v) =
    is_running (close_running fd s h) q (close-IsSound fd s v h)
close-IsAccounted fd s cbs (is_stopping v q) = is_stopping (close-IsStopping fd s v) q
close-IsAccounted fd s cbs (is_emptied v q) =
    subst (λ t. IsAccounted t cbs) (sym (close_none fd s q)) (is_emptied v q)

pub functor-IsAccounted :
    (cb : Functor) (s : TcpServer) (cbs : List Functor)
    → IsAccounted s (cb ∷ cbs)
    → IsAccounted (run_functor cb s) cbs
unfolding run_functor start_in_loop stop_accepting_in_loop
functor-IsAccounted listens s cbs (is_running h q v) =
    is_running h q (record { uniq = v.uniq; live = v.live; once = v.once; quiet = v.quiet })
functor-IsAccounted listens s cbs (is_stopping v q) =
    is_stopping (record { stopped = v.stopped; uniq = v.uniq; once = v.once }) q
functor-IsAccounted listens s cbs (is_emptied v q) =
    is_emptied (record { stopped = v.stopped; uniq = v.uniq; once = v.once }) q
functor-IsAccounted stops_listening s cbs (is_running h q v) =
    is_running h q (record { uniq = v.uniq; live = v.live; once = v.once; quiet = v.quiet })
functor-IsAccounted stops_listening s cbs (is_stopping v q) =
    is_stopping (record { stopped = v.stopped; uniq = v.uniq; once = v.once }) q
functor-IsAccounted stops_listening s cbs (is_emptied v q) =
    is_emptied (record { stopped = v.stopped; uniq = v.uniq; once = v.once }) q
functor-IsAccounted closes_all s cbs (is_running h q v) = absurd (ground (arith, q))
functor-IsAccounted closes_all s cbs (is_stopping v q) =
    let (v', empty) = stop_in_loop-IsStopping s v in is_emptied v' empty
functor-IsAccounted closes_all s cbs (is_emptied v q) =
    let (v', empty) = stop_in_loop-IsStopping s v in is_emptied v' empty

-- A functor that is not of `Stop` changes nothing of `has_close`, wherever it is queued.
with_front :
    (cb : Functor) (s : TcpServer) (cbs : List Functor)
    → has_close (cb ∷ []) ≡ false
    → IsAccounted s cbs
    → IsAccounted s (cb ∷ cbs)
with_front listens s cbs n (is_running h q v) = is_running h q v
with_front listens s cbs n (is_stopping v q) = is_stopping v q
with_front listens s cbs n (is_emptied v q) = is_emptied v q
with_front stops_listening s cbs n (is_running h q v) = is_running h q v
with_front stops_listening s cbs n (is_stopping v q) = is_stopping v q
with_front stops_listening s cbs n (is_emptied v q) = is_emptied v q
with_front closes_all s cbs n v = absurd (ground (arith, n))

has_close-append :
    (cb : Functor) (cbs : List Functor)
    → has_close (cb ∷ []) ≡ false
    → has_close (cbs ++ (cb ∷ [])) ≡ has_close cbs
has_close-append cb [] n = n
has_close-append cb (listens ∷ cbs) n = has_close-append cb cbs n
has_close-append cb (stops_listening ∷ cbs) n = has_close-append cb cbs n
has_close-append cb (closes_all ∷ cbs) n = refl

has_close-append_stop : (cbs : List Functor) → has_close (cbs ++ (closes_all ∷ [])) ≡ true
has_close-append_stop [] = refl
has_close-append_stop (listens ∷ cbs) = has_close-append_stop cbs
has_close-append_stop (stops_listening ∷ cbs) = has_close-append_stop cbs
has_close-append_stop (closes_all ∷ cbs) = refl

append-IsAccounted :
    (cb : Functor) (s : TcpServer) (cbs : List Functor)
    → has_close (cb ∷ []) ≡ false
    → IsAccounted s cbs
    → IsAccounted s (cbs ++ (cb ∷ []))
append-IsAccounted cb s cbs n (is_running h q v) =
    is_running h (ground (arith, has_close-append cb cbs n, q)) v
append-IsAccounted cb s cbs n (is_stopping v q) =
    is_stopping v (ground (arith, has_close-append cb cbs n, q))
append-IsAccounted cb s cbs n (is_emptied v q) = is_emptied v q

-- `Start` and `StopAccepting`, whichever thread calls them.
pub run_in_loop-IsAccounted :
    (in_loop : Bool) (cb : Functor) (h : Hosted)
    → has_close (cb ∷ []) ≡ false
    → IsAccounted h.server h.functors
    → IsAccounted (run_in_loop in_loop cb h).server (run_in_loop in_loop cb h).functors
unfolding run_in_loop
run_in_loop-IsAccounted true cb h n v =
    functor-IsAccounted cb h.server h.functors (with_front cb h.server h.functors n v)
run_in_loop-IsAccounted false cb h n v = append-IsAccounted cb h.server h.functors n v

pub shut_down-IsAccounted :
    (s : TcpServer) (cbs : List Functor)
    → IsAccounted s cbs
    → IsAccounted (record s { shut_down = true }) cbs
shut_down-IsAccounted s cbs (is_running h q v) =
    is_running h q (record { uniq = v.uniq; live = v.live; once = v.once; quiet = v.quiet })
shut_down-IsAccounted s cbs (is_stopping v q) =
    is_stopping (record { stopped = v.stopped; uniq = v.uniq; once = v.once }) q
shut_down-IsAccounted s cbs (is_emptied v q) =
    is_emptied (record { stopped = v.stopped; uniq = v.uniq; once = v.once }) q

stop_first :
    (in_loop : Bool) (h : Hosted)
    → h.server.stopped ≡ false
    → stop in_loop h
      ≡ run_in_loop in_loop closes_all (record h { server = record h.server { stopped = true } })
unfolding stop
stop_first in_loop h e = ground arith

stop_again : (in_loop : Bool) (h : Hosted) → h.server.stopped ≡ true → stop in_loop h ≡ h
unfolding stop
stop_again in_loop h e = ground arith

stop_running :
    (in_loop : Bool) (h : Hosted)
    → IsStopping h.server
    → IsAccounted
        (run_in_loop in_loop closes_all h).server
        (run_in_loop in_loop closes_all h).functors
unfolding run_in_loop run_functor
stop_running true h v = let (v', empty) = stop_in_loop-IsStopping h.server v in is_emptied v' empty
stop_running false h v = is_stopping v (has_close-append_stop h.functors)

pub stop-IsAccounted :
    (in_loop : Bool) (h : Hosted)
    → IsAccounted h.server h.functors
    → IsAccounted (stop in_loop h).server (stop in_loop h).functors
stop-IsAccounted in_loop h (is_running e q v) =
    subst (λ k. IsAccounted k.server k.functors) (sym (stop_first in_loop h e))
      (stop_running in_loop (record h { server = record h.server { stopped = true } })
        (IsStopping-IsSound h.server v))
stop-IsAccounted in_loop h (is_stopping v q) =
    subst (λ k. IsAccounted k.server k.functors) (sym (stop_again in_loop h v.stopped))
      (is_stopping v q)
stop-IsAccounted in_loop h (is_emptied v q) =
    subst (λ k. IsAccounted k.server k.functors) (sym (stop_again in_loop h v.stopped))
      (is_emptied v q)

pub run_next-IsAccounted :
    (cbs : List Functor) (h : Hosted)
    → h.functors ≡ cbs
    → IsAccounted h.server h.functors
    → IsAccounted (run_next cbs h).server (run_next cbs h).functors
unfolding run_next
run_next-IsAccounted [] h e v = v
run_next-IsAccounted (cb ∷ cbs) h e v =
    functor-IsAccounted cb h.server cbs (subst (IsAccounted h.server) e v)

pub IsAccounted-stopped :
    (s : TcpServer) (cbs : List Functor) → s.stopped ≡ true → IsAccounted s cbs → IsStopping s
IsAccounted-stopped s cbs h (is_running e q v) = absurd (ground arith)
IsAccounted-stopped s cbs h (is_stopping v q) = v
IsAccounted-stopped s cbs h (is_emptied v q) = v

pub functor_stopped :
    (cb : Functor) (s : TcpServer) → IsStopping s → (run_functor cb s).stopped ≡ true
unfolding run_functor start_in_loop stop_accepting_in_loop
functor_stopped listens s v = v.stopped
functor_stopped stops_listening s v = v.stopped
functor_stopped closes_all s v = (stop_in_loop-IsStopping s v).0.stopped
