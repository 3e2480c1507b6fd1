-- ===== src/TcpServer/Closing.antt =====
-- TcpServer: each accepted connection is held while it lives, and closed once, whichever thread
-- calls `Start`, `StopAccepting` and `Stop`.
use mathlib.Core.List.{Perm}
use mathlib.Core.List.Perm
use light_rpc.Prelude.{
  ℕ, ◌≡◌, inl, refl, subst, true, List, [], ◌∷◌, ◌++◌, Option, none, some, arith, append-nil,
}
use light_rpc.Prelude.Eq.{nat_eq}
use light_rpc.Prelude.Assoc.{lookup}
use light_rpc.TcpServer.Connections.{live_keys}
use light_rpc.TcpServer.{
  TcpServer, create, handle_accept, Functor, listens, stops_listening, run_functor, Hosted, host,
  start, stop_accepting, run_next, Event, starts, accepts, closes, stops_accepting, stops,
  runs_functor, step, run,
}
use light_rpc.TcpServer.Steps.{IsStopping, accepts_none}
use light_rpc.TcpServer.Accounts.{
  IsAccounted, is_running, is_stopping, is_emptied, accept-IsAccounted, close-IsAccounted,
  functor-IsAccounted, run_in_loop-IsAccounted, shut_down-IsAccounted, stop-IsAccounted,
  run_next-IsAccounted, IsAccounted-stopped, functor_stopped,
}

-- The descriptors that the kernel hands out are not those of connections still held.
abbrev pub FreshFds : List Event → Hosted → Type 0
FreshFds [] h = Unit {0}
FreshFds (accepts (some fd) ∷ es) h =
    (lookup fd h.server.connections ≡ none) × FreshFds es (step (accepts (some fd)) h)
FreshFds (accepts none ∷ es) h = FreshFds es (step (accepts none) h)
FreshFds (starts in_loop ∷ es) h = FreshFds es (step (starts in_loop) h)
FreshFds (closes fd ∷ es) h = FreshFds es (step (closes fd) h)
FreshFds (stops_accepting in_loop ∷ es) h = FreshFds es (step (stops_accepting in_loop) h)
FreshFds (stops in_loop ∷ es) h = FreshFds es (step (stops in_loop) h)
FreshFds (runs_functor ∷ es) h = FreshFds es (step runs_functor h)

run-IsAccounted :
    (es : List Event) (h : Hosted)
    → IsAccounted h.server h.functors
    → FreshFds es h
    → IsAccounted (run es h).server (run es h).functors
unfolding run step start stop_accepting
run-IsAccounted [] h v f = v
run-IsAccounted (starts in_loop ∷ es) h v f =
    run-IsAccounted es (step (starts in_loop) h) (run_in_loop-IsAccounted in_loop listens h refl v)
      f
run-IsAccounted (accepts none ∷ es) h v f =
    run-IsAccounted es (step (accepts none) h)
      (accept-IsAccounted none h.server h.functors v (λ fd e. absurd (ground arith))) f
run-IsAccounted (accepts (some fd) ∷ es) h v (new, f) =
    run-IsAccounted es (step (accepts (some fd)) h)
      (accept-IsAccounted (some fd) h.server h.functors v (λ k e. ground arith)) f
run-IsAccounted (closes fd ∷ es) h v f =
    run-IsAccounted es (step (closes fd) h) (close-IsAccounted fd h.server h.functors v) f
run-IsAccounted (stops_accepting in_loop ∷ es) h v f =
    run-IsAccounted es (step (stops_accepting in_loop) h)
      (run_in_loop-IsAccounted in_loop stops_listening
        (record h { server = record h.server { shut_down = true } }) refl
        (shut_down-IsAccounted h.server h.functors v))
      f
run-IsAccounted (stops in_loop ∷ es) h v f =
    run-IsAccounted es (step (stops in_loop) h) (stop-IsAccounted in_loop h v) f
run-IsAccounted (runs_functor ∷ es) h v f =
    run-IsAccounted es (step runs_functor h) (run_next-IsAccounted h.functors h refl v) f

-- Whatever connections are accepted and closed, whichever thread calls `Start`, `StopAccepting` and
-- `Stop`, and whenever the loop comes to the functors they queue, the server is in one of three
-- phases. It runs: every connection held lives, and the descriptors accepted are those of the
-- connections held and those closed, each once. Or `stopped_` is set and the functor of `Stop`
-- waits: the map may hold connections that have closed, and the descriptors accepted are those of
-- the live ones among them and those closed, each once. Or the functor has run, with the same
-- account, and no connection is held. (The kernel hands out no descriptor that is still in the
-- map.)
pub run_accounts :
    (es : List Event) (listen_fd : ℕ)
    → FreshFds es (host listen_fd)
    → IsAccounted (run es (host listen_fd)).server (run es (host listen_fd)).functors
unfolding host create
run_accounts es listen_fd f =
    run-IsAccounted es (host listen_fd)
      (is_running refl refl
        (record { uniq = tt; live = tt; once = Perm.refl []; quiet = inl refl }))
      f

-- The loop comes to so many functors.
abbrev pub runs : List Functor → List Event
runs [] = []
runs (cb ∷ cbs) = runs_functor ∷ runs cbs

runs-IsAccounted :
    (cbs : List Functor) (s : TcpServer)
    → s.stopped ≡ true
    → IsAccounted s cbs
    → IsStopping (run (runs cbs) (record { server = s; functors = cbs })).server
      × ((run (runs cbs) (record { server = s; functors = cbs })).server.connections ≡ [])
unfolding run step run_next
runs-IsAccounted [] s h (is_running e q v) = absurd (ground arith)
runs-IsAccounted [] s h (is_stopping v q) = absurd (ground (arith, q))
runs-IsAccounted [] s h (is_emptied v q) = (v, q)
runs-IsAccounted (cb ∷ cbs) s h v =
    runs-IsAccounted cbs (run_functor cb s)
      (functor_stopped cb s (IsAccounted-stopped s (cb ∷ cbs) h v)) (functor-IsAccounted cb s cbs v)

-- Once `stopped_` is set, by whichever thread, and the loop has then come to the functors that wait,
-- no connection is held, every connection ever accepted has been closed, each once, and no further
-- one is accepted. (The kernel hands out no descriptor that is still in the map.)
pub stopped_closes_all :
    (es : List Event) (listen_fd : ℕ) (conn_fd : Option ℕ)
    → FreshFds es (host listen_fd)
    → (run es (host listen_fd)).server.stopped ≡ true
    → let h' : Hosted = run (runs (run es (host listen_fd)).functors) (run es (host listen_fd)) in
      (h'.server.connections ≡ [])
      × Perm h'.server.opened h'.server.closed
      × (handle_accept conn_fd h'.server ≡ h'.server)
stopped_closes_all es listen_fd conn_fd f e =
    let h : Hosted = run es (host listen_fd) in
    let s : TcpServer = (run (runs h.functors) h).server in
    let (v, empty) = runs-IsAccounted h.functors h.server e (run_accounts es listen_fd f) in
    (
      empty,
      subst (Perm s.opened) (append-nil s.closed)
          (subst (λ m. Perm s.opened (s.closed ++ live_keys m)) empty v.once),
      accepts_none conn_fd s v.stopped,
    )
