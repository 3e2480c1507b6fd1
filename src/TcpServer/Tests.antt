-- ===== src/TcpServer/Tests.antt =====
-- Tests of the server's connections.
use mathlib.Core.List.{Perm}
use light_rpc.Prelude.{◌≡◌, refl, false, List, [], ◌∷◌, none, some}
use light_rpc.Connection
use light_rpc.Prelude.Assoc.{lookup, insert, erase}
use light_rpc.TcpServer.{
  create, handle_accept, Hosted, host, run_in_loop, run_functor, Event, starts, accepts, closes,
  stops_accepting, stops, runs_functor, step, run, start, start_in_loop, close_connection,
  close_live, remove_connection, stop, stop_accepting, run_next,
}
use light_rpc.TcpServer.Accounts.{IsAccounted}
use light_rpc.TcpServer.Closing.{FreshFds, runs, run_accounts, stopped_closes_all}

-- Three connections are accepted, one of which closes, and its descriptor is used again; then another
-- thread stops the server, and a peer closes before the functor runs.
abbrev some_events : List Event
some_events =
    starts false
    ∷ runs_functor
    ∷ accepts (some 5)
    ∷ accepts (some 6)
    ∷ accepts none
    ∷ closes 5
    ∷ accepts (some 5)
    ∷ stops_accepting false
    ∷ stops false
    ∷ closes 6
    ∷ []

some_fresh : FreshFds some_events (host 3)
unfolding host create step start run_in_loop run_functor run_next start_in_loop handle_accept
    close_connection close_live remove_connection lookup insert erase Connection.create
some_fresh = (refl, (refl, (refl, tt)))

run_accounts_example :
    IsAccounted (run some_events (host 3)).server (run some_events (host 3)).functors
run_accounts_example = run_accounts some_events 3 some_fresh

stopped_closes_all_example :
    let h' : Hosted = run (runs (run some_events (host 3)).functors) (run some_events (host 3)) in
    (h'.server.connections ≡ [])
    × Perm h'.server.opened h'.server.closed
    × (handle_accept (some 7) h'.server ≡ h'.server)
unfolding host create run step start run_in_loop run_functor run_next start_in_loop handle_accept
    close_connection close_live remove_connection lookup insert erase Connection.create stop
    stop_accepting
stopped_closes_all_example = stopped_closes_all some_events 3 (some 7) some_fresh refl
