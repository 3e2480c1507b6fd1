-- ===== src/TcpClient/Tests.antt =====
-- Tests of the client's socket.
use light_rpc.Prelude.{◌≡◌, refl, false, List, [], ◌∷◌, ◌++◌}
use light_rpc.Buffer.{wrote}
use light_rpc.TcpClient.{
  create, opened, in_progress, at_once, connect, disconnect_in_loop, Event, connects, writable,
  peer_gone, sends, run,
}
use light_rpc.TcpClient.Contract.{Implements, phases, idle}
use light_rpc.TcpClient.Runs.{run-create-Implements, broken_needs_disconnect}

-- An attempt fails, the second one succeeds, data are sent, and the peer closes.
abbrev some_events : List Event
some_events =
    connects (opened 5 in_progress)
    ∷ writable 111
    ∷ connects (opened 6 in_progress)
    ∷ writable 0
    ∷ sends (1 ∷ 2 ∷ 3 ∷ []) (wrote 2)
    ∷ peer_gone
    ∷ []

run-create-Implements_example :
    Implements (phases some_events (idle, false)) (run some_events create)
run-create-Implements_example = run-create-Implements some_events

broken_needs_disconnect_example :
    (connect (opened 7 at_once) (run some_events create) ≡ run some_events create)
    × ((disconnect_in_loop (run some_events create)).closed_fds
        ≡ (run some_events create).closed_fds ++ (6 ∷ 6 ∷ []))
broken_needs_disconnect_example =
    broken_needs_disconnect some_events 6 false (opened 7 at_once) refl
