-- ===== src/Client/Tests.antt =====
-- Tests of the client.
use light_rpc.Prelude.{ℕ, ◌≡◌, arith, true, false, List, [], ◌∷◌, length}
use light_rpc.Prelude.Eq.{Text}
use light_rpc.Rpc.{empty_response}
use light_rpc.Client.{
  Event, begins, continues, times_out, receives, connection, disconnects, stops, run, create,
}
use light_rpc.Client.RequestId.{generate_request_id, read_request_id, request_id_lem}
use light_rpc.Client.Once.{IsSound, run-create-IsSound}
use light_rpc.Tests.Data.{ping, request_proto}

abbrev hash : Text → ℕ
hash xs = length xs

abbrev to_string : ℕ → Text
to_string n = n ∷ []

-- Two calls; one is answered, a timeout comes late, and the disconnection answers the other; a call
-- that begins before `IsConnected` is false waits until the client stops.
abbrev some_events : List Event
some_events =
    connection true
    ∷ begins (49 ∷ []) 1
    ∷ continues ping 5000
    ∷ begins (50 ∷ []) 2
    ∷ receives (record empty_response { request_id = 49 ∷ [] })
    ∷ times_out (49 ∷ [])
    ∷ disconnects
    ∷ begins (50 ∷ []) 2
    ∷ connection false
    ∷ stops
    ∷ []

run-create-IsSound_example : IsSound (run request_proto hash to_string some_events create)
run-create-IsSound_example = run-create-IsSound request_proto hash to_string some_events

request_id_lem_example :
    (length (generate_request_id 1700000000000 255) ≡ 32)
    × (read_request_id (generate_request_id 1700000000000 255) ≡ (1700000000000, 255))
request_id_lem_example = request_id_lem 1700000000000 255 (omega arith) (omega arith)
