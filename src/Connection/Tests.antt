-- ===== src/Connection/Tests.antt =====
-- Tests of the connection.
use light_rpc.Prelude.{ℕ, Bool, true, ◌==◌, ◌≡◌, refl, List, [], ◌∷◌, ◌++◌, arith, inr, inl}
use light_rpc.Buffer
use light_rpc.Buffer.{wrote, write_failed, readv_failed, readv_bytes}
use light_rpc.Channel.{no_events}
use light_rpc.Connection.{
  TcpConnection, create, handle_close, on_event, Event, sends, writable, closes_down, run,
}
use light_rpc.Connection.Effects.{IsSound, stream}
use light_rpc.Connection.Output.{accepted, run_delivers}
use light_rpc.Connection.Hangup
use light_rpc.Connection.Hangup.{
  Notice, Wired, handle_close-Wired, hang_up_ignored, half_close_unread,
}

abbrev idle : TcpConnection
idle = create 5

-- Half of the first message is taken at once, the rest waits with the second.
abbrev some_events : List Event
some_events =
    sends (1 ∷ 2 ∷ 3 ∷ 4 ∷ []) (wrote 2)
    ∷ sends (5 ∷ []) (write_failed 11)
    ∷ writable (wrote 1)
    ∷ closes_down
    ∷ sends (6 ∷ []) (wrote 1)
    ∷ []

run_delivers_example :
    IsSound (run some_events idle)
    × (stream (run some_events idle) ≡ stream idle ++ accepted some_events)
unfolding create Buffer.create
run_delivers_example =
    run_delivers some_events idle
      (record { valid = omega arith; watched = inr (inl (omega arith)) }) refl (omega arith)

abbrev keep : TcpConnection → TcpConnection
keep c = c

abbrev is_again : ℕ → Bool
is_again errno = errno == 11

kept : (c : TcpConnection) → Wired c → Wired (keep c)
kept c v = v

abbrev notices : List Notice
notices =
    Hangup.sends (1 ∷ 2 ∷ []) (wrote 1)
    ∷ Hangup.reported (record no_events { output = true }) (readv_failed 11) (wrote 1)
    ∷ []

hang_up_ignored_example :
    on_event keep is_again handle_close
      (record no_events { hang_up = true })
      (readv_failed 104)
      (write_failed 32)
      (Hangup.run keep handle_close is_again kept handle_close-Wired notices (create 5))
    ≡ Hangup.run keep handle_close is_again kept handle_close-Wired notices (create 5)
hang_up_ignored_example =
    hang_up_ignored keep handle_close is_again kept handle_close-Wired notices 5
      (record no_events { hang_up = true }) (readv_failed 104) (write_failed 32) refl

half_close_unread_example :
    (on_event keep is_again handle_close
        (record no_events { input = true; peer_hang_up = true })
        (readv_bytes (9 ∷ []))
        (write_failed 32)
        (Hangup.run keep handle_close is_again kept handle_close-Wired [] (create 5))
      ≡ handle_close (Hangup.run keep handle_close is_again kept handle_close-Wired [] (create 5)))
    × ((handle_close (
          Hangup.run keep handle_close is_again kept handle_close-Wired [] (create 5))).input_buffer
        ≡ (Hangup.run keep handle_close is_again kept handle_close-Wired []
            (create 5)).input_buffer)
unfolding create Buffer.create Hangup.run
half_close_unread_example =
    half_close_unread keep handle_close is_again kept handle_close-Wired [] 5
      (record no_events { input = true; peer_hang_up = true }) (readv_bytes (9 ∷ []))
      (write_failed 32) refl refl refl refl
