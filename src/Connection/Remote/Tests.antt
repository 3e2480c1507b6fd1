-- ===== src/Connection/Remote/Tests.antt =====
-- Tests of the calls from other threads.
use light_rpc.Prelude.{ℕ, suc, ◌<◌, ◌≡◌, refl, List, [], ◌∷◌, ◌++◌, arith, false, inr, inl}
use light_rpc.Buffer
use light_rpc.Buffer.{wrote}
use light_rpc.Connection
use light_rpc.EventLoop
use light_rpc.EventLoop.Functors.{in_hand}
use light_rpc.Connection.Effects.{IsSound, stream}
use light_rpc.Connection.Remote.{
  Remote, Event, others_send, others_close, others_wake, loop_polls, loop_swaps, loop_runs,
  loop_writes, run, step,
}
use light_rpc.Connection.Remote.Arrival.{accepted_jobs, remote_sends_arrive}

abbrev clear : ℕ → ℕ
clear n = 0

suc_signals : (n : ℕ) → 0 < suc n
suc_signals n = omega arith

abbrev waiting : Remote
waiting = record {
  connection = Connection.create 5;
  loop = record {
    loop = record { quit = false; wakeup_fd = 7; signal = 0; pending_functors = [] };
    place = EventLoop.polling;
    queued = [];
    ran = [];
    owed = 0;
  };
}

abbrev some_events : List Event
some_events =
    others_send (1 ∷ 2 ∷ [])
    ∷ others_wake
    ∷ loop_polls []
    ∷ loop_swaps
    ∷ others_close
    ∷ loop_runs (wrote 1)
    ∷ loop_writes (wrote 1)
    ∷ []

waiting-IsSound : IsSound waiting.connection
unfolding Connection.create Buffer.create
waiting-IsSound = record { valid = omega arith; watched = inr (inl (omega arith)) }

remote_sends_arrive_example :
    ((run suc clear some_events waiting).loop.queued
      ≡ (run suc clear some_events waiting).loop.ran
        ++ (in_hand (run suc clear some_events waiting).loop.place
            ++ (run suc clear some_events waiting).loop.loop.pending_functors))
    × (stream (run suc clear some_events waiting).connection
        ≡ stream waiting.connection ++ accepted_jobs (run suc clear some_events waiting).loop.ran)
unfolding Connection.create Buffer.create step EventLoop.step
remote_sends_arrive_example =
    remote_sends_arrive suc clear suc_signals some_events waiting
      (record { fifo = refl; woken = inr (inl refl) }) refl waiting-IsSound refl (omega arith)
