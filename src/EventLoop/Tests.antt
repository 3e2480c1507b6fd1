-- ===== src/EventLoop/Tests.antt =====
-- Tests of the event loop. The kernel's counter counts the writes and is cleared by a read.
use light_rpc.Prelude.{ℕ, suc, ◌<◌, refl, List, [], ◌∷◌, arith, false}
use light_rpc.Channel.{no_events}
use light_rpc.Epoller.{make_event}
use light_rpc.EventLoop.{
  Event, pushes, wakes, starts, tests, polls, swaps, executes, Run, swapping, fresh, run,
}
use light_rpc.EventLoop.Functors.{IsSound, run-fresh-IsSound}
use light_rpc.EventLoop.Wakeup.{of_wakeup, stays_signalled}

abbrev clear : ℕ → ℕ
clear n = 0

suc_signals : (n : ℕ) → 0 < suc n
suc_signals n = omega arith

-- Two functors are queued, one of them while the loop waits.
abbrev some_events : List (Event ℕ)
some_events =
    pushes 1
    ∷ starts
    ∷ tests
    ∷ wakes
    ∷ pushes 2
    ∷ polls (make_event 7 no_events 0 0 ∷ [])
    ∷ swaps
    ∷ executes
    ∷ []

run-fresh-IsSound_example : IsSound (run suc clear some_events (fresh suc clear 7))
run-fresh-IsSound_example = run-fresh-IsSound suc clear suc_signals some_events 7

-- Two functors wait for a loop that has returned from `Wait`.
abbrev standing : Run ℕ
standing = record {
  loop = record { quit = false; wakeup_fd = 7; signal = 1; pending_functors = 1 ∷ 2 ∷ [] };
  place = swapping;
  queued = 1 ∷ 2 ∷ [];
  ran = [];
  owed = 0;
}

stays_signalled_example : 0 < (run suc clear some_events standing).loop.signal
stays_signalled_example =
    stays_signalled suc clear some_events standing suc_signals (omega arith)
      ((of_wakeup no_events 0 refl, tt), tt) (omega arith)
