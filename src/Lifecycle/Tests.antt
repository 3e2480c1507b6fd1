-- ===== src/Lifecycle/Tests.antt =====
-- Tests of the client's start and stop.
use light_rpc.Prelude.{arith, ℕ, ◌+◌, ◌≡◌, refl, true, [], ◌∷◌, ◌++◌}
use light_rpc.EventLoop.{polling}
use light_rpc.Lifecycle.{
  connects, joins, start_steps, stop_steps, RpcClient, entered, create, run, main_runs,
  thread_enters, loop_tests, loop_polls, loop_swaps, loop_executes,
}
use light_rpc.Lifecycle.Joining.{after_join, early, early_stop_hangs}
use light_rpc.Lifecycle.Late.{is_clean, late_stop_never_runs}
use light_rpc.Lifecycle.Leaving.{leaving, stop_returns}

abbrev count : ℕ → ℕ
count n = n + 1

abbrev clear : ℕ → ℕ
clear n = 0

early_stop_hangs_example :
    (run count clear
      (main_runs
        ∷ main_runs
        ∷ main_runs
        ∷ (early ++ (loop_tests ∷ loop_polls [] ∷ loop_swaps ∷ loop_executes ∷ main_runs ∷ [])))
      (create (start_steps ++ stop_steps))).main
    ≡ joins ∷ after_join
early_stop_hangs_example =
    early_stop_hangs count clear
      (loop_tests ∷ loop_polls [] ∷ loop_swaps ∷ loop_executes ∷ main_runs ∷ [])

-- A client whose loop polls with the functor of `Start` waiting, and whose caller stands at the `join`.
abbrev joining : RpcClient
joining = record {
  main = joins ∷ after_join;
  stopped = true;
  dropped = true;
  thread = entered;
  loop = record {
    loop = record { quit = true; wakeup_fd = 3; signal = 1; pending_functors = connects ∷ [] };
    place = polling;
    queued = connects ∷ [];
    ran = [];
    owed = 0;
  };
}

stop_returns_example :
    (run count clear (leaving polling (connects ∷ []) ++ (main_runs ∷ [])) joining).main
    ≡ after_join
stop_returns_example = stop_returns count clear joining after_join refl refl refl refl

late_stop_never_runs_example :
    is_clean
      (run count clear
        (main_runs
          ∷ main_runs
          ∷ thread_enters
          ∷ loop_tests
          ∷ loop_polls []
          ∷ loop_swaps
          ∷ loop_executes
          ∷ [])
        (create (start_steps ++ stop_steps))).loop.ran
    ≡ true
late_stop_never_runs_example =
    late_stop_never_runs count clear (λ n. omega arith)
      (main_runs
        ∷ main_runs
        ∷ thread_enters
        ∷ loop_tests
        ∷ loop_polls []
        ∷ loop_swaps
        ∷ loop_executes
        ∷ [])
