-- ===== src/ThreadPool/Tests.antt =====
-- Tests of the thread pool.
use mathlib.Core.List.{Perm}
use light_rpc.Prelude.{ℕ, refl, List, [], ◌∷◌, arith}
use light_rpc.ThreadPool.{
  Event, submit, wake, finish, close, start, run, step, wait_for_tasks, submit_step, wake_step,
  wake_worker, finish_worker, set_worker, pop_front, take_task, finish_task, create, try_add_task,
  close_pool,
}
use light_rpc.ThreadPool.Invariant.{IsSound, run-start-IsSound}
use light_rpc.ThreadPool.Drain.{wait_for_tasks_lem}

-- Two workers run three tasks, one of which is refused, and the pool is closed.
abbrev some_events : List (Event ℕ)
some_events =
    submit 1
    ∷ submit 2
    ∷ submit 3
    ∷ wake 0
    ∷ wake 1
    ∷ finish 1
    ∷ finish 0
    ∷ close
    ∷ wake 0
    ∷ wake 1
    ∷ []

run-start-IsSound_example : IsSound (run some_events (start 2 2))
run-start-IsSound_example = run-start-IsSound 2 2 some_events (omega arith)

wait_for_tasks_lem_example :
    Perm (run some_events (start 2 2)).accepted (run some_events (start 2 2)).completed
unfolding wait_for_tasks start create run step submit_step wake_step wake_worker finish_worker
    set_worker pop_front take_task finish_task try_add_task close_pool
wait_for_tasks_lem_example = wait_for_tasks_lem 2 2 some_events (omega arith) refl
