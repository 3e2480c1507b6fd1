-- ===== src/ThreadPool/Drain.antt =====
-- ThreadPool: `WaitForTasks` and the destructor's `join`s.
use mathlib.Core.List.{Perm}
use light_rpc.Prelude.{
  ℕ, ◌<◌, ◌≡◌, refl, sym, ap, ◌∙◌, subst, Bool, true, false, List, [], ◌∷◌, ◌++◌, arith, length,
  append-nil, is_empty,
}
use light_rpc.Prelude.Words.{size_mod}
use light_rpc.ThreadPool.{
  Worker, waiting, running, returned, Run, Event, submit, wake, finish, close, start, run, step,
  wait_for_tasks, try_add_task, take_task, finish_task, close_pool, notifies, worker_notifies,
  submit_step, wake_step, wake_worker, finish_worker, set_worker, pop_front,
}
use light_rpc.ThreadPool.Workers.{in_flight, in_flight-lt, any_returned}
use light_rpc.ThreadPool.Invariant.{IsSound, run-start-IsSound}

module _ {A : Type 0} where
  abbrev pub all_returned : List (Worker A) → Bool
  all_returned [] = true
  all_returned (waiting ∷ ws) = false
  all_returned (running task ∷ ws) = false
  all_returned (returned ∷ ws) = all_returned ws

  all_returned_lem :
      (ws : List (Worker A))
      → all_returned ws ≡ true
      → 0 < length ws
      → (any_returned ws ≡ true) × (in_flight ws ≡ [])
  all_returned_lem [] h k = absurd (omega arith)
  all_returned_lem (waiting ∷ ws) h k = absurd (ground arith)
  all_returned_lem (running t ∷ ws) h k = absurd (ground arith)
  all_returned_lem (returned ∷ []) h k = (refl, refl)
  all_returned_lem (returned ∷ w ∷ ws) h k = (refl, (all_returned_lem (w ∷ ws) h (omega arith)).1)

  nil_of_length : (xs : List A) → length xs ≡ 0 → xs ≡ []
  nil_of_length [] h = refl
  nil_of_length (x ∷ xs) h = absurd (omega arith)

  settled :
      (r : Run A)
      → IsSound r
      → r.pool.tasks ≡ []
      → in_flight r.pool.workers ≡ []
      → Perm r.accepted r.completed
  settled r v h k =
      subst (λ x. Perm x r.completed) (sym (v.fifo ∙ ap (◌++◌ r.started) h ∙ append-nil r.started))
        (subst (Perm r.started) (ap (◌++◌ r.completed) k ∙ append-nil r.completed) v.executed)

  -- Where `WaitForTasks` may return, after any interleaving, every accepted task has run to its end,
  -- each exactly once.
  pub wait_for_tasks_lem :
      (thread_count max_queue_size : ℕ) (es : List (Event A))
      → thread_count < size_mod
      → wait_for_tasks (run es (start thread_count max_queue_size)).pool ≡ true
      → Perm
          (run es (start thread_count max_queue_size)).accepted
          (run es (start thread_count max_queue_size)).completed
  unfolding wait_for_tasks
  wait_for_tasks_lem n m es h w =
      let r = run es (start n m) in
      let v = run-start-IsSound n m es h in
      settled r v (ground arith) (nil_of_length _ (ground arith))

  -- Where the destructor has joined its workers, of which there is one at least, no accepted task
  -- has been lost: each has run to its end, exactly once.
  pub join_lem :
      (thread_count max_queue_size : ℕ) (es : List (Event A))
      → thread_count < size_mod
      → 0 < length (run es (start thread_count max_queue_size)).pool.workers
      → all_returned (run es (start thread_count max_queue_size)).pool.workers ≡ true
      → Perm
          (run es (start thread_count max_queue_size)).accepted
          (run es (start thread_count max_queue_size)).completed
  join_lem n m es h k w =
      let r = run es (start n m) in
      let v = run-start-IsSound n m es h in
      let (some_returned, idle) = all_returned_lem r.pool.workers w k in
      settled r v (v.drained some_returned).1 idle

  is_empty-snoc : (xs : List A) (t : A) → is_empty (xs ++ (t ∷ [])) ≡ false
  is_empty-snoc [] t = refl
  is_empty-snoc (x ∷ xs) t = refl

  -- No wake-up of `WaitForTasks` is lost: an event after which its condition holds, and before which
  -- it did not, is the end of a task, and notifies.
  pub notifies_lem :
      (e : Event A) (r : Run A)
      → IsSound r
      → wait_for_tasks r.pool ≡ false
      → wait_for_tasks (step e r).pool ≡ true
      → notifies e r ≡ true
  unfolding step wait_for_tasks notifies worker_notifies submit_step wake_step wake_worker
      finish_worker set_worker take_task pop_front finish_task close_pool try_add_task
  notifies_lem (submit t) r v h k = ground (arith, is_empty-snoc r.pool.tasks t)
  notifies_lem (wake i) r v h k = ground (arith, in_flight-lt r.pool.workers i)
  notifies_lem (finish i) r v h k = ground arith
  notifies_lem close r v h k = ground arith
