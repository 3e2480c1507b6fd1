-- ===== src/ThreadPool/Hands.antt =====
-- ThreadPool: the tasks that the pool holds, whatever its workers do.
use mathlib.Core.List.{Perm, perm_middle, perm_append_singleton}
use mathlib.Core.List.Perm
use light_rpc.Prelude.{
  ℕ, ◌≡◌, refl, ap, subst, append_assoc, List, [], ◌∷◌, ◌++◌, Option, none, some, get_elem?,
}
use light_rpc.ThreadPool.{
  Worker, waiting, running, returned, Pool, Taken, sleeps, returns, takes, take_task, wake_step,
  wake_worker, finish_worker, set_worker, finish_task, step, wake, finish, with_pool, pool_step,
  create,
}
use light_rpc.ThreadPool.Workers.{in_flight, begins, ends, in_flight-set_returned, fresh_workers}
use light_rpc.ThreadPool.Invariant.{take_task-takes}

module _ {A : Type 0} where
  -- The tasks in flight and those in the queue.
  abbrev pub held : Pool A → List A
  held p = in_flight p.workers ++ p.tasks

  wake_step-held :
      (i : ℕ) (p : Pool A)
      → get_elem? p.workers i ≡ some waiting
      → (t : Taken A) → take_task p ≡ t
      → Perm (held p) (held (wake_step i t (with_pool p)).pool)
  unfolding wake_step set_worker with_pool
  wake_step-held i p h sleeps e = Perm.rfl
  wake_step-held i p h returns e = rw (in_flight-set_returned p.workers i h) Perm.rfl
  wake_step-held i p h (takes t q) e =
      let k = take_task-takes p t q e in
      rw (k.front, k.others.0)
        (Perm.trans (perm_middle (in_flight p.workers) q.tasks)
          (Perm.append_right q.tasks (Perm.symm (begins t p.workers i h).more)))

  wake-held :
      (i : ℕ) (p : Pool A) (w : Option (Worker A))
      → get_elem? p.workers i ≡ w
      → Perm (held p) (held (wake_worker i w (with_pool p)).pool)
  unfolding wake_worker with_pool
  wake-held i p none e = Perm.rfl
  wake-held i p (some waiting) e = wake_step-held i p e (take_task p) refl
  wake-held i p (some (running t)) e = Perm.rfl
  wake-held i p (some returned) e = Perm.rfl

  pub held-wake : (i : ℕ) (p : Pool A) → Perm (held p) (held (pool_step (wake i) p))
  unfolding pool_step step with_pool
  held-wake i p = wake-held i p (get_elem? p.workers i) refl

  pub held-finish :
      (i : ℕ) (p : Pool A) (t : A)
      → get_elem? p.workers i ≡ some (running t)
      → Perm (held p) (t ∷ held (pool_step (finish i) p))
  unfolding pool_step step finish_worker set_worker finish_task with_pool
  held-finish i p t h = rw h (Perm.append_right p.tasks (ends t p.workers i h).more)

  pub held-push :
      (t : A) (p : Pool A) → Perm (t ∷ held p) (held (record p { tasks = p.tasks ++ (t ∷ []) }))
  held-push t p =
      subst (Perm (t ∷ held p)) (append_assoc (in_flight p.workers) p.tasks (t ∷ []))
        (Perm.symm (perm_append_singleton t (held p)))

  pub held-create :
      (thread_count max_queue_size : ℕ) → held (create thread_count max_queue_size) ≡ []
  unfolding create
  held-create n m = ap (λ xs. xs ++ []) (fresh_workers n).0
