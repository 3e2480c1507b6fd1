-- ===== src/ThreadPool/Invariant.antt =====
-- ThreadPool: what holds after any sequence of locked sections.
use mathlib.Core.List.{Perm, perm_middle}
use mathlib.Core.List.Perm
use light_rpc.Prelude.{
  ℕ, ◌≤◌, ◌<◌, ◌≡◌, refl, sym, ap, ◌∙◌, subst, true, List, [], ◌∷◌, ◌++◌, Option, none, some, arith,
  length, length-append, length-set, length-replicate, get_elem?, set, append-nil, append_assoc,
}
use light_rpc.Prelude.Words.{size_mod, add_size}
use light_rpc.ThreadPool.{
  Worker, waiting, running, returned, Pool, Run, Event, submit, wake, finish, close, create,
  try_add_task, take_task, finish_task, close_pool, step, start, run, Taken, sleeps, returns, takes,
  pop_front, set_worker, wake_step, wake_worker, finish_worker, submit_step,
}
use light_rpc.ThreadPool.Workers.{
  in_flight, any_returned, Begins, begins, ends, in_flight-set_returned, length-in_flight,
  fresh_workers,
}

module _ {A : Type 0} where
  -- What holds of a pool and its history between any two locked sections.
  pub record IsSound (r : Run A) : Type 0 where
    -- `activeTasks` counts the tasks in flight, and there are too few workers for it to wrap.
    pub counted : r.pool.active_tasks ≡ length (in_flight r.pool.workers)
    pub few : length r.pool.workers < size_mod
    pub bounded : length r.pool.tasks ≤ r.pool.max_queue_size
    -- Tasks are started in the order in which they were accepted, and none is lost.
    pub fifo : r.accepted ≡ r.started ++ r.pool.tasks
    -- A started task has ended or is in flight, and has been started once.
    pub executed : Perm r.started (r.completed ++ in_flight r.pool.workers)
    -- A worker leaves its loop only when the pool is closed and the queue empty.
    pub drained :
        any_returned r.pool.workers ≡ true → (r.pool.is_closed ≡ true) × (r.pool.tasks ≡ [])

  submit-IsSound : (task : A) (r : Run A) → IsSound r → IsSound (step (submit task) r)
  unfolding step submit_step try_add_task
  submit-IsSound task r v = ground (
    arith,
    append_assoc r.started r.pool.tasks (task ∷ []),
    length-append r.pool.tasks (task ∷ []),
  )

  -- The three outcomes of a worker's first locked section.
  pub record Takes (p : Pool A) (t : A) (p' : Pool A) : Type 0 where
    pub front : p.tasks ≡ t ∷ p'.tasks
    pub counts : p'.active_tasks ≡ add_size p.active_tasks 1
    pub others :
        (p'.workers ≡ p.workers)
        × (p'.is_closed ≡ p.is_closed)
        × (p'.max_queue_size ≡ p.max_queue_size)

  pub take_task-takes : (p : Pool A) (t : A) (p' : Pool A) → take_task p ≡ takes t p' → Takes p t p'
  unfolding take_task pop_front
  take_task-takes p t p' h = ground arith

  take_task-returns : (p : Pool A) → take_task p ≡ returns → (p.is_closed ≡ true) × (p.tasks ≡ [])
  unfolding take_task pop_front
  take_task-returns p h = ground arith

  perm_start :
      (t : A) (started completed old new : List A)
      → Perm started (completed ++ old)
      → Perm new (t ∷ old)
      → Perm (started ++ (t ∷ [])) (completed ++ new)
  perm_start t started completed old new h k = Perm.trans (perm_middle started []) (
      rw (append-nil started) (
        Perm.trans (Perm.cons t h) (
          Perm.trans (Perm.symm (perm_middle completed old))
            (Perm.append_left completed (Perm.symm k)))))

  takes-IsSound :
      (i : ℕ) (r : Run A)
      → IsSound r
      → (t : A) (p : Pool A) → Takes r.pool t p
      → Begins t r.pool.workers (set r.pool.workers i (running t))
      → IsSound (wake_step i (takes t p) r)
  unfolding wake_step set_worker
  takes-IsSound i r v t p k b =
      let w : set p.workers i (running t) ≡ set r.pool.workers i (running t) =
        ap (λ x. set x i (running t)) k.others.0 in
      record {
        counted = omega (
          arith,
          k.counts,
          v.counted,
          b.one_more,
          ap (λ x. length (in_flight x)) w,
          v.few,
          length-in_flight (set r.pool.workers i (running t)),
          length-set r.pool.workers i (running t),
        );
        few = omega (arith, v.few, ap length w, length-set r.pool.workers i (running t));
        bounded = omega (arith, v.bounded, ap length k.front, k.others.2);
        fifo = v.fifo ∙ ap (◌++◌ r.started) k.front ∙ sym (append_assoc r.started (t ∷ []) p.tasks);
        executed = rw w (
            perm_start t r.started r.completed (in_flight r.pool.workers)
              (in_flight (set r.pool.workers i (running t))) v.executed b.more);
        drained = λ q.
            let (_, nothing) = v.drained (sym b.same ∙ ap any_returned (sym w) ∙ q) in
            absurd (cc (k.front, nothing));
      }

  wake_step-IsSound :
      (i : ℕ) (r : Run A)
      → IsSound r
      → get_elem? r.pool.workers i ≡ some waiting
      → (t : Taken A) → take_task r.pool ≡ t
      → IsSound (wake_step i t r)
  unfolding wake_step set_worker
  wake_step-IsSound i r v h sleeps e = v
  wake_step-IsSound i r v h returns e =
      let same = in_flight-set_returned r.pool.workers i h in
      record {
        counted = v.counted ∙ ap length (sym same);
        few = omega (arith, length-set r.pool.workers i returned, v.few);
        bounded = v.bounded;
        fifo = v.fifo;
        executed = rw same v.executed;
        drained = λ _. take_task-returns r.pool e;
      }
  wake_step-IsSound i r v h (takes t p) e =
      takes-IsSound i r v t p (take_task-takes r.pool t p e) (begins t r.pool.workers i h)

  finish_worker-IsSound :
      (i : ℕ) (r : Run A)
      → IsSound r
      → (t : A) → get_elem? r.pool.workers i ≡ some (running t)
      → IsSound (finish_worker i (some (running t)) r)
  unfolding finish_worker set_worker finish_task
  finish_worker-IsSound i r v t h =
      let b = ends t r.pool.workers i h in
      record {
        counted = omega (arith, v.counted, b.one_more, v.few, length-in_flight r.pool.workers);
        few = omega (arith, v.few, length-set r.pool.workers i waiting);
        bounded = v.bounded;
        fifo = v.fifo;
        executed =
            Perm.trans v.executed
              (Perm.trans (Perm.append_left r.completed b.more) (perm_middle r.completed _));
        drained = λ q. v.drained (b.same ∙ q);
      }

  finish-IsSound :
      (i : ℕ) (r : Run A)
      → IsSound r
      → (w : Option (Worker A)) → get_elem? r.pool.workers i ≡ w
      → IsSound (finish_worker i w r)
  unfolding finish_worker
  finish-IsSound i r v none e = v
  finish-IsSound i r v (some waiting) e = v
  finish-IsSound i r v (some (running t)) e = finish_worker-IsSound i r v t e
  finish-IsSound i r v (some returned) e = v

  wake-IsSound :
      (i : ℕ) (r : Run A)
      → IsSound r
      → (w : Option (Worker A)) → get_elem? r.pool.workers i ≡ w
      → IsSound (wake_worker i w r)
  unfolding wake_worker
  wake-IsSound i r v none e = v
  wake-IsSound i r v (some waiting) e = wake_step-IsSound i r v e (take_task r.pool) refl
  wake-IsSound i r v (some (running t)) e = v
  wake-IsSound i r v (some returned) e = v

  step-IsSound : (e : Event A) (r : Run A) → IsSound r → IsSound (step e r)
  unfolding step close_pool
  step-IsSound (submit task) r v = submit-IsSound task r v
  step-IsSound (wake i) r v = wake-IsSound i r v (get_elem? r.pool.workers i) refl
  step-IsSound (finish i) r v = finish-IsSound i r v (get_elem? r.pool.workers i) refl
  step-IsSound close r v = record {
    counted = v.counted;
    few = v.few;
    bounded = v.bounded;
    fifo = v.fifo;
    executed = v.executed;
    drained = λ q. (refl, (v.drained q).1);
  }

  start-IsSound : (n max_queue_size : ℕ) → n < size_mod → IsSound (start n max_queue_size)
  unfolding start create
  start-IsSound n m h = record {
    counted = ap length (sym (fresh_workers n).0);
    few = omega (arith, length-replicate {A = Worker A} n waiting);
    bounded = omega arith;
    fifo = refl;
    executed = subst (Perm []) (sym (fresh_workers n).0) Perm.rfl;
    drained = λ e. cc ((fresh_workers n).1);
  }

  run-IsSound : (es : List (Event A)) (r : Run A) → IsSound r → IsSound (run es r)
  unfolding run
  run-IsSound [] r v = v
  run-IsSound (e ∷ es) r v = run-IsSound es (step e r) (step-IsSound e r v)

  -- Whatever the interleaving of submissions, workers' rounds and the destructor's closing: the
  -- queue is never longer than `maxQueueSize`, `activeTasks` counts the running workers, the tasks
  -- accepted are in order those started and then those in the queue, and those started are those
  -- that have ended or run, each once; a worker has returned only from a closed and empty pool.
  pub run-start-IsSound :
      (thread_count max_queue_size : ℕ) (es : List (Event A))
      → thread_count < size_mod
      → IsSound (run es (start thread_count max_queue_size))
  run-start-IsSound n m es h = run-IsSound es _ (start-IsSound n m h)
