-- ===== src/ThreadPool.antt =====
-- code/base/pool/threadpool.h. The locked sections of the pool are functions on its state; what
-- the scheduler makes of them is any sequence of events (`run`), each one locked section of one
-- thread. A task is a value of the type `A`; running it happens between `wake` and `finish` of its
-- worker, and an exception that it throws is swallowed there.
pub mod Workers
pub mod Invariant
pub mod Drain
pub mod Hands
mod Tests
use light_rpc.Prelude.{
  ℕ, ◌+◌, Bool, true, false, not, ◌&&◌, ◌||◌, List, [], ◌∷◌, ◌++◌, Option, none, some,
  if◌then◌else◌, leb, ◌==◌, length, replicate, get_elem?, set, is_empty,
}
use light_rpc.Prelude.Words.{add_size, sub_size}

-- Where a worker's thread stands: at the condition variable, in a task, or past its loop.
pub data Worker (A : Type 0) : Type 0 where
  waiting : Worker A
  running : A → Worker A
  returned : Worker A

pub record Pool (A : Type 0) : Type 0 where
  pub is_closed : Bool
  pub tasks : List A
  pub workers : List (Worker A)
  pub active_tasks : ℕ
  pub max_queue_size : ℕ

pub data AddError : Type 0 where
  pool_is_closed queue_full : AddError

pub data Taken (A : Type 0) : Type 0 where
  sleeps : Taken A
  returns : Taken A
  takes : A → Pool A → Taken A

pub data Event (A : Type 0) : Type 0 where
  submit : A → Event A
  wake : ℕ → Event A
  finish : ℕ → Event A
  close : Event A

-- A pool with its history: the tasks accepted, those taken by a worker, those that have ended.
pub record Run (A : Type 0) : Type 0 where
  pub pool : Pool A
  pub accepted : List A
  pub started : List A
  pub completed : List A

module _ {A : Type 0} where
  pub create : ℕ → ℕ → Pool A
  create thread_count max_queue_size = record {
    is_closed = false;
    tasks = [];
    workers = replicate thread_count waiting;
    active_tasks = 0;
    max_queue_size = max_queue_size;
  }

  -- `throw` is an error; `none` is a normal return.
  pub add_task : A → Pool A → Option AddError × Pool A
  add_task task p =
      if p.is_closed
      then (some pool_is_closed, p)
      else if leb p.max_queue_size (length p.tasks)
      then (some queue_full, p)
      else (none, record p { tasks = p.tasks ++ (task ∷ []) })

  unfoldable pub try_add_task : A → Pool A → Bool × Pool A
  try_add_task task p =
      if p.is_closed
      then (false, p)
      else if leb p.max_queue_size (length p.tasks)
      then (false, p)
      else (true, record p { tasks = p.tasks ++ (task ∷ []) })

  -- The condition that `WaitForTasks` waits for.
  unfoldable pub wait_for_tasks : Pool A → Bool
  wait_for_tasks p = is_empty p.tasks && (p.active_tasks == 0)

  pop_front : List A → Pool A → Taken A
  pop_front [] p = sleeps
  pop_front (task ∷ rest) p =
      takes task (record p { tasks = rest; active_tasks = add_size p.active_tasks 1 })

  -- The first locked section of a worker's round.
  pub take_task : Pool A → Taken A
  unfolding pop_front
  take_task p =
      if not (p.is_closed || not (is_empty p.tasks))
      then sleeps
      else if p.is_closed && is_empty p.tasks
      then returns
      else pop_front p.tasks p

  -- The second one, with whether it notifies `condEmpty`.
  pub finish_task : Pool A → Bool × Pool A
  finish_task p =
      let active = sub_size p.active_tasks 1 in
      ((active == 0) && is_empty p.tasks, record p { active_tasks = active })

  -- The destructor, up to its `join`s.
  pub close_pool : Pool A → Pool A
  close_pool p = record p { is_closed = true }

  set_worker : ℕ → Worker A → Pool A → Pool A
  set_worker i w p = record p { workers = set p.workers i w }

  submit_step : A → Bool × Pool A → Run A → Run A
  submit_step task (true, p) r = record r { pool = p; accepted = r.accepted ++ (task ∷ []) }
  submit_step task (false, p) r = record r { pool = p }

  wake_step : ℕ → Taken A → Run A → Run A
  unfolding set_worker
  wake_step i sleeps r = r
  wake_step i returns r = record r { pool = set_worker i returned r.pool }
  wake_step i (takes task p) r = record r {
    pool = set_worker i (running task) p;
    started = r.started ++ (task ∷ []);
  }

  -- Only a waiting worker wakes, and only a running one finishes.
  wake_worker : ℕ → Option (Worker A) → Run A → Run A
  unfolding wake_step
  wake_worker i (some waiting) r = wake_step i (take_task r.pool) r
  wake_worker i _ r = r

  finish_worker : ℕ → Option (Worker A) → Run A → Run A
  unfolding set_worker
  finish_worker i (some (running task)) r = record r {
    pool = set_worker i waiting (finish_task r.pool).1;
    completed = task ∷ r.completed;
  }
  finish_worker i _ r = r

  -- Whether the event is a `finish` that notifies the threads in `WaitForTasks`.
  worker_notifies : Option (Worker A) → Pool A → Bool
  worker_notifies (some (running task)) p = (finish_task p).0
  worker_notifies _ p = false

  pub notifies : Event A → Run A → Bool
  unfolding worker_notifies
  notifies (finish i) r = worker_notifies (get_elem? r.pool.workers i) r.pool
  notifies _ r = false

  pub step : Event A → Run A → Run A
  unfolding submit_step wake_worker finish_worker
  step (submit task) r = submit_step task (try_add_task task r.pool) r
  step (wake i) r = wake_worker i (get_elem? r.pool.workers i) r
  step (finish i) r = finish_worker i (get_elem? r.pool.workers i) r
  step close r = record r { pool = close_pool r.pool }

  pub start : ℕ → ℕ → Run A
  start thread_count max_queue_size = record {
    pool = create thread_count max_queue_size;
    accepted = [];
    started = [];
    completed = [];
  }

  pub run : List (Event A) → Run A → Run A
  run [] r = r
  run (e ∷ es) r = run es (step e r)

  pub with_pool : Pool A → Run A
  with_pool p = record { pool = p; accepted = []; started = []; completed = [] }

  -- The pool alone.
  pub pool_step : Event A → Pool A → Pool A
  unfolding with_pool
  pool_step e p = (step e (with_pool p)).pool
