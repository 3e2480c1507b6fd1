-- ===== src/EventLoop.antt =====
-- code/network/core/event_loop.h and event_loop.cc: the loop, its queue of functors and its wake-up
-- descriptor. A functor is a value of the type `A`, and running it is recorded in `ran`. What one
-- thread does between two points where another may come in is one event, and the threads'
-- interleaving is any sequence of events (`run`). The kernel's eventfd is a parameter: `fd_write` and
-- `fd_read` on its counter. What `HandleEvent` and `Tick` do outside the loop is not in this state.
pub mod Functors
pub mod Wakeup
pub mod Rounds
mod Tests
use light_rpc.Prelude.{ℕ, zero, suc, Bool, true, false, List, [], ◌∷◌, ◌++◌, if◌then◌else◌, ◌==◌}
use light_rpc.Prelude.Int.{ℤ, pos}
use light_rpc.Prelude.Eq.{nat_eq}
use light_rpc.Channel.{Channel}
use light_rpc.Epoller.{CtlOp, EpollEvent, get_event_fd, add_fd, mod_fd, del_fd}
use light_rpc.Prelude.{Option}

pub record EventLoop (A : Type 0) : Type 0 where
  pub quit : Bool
  pub wakeup_fd : ℕ
  pub signal : ℕ
  pub pending_functors : List A

-- Where the loop's thread stands: not in `Loop`, at the test of `quit_`, in `Wait`, before
-- `HandlePendingFunctors`, or in it, with the functors it has swapped out.
pub data Place (A : Type 0) : Type 0 where
  outside : Place A
  testing : Place A
  polling : Place A
  swapping : Place A
  running : List A → Place A

pub data Event (A : Type 0) : Type 0 where
  pushes : A → Event A
  wakes : Event A
  quits : Event A
  starts : Event A
  tests : Event A
  polls : List EpollEvent → Event A
  swaps : Event A
  executes : Event A

-- A loop with its history: the functors queued, those that have been run, and how many calls of
-- `QueueInLoop` and `Quit` have not yet come to their `Wakeup`.
pub record Run (A : Type 0) : Type 0 where
  pub loop : EventLoop A
  pub place : Place A
  pub queued : List A
  pub ran : List A
  pub owed : ℕ

-- `UpdateChannel`, `AddChannel` and `RemoveChannel`, on the epoll instance's state.
module _ {K : Type 0} (ctl : CtlOp → ℕ → EpollEvent → K → Option ℕ × K) (enoent garbage : ℕ) where
  pub add_channel : Channel → ℕ → K → K
  add_channel channel address k =
      (add_fd ctl enoent garbage (pos channel.fd) channel.events address k).1

  pub update_channel : Channel → ℕ → K → K
  update_channel channel address k =
      (mod_fd ctl enoent garbage (pos channel.fd) channel.events address k).1

  pub remove_channel : Channel → K → K
  remove_channel channel k = (del_fd ctl enoent garbage (pos channel.fd) k).1

module _ {A : Type 0} (fd_write fd_read : ℕ → ℕ) where
  pub create : ℕ → EventLoop A
  create wakeup_fd = record {
    quit = false;
    wakeup_fd = wakeup_fd;
    signal = 0;
    pending_functors = [];
  }

  unfoldable pub wakeup : EventLoop A → EventLoop A
  wakeup l = record l { signal = fd_write l.signal }

  -- The locked section of `QueueInLoop`, before its `Wakeup`.
  unfoldable pub push_functor : A → EventLoop A → EventLoop A
  push_functor cb l = record l { pending_functors = l.pending_functors ++ (cb ∷ []) }

  -- `RunInLoop`: whether the functor is run at once, and the loop.
  pub run_in_loop : Bool → A → EventLoop A → Bool × EventLoop A
  unfolding wakeup push_functor
  run_in_loop in_loop_thread cb l =
      if in_loop_thread then (true, l) else (false, wakeup (push_functor cb l))

  -- What an entry of `Wait` does to the loop: the wake-up descriptor is read where the entry's
  -- number is its.
  pub handle_entry : EpollEvent → EventLoop A → EventLoop A
  handle_entry e l =
      if get_event_fd e == l.wakeup_fd then record l { signal = fd_read l.signal } else l

  pub handle_entries : List EpollEvent → EventLoop A → EventLoop A
  unfolding handle_entry
  handle_entries [] l = l
  handle_entries (e ∷ es) l = handle_entries es (handle_entry e l)

  unfoldable pub test_place : Bool → Place A → Place A
  test_place quit testing = if quit then outside else polling
  test_place quit p = p

  poll_step : List EpollEvent → Place A → Run A → Run A
  unfolding handle_entries
  poll_step es polling r = record r { loop = handle_entries es r.loop; place = swapping }
  poll_step es _ r = r

  -- The locked section of `HandlePendingFunctors`.
  swap_step : Place A → Run A → Run A
  swap_step swapping r = record r {
    loop = record r.loop { pending_functors = [] };
    place = running r.loop.pending_functors;
  }
  swap_step _ r = r

  -- One round of its loop.
  execute_step : Place A → Run A → Run A
  execute_step (running []) r = record r { place = testing }
  execute_step (running (cb ∷ cbs)) r = record r { place = running cbs; ran = r.ran ++ (cb ∷ []) }
  execute_step _ r = r

  unfoldable pub start_step : Place A → Run A → Run A
  start_step outside r = record r { loop = record r.loop { quit = false }; place = testing }
  start_step _ r = r

  unfoldable pub wake_step : ℕ → Run A → Run A
  unfolding wakeup
  wake_step zero r = r
  wake_step (suc n) r = record r { loop = wakeup r.loop; owed = n }

  unfoldable pub step : Event A → Run A → Run A
  unfolding push_functor test_place poll_step swap_step execute_step start_step wake_step
  step (pushes cb) r = record r {
    loop = push_functor cb r.loop;
    queued = r.queued ++ (cb ∷ []);
    owed = suc r.owed;
  }
  step wakes r = wake_step r.owed r
  step quits r = record r { loop = record r.loop { quit = true }; owed = suc r.owed }
  step starts r = start_step r.place r
  step tests r = record r { place = test_place r.loop.quit r.place }
  step (polls es) r = poll_step es r.place r
  step swaps r = swap_step r.place r
  step executes r = execute_step r.place r

  pub run : List (Event A) → Run A → Run A
  run [] r = r
  run (e ∷ es) r = run es (step e r)

  unfoldable pub fresh : ℕ → Run A
  unfolding create
  fresh wakeup_fd = record {
    loop = create wakeup_fd;
    place = outside;
    queued = [];
    ran = [];
    owed = 0;
  }
