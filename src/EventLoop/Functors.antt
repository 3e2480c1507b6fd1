-- ===== src/EventLoop/Functors.antt =====
-- EventLoop: every functor is run once, in the order of queueing, and no wake-up is lost.
use light_rpc.Prelude.{
  ℕ, suc, ◌+◌, ◌<◌, ◌≡◌, ◌⊎◌, inl, inr, refl, sym, ap, ◌∙◌, List, [], ◌∷◌, ◌++◌, append_assoc,
  append-nil, arith, length, replicate,
}
use light_rpc.EventLoop.{
  EventLoop, Place, outside, testing, polling, swapping, running, Event, pushes, wakes, quits,
  starts, tests, polls, swaps, executes, Run, create, handle_entry, handle_entries, poll_step,
  swap_step, execute_step, start_step, wake_step, step, run, fresh,
}
use light_rpc.Epoller.{EpollEvent}

module _ {A : Type 0} where
  -- The functors that have been swapped out and not yet run.
  abbrev pub in_hand : Place A → List A
  in_hand outside = []
  in_hand testing = []
  in_hand polling = []
  in_hand swapping = []
  in_hand (running cbs) = cbs

  -- The functor that an event runs.
  abbrev pub next_functor : Place A → List A
  next_functor (running (cb ∷ cbs)) = cb ∷ []
  next_functor _ = []

  abbrev pub run_now : Event A → Place A → List A
  run_now executes p = next_functor p
  run_now _ p = []

  abbrev pub pushed : Event A → List A
  pushed (pushes cb) = cb ∷ []
  pushed _ = []

  pub record IsSound (r : Run A) : Type 0 where
    -- What was queued has been run, is about to be, or is pending: in that order.
    pub fifo : r.queued ≡ r.ran ++ (in_hand r.place ++ r.loop.pending_functors)
    -- Unless it is about to look at them, a loop with pending functors has its descriptor signalled
    -- or is owed a wake-up.
    pub woken : (r.place ≡ swapping) ⊎ (r.loop.pending_functors ≡ []) ⊎ (0 < r.owed + r.loop.signal)

module _ {A : Type 0} (fd_write fd_read : ℕ → ℕ) (signals : (n : ℕ) → 0 < fd_write n) where
  handle_entries_pending :
      (es : List EpollEvent) (l : EventLoop A)
      → (handle_entries fd_write fd_read es l).pending_functors ≡ l.pending_functors
  unfolding handle_entries
  handle_entries_pending [] l = refl
  handle_entries_pending (e ∷ es) l =
      ground (arith, handle_entries_pending es (handle_entry fd_write fd_read e l))

  regroup :
      (r : List A) (h p : List A) (cb : A)
      → (r ++ (h ++ p)) ++ (cb ∷ []) ≡ r ++ (h ++ (p ++ (cb ∷ [])))
  regroup r h p cb = append_assoc r (h ++ p) (cb ∷ []) ∙ ap (◌++◌ r) (append_assoc h p (cb ∷ []))

  execute-IsSound :
      (p : Place A) (r : Run A)
      → r.place ≡ p
      → IsSound r
      → IsSound (execute_step fd_write fd_read p r)
  unfolding execute_step
  execute-IsSound outside r h v = v
  execute-IsSound testing r h v = v
  execute-IsSound polling r h v = v
  execute-IsSound swapping r h v = v
  execute-IsSound (running []) r h v = ground arith
  execute-IsSound (running (cb ∷ cbs)) r h v =
      ground (arith, append_assoc r.ran (cb ∷ []) (cbs ++ r.loop.pending_functors))

  pub step-IsSound : (e : Event A) (r : Run A) → IsSound r → IsSound (step fd_write fd_read e r)
  unfolding step
  step-IsSound (pushes cb) r v =
      ground (arith, regroup r.ran (in_hand r.place) r.loop.pending_functors cb)
  step-IsSound wakes r v = ground (arith, signals r.loop.signal)
  step-IsSound quits r v = ground arith
  step-IsSound starts r v = ground arith
  step-IsSound tests r v = ground arith
  step-IsSound (polls es) r v = ground (arith, handle_entries_pending es r.loop)
  step-IsSound swaps r v = ground (arith, append-nil r.loop.pending_functors)
  step-IsSound executes r v = execute-IsSound r.place r refl v

  pub step_queued :
      (e : Event A) (r : Run A) → (step fd_write fd_read e r).queued ≡ r.queued ++ pushed e
  unfolding step start_step wake_step poll_step swap_step execute_step
  step_queued (pushes cb) r = refl
  step_queued wakes r = ground (arith, append-nil r.queued)
  step_queued quits r = sym (append-nil r.queued)
  step_queued starts r = ground (arith, append-nil r.queued)
  step_queued tests r = sym (append-nil r.queued)
  step_queued (polls es) r = ground (arith, append-nil r.queued)
  step_queued swaps r = ground (arith, append-nil r.queued)
  step_queued executes r = ground (arith, append-nil r.queued)

  execute_ran :
      (p : Place A) (r : Run A) → (execute_step fd_write fd_read p r).ran ≡ r.ran ++ next_functor p
  unfolding execute_step
  execute_ran outside r = sym (append-nil r.ran)
  execute_ran testing r = sym (append-nil r.ran)
  execute_ran polling r = sym (append-nil r.ran)
  execute_ran swapping r = sym (append-nil r.ran)
  execute_ran (running []) r = sym (append-nil r.ran)
  execute_ran (running (cb ∷ cbs)) r = refl

  pub step_ran :
      (e : Event A) (r : Run A) → (step fd_write fd_read e r).ran ≡ r.ran ++ run_now e r.place
  unfolding step start_step wake_step poll_step swap_step
  step_ran (pushes cb) r = sym (append-nil r.ran)
  step_ran wakes r = ground (arith, append-nil r.ran)
  step_ran quits r = sym (append-nil r.ran)
  step_ran starts r = ground (arith, append-nil r.ran)
  step_ran tests r = sym (append-nil r.ran)
  step_ran (polls es) r = ground (arith, append-nil r.ran)
  step_ran swaps r = ground (arith, append-nil r.ran)
  step_ran executes r = execute_ran r.place r

  run-IsSound : (es : List (Event A)) (r : Run A) → IsSound r → IsSound (run fd_write fd_read es r)
  unfolding run
  run-IsSound [] r v = v
  run-IsSound (e ∷ es) r v = run-IsSound es (step fd_write fd_read e r) (step-IsSound e r v)

  -- Whatever the threads do and in whatever order: the functors that were queued are, in the order
  -- of queueing and each once, those that have been run, those the loop has in hand, and those
  -- pending. And a loop that is about to wait while functors are pending has its descriptor
  -- signalled, or a thread is about to signal it.
  pub run-fresh-IsSound :
      (es : List (Event A)) (wakeup_fd : ℕ)
      → IsSound (run fd_write fd_read es (fresh fd_write fd_read wakeup_fd))
  unfolding fresh create
  run-fresh-IsSound es wakeup_fd =
      run-IsSound es (fresh fd_write fd_read wakeup_fd)
        (record { fifo = refl; woken = inr (inl refl) })

  execute_all :
      (cbs : List A) (r : Run A)
      → r.place ≡ running cbs
      → let r' = run fd_write fd_read (replicate (suc (length cbs)) executes) r in
        (r'.place ≡ testing) × (r'.ran ≡ r.ran ++ cbs)
  unfolding run step
  execute_all [] r h = ground (arith, append-nil r.ran)
  execute_all (cb ∷ cbs) r h =
      ground (
        arith,
        execute_all cbs (step fd_write fd_read executes r),
        append_assoc r.ran (cb ∷ []) cbs,
      )

  -- A loop that has returned from `Wait` runs, in one call of `HandlePendingFunctors`, all the
  -- functors that are pending, in order, and is back at its test with none left.
  pub round_runs_pending :
      (r : Run A)
      → r.place ≡ swapping
      → let r' =
          run fd_write fd_read
            (swaps ∷ replicate (suc (length r.loop.pending_functors)) executes)
            r in
        (r'.place ≡ testing) × (r'.ran ≡ r.ran ++ r.loop.pending_functors)
  unfolding run step
  round_runs_pending r h =
      ground (arith, execute_all r.loop.pending_functors (step fd_write fd_read swaps r))
