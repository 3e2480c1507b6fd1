-- ===== src/EventLoop/Wakeup.antt =====
-- EventLoop: where waking up and quitting go wrong.
use light_rpc.Prelude.{ℕ, ◌<◌, ◌≡◌, ◌≢◌, ◌%◌, refl, sym, ap, ◌∙◌, List, [], ◌∷◌, ◌++◌, arith}
use light_rpc.EventLoop.{
  EventLoop, outside, testing, polling, Event, pushes, wakes, quits, starts, tests, polls, swaps,
  executes, Run, handle_entries, step, run,
}
use light_rpc.Prelude.Words.{u32_mod}
use light_rpc.Channel.{Events}
use light_rpc.Epoller.{EpollEvent, make_event, get_event_fd}

-- An entry that `Wait` can store holds the payload that one of the registrations of `Epoller::AddFd`
-- and `ModFd` has handed to the kernel: the wake-up descriptor's, with `nullptr` for the channel
-- (`RegisterWakeupFd`), or a channel's, whose address does not end in the wake-up descriptor's
-- number. `garbage` is what the uninitialised `ev` held.
pub data Stored (wakeup_fd : ℕ) (e : EpollEvent) : Type 0 where
  of_wakeup :
      (watched : Events) (garbage : ℕ)
      → e.payload ≡ (make_event wakeup_fd watched 0 garbage).payload
      → Stored wakeup_fd e
  of_channel :
      (fd : ℕ) (watched : Events) (address garbage : ℕ)
      → address % u32_mod ≢ wakeup_fd
      → e.payload ≡ (make_event fd watched address garbage).payload
      → Stored wakeup_fd e

abbrev pub Registered : ℕ → List EpollEvent → Type 0
Registered wakeup_fd [] = Unit {0}
Registered wakeup_fd (e ∷ es) = Stored wakeup_fd e × Registered wakeup_fd es

abbrev pub AllRegistered : {A : Type 0} → ℕ → List (Event A) → Type 0
AllRegistered wakeup_fd [] = Unit {0}
AllRegistered wakeup_fd (polls ready ∷ es) = Registered wakeup_fd ready × AllRegistered wakeup_fd es
AllRegistered wakeup_fd (_ ∷ es) = AllRegistered wakeup_fd es

-- The union's `fd` has been overwritten by the pointer, so no entry compares equal to the wake-up
-- descriptor.
not_wakeup :
    (wakeup_fd : ℕ) (e : EpollEvent)
    → wakeup_fd ≢ 0
    → Stored wakeup_fd e
    → get_event_fd e ≢ wakeup_fd
not_wakeup wakeup_fd e h (of_wakeup watched garbage p) =
    λ same. h (sym same ∙ ap (λ n. n % u32_mod) p)
not_wakeup wakeup_fd e h (of_channel fd watched address garbage far p) =
    λ same. far (sym (ap (λ n. n % u32_mod) p) ∙ same)

module _ {A : Type 0} (fd_write fd_read : ℕ → ℕ) where
  entries_same :
      (es : List EpollEvent) (l : EventLoop A)
      → l.wakeup_fd ≢ 0
      → Registered l.wakeup_fd es
      → handle_entries fd_write fd_read es l ≡ l
  unfolding handle_entries
  entries_same [] l h g = refl
  entries_same (e ∷ es) l h (g, gs) =
      ground (arith, not_wakeup l.wakeup_fd e h g, entries_same es l h gs)

  step_signal :
      (e : Event A) (r : Run A)
      → ((n : ℕ) → 0 < fd_write n)
      → r.loop.wakeup_fd ≢ 0
      → AllRegistered r.loop.wakeup_fd (e ∷ [])
      → 0 < r.loop.signal
      → (0 < (step fd_write fd_read e r).loop.signal)
        × ((step fd_write fd_read e r).loop.wakeup_fd ≡ r.loop.wakeup_fd)
  unfolding step
  step_signal (pushes cb) r w h g s = ground arith
  step_signal wakes r w h g s = ground (arith, w r.loop.signal)
  step_signal quits r w h g s = ground arith
  step_signal starts r w h g s = ground arith
  step_signal tests r w h g s = ground arith
  step_signal (polls es) r w h g s = ground (arith, entries_same es r.loop h g.0)
  step_signal swaps r w h g s = ground arith
  step_signal executes r w h g s = ground arith

  one_and_rest :
      (fd : ℕ) (e : Event A) (es : List (Event A))
      → AllRegistered fd (e ∷ es)
      → AllRegistered fd (e ∷ []) × AllRegistered fd es
  one_and_rest fd (pushes cb) es g = (tt, g)
  one_and_rest fd wakes es g = (tt, g)
  one_and_rest fd quits es g = (tt, g)
  one_and_rest fd starts es g = (tt, g)
  one_and_rest fd tests es g = (tt, g)
  one_and_rest fd (polls ready) es g = ((g.0, tt), g.1)
  one_and_rest fd swaps es g = (tt, g)
  one_and_rest fd executes es g = (tt, g)

  -- The descriptor is never read. `AddFd` stores the channel's pointer over the descriptor's number
  -- in the union, so an entry with the payload that `AddFd` gave for the wake-up descriptor, whose
  -- pointer is null, does not compare equal to it: once signalled, it stays so, whatever the
  -- threads and the kernel do. (The wake-up descriptor is not 0, no channel's address ends in its
  -- number, and a write leaves the counter positive.)
  pub stays_signalled :
      (es : List (Event A)) (r : Run A)
      → ((n : ℕ) → 0 < fd_write n)
      → r.loop.wakeup_fd ≢ 0
      → AllRegistered r.loop.wakeup_fd es
      → 0 < r.loop.signal
      → 0 < (run fd_write fd_read es r).loop.signal
  unfolding run
  stays_signalled [] r w h g s = s
  stays_signalled (e ∷ es) r w h g s =
      let (g1, g2) = one_and_rest r.loop.wakeup_fd e es g in
      let (still, same) = step_signal e r w h g1 s in
      stays_signalled es (step fd_write fd_read e r) w (rw same h) (rw same g2) still

  -- Two races of `Quit`. Where a thread queues a functor and then quits while the loop is about to
  -- test `quit_`, the loop returns with the functor pending and not run. And a `Quit` that comes
  -- before the loop's thread has entered `Loop` is undone by it: the loop goes on to wait.
  pub quit_races :
      (cb : A) (r r0 : Run A)
      → r.place ≡ testing
      → r0.place ≡ outside
      → let r' = run fd_write fd_read (pushes cb ∷ wakes ∷ quits ∷ wakes ∷ tests ∷ []) r in
        (r'.place ≡ outside)
        × (r'.ran ≡ r.ran)
        × (r'.loop.pending_functors ≡ r.loop.pending_functors ++ (cb ∷ []))
        × ((run fd_write fd_read (quits ∷ starts ∷ tests ∷ []) r0).place ≡ polling)
  unfolding run step
  quit_races cb r r0 h k = ground arith
