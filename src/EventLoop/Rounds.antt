-- ===== src/EventLoop/Rounds.antt =====
-- EventLoop: what the loop's thread does of itself, round by round.
use light_rpc.Prelude.{ℕ, ◌≡◌, refl, ◌∙◌, Bool, true, false, List, [], ◌∷◌, arith}
use light_rpc.Prelude.Eq.{nat_eq}
use light_rpc.Epoller.{EpollEvent}
use light_rpc.EventLoop.{
  EventLoop, Place, outside, testing, polling, swapping, running, Event, tests, polls, swaps,
  executes, starts, pushes, wakes, quits, Run, handle_entry, handle_entries, poll_step, swap_step,
  execute_step, test_place, step,
}

module _ {A : Type 0} where
  abbrev pub is_inside : Place A → Bool
  is_inside outside = false
  is_inside testing = true
  is_inside polling = true
  is_inside swapping = true
  is_inside (running cbs) = true

  -- The events of the loop's thread within `Loop`.
  abbrev pub is_own : Event A → Bool
  is_own tests = true
  is_own (polls es) = true
  is_own swaps = true
  is_own executes = true
  is_own (pushes cb) = false
  is_own wakes = false
  is_own quits = false
  is_own starts = false

  module _ (fd_write fd_read : ℕ → ℕ) where
    quit-handle_entries :
        (es : List EpollEvent) (l : EventLoop A)
        → (handle_entries fd_write fd_read es l).quit ≡ l.quit
    unfolding handle_entries handle_entry
    quit-handle_entries [] l = refl
    quit-handle_entries (e ∷ es) l =
        quit-handle_entries es (handle_entry fd_write fd_read e l) ∙ ground arith

    poll-quit :
        (es : List EpollEvent) (p : Place A) (r : Run A)
        → (poll_step fd_write fd_read es p r).loop.quit ≡ r.loop.quit
    unfolding poll_step
    poll-quit es outside r = refl
    poll-quit es testing r = refl
    poll-quit es polling r = quit-handle_entries es r.loop
    poll-quit es swapping r = refl
    poll-quit es (running cbs) r = refl

    -- The loop's own events leave `quit_` as it is.
    pub quit-step :
        (e : Event A) (r : Run A)
        → is_own e ≡ true
        → (step fd_write fd_read e r).loop.quit ≡ r.loop.quit
    unfolding step swap_step execute_step
    quit-step tests r h = refl
    quit-step (polls es) r h = poll-quit es r.place r
    quit-step swaps r h = ground arith
    quit-step executes r h = ground arith
    quit-step (pushes cb) r h = absurd (ground (arith, h))
    quit-step wakes r h = absurd (ground (arith, h))
    quit-step quits r h = absurd (ground (arith, h))
    quit-step starts r h = absurd (ground (arith, h))

    -- While `quit_` is false, they do not lead out of `Loop`.
    pub inside-step :
        (e : Event A) (r : Run A)
        → is_own e ≡ true
        → r.loop.quit ≡ false
        → is_inside r.place ≡ true
        → is_inside (step fd_write fd_read e r).place ≡ true
    unfolding step swap_step execute_step poll_step test_place
    inside-step tests r h q i = ground (arith, q, i)
    inside-step (polls es) r h q i = ground (arith, i)
    inside-step swaps r h q i = ground (arith, i)
    inside-step executes r h q i = ground (arith, i)
    inside-step (pushes cb) r h q i = absurd (ground (arith, h))
    inside-step wakes r h q i = absurd (ground (arith, h))
    inside-step quits r h q i = absurd (ground (arith, h))
    inside-step starts r h q i = absurd (ground (arith, h))

    pub place-tests :
        (r : Run A)
        → r.loop.quit ≡ true
        → r.place ≡ testing
        → (step fd_write fd_read tests r).place ≡ outside
    unfolding step test_place
    place-tests r q p = ground (arith, q, p)

    pub place-polls :
        (r : Run A) → r.place ≡ polling → (step fd_write fd_read (polls []) r).place ≡ swapping
    unfolding step poll_step
    place-polls r p = ground (arith, p)

    pub place-swaps :
        (r : Run A)
        → r.place ≡ swapping
        → (step fd_write fd_read swaps r).place ≡ running r.loop.pending_functors
    unfolding step swap_step
    place-swaps r p = ground (arith, p)

    pub place-executes :
        (r : Run A) (cb : A) (cbs : List A)
        → r.place ≡ running (cb ∷ cbs)
        → (step fd_write fd_read executes r).place ≡ running cbs
    unfolding step execute_step
    place-executes r cb cbs p = ground (arith, p)

    pub place-executes_none :
        (r : Run A) → r.place ≡ running [] → (step fd_write fd_read executes r).place ≡ testing
    unfolding step execute_step
    place-executes_none r p = ground (arith, p)

    pub pending-polls :
        (r : Run A)
        → (step fd_write fd_read (polls []) r).loop.pending_functors ≡ r.loop.pending_functors
    unfolding step poll_step handle_entries
    pending-polls r = ground arith
