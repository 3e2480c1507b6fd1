-- ===== src/Lifecycle/Leaving.antt =====
-- Lifecycle: the `join` of `RpcClient::Stop` returns.
use light_rpc.Prelude.{ℕ, ◌≡◌, refl, sym, ap, ◌∙◌, subst, true, List, [], ◌∷◌, ◌++◌, arith}
use light_rpc.EventLoop
use light_rpc.EventLoop.{Place, outside, testing, polling, swapping, running}
use light_rpc.EventLoop.Rounds.{
  is_inside, is_own, quit-step, place-tests, place-polls, place-swaps, place-executes,
  place-executes_none, pending-polls,
}
use light_rpc.Lifecycle.{
  Functor, MainStep, joins, entered, ended, RpcClient, Event, main_runs, loop_tests, loop_polls,
  loop_swaps, loop_executes, after_test, loop_step, can_join, main_step, in_loop, test, step, run,
}
use light_rpc.Lifecycle.Joining.{run-append}

-- The events by which the loop's thread ends its round and leaves `Loop`.
abbrev executing : List Functor → List Event
executing [] = loop_executes ∷ loop_tests ∷ []
executing (cb ∷ cbs) = loop_executes ∷ executing cbs

abbrev pub leaving : Place Functor → List Functor → List Event
leaving outside pending = []
leaving testing pending = loop_tests ∷ []
leaving polling pending = loop_polls [] ∷ loop_swaps ∷ executing pending
leaving swapping pending = loop_swaps ∷ executing pending
leaving (running cbs) pending = executing cbs

module _ (fd_write fd_read : ℕ → ℕ) where
  -- The thread has left `Loop`, and the caller stands where it stood.
  abbrev HasLeft : RpcClient → RpcClient → Type 0
  HasLeft old new = (new.thread ≡ ended) × (new.main ≡ old.main)

  record IsLeaving (c : RpcClient) (p : Place Functor) : Type 0 where
    inside : c.thread ≡ entered
    quits : c.loop.loop.quit ≡ true
    place : c.loop.place ≡ p

  after_own :
      (e : EventLoop.Event Functor) (c : RpcClient) (p q : Place Functor)
      → is_own e ≡ true
      → IsLeaving c p
      → (EventLoop.step fd_write fd_read e c.loop).place ≡ q
      → IsLeaving (loop_step fd_write fd_read e c) q
  unfolding loop_step
  after_own e c p q h v next = record {
    inside = v.inside;
    quits = quit-step fd_write fd_read e c.loop h ∙ v.quits;
    place = next;
  }

  in_loop_entered :
      (e : EventLoop.Event Functor) (c : RpcClient)
      → c.thread ≡ entered
      → in_loop fd_write fd_read e c.thread c ≡ loop_step fd_write fd_read e c
  unfolding in_loop
  in_loop_entered e c h = ap (λ t. in_loop fd_write fd_read e t c) h

  testing_ends :
      (c : RpcClient) → IsLeaving c testing → HasLeft c (run fd_write fd_read (loop_tests ∷ []) c)
  unfolding run step test loop_step after_test
  testing_ends c v =
      subst (λ t. HasLeft c (test fd_write fd_read t c)) (sym v.inside)
        (ap after_test (place-tests fd_write fd_read c.loop v.quits v.place), refl)

  executing_ends :
      (cbs : List Functor) (c : RpcClient)
      → IsLeaving c (running cbs)
      → HasLeft c (run fd_write fd_read (executing cbs) c)
  unfolding run step loop_step
  executing_ends [] c v =
      subst (λ x. HasLeft c (run fd_write fd_read (loop_tests ∷ []) x))
        (sym (in_loop_entered EventLoop.executes c v.inside))
        (testing_ends (loop_step fd_write fd_read EventLoop.executes c) (
          after_own EventLoop.executes c (running []) testing refl v
            (place-executes_none fd_write fd_read c.loop v.place)))
  executing_ends (cb ∷ cbs) c v =
      subst (λ x. HasLeft c (run fd_write fd_read (executing cbs) x))
        (sym (in_loop_entered EventLoop.executes c v.inside))
        (executing_ends cbs (loop_step fd_write fd_read EventLoop.executes c) (
          after_own EventLoop.executes c (running (cb ∷ cbs)) (running cbs) refl v
            (place-executes fd_write fd_read c.loop cb cbs v.place)))

  swapping_ends :
      (c : RpcClient) (pending : List Functor)
      → c.loop.loop.pending_functors ≡ pending
      → IsLeaving c swapping
      → HasLeft c (run fd_write fd_read (loop_swaps ∷ executing pending) c)
  unfolding run step loop_step
  swapping_ends c pending e v =
      subst (λ x. HasLeft c (run fd_write fd_read (executing pending) x))
        (sym (in_loop_entered EventLoop.swaps c v.inside))
        (executing_ends pending (loop_step fd_write fd_read EventLoop.swaps c) (
          after_own EventLoop.swaps c swapping (running pending) refl v
            (place-swaps fd_write fd_read c.loop v.place ∙ ap running e)))

  polling_ends :
      (c : RpcClient) (pending : List Functor)
      → c.loop.loop.pending_functors ≡ pending
      → IsLeaving c polling
      → HasLeft c (run fd_write fd_read (loop_polls [] ∷ loop_swaps ∷ executing pending) c)
  unfolding run step loop_step
  polling_ends c pending e v =
      subst (λ x. HasLeft c (run fd_write fd_read (loop_swaps ∷ executing pending) x))
        (sym (in_loop_entered (EventLoop.polls []) c v.inside))
        (swapping_ends (loop_step fd_write fd_read (EventLoop.polls []) c) pending
          (pending-polls fd_write fd_read c.loop ∙ e)
          (after_own (EventLoop.polls []) c polling swapping refl v
            (place-polls fd_write fd_read c.loop v.place)))

  leaving_ends :
      (p : Place Functor) (c : RpcClient)
      → is_inside p ≡ true
      → IsLeaving c p
      → HasLeft c (run fd_write fd_read (leaving p c.loop.loop.pending_functors) c)
  leaving_ends outside c h v = absurd (ground (arith, h))
  leaving_ends testing c h v = testing_ends c v
  leaving_ends polling c h v = polling_ends c c.loop.loop.pending_functors refl v
  leaving_ends swapping c h v = swapping_ends c c.loop.loop.pending_functors refl v
  leaving_ends (running cbs) c h v = executing_ends cbs c v

  join_returns :
      (c : RpcClient) (rest : List MainStep)
      → c.thread ≡ ended
      → c.main ≡ joins ∷ rest
      → (run fd_write fd_read (main_runs ∷ []) c).main ≡ rest
  unfolding run step main_step can_join
  join_returns c rest t m = ground (arith, t, m)

  -- Where the loop's thread is in `Loop` and `quit_` is set, the `join` returns: the thread ends its
  -- round, by a poll that finds nothing and the functors that wait, leaves the loop at the next test,
  -- and the caller goes on past the `join`.
  pub stop_returns :
      (c : RpcClient) (rest : List MainStep)
      → c.main ≡ joins ∷ rest
      → c.thread ≡ entered
      → is_inside c.loop.place ≡ true
      → c.loop.loop.quit ≡ true
      → (run fd_write fd_read
          (leaving c.loop.place c.loop.loop.pending_functors ++ (main_runs ∷ []))
          c).main
        ≡ rest
  stop_returns c rest m t i q =
      let events = leaving c.loop.place c.loop.loop.pending_functors in
      let (left, same) =
        leaving_ends c.loop.place c i (record { inside = t; quits = q; place = refl }) in
      ap (λ (x : RpcClient). x.main) (run-append fd_write fd_read events (main_runs ∷ []) c)
      ∙ join_returns (run fd_write fd_read events c) rest left (same ∙ m)
