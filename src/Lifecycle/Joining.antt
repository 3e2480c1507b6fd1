-- ===== src/Lifecycle/Joining.antt =====
-- Lifecycle: a client that is stopped before its thread has come to `Loop`.
use light_rpc.Prelude.{
  ℕ, ◌≡◌, refl, sym, ap, ◌∙◌, subst, true, false, List, [], ◌∷◌, ◌++◌, arith, if◌then◌else◌,
}
use light_rpc.EventLoop
use light_rpc.EventLoop.{Place, outside, testing, polling, swapping, running}
use light_rpc.EventLoop.Rounds.{is_inside, is_own, quit-step, inside-step}
use light_rpc.Lifecycle.{
  Functor, stops, MainStep, queues, wakes_loop, joins, start_steps, stop_steps, create, created,
  entered, RpcClient, Event, main_runs, thread_enters, loop_tests, loop_polls, loop_swaps,
  loop_executes, after_test, loop_step, can_join, main_step, enter, in_loop, test, step, run,
}

-- What `Stop` does after its `join`.
abbrev pub after_join : List MainStep
after_join = queues stops ∷ wakes_loop ∷ []

-- The caller goes through `Stop` up to its `join` before the thread enters `Loop`.
abbrev pub early : List Event
early = main_runs ∷ main_runs ∷ main_runs ∷ main_runs ∷ main_runs ∷ main_runs ∷ thread_enters ∷ []

module _ (fd_write fd_read : ℕ → ℕ) where
  record IsStuck (c : RpcClient) : Type 0 where
    at_join : c.main ≡ joins ∷ after_join
    inside : c.thread ≡ entered
    no_quit : c.loop.loop.quit ≡ false
    in_place : is_inside c.loop.place ≡ true

  own_event :
      (e : EventLoop.Event Functor) (c : RpcClient)
      → is_own e ≡ true
      → IsStuck c
      → IsStuck (in_loop fd_write fd_read e c.thread c)
  unfolding in_loop loop_step
  own_event e c h v =
      subst (λ t. IsStuck (in_loop fd_write fd_read e t c)) (sym v.inside)
        (record {
          at_join = v.at_join;
          inside = v.inside;
          no_quit = quit-step fd_write fd_read e c.loop h ∙ v.no_quit;
          in_place = inside-step fd_write fd_read e c.loop h v.no_quit v.in_place;
        })

  still_entered : (p : Place Functor) → is_inside p ≡ true → after_test p ≡ entered
  unfolding after_test
  still_entered outside h = absurd (ground (arith, h))
  still_entered testing h = refl
  still_entered polling h = refl
  still_entered swapping h = refl
  still_entered (running cbs) h = refl

  test-IsStuck : (c : RpcClient) → IsStuck c → IsStuck (test fd_write fd_read c.thread c)
  unfolding test loop_step
  test-IsStuck c v =
      let in_place =
        inside-step fd_write fd_read EventLoop.tests c.loop refl v.no_quit v.in_place in
      subst (λ t. IsStuck (test fd_write fd_read t c)) (sym v.inside)
        (record {
          at_join = v.at_join;
          inside =
              still_entered (EventLoop.step fd_write fd_read EventLoop.tests c.loop).place in_place;
          no_quit = quit-step fd_write fd_read EventLoop.tests c.loop refl ∙ v.no_quit;
          in_place = in_place;
        })

  join_waits : (c : RpcClient) → IsStuck c → main_step fd_write fd_read (joins ∷ after_join) c ≡ c
  unfolding main_step can_join
  join_waits c v =
      ap (λ t. if can_join fd_write fd_read t then record c { main = after_join } else c) v.inside

  step-IsStuck : (e : Event) (c : RpcClient) → IsStuck c → IsStuck (step fd_write fd_read e c)
  unfolding step enter
  step-IsStuck main_runs c v =
      subst (λ m. IsStuck (main_step fd_write fd_read m c)) (sym v.at_join)
        (subst IsStuck (sym (join_waits c v)) v)
  step-IsStuck thread_enters c v =
      subst (λ t. IsStuck (enter fd_write fd_read t c)) (sym v.inside) v
  step-IsStuck loop_tests c v = test-IsStuck c v
  step-IsStuck (loop_polls es) c v = own_event (EventLoop.polls es) c refl v
  step-IsStuck loop_swaps c v = own_event EventLoop.swaps c refl v
  step-IsStuck loop_executes c v = own_event EventLoop.executes c refl v

  run-IsStuck : (es : List Event) (c : RpcClient) → IsStuck c → IsStuck (run fd_write fd_read es c)
  unfolding run
  run-IsStuck [] c v = v
  run-IsStuck (e ∷ es) c v = run-IsStuck es (step fd_write fd_read e c) (step-IsStuck e c v)

  pub run-append :
      (xs ys : List Event) (c : RpcClient)
      → run fd_write fd_read (xs ++ ys) c ≡ run fd_write fd_read ys (run fd_write fd_read xs c)
  unfolding run
  run-append [] ys c = refl
  run-append (e ∷ xs) ys c = run-append xs ys (step fd_write fd_read e c)

  early-IsStuck :
      (c : RpcClient)
      → c.main ≡ stop_steps
      → c.thread ≡ created
      → c.loop.place ≡ outside
      → IsStuck (run fd_write fd_read early c)
  unfolding run step main_step loop_step enter EventLoop.step EventLoop.push_functor
      EventLoop.wakeup EventLoop.wake_step EventLoop.start_step
  early-IsStuck c m t p = record {
    at_join = ground (arith, m, t, p);
    inside = ground (arith, m, t, p);
    no_quit = ground (arith, m, t, p);
    in_place = ground (arith, m, t, p);
  }

  -- A client that is started and stopped at once: where `Stop` comes to its `join` before the new
  -- thread has entered `Loop`, which then sets `quit_` to false, the `join` waits for ever. Whatever
  -- events follow, the caller stands at it.
  pub early_stop_hangs :
      (es : List Event)
      → (run fd_write fd_read
          (main_runs ∷ main_runs ∷ main_runs ∷ (early ++ es))
          (create (start_steps ++ stop_steps))).main
        ≡ joins ∷ after_join
  unfolding run step main_step loop_step create EventLoop.step EventLoop.push_functor
      EventLoop.wakeup EventLoop.wake_step EventLoop.fresh
  early_stop_hangs es =
      let c : RpcClient =
        run fd_write fd_read (main_runs ∷ main_runs ∷ main_runs ∷ [])
          (create (start_steps ++ stop_steps)) in
      ap (λ (x : RpcClient). x.main) (run-append early es c)
      ∙ (run-IsStuck es (run fd_write fd_read early c) (early-IsStuck c refl refl refl)).at_join
