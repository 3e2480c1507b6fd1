-- ===== src/Timer/Tests.antt =====
-- Tests of the time wheel.
use light_rpc.Prelude.{ℕ, ◌≡◌, ◌≢◌, refl, List, [], ◌∷◌, arith}
use light_rpc.Prelude.Int.{pos}
use light_rpc.Timer.{
  create, TimerNode, TimeWheel, visit, advance, schedule, add_timer, remove_timer, tick, sweep,
  sweep_node,
}
use light_rpc.Prelude.Assoc.{lookup, insert, erase}
use light_rpc.Timer.Sweep.{In}
use light_rpc.Timer.Pending.{Gone}
use light_rpc.Timer.Schedule.{IsFresh, add_timer_fires}
use light_rpc.Timer.Linked.{IsLinked}
use light_rpc.Timer.Links.{Event, adds, ticks, run, run-create-IsLinked, removed_never_fires}

-- An empty wheel with 10 ms to a tick, at time 0, and a clock that stands still.
abbrev wheel : TimeWheel
wheel = create 10 0

abbrev still : ℕ → TimerNode → ℕ
still j n = 0

wheel-IsFresh : IsFresh wheel
unfolding create
wheel-IsFresh = record { in_range = omega arith; ticking = omega arith; unused = λ s n h. absurd h }

add_timer_fires_example :
    let (w1, before) = advance 3 still (add_timer 0 4 9 (pos 30) wheel) in
    let (w2, at_3) = visit (still 3) w1 in
    ((n : TimerNode) → In n before → n.serial ≢ 0)
    × ((n : TimerNode) × In n at_3 × (n.serial ≡ 0) × (n.cb ≡ 9))
    × Gone 0 w2
unfolding create lookup
add_timer_fires_example =
    add_timer_fires 0 4 9 30 wheel still wheel-IsFresh refl (λ j n h. omega arith)

-- One timer fires and another is removed.
abbrev some_events : List Event
some_events = adds 0 4 9 (pos 30) ∷ adds 0 5 8 (pos 10) ∷ ticks 20000000 still ∷ []

run-create-IsLinked_example : IsLinked (run some_events (create 10 0))
run-create-IsLinked_example = run-create-IsLinked some_events 10 0

removed_never_fires_example : ¬ (
    (n : TimerNode) × In n (advance 50 still (remove_timer 4 (run some_events (create 10 0)))).1
    × (n.serial ≡ 0))
unfolding create lookup add_timer schedule insert erase tick advance visit sweep sweep_node
removed_never_fires_example = removed_never_fires some_events 10 0 4 3 0 50 still refl
