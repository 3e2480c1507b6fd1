-- ===== src/Timer/Schedule.antt =====
-- TimeWheel: when a timer fires.
use light_rpc.Prelude.{
  ℕ, ◌+◌, ◌-◌, ◌*◌, ◌/◌, ◌%◌, ◌<◌, ◌≡◌, ◌≢◌, ◌⊎◌, inl, inr, refl, false, List, [], ◌∷◌, ◌++◌, arith,
  ◌==◌, none, Bool-cases, ==_self,
}
use light_rpc.Prelude.Int.{pos}
use light_rpc.Prelude.Eq.{nat_eq}
use light_rpc.Prelude.Assoc.{lookup}
use light_rpc.Timer.{
  TimerNode, TimeWheel, wheel_size, ns_per_ms, set_slot, schedule, add_timer, visit, advance,
}
use light_rpc.Timer.Sweep.{In, In-append_right, In-append-cases}
use light_rpc.Timer.Pending.{Pending, Gone, fires, fires-Gone, advance-Pending}

-- A wheel in which the next serial number is unused.
pub record IsFresh (w : TimeWheel) : Type 0 where
  pub in_range : w.current_slot < wheel_size
  pub ticking : 0 < w.tick_ms
  pub unused : (s : ℕ) (n : TimerNode) → In n (w.slots s) → n.serial < w.next_serial

pub set_slot-cases :
    (t s : ℕ) (slots : ℕ → List TimerNode) (m n : TimerNode)
    → In n (set_slot t (slots t ++ (m ∷ [])) slots s)
    → In n (slots s) ⊎ ((s ≡ t) × (n ≡ m))
set_slot-cases t s slots m n h = elim (Bool-cases (s == t)) [
  | inl e ↦
      let here : s ≡ t = ground arith in
      elim (In-append-cases n (slots t) (m ∷ []) (rw e at h)) [
        | inl old ↦ inl (rw here old)
        | inr (inl same) ↦ inr (here, same)
        | inr (inr nothing) ↦ absurd nothing
      ]
  | inr e ↦ inl (rw e at h)
]

visits_new :
    (c k : ℕ)
    → c < wheel_size
    → ((c + k) % wheel_size + wheel_size - c) % wheel_size + wheel_size * (k / wheel_size) ≡ k
visits_new c k h = omega arith

pub schedule-Pending :
    (now id cb delay_ms : ℕ) {w : TimeWheel}
    → IsFresh w
    → Pending w.next_serial
        (delay_ms / w.tick_ms)
        (now + delay_ms * ns_per_ms)
        cb
        (schedule now id cb delay_ms w)
unfolding schedule
schedule-Pending now id cb delay_ms {w} v = record {
  in_wheel = v.in_range;
  slot = target;
  node = node;
  stored = rw (==_self target) (In-append_right node (w.slots target) (node ∷ []) (inl refl));
  named = refl;
  all = λ s n h e. elim (set_slot-cases target s w.slots node n h) [
    | inl old ↦ absurd (omega (arith, v.unused s n old))
    | inr (here, same) ↦
        rw (here, same) (omega arith, visits_new w.current_slot total v.in_range, refl, refl, refl)
  ];
}
  where
    total : ℕ
    total = delay_ms / w.tick_ms

    target : ℕ
    target = (w.current_slot + total) % wheel_size

    node : TimerNode
    node = record {
      serial = w.next_serial;
      id = id;
      cb = cb;
      expire = now + delay_ms * ns_per_ms;
      is_deleted = false;
      rounds = total / wheel_size;
    }

-- A timer of `delay_ms` on a wheel where its id is free fires in the visit number
-- `delay_ms / tick_ms` after the call (counting from 0) and not before, if no reading of the clock
-- in the visits before reaches its deadline and it is not removed; it runs its own callback, and no
-- node of it is left to fire again.
pub add_timer_fires :
    (now id cb delay_ms : ℕ) (w : TimeWheel) (clock : ℕ → TimerNode → ℕ)
    → IsFresh w
    → lookup id w.timer_map ≡ none
    → ((j : ℕ) (n : TimerNode) → j < delay_ms / w.tick_ms → clock j n < now + delay_ms * ns_per_ms)
    → let k = delay_ms / w.tick_ms in
      let (w1, before) = advance k clock (add_timer now id cb (pos delay_ms) w) in
      let (w2, at_k) = visit (clock k) w1 in
      ((n : TimerNode) → In n before → n.serial ≢ w.next_serial)
      × ((n : TimerNode) × In n at_k × (n.serial ≡ w.next_serial) × (n.cb ≡ cb))
      × Gone w.next_serial w2
unfolding add_timer
add_timer_fires now id cb delay_ms w clock v free early =
    rw (free, add_timer)
      (let (p, quiet) =
          advance-Pending (delay_ms / w.tick_ms) clock (schedule-Pending now id cb delay_ms v)
            early in
        (
          quiet,
          fires (clock (delay_ms / w.tick_ms)) p,
          fires-Gone (clock (delay_ms / w.tick_ms)) p,
        ))
