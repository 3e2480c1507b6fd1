-- ===== src/Timer/Pending.antt =====
-- TimeWheel: a timer that waits, and what a visit of a slot does to it.
use light_rpc.Prelude.{
  ℕ, zero, suc, ◌+◌, ◌-◌, ◌*◌, ◌%◌, ◌<◌, ◌≡◌, ◌≢◌, ◌⊎◌, inl, inr, subst, false, arith, ◌==◌,
  Bool-cases, ==_of_ne, ==_self,
}
use light_rpc.Prelude.Eq.{nat_eq}
use light_rpc.Timer.{TimerNode, TimeWheel, wheel_size, visit, advance}
use light_rpc.Timer.Sweep.{In, In-append-cases, sweep-In, sweep-fired_cases, sweep-kept_cases}

-- How many slots are visited before the one in which a node of this slot fires.
abbrev pub visits_left : TimeWheel → ℕ → TimerNode → ℕ
visits_left w slot n = (slot + wheel_size - w.current_slot) % wheel_size + wheel_size * n.rounds

-- The nodes with this serial number are those of one live timer, `k` visits before it is due.
pub record Pending (serial k expire cb : ℕ) (w : TimeWheel) : Type 0 where
  pub in_wheel : w.current_slot < wheel_size
  pub slot : ℕ
  pub node : TimerNode
  pub stored : In node (w.slots slot)
  pub named : node.serial ≡ serial
  pub all :
      (s : ℕ) (n : TimerNode)
      → In n (w.slots s)
      → n.serial ≡ serial
      → (s < wheel_size)
        × (visits_left w s n ≡ k)
        × (n.expire ≡ expire)
        × (n.cb ≡ cb)
        × (n.is_deleted ≡ false)

-- No node in the wheel has this serial number.
abbrev pub Gone : ℕ → TimeWheel → Type 0
Gone serial w = (s : ℕ) (n : TimerNode) → In n (w.slots s) → n.serial ≢ serial

-- What a visit leaves in a slot: a node of another slot, or one of the swept slot with a round less.
pub visit_cases :
    (clock : TimerNode → ℕ) (w : TimeWheel) (s : ℕ) (n : TimerNode)
    → In n ((visit clock w).0.slots s)
    → ((s ≢ w.current_slot) × In n (w.slots s))
      ⊎ ((s ≡ w.current_slot) × In (record n { rounds = suc n.rounds }) (w.slots s))
unfolding visit
visit_cases clock w s n h = elim (Bool-cases (s == w.current_slot)) [
  | inl e ↦
      let here : s ≡ w.current_slot = ground arith in
      elim (sweep-kept_cases clock (w.slots w.current_slot) _ n (rw e at h)) [
        | inl none_before ↦ absurd none_before
        | inr old ↦ inr (here, rw here old)
      ]
  | inr e ↦ inl (ground arith, rw e at h)
]

-- Where a visit puts the nodes of a slot.
pub visit_other :
    (clock : TimerNode → ℕ) (w : TimeWheel) (s : ℕ) (n : TimerNode)
    → s ≢ w.current_slot
    → In n (w.slots s)
    → In n ((visit clock w).0.slots s)
unfolding visit
visit_other clock w s n ne h = rw (==_of_ne s w.current_slot ne) h

visit_here :
    (clock : TimerNode → ℕ) (w : TimeWheel) (n : TimerNode)
    → In n (w.slots w.current_slot)
    → n.is_deleted ≡ false
    → n.rounds ≢ 0
    → clock n < n.expire
    → In (record n { rounds = n.rounds - 1 }) ((visit clock w).0.slots w.current_slot)
unfolding visit
visit_here clock w n h d r c =
    rw (==_self w.current_slot) ((sweep-In clock (w.slots w.current_slot) _ n h d).1 r c)

-- One slot further, every node that is not in the swept slot is one visit nearer, and one that is
-- has a round less and 1023 slots to go.
visits_other :
    (s c r : ℕ)
    → s < wheel_size
    → c < wheel_size
    → s ≢ c
    → (s + wheel_size - c) % wheel_size + wheel_size * r
      ≡ suc ((s + wheel_size - (c + 1) % wheel_size) % wheel_size + wheel_size * r)
visits_other s c r h k ne = omega arith

visits_here :
    (c r : ℕ)
    → c < wheel_size
    → (c + wheel_size - c) % wheel_size + wheel_size * suc r
      ≡ suc ((c + wheel_size - (c + 1) % wheel_size) % wheel_size + wheel_size * r)
visits_here c r h = omega arith

-- The invariant's quantified field, at the nodes of the next wheel.
module _ {serial k expire cb : ℕ} {w : TimeWheel} (clock : TimerNode → ℕ)
    (p : Pending serial (suc k) expire cb w) (early : (n : TimerNode) → clock n < expire) where
  next_all :
      (s : ℕ) (n : TimerNode)
      → In n ((visit clock w).0.slots s)
      → n.serial ≡ serial
      → (s < wheel_size)
        × (visits_left (visit clock w).0 s n ≡ k)
        × (n.expire ≡ expire)
        × (n.cb ≡ cb)
        × (n.is_deleted ≡ false)
  unfolding visit
  next_all s n h e = elim (visit_cases clock w s n h) [
    | inl (ne, old) ↦
        let (a, v, x, y, z) = p.all s n old e in
        (a, omega (arith, v, visits_other s w.current_slot n.rounds a p.in_wheel ne), x, y, z)
    | inr (here, old) ↦
        let (a, v, x, y, z) = p.all s (record n { rounds = suc n.rounds }) old e in
        (a, omega (arith, v, here, visits_here w.current_slot n.rounds p.in_wheel), x, y, z)
  ]

  next_stored : (s : ℕ) × (n : TimerNode) × In n ((visit clock w).0.slots s) × (n.serial ≡ serial)
  next_stored =
      let (a, v, x, _, d) = p.all p.slot p.node p.stored p.named in
      elim (Bool-cases (p.slot == w.current_slot)) [
        | inl e ↦
            let here : p.slot ≡ w.current_slot = ground arith in
            (
              w.current_slot,
              record p.node { rounds = p.node.rounds - 1 },
              visit_here clock w p.node (subst (λ j. In p.node (w.slots j)) here p.stored) d
                  (omega (arith, v, here)) (omega (arith, early p.node, x)),
              p.named,
            )
        | inr e ↦
            (p.slot, p.node, visit_other clock w p.slot p.node (ground arith) p.stored, p.named)
      ]

  pub next_Pending : Pending serial k expire cb (visit clock w).0
  unfolding visit
  next_Pending = record {
    in_wheel = omega arith;
    slot = next_stored.0;
    node = next_stored.1;
    stored = next_stored.2;
    named = next_stored.3;
    all = next_all;
  }

  -- It does not fire yet.
  pub not_yet : (n : TimerNode) → In n (visit clock w).1 → n.serial ≢ serial
  unfolding visit
  not_yet n h e = elim (sweep-fired_cases clock (w.slots w.current_slot) _ n h) [
    | inl none_before ↦ none_before
    | inr (old, due) ↦
        let (a, v, x, _, _) = p.all w.current_slot n old e in
        let sooner : clock n < n.expire = omega (arith, early n, x) in omega (arith, due, sooner, v)
  ]

-- The visit that is due fires the timer, with its callback, and no node of it is left.
module _ {serial expire cb : ℕ} {w : TimeWheel} (clock : TimerNode → ℕ)
    (p : Pending serial 0 expire cb w) where
  pub fires : (n : TimerNode) × In n (visit clock w).1 × (n.serial ≡ serial) × (n.cb ≡ cb)
  unfolding visit
  fires =
      let (a, v, _, c, d) = p.all p.slot p.node p.stored p.named in
      let here : p.slot ≡ w.current_slot = omega (arith, v, a, p.in_wheel) in
      (
        p.node,
        (sweep-In clock (w.slots w.current_slot) _ p.node
              (subst (λ j. In p.node (w.slots j)) here p.stored) d).0
            (omega (arith, v)),
        p.named,
        c,
      )

  pub fires-Gone : Gone serial (visit clock w).0
  fires-Gone s n h e = elim (visit_cases clock w s n h) [
    | inl (ne, old) ↦
        let (a, v, _, _, _) = p.all s n old e in absurd (ne (omega (arith, v, a, p.in_wheel)))
    | inr (here, old) ↦
        let (a, v, _, _, _) = p.all s (record n { rounds = suc n.rounds }) old e in
        absurd (omega (arith, v))
  ]

-- After `k` visits before the deadline the timer is due, and has not fired.
pub advance-Pending :
    {serial expire cb : ℕ} (k : ℕ) (clock : ℕ → TimerNode → ℕ) {w : TimeWheel}
    → Pending serial k expire cb w
    → ((j : ℕ) (n : TimerNode) → j < k → clock j n < expire)
    → Pending serial 0 expire cb (advance k clock w).0
      × ((n : TimerNode) → In n (advance k clock w).1 → n.serial ≢ serial)
unfolding advance
advance-Pending zero clock p early = (p, λ n h. absurd h)
advance-Pending (suc k) clock {w} p early =
    let soon : (n : TimerNode) → clock 0 n < _ = λ n. early 0 n (omega arith) in
    let (later, quiet) =
      advance-Pending k (λ j. clock (suc j)) (next_Pending (clock 0) p soon)
        (λ j n h. early (suc j) n (omega arith)) in
    (
      later,
      λ n h. elim (In-append-cases n (visit (clock 0) w).1 _ h) [
        | inl first ↦ not_yet (clock 0) p soon n first
        | inr rest ↦ quiet n rest
      ],
    )
