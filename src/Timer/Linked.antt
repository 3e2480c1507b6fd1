-- ===== src/Timer/Linked.antt =====
-- TimeWheel: adding and sweeping keep `timer_map_` linked to the nodes.
use light_rpc.Prelude.{
  ℕ, zero, suc, ◌+◌, ◌-◌, ◌*◌, ◌/◌, ◌%◌, ◌<◌, ◌≡◌, inl, inr, refl, sym, ap, ◌∙◌, false, List, [],
  ◌∷◌, ◌++◌, arith, ◌==◌, some, Bool-cases, ==_self,
}
use light_rpc.Prelude.Int.{ℤ, pos, negsuc}
use light_rpc.Prelude.Eq.{nat_eq}
use light_rpc.Prelude.Assoc.{lookup, lookup-erase, lookup-insert}
use light_rpc.Timer.{
  TimerNode, TimeWheel, Swept, set_slot, schedule, add_timer, sweep_node, sweep, visit, advance,
  tick, wheel_size, ns_per_ms,
}
use light_rpc.Timer.Sweep.{In, In-append_left, In-append_right, sweep-kept}
use light_rpc.Timer.Schedule.{set_slot-cases}
use light_rpc.Timer.Pending.{visit_cases}

-- Each entry of the map points at a node that is in the slot it names, of its id, and not deleted.
pub record IsLinked (w : TimeWheel) : Type 0 where
  pub unused : (s : ℕ) (n : TimerNode) → In n (w.slots s) → n.serial < w.next_serial
  pub one_place :
      (s t : ℕ) (n m : TimerNode)
      → In n (w.slots s)
      → In m (w.slots t)
      → n.serial ≡ m.serial
      → (s ≡ t) × (n.id ≡ m.id)
  pub linked :
      (id slot serial : ℕ)
      → lookup id w.timer_map ≡ some (slot, serial)
      → (n : TimerNode) × In n (w.slots slot)
        × (n.serial ≡ serial)
        × (n.id ≡ id)
        × (n.is_deleted ≡ false)

In-set_slot :
    (t s : ℕ) (slots : ℕ → List TimerNode) (m n : TimerNode)
    → In n (slots s)
    → In n (set_slot t (slots t ++ (m ∷ [])) slots s)
In-set_slot t s slots m n h = elim (Bool-cases (s == t)) [
  | inl e ↦
      let here : s ≡ t = ground arith in rw e (In-append_left n (slots t) (m ∷ []) (rw here at h))
  | inr e ↦ rw e h
]

schedule-IsLinked :
    (now id cb delay_ms : ℕ) (w : TimeWheel) → IsLinked w → IsLinked (schedule now id cb delay_ms w)
unfolding schedule
schedule-IsLinked now id cb delay_ms w v = record {
  unused = λ s n h. elim (set_slot-cases target s w.slots node n h) [
    | inl old ↦ omega (arith, v.unused s n old)
    | inr (here, same) ↦ rw same (omega arith)
  ];
  one_place = λ s t n m h k e. elim (set_slot-cases target s w.slots node n h) [
    | inl old ↦ elim (set_slot-cases target t w.slots node m k) [
      | inl old' ↦ v.one_place s t n m old old' e
      | inr (here, same) ↦ absurd (omega (arith, v.unused s n old, serial_of m same))
    ]
    | inr (here, same) ↦ elim (set_slot-cases target t w.slots node m k) [
      | inl old' ↦ absurd (omega (arith, v.unused t m old', serial_of n same))
      | inr (here', same') ↦ (here ∙ sym here', id_of n same ∙ sym (id_of m same'))
    ]
  ];
  linked = λ id' slot serial h. elim (Bool-cases (id == id')) [
    | inl e ↦
        let (same_slot, same_serial) : (target ≡ slot) × (w.next_serial ≡ serial) =
          ground (arith, lookup-insert id id' (target, w.next_serial) w.timer_map) in
        (
          node,
          rw (← same_slot, ==_self target)
              (In-append_right node (w.slots target) (node ∷ []) (inl refl)),
          same_serial,
          ground arith,
          refl,
        )
    | inr e ↦
        let (n, stored, named, own, live) =
          v.linked id' slot serial
            (ground (arith, lookup-insert id id' (target, w.next_serial) w.timer_map)) in
        (n, In-set_slot target slot w.slots node n stored, named, own, live)
  ];
}
  where
    total : ℕ
    total = delay_ms / w.tick_ms

    target : ℕ
    target = (w.current_slot + total) % wheel_size

    node : TimerNode
    node = record {
      serial = w.next_serial;
      id = id;
      cb = cb;
      expire = now + delay_ms * ns_per_ms;
      is_deleted = false;
      rounds = total / wheel_size;
    }

    serial_of : (m : TimerNode) → m ≡ node → m.serial ≡ w.next_serial
    serial_of m e = ap (λ (x : TimerNode). x.serial) e

    id_of : (m : TimerNode) → m ≡ node → m.id ≡ id
    id_of m e = ap (λ (x : TimerNode). x.id) e

-- A sweep only takes entries away, and takes that of each node that it does not keep.
sweep-lookup :
    (clock : TimerNode → ℕ) (nodes : List TimerNode) (s : Swept) (id : ℕ) (entry : ℕ × ℕ)
    → lookup id (sweep clock nodes s).timer_map ≡ some entry
    → lookup id s.timer_map ≡ some entry
unfolding sweep sweep_node
sweep-lookup clock [] s id entry h = h
sweep-lookup clock (x ∷ xs) s id entry h = ground (
  arith,
  sweep-lookup clock xs (sweep_node clock x s) id entry h,
  lookup-erase x.id id s.timer_map,
)

sweep_keeps_linked :
    (clock : TimerNode → ℕ) (nodes : List TimerNode) (s : Swept) (id : ℕ) (entry : ℕ × ℕ)
    (n : TimerNode)
    → lookup id (sweep clock nodes s).timer_map ≡ some entry
    → In n nodes
    → n.id ≡ id
    → In (record n { rounds = n.rounds - 1 }) (sweep clock nodes s).kept
unfolding sweep sweep_node
sweep_keeps_linked clock [] s id entry n h k e = absurd k
sweep_keeps_linked clock (x ∷ xs) s id entry n h (inr k) e =
    sweep_keeps_linked clock xs (sweep_node clock x s) id entry n h k e
sweep_keeps_linked clock (x ∷ xs) s id entry n h (inl same) e =
    sweep-kept clock xs (sweep_node clock x s) _ (
      ground (
        arith,
        sweep-lookup clock xs (sweep_node clock x s) id entry h,
        lookup-erase x.id id s.timer_map,
        In-append_right (record n { rounds = n.rounds - 1 }) s.kept
            (record x { rounds = x.rounds - 1 } ∷ []),
      ))

-- What a visit leaves stems from a node of the same slot, number and id.
visit_from :
    (clock : TimerNode → ℕ) (w : TimeWheel) (s : ℕ) (n : TimerNode)
    → In n ((visit clock w).0.slots s)
    → (m : TimerNode) × In m (w.slots s) × (m.serial ≡ n.serial) × (m.id ≡ n.id)
visit_from clock w s n h = elim (visit_cases clock w s n h) [
  | inl (_, old) ↦ (n, old, refl, refl)
  | inr (_, old) ↦ (record n { rounds = suc n.rounds }, old, refl, refl)
]

visit_links :
    (clock : TimerNode → ℕ) (w : TimeWheel) (id slot serial : ℕ)
    → IsLinked w
    → lookup id (visit clock w).0.timer_map ≡ some (slot, serial)
    → (n : TimerNode) × In n ((visit clock w).0.slots slot)
      × (n.serial ≡ serial)
      × (n.id ≡ id)
      × (n.is_deleted ≡ false)
unfolding visit
visit_links clock w id slot serial v h =
    let s0 : Swept = record { kept = []; timer_map = w.timer_map; fired = [] } in
    let (n, stored, named, own, live) =
      v.linked id slot serial
        (sweep-lookup clock (w.slots w.current_slot) s0 id (slot, serial) h) in
    elim (Bool-cases (slot == w.current_slot)) [
      | inl e ↦
          let here : slot ≡ w.current_slot = ground arith in
          (
            record n { rounds = n.rounds - 1 },
            rw e (
                sweep_keeps_linked clock (w.slots w.current_slot) s0 id (slot, serial) n h
                  (rw here at stored) own),
            named,
            own,
            live,
          )
      | inr e ↦ (n, rw e stored, named, own, live)
    ]

visit_unused :
    (clock : TimerNode → ℕ) (w : TimeWheel) → ((visit clock w).0.next_serial ≡ w.next_serial)
unfolding visit
visit_unused clock w = refl

visit-IsLinked : (clock : TimerNode → ℕ) (w : TimeWheel) → IsLinked w → IsLinked (visit clock w).0
visit-IsLinked clock w v = record {
  unused = λ s n h.
      let (m, old, same, _) = visit_from clock w s n h in
      omega (arith, v.unused s m old, visit_unused clock w);
  one_place = λ s t n m h k e.
      let (n', old, same, own) = visit_from clock w s n h in
      let (m', old', same', own') = visit_from clock w t m k in
      let (place, ids) = v.one_place s t n' m' old old' (same ∙ e ∙ sym same') in
      (place, sym own ∙ ids ∙ own');
  linked = λ id slot serial h. visit_links clock w id slot serial v h;
}

pub advance-IsLinked :
    (k : ℕ) (clock : ℕ → TimerNode → ℕ) (w : TimeWheel)
    → IsLinked w
    → IsLinked (advance k clock w).0
unfolding advance
advance-IsLinked zero clock w v = v
advance-IsLinked (suc k) clock w v =
    advance-IsLinked k (λ j. clock (suc j)) (visit (clock 0) w).0 (visit-IsLinked (clock 0) w v)

pub tick-IsLinked :
    (now : ℕ) (clock : ℕ → TimerNode → ℕ) (w : TimeWheel)
    → IsLinked w
    → IsLinked (tick now clock w).0
unfolding tick
tick-IsLinked now clock w v =
    ground (arith, advance-IsLinked ((now - w.last_tick_time) / ns_per_ms / w.tick_ms) clock w v)

pub add_timer-IsLinked :
    (now id cb : ℕ) (delay : ℤ) (w : TimeWheel)
    → IsLinked w
    → IsLinked (add_timer now id cb delay w)
unfolding add_timer
add_timer-IsLinked now id cb (negsuc n) w v = v
add_timer-IsLinked now id cb (pos delay_ms) w v =
    ground (arith, schedule-IsLinked now id cb delay_ms w v)
