-- ===== src/Timer/Links.antt =====
-- TimeWheel: `timer_map_` never dangles, and a removed timer never fires.
use light_rpc.Prelude.{
  ℕ, ◌≡◌, ◌≢◌, inl, inr, refl, sym, ◌∙◌, List, [], ◌∷◌, arith, ◌==◌, some, Bool-cases, Option-cases,
}
use light_rpc.Prelude.Int.{ℤ}
use light_rpc.Prelude.Eq.{nat_eq}
use light_rpc.Prelude.Assoc.{lookup, erase, lookup-erase}
use light_rpc.Timer.{
  TimerNode, TimeWheel, set_slot, create, add_timer, mark_deleted, remove_timer, advance, tick,
}
use light_rpc.Timer.Sweep.{In}
use light_rpc.Timer.Removal.{remove_timer_silences}
use light_rpc.Timer.Linked.{IsLinked, tick-IsLinked, add_timer-IsLinked}

mark_from :
    (serial : ℕ) (nodes : List TimerNode) (n : TimerNode)
    → In n (mark_deleted serial nodes)
    → (m : TimerNode) × In m nodes × (m.serial ≡ n.serial) × (m.id ≡ n.id)
unfolding mark_deleted
mark_from serial [] n h = absurd h
mark_from serial (x ∷ xs) n (inl e) = (x, inl refl, ground arith, ground arith)
mark_from serial (x ∷ xs) n (inr h) =
    let (m, old, same, own) = mark_from serial xs n h in (m, inr old, same, own)

mark_spares :
    (serial : ℕ) (nodes : List TimerNode) (n : TimerNode)
    → In n nodes
    → n.serial ≢ serial
    → In n (mark_deleted serial nodes)
unfolding mark_deleted
mark_spares serial [] n h ne = absurd h
mark_spares serial (x ∷ xs) n (inl e) ne = inl (ground arith)
mark_spares serial (x ∷ xs) n (inr h) ne = inr (mark_spares serial xs n h ne)

mark_slot_from :
    (slot serial s : ℕ) (slots : ℕ → List TimerNode) (n : TimerNode)
    → In n (set_slot slot (mark_deleted serial (slots slot)) slots s)
    → (m : TimerNode) × In m (slots s) × (m.serial ≡ n.serial) × (m.id ≡ n.id)
mark_slot_from slot serial s slots n h = elim (Bool-cases (s == slot)) [
  | inl e ↦
      let here : s ≡ slot = ground arith in
      let (m, old, same, own) = mark_from serial (slots slot) n (rw e at h) in
      (m, rw here old, same, own)
  | inr e ↦ (n, rw e at h, refl, refl)
]

mark_slot_spares :
    (slot serial s : ℕ) (slots : ℕ → List TimerNode) (n : TimerNode)
    → In n (slots s)
    → n.serial ≢ serial
    → In n (set_slot slot (mark_deleted serial (slots slot)) slots s)
mark_slot_spares slot serial s slots n h ne = elim (Bool-cases (s == slot)) [
  | inl e ↦
      let here : s ≡ slot = ground arith in
      rw e (mark_spares serial (slots slot) n (rw here at h) ne)
  | inr e ↦ rw e h
]

removed-IsLinked :
    (id slot serial : ℕ) (w : TimeWheel)
    → lookup id w.timer_map ≡ some (slot, serial)
    → IsLinked w
    → IsLinked (record w {
      slots = set_slot slot (mark_deleted serial (w.slots slot)) w.slots;
      timer_map = erase id w.timer_map;
    })
removed-IsLinked id slot serial w found v = record {
  unused = λ s n h.
      let (m, old, same, _) = mark_slot_from slot serial s w.slots n h in
      omega (arith, v.unused s m old);
  one_place = λ s t n m h k e.
      let (n', old, same, own) = mark_slot_from slot serial s w.slots n h in
      let (m', old', same', own') = mark_slot_from slot serial t w.slots m k in
      let (place, ids) = v.one_place s t n' m' old old' (same ∙ e ∙ sym same') in
      (place, sym own ∙ ids ∙ own');
  linked = λ id' slot' serial' h.
      let (other, kept) : (id ≢ id') × (lookup id' w.timer_map ≡ some (slot', serial')) =
        ground (arith, lookup-erase id id' w.timer_map) in
      let (n, stored, named, own, live) = v.linked id' slot' serial' kept in
      let (gone, gone_stored, gone_named, gone_own, _) = v.linked id slot serial found in
      let apart : n.serial ≢ serial = λ e. other (
        sym gone_own
        ∙ sym (v.one_place slot' slot n gone stored gone_stored (e ∙ sym gone_named)).1
        ∙ own) in
      (n, mark_slot_spares slot serial slot' w.slots n stored apart, named, own, live);
}

remove_timer-IsLinked : (id : ℕ) (w : TimeWheel) → IsLinked w → IsLinked (remove_timer id w)
unfolding remove_timer
remove_timer-IsLinked id w v = elim (Option-cases (lookup id w.timer_map)) [
  | inl e ↦ rw (e, remove_timer) v
  | inr ((slot, serial), e) ↦ rw (e, remove_timer) (removed-IsLinked id slot serial w e v)
]

pub data Event : Type 0 where
  adds : ℕ → ℕ → ℕ → ℤ → Event
  ticks : ℕ → (ℕ → TimerNode → ℕ) → Event
  removes : ℕ → Event

abbrev pub step : Event → TimeWheel → TimeWheel
step (adds now id cb delay) w = add_timer now id cb delay w
step (ticks now clock) w = (tick now clock w).0
step (removes id) w = remove_timer id w

abbrev pub run : List Event → TimeWheel → TimeWheel
run [] w = w
run (e ∷ es) w = run es (step e w)

step-IsLinked : (e : Event) (w : TimeWheel) → IsLinked w → IsLinked (step e w)
step-IsLinked (adds now id cb delay) w v = add_timer-IsLinked now id cb delay w v
step-IsLinked (ticks now clock) w v = tick-IsLinked now clock w v
step-IsLinked (removes id) w v = remove_timer-IsLinked id w v

run-IsLinked : (es : List Event) (w : TimeWheel) → IsLinked w → IsLinked (run es w)
run-IsLinked [] w v = v
run-IsLinked (e ∷ es) w v = run-IsLinked es (step e w) (step-IsLinked e w v)

-- Whatever timers are added, removed and swept, and whatever the clock says: each entry of
-- `timer_map_` points at a node that is still in the wheel, in the slot it names, of the entry's id
-- and not deleted.
pub run-create-IsLinked :
    (es : List Event) (tick_ms now : ℕ) → IsLinked (run es (create tick_ms now))
unfolding create lookup
run-create-IsLinked es tick_ms now = run-IsLinked es (create tick_ms now) (record {
  unused = λ s n h. absurd h;
  one_place = λ s t n m h k e. absurd h;
  linked = λ id slot serial h. absurd (ground (arith, h));
})

-- In any wheel that is so reached: a timer that is in `timer_map_` and is removed never fires, however
-- many slots are visited after that and whatever the clock says.
pub removed_never_fires :
    (es : List Event) (tick_ms now id slot serial k : ℕ) (clock : ℕ → TimerNode → ℕ)
    → lookup id (run es (create tick_ms now)).timer_map ≡ some (slot, serial)
    → ¬ (
        (n : TimerNode) × In n (advance k clock (remove_timer id (run es (create tick_ms now)))).1
        × (n.serial ≡ serial))
removed_never_fires es tick_ms now id slot serial k clock found =
    let w : TimeWheel = run es (create tick_ms now) in
    let v = run-create-IsLinked es tick_ms now in
    let (m, stored, named, _, _) = v.linked id slot serial found in
    remove_timer_silences id slot serial k clock w found
      (λ s n h e. (v.one_place s slot n m h stored (e ∙ sym named)).0)
