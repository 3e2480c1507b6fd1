-- ===== src/Timer/Removal.antt =====
-- TimeWheel: what `RemoveTimer` achieves, and where it fails.
use light_rpc.Prelude.{
  ℕ, zero, suc, ◌<◌, ◌≡◌, ◌≢◌, ◌⊎◌, inl, inr, true, false, List, [], ◌∷◌, arith, ◌==◌, none, some,
  Bool-cases, ==_of_eq, sym, subst,
}
use light_rpc.Prelude.Eq.{nat_eq}
use light_rpc.Prelude.Assoc.{lookup, lookup-erase}
use light_rpc.Timer.{
  TimerNode, TimeWheel, Swept, set_slot, mark_deleted, remove_timer, sweep_node, sweep, visit,
  advance,
}
use light_rpc.Timer.Sweep.{In, In-append-cases}
use light_rpc.Timer.Pending.{Pending, visit_cases, next_Pending}

-- Every node of this serial number is marked as deleted.
abbrev pub Marked : ℕ → TimeWheel → Type 0
Marked serial w =
    (s : ℕ) (n : TimerNode) → In n (w.slots s) → n.serial ≡ serial → n.is_deleted ≡ true

-- A node that is fired was not marked.
sweep-fired_live :
    (clock : TimerNode → ℕ) (nodes : List TimerNode) (s : Swept) (n : TimerNode)
    → In n (sweep clock nodes s).fired
    → In n s.fired ⊎ (In n nodes × (n.is_deleted ≡ false))
unfolding sweep sweep_node
sweep-fired_live clock [] s n h = inl h
sweep-fired_live clock (x ∷ xs) s n h = ground (
  arith,
  sweep-fired_live clock xs (sweep_node clock x s) n h,
  In-append-cases n s.fired (x ∷ []),
)

visit-Marked :
    (serial : ℕ) (clock : TimerNode → ℕ) (w : TimeWheel)
    → Marked serial w
    → Marked serial (visit clock w).0
      × ((n : TimerNode) → In n (visit clock w).1 → n.serial ≢ serial)
unfolding visit
visit-Marked serial clock w m = (
  λ s n h e. elim (visit_cases clock w s n h) [
    | inl (_, old) ↦ m s n old e
    | inr (_, old) ↦ m s (record n { rounds = suc n.rounds }) old e
  ],
  λ n h e. elim (sweep-fired_live clock (w.slots w.current_slot) _ n h) [
    | inl nothing ↦ nothing
    | inr (old, live) ↦ cc (m w.current_slot n old e)
  ],
)

advance-Marked :
    (serial k : ℕ) (clock : ℕ → TimerNode → ℕ) (w : TimeWheel)
    → Marked serial w
    → (n : TimerNode) → In n (advance k clock w).1
    → n.serial ≢ serial
unfolding advance
advance-Marked serial zero clock w m n h = absurd h
advance-Marked serial (suc k) clock w m n h =
    let (m', quiet) = visit-Marked serial (clock 0) w m in
    elim (In-append-cases n (visit (clock 0) w).1 _ h) [
      | inl first ↦ quiet n first
      | inr rest ↦ advance-Marked serial k (λ j. clock (suc j)) _ m' n rest
    ]

mark_deleted-In :
    (serial : ℕ) (nodes : List TimerNode) (n : TimerNode)
    → In n (mark_deleted serial nodes)
    → n.serial ≡ serial
    → n.is_deleted ≡ true
unfolding mark_deleted
mark_deleted-In serial [] n h e = absurd h
mark_deleted-In serial (x ∷ xs) n (inr h) e = mark_deleted-In serial xs n h e
mark_deleted-In serial (x ∷ xs) n (inl h) e = ground arith

mark_slot-Marked :
    (slot serial : ℕ) (slots : ℕ → List TimerNode)
    → ((s : ℕ) (n : TimerNode) → In n (slots s) → n.serial ≡ serial → s ≡ slot)
    → (s : ℕ) (n : TimerNode) → In n (set_slot slot (mark_deleted serial (slots slot)) slots s)
    → n.serial ≡ serial
    → n.is_deleted ≡ true
mark_slot-Marked slot serial slots place s n h e = elim (Bool-cases (s == slot)) [
  | inl here ↦ mark_deleted-In serial (slots slot) n (rw here at h) e
  | inr there ↦ cc (==_of_eq s slot (place s n (rw there at h) e))
]

pub remove_timer-Marked :
    (id slot serial : ℕ) (w : TimeWheel)
    → lookup id w.timer_map ≡ some (slot, serial)
    → ((s : ℕ) (n : TimerNode) → In n (w.slots s) → n.serial ≡ serial → s ≡ slot)
    → Marked serial (remove_timer id w)
unfolding remove_timer
remove_timer-Marked id slot serial w found place =
    rw (found, remove_timer) (mark_slot-Marked slot serial w.slots place)

pub remove_timer_absent :
    (id : ℕ) (w : TimeWheel) → lookup id w.timer_map ≡ none → remove_timer id w ≡ w
unfolding remove_timer
remove_timer_absent id w h = rw (h, remove_timer)

-- `RemoveTimer` of an id whose entry points at a timer silences it: however many slots are visited
-- and whatever the clock says, the timer's node does not fire. (The entry's slot is that of the node:
-- no node of this serial number stands in another slot.)
pub remove_timer_silences :
    (id slot serial k : ℕ) (clock : ℕ → TimerNode → ℕ) (w : TimeWheel)
    → lookup id w.timer_map ≡ some (slot, serial)
    → ((s : ℕ) (n : TimerNode) → In n (w.slots s) → n.serial ≡ serial → s ≡ slot)
    → ¬ ((n : TimerNode) × In n (advance k clock (remove_timer id w)).1 × (n.serial ≡ serial))
remove_timer_silences id slot serial k clock w found place (n, fired, named) =
    advance-Marked serial k clock (remove_timer id w)
      (remove_timer-Marked id slot serial w found place) n fired named

sweep_erases :
    (clock : TimerNode → ℕ) (nodes : List TimerNode) (s : Swept) (id : ℕ)
    → lookup id s.timer_map ≡ none
    → lookup id (sweep clock nodes s).timer_map ≡ none
unfolding sweep sweep_node
sweep_erases clock [] s id h = h
sweep_erases clock (x ∷ xs) s id h =
    sweep_erases clock xs (sweep_node clock x s) id
      (ground (arith, lookup-erase x.id id s.timer_map))

sweep_stale :
    (clock : TimerNode → ℕ) (nodes : List TimerNode) (s : Swept) (old : TimerNode)
    → In old nodes
    → old.is_deleted ≡ true
    → lookup old.id (sweep clock nodes s).timer_map ≡ none
unfolding sweep sweep_node
sweep_stale clock [] s old h d = absurd h
sweep_stale clock (x ∷ xs) s old (inr h) d = sweep_stale clock xs (sweep_node clock x s) old h d
sweep_stale clock (x ∷ xs) s old (inl e) d =
    sweep_erases clock xs (sweep_node clock x s) old.id
      (ground (arith, lookup-erase x.id old.id s.timer_map))

visit_stale :
    (clock : TimerNode → ℕ) (w : TimeWheel) (old : TimerNode)
    → In old (w.slots w.current_slot)
    → old.is_deleted ≡ true
    → lookup old.id (visit clock w).0.timer_map ≡ none
unfolding visit
visit_stale clock w old h d = sweep_stale clock (w.slots w.current_slot) _ old h d

-- The fault: where an id has been removed and used again, and the removed node is still in the
-- wheel, the visit that sweeps that node takes the new timer's entry away. From then on
-- `RemoveTimer` of the id changes nothing, and the new timer keeps running towards its visit.
pub stale_node_blocks_remove :
    {serial k expire cb : ℕ} {w : TimeWheel} (clock : TimerNode → ℕ) (old : TimerNode)
    → Pending serial (suc k) expire cb w
    → ((n : TimerNode) → clock n < expire)
    → In old (w.slots w.current_slot)
    → old.is_deleted ≡ true
    → let w' = (visit clock w).0 in
      (remove_timer old.id w' ≡ w') × Pending serial k expire cb (remove_timer old.id w')
stale_node_blocks_remove {serial} {k} {expire} {cb} {w} clock old p early h d =
    (same, subst (Pending serial k expire cb) (sym same) (next_Pending clock p early))
  where
    same : remove_timer old.id (visit clock w).0 ≡ (visit clock w).0
    same = remove_timer_absent old.id (visit clock w).0 (visit_stale clock w old h d)
