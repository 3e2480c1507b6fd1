-- ===== src/Timer.antt =====
-- code/base/timer/timer.h and timer.cc: the time wheel of an event loop.
-- Times are nanoseconds. `now` is the clock's reading at the call, and the readings that `Tick` takes
-- while it visits the nodes are an argument (`clock`), by visit and node. A list node keeps its
-- place in memory, so the iterators of `timer_map_` are serial numbers of nodes. A callback is a
-- number; running it adds the node to the list of those fired, and does not itself call the wheel.
pub mod Sweep
pub mod Pending
pub mod Schedule
pub mod Removal
pub mod Linked
pub mod Links
mod Tests
use light_rpc.Prelude.{
  ℕ, zero, suc, ◌+◌, ◌-◌, ◌*◌, ◌/◌, ◌%◌, Bool, true, false, ◌||◌, List, [], ◌∷◌, ◌++◌, Option, none,
  some, if◌then◌else◌, leb, ltb, ◌==◌,
}
use light_rpc.Prelude.Eq.{nat_eq}
use light_rpc.Prelude.Assoc.{lookup, insert, erase}
use light_rpc.Prelude.Int.{ℤ, pos, negsuc}

pub record TimerNode : Type 0 where
  pub serial : ℕ
  pub id : ℕ
  pub cb : ℕ
  pub expire : ℕ
  pub is_deleted : Bool
  pub rounds : ℕ

-- `slots` is `wheel_`, and `next_serial` the next free place for a node.
pub record TimeWheel : Type 0 where
  pub slots : ℕ → List TimerNode
  pub timer_map : List (ℕ × (ℕ × ℕ))
  pub current_slot : ℕ
  pub tick_ms : ℕ
  pub last_tick_time : ℕ
  pub next_serial : ℕ

abbrev pub wheel_size : ℕ
wheel_size = 1024

abbrev pub ns_per_ms : ℕ
ns_per_ms = 1000000

pub create : ℕ → ℕ → TimeWheel
create tick_ms now = record {
  slots = λ s. [];
  timer_map = [];
  current_slot = 0;
  tick_ms = tick_ms;
  last_tick_time = now;
  next_serial = 0;
}

-- Assignment to one slot.
abbrev pub set_slot : ℕ → List TimerNode → (ℕ → List TimerNode) → ℕ → List TimerNode
set_slot s nodes slots j = if j == s then nodes else slots j

-- The rest of `AddTimer`, where the delay is not negative and the id is not in use.
pub schedule : ℕ → ℕ → ℕ → ℕ → TimeWheel → TimeWheel
schedule now id cb delay_ms w =
    let total_slots = delay_ms / w.tick_ms in
    let target_slot = (w.current_slot + total_slots) % wheel_size in
    let node : TimerNode = record {
      serial = w.next_serial;
      id = id;
      cb = cb;
      expire = now + delay_ms * ns_per_ms;
      is_deleted = false;
      rounds = total_slots / wheel_size;
    } in
    record w {
      slots = set_slot target_slot (w.slots target_slot ++ (node ∷ [])) w.slots;
      timer_map = insert id (target_slot, w.next_serial) w.timer_map;
      next_serial = suc w.next_serial;
    }

pub add_timer : ℕ → ℕ → ℕ → ℤ → TimeWheel → TimeWheel
add_timer now id cb (negsuc n) w = w
add_timer now id cb (pos delay_ms) w = elim (lookup id w.timer_map) [
  | some entry ↦ w
  | none ↦ schedule now id cb delay_ms w
]

-- What the inner loop of `Tick` has done with some nodes: those kept, `timer_map_`, those fired.
pub record Swept : Type 0 where
  pub kept : List TimerNode
  pub timer_map : List (ℕ × (ℕ × ℕ))
  pub fired : List TimerNode

-- One node: erased, fired and erased, or kept for a later round.
pub sweep_node : (TimerNode → ℕ) → TimerNode → Swept → Swept
sweep_node clock node s =
    if node.is_deleted
    then record s { timer_map = erase node.id s.timer_map }
    else if (node.rounds == 0) || leb node.expire (clock node)
    then record s { timer_map = erase node.id s.timer_map; fired = s.fired ++ (node ∷ []) }
    else record s { kept = s.kept ++ (record node { rounds = node.rounds - 1 } ∷ []) }

pub sweep : (TimerNode → ℕ) → List TimerNode → Swept → Swept
sweep clock [] s = s
sweep clock (node ∷ nodes) s = sweep clock nodes (sweep_node clock node s)

-- One round of the outer loop: the current slot is swept, and the wheel moves on.
pub visit : (TimerNode → ℕ) → TimeWheel → TimeWheel × List TimerNode
visit clock w =
    let s : Swept =
      sweep clock (w.slots w.current_slot)
        (record { kept = []; timer_map = w.timer_map; fired = [] }) in
    (
      record w {
        slots = set_slot w.current_slot s.kept w.slots;
        timer_map = s.timer_map;
        current_slot = (w.current_slot + 1) % wheel_size;
      },
      s.fired,
    )

-- The outer loop, with the nodes fired in order.
pub advance : ℕ → (ℕ → TimerNode → ℕ) → TimeWheel → TimeWheel × List TimerNode
advance zero clock w = (w, [])
advance (suc n) clock w =
    let (w1, first) = visit (clock 0) w in
    let (w2, rest) = advance n (λ j. clock (suc j)) w1 in (w2, first ++ rest)

-- `Tick`. `elapsed_ms` and the quotient are truncated towards zero, so a clock that has gone back by
-- a tick or more gives a negative number of ticks: no slot is visited, and the time is taken over.
pub tick : ℕ → (ℕ → TimerNode → ℕ) → TimeWheel → TimeWheel × List TimerNode
tick now clock w =
    if ltb now w.last_tick_time
    then if (w.last_tick_time - now) / ns_per_ms / w.tick_ms == 0
      then (w, [])
      else (record w { last_tick_time = now }, [])
    else if (now - w.last_tick_time) / ns_per_ms / w.tick_ms == 0
    then (w, [])
    else let (w', fired) = advance ((now - w.last_tick_time) / ns_per_ms / w.tick_ms) clock w in
      (record w' { last_tick_time = now }, fired)

-- `list_it->isDeleted = true` through an iterator.
pub mark_deleted : ℕ → List TimerNode → List TimerNode
mark_deleted serial [] = []
mark_deleted serial (node ∷ nodes) =
    (if node.serial == serial then record node { is_deleted = true } else node)
    ∷ mark_deleted serial nodes

pub remove_timer : ℕ → TimeWheel → TimeWheel
remove_timer id w = elim (lookup id w.timer_map) [
  | none ↦ w
  | some (slot, serial) ↦ record w {
    slots = set_slot slot (mark_deleted serial (w.slots slot)) w.slots;
    timer_map = erase id w.timer_map;
  }
]
