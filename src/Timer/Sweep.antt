-- ===== src/Timer/Sweep.antt =====
-- TimeWheel: what the sweep of one slot does with each node.
use light_rpc.Prelude.{
  ℕ, suc, ◌-◌, ◌≤◌, ◌<◌, ◌≡◌, ◌≢◌, ◌⊎◌, inl, inr, false, List, [], ◌∷◌, ◌++◌, arith,
}
use light_rpc.Prelude.Eq.{nat_eq}
use light_rpc.Timer.{TimerNode, Swept, sweep_node, sweep}

-- The list holds this node.
abbrev pub In : TimerNode → List TimerNode → Type 0
In n [] = ⊥
In n (x ∷ xs) = (n ≡ x) ⊎ In n xs

pub In-append_right : (n : TimerNode) (xs ys : List TimerNode) → In n ys → In n (xs ++ ys)
In-append_right n [] ys h = h
In-append_right n (x ∷ xs) ys h = inr (In-append_right n xs ys h)

pub In-append_left : (n : TimerNode) (xs ys : List TimerNode) → In n xs → In n (xs ++ ys)
In-append_left n [] ys h = absurd h
In-append_left n (x ∷ xs) ys (inl e) = inl e
In-append_left n (x ∷ xs) ys (inr h) = inr (In-append_left n xs ys h)

-- What has been kept and fired stays so.
pub sweep-kept :
    (clock : TimerNode → ℕ) (nodes : List TimerNode) (s : Swept) (n : TimerNode)
    → In n s.kept
    → In n (sweep clock nodes s).kept
unfolding sweep sweep_node
sweep-kept clock [] s n h = h
sweep-kept clock (x ∷ xs) s n h =
    sweep-kept clock xs (sweep_node clock x s) n
      (ground (arith, In-append_left n s.kept (record x { rounds = x.rounds - 1 } ∷ [])))

sweep-fired :
    (clock : TimerNode → ℕ) (nodes : List TimerNode) (s : Swept) (n : TimerNode)
    → In n s.fired
    → In n (sweep clock nodes s).fired
unfolding sweep sweep_node
sweep-fired clock [] s n h = h
sweep-fired clock (x ∷ xs) s n h =
    sweep-fired clock xs (sweep_node clock x s) n
      (ground (arith, In-append_left n s.fired (x ∷ [])))

-- Whether a visit fires a node that is not deleted.
abbrev pub Due : (TimerNode → ℕ) → TimerNode → Type 0
Due clock n = (n.rounds ≡ 0) ⊎ (n.expire ≤ clock n)

-- A node that is swept, is not deleted and has no rounds left is fired; one that has rounds left and
-- has not expired is kept with a round less.
pub sweep-In :
    (clock : TimerNode → ℕ) (nodes : List TimerNode) (s : Swept) (n : TimerNode)
    → In n nodes
    → n.is_deleted ≡ false
    → (n.rounds ≡ 0 → In n (sweep clock nodes s).fired)
      × (n.rounds ≢ 0
          → clock n < n.expire
          → In (record n { rounds = n.rounds - 1 }) (sweep clock nodes s).kept)
unfolding sweep sweep_node
sweep-In clock [] s n h d = absurd h
sweep-In clock (x ∷ xs) s n (inr h) d = sweep-In clock xs (sweep_node clock x s) n h d
sweep-In clock (x ∷ xs) s n (inl e) d = (
  λ r.
      sweep-fired clock xs (sweep_node clock x s) n
        (ground (arith, In-append_right n s.fired (x ∷ []))),
  λ r c. sweep-kept clock xs (sweep_node clock x s) _ (
      ground (
        arith,
        In-append_right (record n { rounds = n.rounds - 1 }) s.kept
            (record x { rounds = x.rounds - 1 } ∷ []),
      )),
)

pub In-append-cases : (n : TimerNode) (xs ys : List TimerNode) → In n (xs ++ ys) → In n xs ⊎ In n ys
In-append-cases n [] ys h = inr h
In-append-cases n (x ∷ xs) ys (inl e) = inl (inl e)
In-append-cases n (x ∷ xs) ys (inr h) = ground (arith, In-append-cases n xs ys h)

-- Conversely, what is fired was swept and due, and what is kept was swept with a round more.
pub sweep-fired_cases :
    (clock : TimerNode → ℕ) (nodes : List TimerNode) (s : Swept) (n : TimerNode)
    → In n (sweep clock nodes s).fired
    → In n s.fired ⊎ (In n nodes × Due clock n)
unfolding sweep sweep_node
sweep-fired_cases clock [] s n h = inl h
sweep-fired_cases clock (x ∷ xs) s n h = ground (
  arith,
  sweep-fired_cases clock xs (sweep_node clock x s) n h,
  In-append-cases n s.fired (x ∷ []),
)

pub sweep-kept_cases :
    (clock : TimerNode → ℕ) (nodes : List TimerNode) (s : Swept) (n : TimerNode)
    → In n (sweep clock nodes s).kept
    → In n s.kept ⊎ In (record n { rounds = suc n.rounds }) nodes
unfolding sweep sweep_node
sweep-kept_cases clock [] s n h = inl h
sweep-kept_cases clock (x ∷ xs) s n h = ground (
  arith,
  sweep-kept_cases clock xs (sweep_node clock x s) n h,
  In-append-cases n s.kept (record x { rounds = x.rounds - 1 } ∷ []),
)
