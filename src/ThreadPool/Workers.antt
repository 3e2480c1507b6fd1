-- ===== src/ThreadPool/Workers.antt =====
-- ThreadPool: the workers, and the tasks they have in hand.
use mathlib.Core.List.{Perm}
use mathlib.Core.List.Perm
use light_rpc.Prelude.{
  ℕ, zero, suc, ◌≤◌, ◌<◌, ◌≡◌, refl, ap, Bool, true, false, List, [], ◌∷◌, some, arith, length,
  replicate, get_elem?, set,
}
use light_rpc.ThreadPool.{Worker, waiting, running, returned}

module _ {A : Type 0} where
  -- The tasks that workers are running now.
  abbrev pub in_flight : List (Worker A) → List A
  in_flight [] = []
  in_flight (waiting ∷ ws) = in_flight ws
  in_flight (running task ∷ ws) = task ∷ in_flight ws
  in_flight (returned ∷ ws) = in_flight ws

  abbrev pub any_returned : List (Worker A) → Bool
  any_returned [] = false
  any_returned (waiting ∷ ws) = any_returned ws
  any_returned (running task ∷ ws) = any_returned ws
  any_returned (returned ∷ ws) = true

  -- A worker that waits takes up a task.
  pub record Begins (t : A) (old new : List (Worker A)) : Type 0 where
    pub more : Perm (in_flight new) (t ∷ in_flight old)
    pub one_more : length (in_flight new) ≡ suc (length (in_flight old))
    pub same : any_returned new ≡ any_returned old

  pub begins :
      (t : A) (ws : List (Worker A)) (i : ℕ)
      → get_elem? ws i ≡ some waiting
      → Begins t ws (set ws i (running t))
  begins t [] i h = absurd (ground arith)
  begins t (waiting ∷ ws) zero h = record { more = Perm.rfl; one_more = refl; same = refl }
  begins t (running s ∷ ws) zero h = absurd (ground arith)
  begins t (returned ∷ ws) zero h = absurd (ground arith)
  begins t (waiting ∷ ws) (suc i) h =
      let b = begins t ws i h in record { more = b.more; one_more = b.one_more; same = b.same }
  begins t (running s ∷ ws) (suc i) h =
      let b = begins t ws i h in
      record {
        more = Perm.trans (Perm.cons s b.more) (Perm.swap t s _);
        one_more = omega (arith, b.one_more);
        same = b.same;
      }
  begins t (returned ∷ ws) (suc i) h =
      let b = begins t ws i h in record { more = b.more; one_more = b.one_more; same = refl }

  -- A worker that runs a task goes back to wait.
  pub ends :
      (t : A) (ws : List (Worker A)) (i : ℕ)
      → get_elem? ws i ≡ some (running t)
      → Begins t (set ws i waiting) ws
  ends t [] i h = absurd (ground arith)
  ends t (waiting ∷ ws) zero h = absurd (ground arith)
  ends t (running s ∷ ws) zero h =
      let e : s ≡ t = ground arith in
      rw e (record { more = Perm.rfl; one_more = refl; same = refl })
  ends t (returned ∷ ws) zero h = absurd (ground arith)
  ends t (waiting ∷ ws) (suc i) h =
      let b = ends t ws i h in record { more = b.more; one_more = b.one_more; same = b.same }
  ends t (running s ∷ ws) (suc i) h =
      let b = ends t ws i h in
      record {
        more = Perm.trans (Perm.cons s b.more) (Perm.swap t s _);
        one_more = omega (arith, b.one_more);
        same = b.same;
      }
  ends t (returned ∷ ws) (suc i) h =
      let b = ends t ws i h in record { more = b.more; one_more = b.one_more; same = refl }

  pub in_flight-set_returned :
      (ws : List (Worker A)) (i : ℕ)
      → get_elem? ws i ≡ some waiting
      → in_flight (set ws i returned) ≡ in_flight ws
  in_flight-set_returned [] i h = refl
  in_flight-set_returned (waiting ∷ ws) zero h = refl
  in_flight-set_returned (running s ∷ ws) zero h = absurd (ground arith)
  in_flight-set_returned (returned ∷ ws) zero h = refl
  in_flight-set_returned (waiting ∷ ws) (suc i) h = in_flight-set_returned ws i h
  in_flight-set_returned (running s ∷ ws) (suc i) h = ap (◌∷◌ s) (in_flight-set_returned ws i h)
  in_flight-set_returned (returned ∷ ws) (suc i) h = in_flight-set_returned ws i h

  pub length-in_flight : (ws : List (Worker A)) → length (in_flight ws) ≤ length ws
  length-in_flight [] = omega arith
  length-in_flight (waiting ∷ ws) = omega (arith, length-in_flight ws)
  length-in_flight (running s ∷ ws) = omega (arith, length-in_flight ws)
  length-in_flight (returned ∷ ws) = omega (arith, length-in_flight ws)

  pub in_flight-lt :
      (ws : List (Worker A)) (i : ℕ)
      → get_elem? ws i ≡ some waiting
      → length (in_flight ws) < length ws
  in_flight-lt [] i h = absurd (ground arith)
  in_flight-lt (waiting ∷ ws) zero h = omega (arith, length-in_flight ws)
  in_flight-lt (running s ∷ ws) zero h = absurd (ground arith)
  in_flight-lt (returned ∷ ws) zero h = absurd (ground arith)
  in_flight-lt (waiting ∷ ws) (suc i) h = omega (arith, in_flight-lt ws i h)
  in_flight-lt (running s ∷ ws) (suc i) h = omega (arith, in_flight-lt ws i h)
  in_flight-lt (returned ∷ ws) (suc i) h = omega (arith, in_flight-lt ws i h)

  pub fresh_workers :
      (n : ℕ)
      → (in_flight (replicate n waiting) ≡ []) × (any_returned (replicate n waiting) ≡ false)
  fresh_workers zero = (refl, refl)
  fresh_workers (suc n) = fresh_workers n
