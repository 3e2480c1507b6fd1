-- ===== src/Prelude/Assoc.antt =====
-- `std::unordered_map` as an association list: `find`, assignment through `operator[]`, `erase`.
-- The order of the entries stands for the map's unspecified order of iteration.
use mathlib.Core.List.{Perm}
use mathlib.Core.List.Perm
use light_rpc.Prelude.{
  Bool-cases, inl, inr, subst, sym, suc, ◌≡◌, refl, List, [], ◌∷◌, Option, none, some, arith,
  if◌then◌else◌, length,
}
use light_rpc.Prelude.Eq.{Eq}

module _ {ℓ} {K : Type 0} {V : Type ℓ} ⦃e : Eq K⦄ where
  unfoldable pub lookup : K → List (K × V) → Option V
  lookup k [] = none
  lookup k ((j, v) ∷ m) = if e.beq j k then some v else lookup k m

  unfoldable pub insert : K → V → List (K × V) → List (K × V)
  insert k v [] = (k, v) ∷ []
  insert k v ((j, w) ∷ m) = if e.beq j k then (k, v) ∷ m else (j, w) ∷ insert k v m

  unfoldable pub erase : K → List (K × V) → List (K × V)
  erase k [] = []
  erase k ((j, w) ∷ m) = if e.beq j k then erase k m else (j, w) ∷ erase k m

  pub lookup-insert :
      (k j : K) (v : V) (m : List (K × V))
      → lookup j (insert k v m) ≡ (if e.beq k j then some v else lookup j m)
  unfolding lookup insert
  lookup-insert k j v [] = refl
  lookup-insert k j v ((i, w) ∷ m) =
      ground (arith, e.beq_iff k j, e.beq_iff i k, e.beq_iff i j, lookup-insert k j v m)

  pub lookup-erase :
      (k j : K) (m : List (K × V)) → lookup j (erase k m) ≡ (if e.beq k j then none else lookup j m)
  unfolding lookup erase
  lookup-erase k j [] = ground arith
  lookup-erase k j ((i, w) ∷ m) =
      ground (arith, e.beq_iff k j, e.beq_iff i k, e.beq_iff i j, lookup-erase k j m)

  pub erase_absent : (k : K) (m : List (K × V)) → lookup k m ≡ none → erase k m ≡ m
  unfolding lookup erase
  erase_absent k [] h = refl
  erase_absent k ((i, w) ∷ m) h = ground (arith, erase_absent k m)

  pub length-insert :
      (k : K) (v : V) (m : List (K × V))
      → length (insert k v m) ≡ (elim (lookup k m) [ none ↦ suc (length m) | some w ↦ length m ])
  unfolding lookup insert
  length-insert k v [] = refl
  length-insert k v ((i, w) ∷ m) = ground (arith, length-insert k v m)

  pub erase-erase : (k : K) (m : List (K × V)) → erase k (erase k m) ≡ erase k m
  unfolding erase
  erase-erase k [] = refl
  erase-erase k ((i, w) ∷ m) = ground (arith, erase-erase k m)

-- One entry for each key.
module _ {K V : Type 0} ⦃e : Eq K⦄ where
  abbrev pub Uniq : List (K × V) → Type 0
  Uniq [] = Unit {0}
  Uniq ((k, v) ∷ m) = (lookup k m ≡ none) × Uniq m

  pub Uniq-insert : (k : K) (v : V) (m : List (K × V)) → Uniq m → Uniq (insert k v m)
  unfolding lookup insert
  Uniq-insert k v [] u = (refl, tt)
  Uniq-insert k v ((i, w) ∷ m) u =
      ground (arith, Uniq-insert k v m u.1, lookup-insert k i v m, e.beq_iff i k, e.beq_iff k i)

  pub Uniq-erase : (k : K) (m : List (K × V)) → Uniq m → Uniq (erase k m)
  unfolding erase
  Uniq-erase k [] u = tt
  Uniq-erase k ((i, w) ∷ m) u = ground (arith, Uniq-erase k m u.1, lookup-erase k i m)

  -- Taking an entry out.
  pub erase-perm :
      (k : K) (v : V) (m : List (K × V))
      → Uniq m
      → lookup k m ≡ some v
      → Perm m ((k, v) ∷ erase k m)
  unfolding lookup erase
  erase-perm k v [] u h = absurd (ground arith)
  erase-perm k v ((i, w) ∷ m) u h = elim (Bool-cases (e.beq i k)) [
    | inl same ↦
        let eq : (i, w) ∷ m ≡ (k, v) ∷ erase k m =
          ground (arith, (e.beq_iff i k).0 same, erase_absent k m) in
        rw same (subst (Perm ((i, w) ∷ m)) eq (Perm.refl _))
    | inr other ↦ rw other (
        Perm.trans (Perm.cons (i, w) (erase-perm k v m u.1 (ground arith)))
          (Perm.swap (k, v) (i, w) _))
  ]

  -- Putting one in, where the key is new, and where it replaces another entry.
  pub insert-perm :
      (k : K) (v : V) (m : List (K × V)) → lookup k m ≡ none → Perm (insert k v m) ((k, v) ∷ m)
  unfolding lookup insert
  insert-perm k v [] h = Perm.refl _
  insert-perm k v ((i, w) ∷ m) h = elim (Bool-cases (e.beq i k)) [
    | inl same ↦ absurd (ground (arith, same))
    | inr other ↦ rw other (
        Perm.trans (Perm.cons (i, w) (insert-perm k v m (ground arith)))
          (Perm.swap (k, v) (i, w) _))
  ]

  pub insert-perm_replace :
      (k : K) (v w : V) (m : List (K × V))
      → lookup k m ≡ some w
      → Perm ((k, w) ∷ insert k v m) ((k, v) ∷ m)
  unfolding lookup insert
  insert-perm_replace k v w [] h = absurd (ground arith)
  insert-perm_replace k v w ((i, x) ∷ m) h = elim (Bool-cases (e.beq i k)) [
    | inl same ↦
        let eq : (k, w) ≡ (i, x) = ground (arith, (e.beq_iff i k).0 same) in
        rw same (
          subst (λ t. Perm (t ∷ (k, v) ∷ m) ((k, v) ∷ (i, x) ∷ m)) (sym eq)
            (Perm.swap (k, v) (i, x) m))
    | inr other ↦ rw other (
        Perm.trans (Perm.swap (i, x) (k, w) _) (
          Perm.trans (Perm.cons (i, x) (insert-perm_replace k v w m (ground arith)))
            (Perm.swap (k, v) (i, x) m)))
  ]
