-- ===== src/TcpServer/Connections.antt =====
-- TcpServer: lemmas on the map of connections.
use mathlib.Core.List.{Perm}
use mathlib.Core.List.Perm
use light_rpc.Prelude.{
  ℕ, ◌≡◌, inl, inr, refl, subst, List, [], ◌∷◌, ◌++◌, none, some, arith, Bool-cases,
}
use light_rpc.Prelude.Eq.{nat_eq}
use light_rpc.Prelude.Assoc.{lookup, insert, erase, Uniq}
use light_rpc.Connection.{State, TcpConnection, connected, disconnected}

abbrev pub keys : List (ℕ × TcpConnection) → List ℕ
keys [] = []
keys ((fd, c) ∷ m) = fd ∷ keys m

abbrev pub AllConnected : List (ℕ × TcpConnection) → Type 0
AllConnected [] = Unit {0}
AllConnected ((fd, c) ∷ m) = (c.state ≡ connected) × AllConnected m

-- The descriptors of those that are not yet closed.
abbrev pub live_cons : State → ℕ → List ℕ → List ℕ
live_cons connected fd fds = fd ∷ fds
live_cons disconnected fd fds = fds

abbrev pub live_keys : List (ℕ × TcpConnection) → List ℕ
live_keys [] = []
live_keys ((fd, c) ∷ m) = live_cons c.state fd (live_keys m)

live_cons-perm :
    (state : State) (fd k : ℕ) (xs ys : List ℕ)
    → Perm xs (fd ∷ ys)
    → Perm (live_cons state k xs) (fd ∷ live_cons state k ys)
live_cons-perm connected fd k xs ys h = Perm.trans (Perm.cons k h) (Perm.swap fd k ys)
live_cons-perm disconnected fd k xs ys h = h

pub live_keys-AllConnected : (m : List (ℕ × TcpConnection)) → AllConnected m → live_keys m ≡ keys m
live_keys-AllConnected [] h = refl
live_keys-AllConnected ((fd, c) ∷ m) (l, h) = ground (arith, l, live_keys-AllConnected m h)

-- Closing a connection takes its descriptor out of them.
pub live_keys-insert :
    (fd : ℕ) (c d : TcpConnection) (m : List (ℕ × TcpConnection))
    → lookup fd m ≡ some c
    → c.state ≡ connected
    → d.state ≡ disconnected
    → Perm (live_keys m) (fd ∷ live_keys (insert fd d m))
unfolding lookup insert
live_keys-insert fd c d [] e l k = absurd (ground (arith, e))
live_keys-insert fd c d ((j, x) ∷ m) e l k = elim (Bool-cases (nat_eq.beq j fd)) [
  | inl same ↦
      let eq : live_keys ((j, x) ∷ m) ≡ fd ∷ live_keys (insert fd d ((j, x) ∷ m)) =
        ground (arith, (nat_eq.beq_iff j fd).0 same, e, l, k) in
      subst (Perm (live_keys ((j, x) ∷ m))) eq (Perm.refl _)
  | inr other ↦ rw other (
      live_cons-perm x.state fd j (live_keys m) (live_keys (insert fd d m))
        (live_keys-insert fd c d m (ground (arith, e, other)) l k))
]

pub keys-insert_new :
    (fd : ℕ) (c : TcpConnection) (m : List (ℕ × TcpConnection))
    → lookup fd m ≡ none
    → keys (insert fd c m) ≡ keys m ++ (fd ∷ [])
unfolding lookup insert
keys-insert_new fd c [] h = refl
keys-insert_new fd c ((k, d) ∷ m) h = ground (arith, keys-insert_new fd c m)

pub AllConnected-insert :
    (fd : ℕ) (c : TcpConnection) (m : List (ℕ × TcpConnection))
    → c.state ≡ connected
    → AllConnected m
    → AllConnected (insert fd c m)
unfolding insert
AllConnected-insert fd c [] l h = (l, tt)
AllConnected-insert fd c ((k, d) ∷ m) l h = ground (arith, AllConnected-insert fd c m l h.1)

pub AllConnected-erase :
    (fd : ℕ) (m : List (ℕ × TcpConnection)) → AllConnected m → AllConnected (erase fd m)
unfolding erase
AllConnected-erase fd [] h = tt
AllConnected-erase fd ((k, d) ∷ m) h = ground (arith, AllConnected-erase fd m h.1)

pub AllConnected-lookup :
    (fd : ℕ) (c : TcpConnection) (m : List (ℕ × TcpConnection))
    → AllConnected m
    → lookup fd m ≡ some c
    → c.state ≡ connected
unfolding lookup
AllConnected-lookup fd c [] h e = absurd (ground arith)
AllConnected-lookup fd c ((k, d) ∷ m) h e = ground (arith, AllConnected-lookup fd c m h.1)

pub erase-insert :
    (fd : ℕ) (c : TcpConnection) (m : List (ℕ × TcpConnection))
    → erase fd (insert fd c m) ≡ erase fd m
unfolding erase insert
erase-insert fd c [] = ground arith
erase-insert fd c ((k, d) ∷ m) = ground (arith, erase-insert fd c m)

erase_new : (fd : ℕ) (m : List (ℕ × TcpConnection)) → lookup fd m ≡ none → erase fd m ≡ m
unfolding lookup erase
erase_new fd [] h = refl
erase_new fd ((k, d) ∷ m) h = ground (arith, erase_new fd m)

-- Taking a connection out takes its descriptor out of the keys.
pub keys-erase :
    (fd : ℕ) (c : TcpConnection) (m : List (ℕ × TcpConnection))
    → Uniq m
    → lookup fd m ≡ some c
    → Perm (keys m) (fd ∷ keys (erase fd m))
unfolding lookup erase
keys-erase fd c [] u h = absurd (ground arith)
keys-erase fd c ((k, d) ∷ m) u h = elim (Bool-cases (nat_eq.beq k fd)) [
  | inl same ↦
      let eq : k ∷ keys m ≡ fd ∷ keys (erase fd m) =
        ground (arith, (nat_eq.beq_iff k fd).0 same, erase_new k m) in
      rw same (subst (Perm (k ∷ keys m)) eq (Perm.refl _))
  | inr other ↦
      rw other (Perm.trans (Perm.cons k (keys-erase fd c m u.1 (ground arith))) (Perm.swap fd k _))
]
