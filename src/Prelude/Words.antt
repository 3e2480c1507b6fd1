-- ===== src/Prelude/Words.antt =====
-- Unsigned machine words as native numbers below a power of two, with their wrap-around, and the
-- four bytes of a word in network order.
use Prim.Native.Nat.{ℕ, ◌+◌, ◌-◌, ◌*◌, ◌/◌, ◌%◌, ◌^◌, ◌<◌}
use mathlib.Core.Path.{◌≡◌}
use mathlib.Core.List.{List, [], ◌∷◌}
use native.Mathlib.Omega.{arith}

abbrev pub size_mod : ℕ
size_mod = 2 ^ 64

abbrev pub u32_mod : ℕ
u32_mod = 2 ^ 32

-- `size_t` sum and difference.
abbrev pub add_size : ℕ → ℕ → ℕ
add_size a b = (a + b) % size_mod

abbrev pub sub_size : ℕ → ℕ → ℕ
sub_size a b = (a + size_mod - b) % size_mod

-- The bytes of `htonl(n)` in memory order.
abbrev pub to_be32 : ℕ → List ℕ
to_be32 n = (n / 2 ^ 24 % 256) ∷ (n / 2 ^ 16 % 256) ∷ (n / 2 ^ 8 % 256) ∷ (n % 256) ∷ []

-- `memcpy` of four bytes and `ntohl`. The code reads past the end where fewer are there; every
-- caller has tested for four.
unfoldable pub of_be32 : List ℕ → ℕ
of_be32 (a ∷ b ∷ c ∷ d ∷ _) = a * 2 ^ 24 + b * 2 ^ 16 + c * 2 ^ 8 + d
of_be32 _ = 0

pub of_be32-to_be32 : (n : ℕ) → n < u32_mod → of_be32 (to_be32 n) ≡ n
unfolding of_be32
of_be32-to_be32 n h = omega arith
