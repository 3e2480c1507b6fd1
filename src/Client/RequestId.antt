-- ===== src/Client/RequestId.antt =====
-- code/rpc/rpc_client.cc, `GenerateRequestId`: the clock and the random number, in hexadecimal.
use light_rpc.Prelude.{
  ℕ, zero, suc, ◌+◌, ◌-◌, ◌*◌, ◌/◌, ◌%◌, ◌≤◌, ◌<◌, ◌≡◌, refl, sym, ap, ◌∙◌, [], ◌∷◌, ◌++◌,
  if◌then◌else◌, ltb, length, replicate, take, drop, length-append, length-replicate,
  take-append_self, drop-append_self, arith,
}
use light_rpc.Prelude.Eq.{Text}

-- Lower-case digits, as `std::hex` prints them.
abbrev digit : ℕ → ℕ
digit d = if ltb d 10 then 48 + d else 87 + d

-- The digits of `n`, at most `k` of them.
pub hex : ℕ → ℕ → Text
hex zero n = []
hex (suc k) n =
    let rest = hex k (n / 16) in if ltb n 16 then digit n ∷ [] else rest ++ (digit (n % 16) ∷ [])

-- `setw(16)` with the fill `'0'`: a shorter text is filled up, a longer one left as it is.
abbrev pub setw : Text → Text
setw s = replicate (16 - length s) 48 ++ s

-- The two numbers are `uint64_t` and a positive `long`, of at most 16 digits.
pub generate_request_id : ℕ → ℕ → Text
unfolding hex
generate_request_id millis random = setw (hex 16 millis) ++ setw (hex 16 random)

-- Reading it back.
abbrev digit_value : ℕ → ℕ
digit_value c = if ltb c 58 then c - 48 else c - 87

abbrev value : ℕ → Text → ℕ
value acc [] = acc
value acc (c ∷ cs) = value (acc * 16 + digit_value c) cs

abbrev pub read_request_id : Text → ℕ × ℕ
read_request_id id = (value 0 (take 16 id), value 0 (drop 16 id))

abbrev limit : ℕ → ℕ
limit zero = 1
limit (suc k) = 16 * limit k

value-append : (acc : ℕ) (s t : Text) → value acc (s ++ t) ≡ value (value acc s) t
value-append acc [] t = refl
value-append acc (c ∷ cs) t = value-append (acc * 16 + digit_value c) cs t

value_zeros : (n : ℕ) → value 0 (replicate n 48) ≡ 0
value_zeros zero = refl
value_zeros (suc n) = value_zeros n

digit_value-digit : (d : ℕ) → d < 16 → digit_value (digit d) ≡ d
digit_value-digit d h = ground arith

hex_lem :
    (k n : ℕ) → n < limit (suc k) → (value 0 (hex (suc k) n) ≡ n) × (length (hex (suc k) n) ≤ suc k)
unfolding hex
hex_lem zero n h = ground (arith, digit_value-digit n)
hex_lem (suc k) n h = ground (
  arith,
  digit_value-digit n,
  digit_value-digit (n % 16) (omega arith),
  hex_lem k (n / 16) (omega arith),
  value-append 0 (hex (suc k) (n / 16)) (digit (n % 16) ∷ []),
  length-append (hex (suc k) (n / 16)) (digit (n % 16) ∷ []),
)

setw_lem :
    (n : ℕ) → n < limit 16 → (value 0 (setw (hex 16 n)) ≡ n) × (length (setw (hex 16 n)) ≡ 16)
setw_lem n h =
    let (same, short) = hex_lem 15 n h in
    (
      value-append 0 (replicate (16 - length (hex 16 n)) 48) (hex 16 n)
          ∙ ap (λ a. value a (hex 16 n)) (value_zeros (16 - length (hex 16 n)))
          ∙ same,
      omega (
        arith,
        length-append (replicate (16 - length (hex 16 n)) 48) (hex 16 n),
        length-replicate {A = ℕ} (16 - length (hex 16 n)) 48,
      ),
    )

-- A request id has 32 characters, and the clock and the random number can be read back from it: two
-- calls get the same id only where both agree in the millisecond and in the 64 random bits.
pub request_id_lem :
    (millis random : ℕ)
    → millis < 18446744073709551616
    → random < 18446744073709551616
    → (length (generate_request_id millis random) ≡ 32)
      × (read_request_id (generate_request_id millis random) ≡ (millis, random))
unfolding generate_request_id
request_id_lem millis random h k =
    let (v, l) = setw_lem millis h in
    let (v', l') = setw_lem random k in
    let left : Text = setw (hex 16 millis) in
    let right : Text = setw (hex 16 random) in
    (
      omega (arith, length-append left right, l, l'),
      rw (take-append_self left right 16 (sym l), drop-append_self left right 16 (sym l), v, v')
          refl,
    )
