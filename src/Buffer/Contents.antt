-- ===== src/Buffer/Contents.antt =====
-- Buffer: what each operation does to the bytes that a reader sees.
use light_rpc.Prelude.{
  ℕ, ◌+◌, ◌-◌, ◌≤◌, ◌<◌, ◌≡◌, sym, ap, ◌∙◌, List, ◌++◌, arith, max, length, take, drop,
  length-append, length-take, length-drop, take_all, take-append_left, drop-append_left,
  take-append_self, take-append-drop, take-take, ap₂, drop_all, drop-take, drop-drop, append_assoc,
}
use light_rpc.Prelude.Words.{u32_mod, add_size, of_be32, to_be32, of_be32-to_be32}
use light_rpc.Buffer.{
  Buffer, readable_bytes, peek, retrieve_all, retrieve, has_written, overwrite, resize, make_space,
  grow, compact, ensure_writable, write_begin, append, initial_size, read_string, peek_int32,
  read_int32,
}
use light_rpc.Buffer.Bounds.{
  IsValid, Fits, HasRoom, readable-eq, length-overwrite, length-peek, ensure_writable-HasRoom,
}

-- The bytes that are stored and not yet retrieved, oldest first.
abbrev pub contents : Buffer → List ℕ
contents b = peek (readable_bytes b) b

-- The part of a list from index `r` up to index `w`.
abbrev slice : ℕ → ℕ → List ℕ → List ℕ
slice r w xs = take (w - r) (drop r xs)

pub length-contents : {b : Buffer} → IsValid b → length (contents b) ≡ readable_bytes b
length-contents {b} v = length-peek (readable_bytes b) v (omega arith)

contents-slice : {b : Buffer} → IsValid b → contents b ≡ slice b.read_pos b.write_pos b.bytes
contents-slice {b} v = ap (λ n. peek n b) (readable-eq v)

slice-append_left :
    (r w : ℕ) (xs ys : List ℕ) → r ≤ w → w ≤ length xs → slice r w (xs ++ ys) ≡ slice r w xs
slice-append_left r w xs ys h k =
    rw (drop-append_left r xs ys (omega arith))
      (take-append_left (w - r) (drop r xs) ys (omega (arith, length-drop r xs)))

slice-resize :
    (r w n : ℕ) (xs : List ℕ)
    → r ≤ w
    → w ≤ length xs
    → length xs ≤ n
    → slice r w (resize n xs) ≡ slice r w xs
slice-resize r w n xs h k l = rw (take_all n xs l) (slice-append_left r w xs _ h k)

slice-overwrite :
    (r w : ℕ) (xs src : List ℕ)
    → r ≤ w
    → w ≤ length xs
    → slice r (w + length src) (overwrite xs w src) ≡ slice r w xs ++ src
slice-overwrite r w xs src h k =
    rw (drop-append_left r (take w xs) (src ++ rest) (omega (arith, length-take w xs)), ← parts)
      (ap (take (w + length src - r)) (sym (append_assoc (slice r w xs) src rest))
        ∙ take-append_self (slice r w xs ++ src) rest (w + length src - r)
            (omega (arith, length-append (slice r w xs) src, size)))
  where
    rest : List ℕ
    rest = drop (w + length src) xs

    parts : slice r w xs ≡ drop r (take w xs)
    parts = sym (drop-take r (w - r) xs) ∙ ap (λ k. drop r (take k xs)) (omega arith)

    size : length (slice r w xs) ≡ w - r
    size = omega (arith, length-take (w - r) (drop r xs), length-drop r xs)

contents-grow :
    {b : Buffer} (n : ℕ)
    → IsValid b
    → Fits n b
    → length b.bytes ≤ b.write_pos + n
    → contents (grow n b) ≡ contents b
unfolding grow
contents-grow {b} n v f h =
    ap (λ k. take k (drop b.read_pos (resize size b.bytes))) (readable-eq v)
    ∙ slice-resize b.read_pos b.write_pos size b.bytes v.ordered v.inside (omega arith)
    ∙ sym (contents-slice v)
  where
    size : ℕ
    size = max (add_size b.write_pos n) (add_size n initial_size)

contents-compact : {b : Buffer} → IsValid b → contents (compact b) ≡ contents b
unfolding compact
contents-compact {b} v = take-append_self (contents b) _ _ (omega (arith, length-contents v))

contents-ensure_writable :
    {b : Buffer} (n : ℕ) → IsValid b → Fits n b → contents (ensure_writable n b) ≡ contents b
unfolding ensure_writable make_space
contents-ensure_writable {b} n v f = ground (arith, contents-grow n v f, contents-compact v)

-- `EnsureWritable` makes room for `len` bytes behind the readable ones, which stay as they are; the
-- positions stay valid, and the vector grows by at most `len` and one chunk.
pub ensure_writable_lem :
    {b : Buffer} (len : ℕ)
    → IsValid b
    → Fits len b
    → HasRoom len b (ensure_writable len b) × (contents (ensure_writable len b) ≡ contents b)
ensure_writable_lem len v f = (ensure_writable-HasRoom len v f, contents-ensure_writable len v f)

-- The state after `Append`: valid, the new bytes behind the old ones, and how far the vector grew.
pub record Appended (src : List ℕ) (old new : Buffer) : Type 0 where
  pub valid : IsValid new
  pub stored : contents new ≡ contents old ++ src
  pub grown : length new.bytes ≤ length old.bytes + length src + initial_size

pub length-write_begin :
    (src : List ℕ) (b : Buffer)
    → b.write_pos + length src ≤ length b.bytes
    → length (has_written (length src) (write_begin src b)).bytes ≡ length b.bytes
unfolding has_written write_begin
length-write_begin src b h = length-overwrite b.bytes b.write_pos src h

pub write_begin-Appended :
    {b : Buffer} (src : List ℕ)
    → IsValid b
    → b.write_pos + length src ≤ length b.bytes
    → Appended src b (has_written (length src) (write_begin src b))
unfolding has_written write_begin
write_begin-Appended {b} src v h = record {
  valid = new-IsValid;
  stored =
      contents-slice new-IsValid
      ∙ ap (λ k. slice b.read_pos k (overwrite b.bytes b.write_pos src)) (omega arith)
      ∙ slice-overwrite b.read_pos b.write_pos b.bytes src v.ordered v.inside
      ∙ ap (λ xs. xs ++ src) (sym (contents-slice v));
  grown = omega (arith, length-overwrite b.bytes b.write_pos src);
}
  where
    new-IsValid : IsValid (has_written (length src) (write_begin src b))
    new-IsValid = omega (arith, length-overwrite b.bytes b.write_pos src)

-- `Append` keeps the buffer valid and puts exactly the given bytes behind those stored, whether it
-- had to grow, to compact, or had the room.
pub append-Appended :
    {b : Buffer} (src : List ℕ) → IsValid b → Fits (length src) b → Appended src b (append src b)
unfolding append has_written write_begin
append-Appended {b} src v f =
    let (r, same) = ensure_writable_lem (length src) v f in
    let a = write_begin-Appended src r.valid r.room in
    record {
      valid = a.valid;
      stored = a.stored ∙ ap (λ xs. xs ++ src) same;
      grown = omega (arith, r.grown, length-write_begin src _ r.room);
    }

-- `Retrieve` drops bytes from the front: all of them where it is asked for more than there are.
pub contents-retrieve :
    {b : Buffer} (n : ℕ) → IsValid b → contents (retrieve n b) ≡ drop n (contents b)
unfolding retrieve retrieve_all
contents-retrieve {b} n v = ground (
  arith,
  drop-take n (readable_bytes b - n) (drop b.read_pos b.bytes),
  drop-drop n b.read_pos b.bytes,
  drop_all n (contents b),
  length-contents v,
)

-- `ReadString(n)` returns the `n` oldest bytes and removes exactly those.
pub read_string_lem :
    {b : Buffer} (n : ℕ)
    → IsValid b
    → n ≤ readable_bytes b
    → let (s, b') = read_string n b in
      (s ≡ take n (contents b))
      × (contents b' ≡ drop n (contents b))
      × (s ++ contents b' ≡ contents b)
unfolding read_string
read_string_lem {b} n v h =
    let s : peek n b ≡ take n (contents b) =
      sym (take-take n (readable_bytes b) (drop b.read_pos b.bytes) h) in
    (s, contents-retrieve n v, ap₂ ◌++◌ s (contents-retrieve n v) ∙ take-append-drop n (contents b))

-- A 32-bit number that stands first in network order is read as that number, and what follows it
-- is left.
pub read_int32_lem :
    {b : Buffer} (n : ℕ) (rest : List ℕ)
    → IsValid b
    → contents b ≡ to_be32 n ++ rest
    → n < u32_mod
    → let (m, b') = read_int32 b in (m ≡ n) × (contents b' ≡ rest)
unfolding read_int32 peek_int32 of_be32
read_int32_lem {b} n rest v e h =
    (ap of_be32 first ∙ of_be32-to_be32 n h, contents-retrieve 4 v ∙ ap (drop 4) e)
  where
    enough : 4 ≤ readable_bytes b
    enough = omega (arith, length-contents v, ap length e, length-append (to_be32 n) rest)

    first : peek 4 b ≡ to_be32 n
    first = sym (take-take 4 (readable_bytes b) (drop b.read_pos b.bytes) enough) ∙ ap (take 4) e
