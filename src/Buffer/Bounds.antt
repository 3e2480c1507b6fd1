-- ===== src/Buffer/Bounds.antt =====
-- Buffer: the positions stay in order and inside the vector, and no `size_t` wraps.
use light_rpc.Prelude.{
  ℕ, ◌+◌, ◌-◌, ◌≤◌, ◌<◌, ◌≡◌, List, arith, max, length, take, drop, length-append, length-take,
  length-drop, length-replicate,
}
use light_rpc.Prelude.Words.{size_mod, add_size}
use light_rpc.Buffer.{
  Buffer, create, readable_bytes, writable_bytes, peek, retrieve, overwrite, resize, make_space,
  grow, compact, ensure_writable, initial_size,
}

-- The representation invariant.
pub record IsValid (b : Buffer) : Type 0 where
  pub ordered : b.read_pos ≤ b.write_pos
  pub inside : b.write_pos ≤ length b.bytes
  pub small : length b.bytes < size_mod

-- The vector can take `n` more bytes and a fresh chunk without reaching the end of `size_t`.
abbrev pub Fits : ℕ → Buffer → Type 0
Fits n b = length b.bytes + n + initial_size < size_mod

pub readable-eq : {b : Buffer} → IsValid b → readable_bytes b ≡ b.write_pos - b.read_pos
readable-eq v = omega arith

pub writable-eq : {b : Buffer} → IsValid b → writable_bytes b ≡ length b.bytes - b.write_pos
writable-eq v = omega arith

pub length-overwrite :
    (xs : List ℕ) (pos : ℕ) (src : List ℕ)
    → pos + length src ≤ length xs
    → length (overwrite xs pos src) ≡ length xs
length-overwrite xs pos src h = omega (
  arith,
  length-append (take pos xs) _,
  length-append src (drop (pos + length src) xs),
  length-take pos xs,
  length-drop (pos + length src) xs,
)

pub length-resize : (n : ℕ) (xs : List ℕ) → length (resize n xs) ≡ n
length-resize n xs = omega (
  arith,
  length-append (take n xs) _,
  length-take n xs,
  length-replicate {A = ℕ} (n - length xs) 0,
)

pub length-peek : {b : Buffer} (n : ℕ) → IsValid b → n ≤ readable_bytes b → length (peek n b) ≡ n
length-peek {b} n v h =
    omega (arith, length-take n (drop b.read_pos b.bytes), length-drop b.read_pos b.bytes)

pub create-IsValid : (n : ℕ) → n < size_mod → IsValid (create n)
unfolding create
create-IsValid n h = omega (arith, length-replicate {A = ℕ} n 0)

pub retrieve-IsValid : {b : Buffer} (n : ℕ) → IsValid b → IsValid (retrieve n b)
unfolding retrieve
retrieve-IsValid n v = ground arith

pub length-retrieve : (n : ℕ) (b : Buffer) → length (retrieve n b).bytes ≡ length b.bytes
unfolding retrieve
length-retrieve n b = ground arith

-- What `EnsureWritable` leaves: room for `n` bytes (its assertion), in a valid buffer that holds as
-- many readable bytes as before and has grown by no more than `n` and one chunk.
pub record HasRoom (n : ℕ) (old new : Buffer) : Type 0 where
  pub valid : IsValid new
  pub room : new.write_pos + n ≤ length new.bytes
  pub readable : readable_bytes new ≡ readable_bytes old
  pub grown : length new.bytes ≤ length old.bytes + n + initial_size

make_space-HasRoom :
    {b : Buffer} (n : ℕ)
    → IsValid b
    → Fits n b
    → writable_bytes b < n
    → HasRoom n b (make_space n b)
unfolding make_space grow compact
make_space-HasRoom {b} n v f h = ground (
  arith,
  length-resize (max (add_size b.write_pos n) (add_size n initial_size)) b.bytes,
  length-overwrite b.bytes 0 (peek (readable_bytes b) b),
  length-peek (readable_bytes b) v (omega arith),
)

pub ensure_writable-HasRoom :
    {b : Buffer} (n : ℕ) → IsValid b → Fits n b → HasRoom n b (ensure_writable n b)
unfolding ensure_writable
ensure_writable-HasRoom n v f = ground (arith, make_space-HasRoom n v f)
