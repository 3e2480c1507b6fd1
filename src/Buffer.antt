-- ===== src/Buffer.antt =====
-- code/base/buffer/buffer.h and buffer.cc: the growing byte buffer of a connection.
-- `buffer_` is the list of its bytes, and its size the length of that list. The model is of the
-- release build, in which `assert` is empty (`-DNDEBUG`); that the asserted conditions hold is
-- proved in Buffer/Bounds. What the kernel returns from `readv` and `write` is an argument.
pub mod Bounds
pub mod Contents
pub mod Io
pub mod Counting
pub mod Fifo
use light_rpc.Prelude.{
  ℕ, ◌+◌, ◌-◌, ◌≤◌, max, List, [], ◌∷◌, ◌++◌, Option, none, some, if◌then◌else◌, ltb, leb, length,
  take, drop, replicate,
}
use light_rpc.Prelude.Words.{add_size, sub_size, of_be32}

pub record Buffer : Type 0 where
  pub bytes : List ℕ
  pub read_pos : ℕ
  pub write_pos : ℕ

abbrev pub initial_size : ℕ
initial_size = 4096

-- A vector of `size` zero bytes.
unfoldable pub create : ℕ → Buffer
create size = record { bytes = replicate size 0; read_pos = 0; write_pos = 0 }

-- The moved-to buffer and what is left of the other one: its vector is empty, its positions zero.
pub move : Buffer → Buffer × Buffer
move other = (other, record { bytes = []; read_pos = 0; write_pos = 0 })

abbrev pub readable_bytes : Buffer → ℕ
readable_bytes b = sub_size b.write_pos b.read_pos

abbrev pub writable_bytes : Buffer → ℕ
writable_bytes b = sub_size (length b.bytes) b.write_pos

abbrev pub prependable_bytes : Buffer → ℕ
prependable_bytes b = b.read_pos

-- The `n` bytes from `Peek()` on.
abbrev pub peek : ℕ → Buffer → List ℕ
peek n b = take n (drop b.read_pos b.bytes)

pub retrieve_all : Buffer → Buffer
retrieve_all b = record b { read_pos = 0; write_pos = 0 }

pub retrieve : ℕ → Buffer → Buffer
unfolding retrieve_all
retrieve len b =
    if ltb len (readable_bytes b)
    then record b { read_pos = add_size b.read_pos len }
    else retrieve_all b

pub has_written : ℕ → Buffer → Buffer
has_written len b = record b { write_pos = add_size b.write_pos len }

-- `std::copy` of `src` to the index `pos`.
abbrev pub overwrite : List ℕ → ℕ → List ℕ → List ℕ
overwrite xs pos src = take pos xs ++ (src ++ drop (pos + length src) xs)

-- `std::vector::resize`: new bytes are zero.
abbrev pub resize : ℕ → List ℕ → List ℕ
resize n xs = take n xs ++ replicate (n - length xs) 0

-- The first branch of `makeSpace`: a larger vector.
pub grow : ℕ → Buffer → Buffer
grow needed b = record b {
  bytes = resize (max (add_size b.write_pos needed) (add_size needed initial_size)) b.bytes;
}

-- The second branch: the readable bytes move to the front.
pub compact : Buffer → Buffer
compact b = record b {
  bytes = overwrite b.bytes 0 (peek (readable_bytes b) b);
  read_pos = 0;
  write_pos = readable_bytes b;
}

pub make_space : ℕ → Buffer → Buffer
make_space needed b =
    if ltb (add_size (writable_bytes b) (prependable_bytes b)) needed
    then grow needed b
    else compact b

pub ensure_writable : ℕ → Buffer → Buffer
ensure_writable len b = if ltb (writable_bytes b) len then make_space len b else b

-- The write at `WriteBegin()`.
pub write_begin : List ℕ → Buffer → Buffer
write_begin src b = record b { bytes = overwrite b.bytes b.write_pos src }

pub append : List ℕ → Buffer → Buffer
append src b = has_written (length src) (write_begin src (ensure_writable (length src) b))

pub read_string : ℕ → Buffer → List ℕ × Buffer
read_string n b = (peek n b, retrieve n b)

unfoldable pub peek_string_view : Buffer → List ℕ
peek_string_view b = peek (readable_bytes b) b

pub retrieve_all_to_str : Buffer → List ℕ × Buffer
retrieve_all_to_str b = (peek (readable_bytes b) b, retrieve_all b)

pub peek_int32 : Buffer → ℕ
peek_int32 b = of_be32 (peek 4 b)

pub read_int32 : Buffer → ℕ × Buffer
read_int32 b = (peek_int32 b, retrieve 4 b)

-- What `readv` delivers: an `errno`, or the bytes that it has put into the two areas in turn.
pub data Readv : Type 0 where
  readv_failed : ℕ → Readv
  readv_bytes : List ℕ → Readv

-- What `write` returns: an `errno`, or the number of bytes taken.
pub data Written : Type 0 where
  write_failed : ℕ → Written
  wrote : ℕ → Written

abbrev pub extrabuf_size : ℕ
extrabuf_size = 65536

-- The return value (`none` is -1), what `*savedErrno` holds after the call, and the buffer.
abbrev pub IoResult : Type 0
IoResult = Option ℕ × ℕ × Buffer

-- `readv` has filled the free end with `part`: `writePos_ = buffer_.size()`.
fill_up : List ℕ → Buffer → Buffer
fill_up part b = record b { bytes = overwrite b.bytes b.write_pos part; write_pos = length b.bytes }

-- The kernel has filled the buffer's free end first, then `extrabuf`.
fill : List ℕ → Buffer → Buffer
fill src b =
    if leb (length src) (writable_bytes b)
    then has_written (length src) (write_begin src b)
    else append (drop (writable_bytes b) src) (fill_up (take (writable_bytes b) src) b)

pub read_fd : Readv → ℕ → Buffer → IoResult
unfolding fill
read_fd (readv_failed errno) saved b = (none, errno, b)
read_fd (readv_bytes src) saved b = (some (length src), saved, fill src b)

pub write_fd : Written → ℕ → Buffer → IoResult
write_fd (write_failed errno) saved b = (none, errno, b)
write_fd (wrote n) saved b = (some n, saved, b)
