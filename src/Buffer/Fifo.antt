-- ===== src/Buffer/Fifo.antt =====
-- Buffer: its contract. A client that stays within the bounds cannot tell the buffer from a queue
-- of bytes, whatever growing and compacting happens behind the calls.
use light_rpc.Prelude.{
  ℕ, ◌+◌, ◌-◌, ◌≤◌, ◌<◌, ◌≡◌, refl, sym, ap, ap₂, ◌∙◌, List, [], ◌∷◌, ◌++◌, arith, length, take,
  drop, take-take,
}
use light_rpc.Prelude.Words.{size_mod, of_be32}
use light_rpc.Buffer.{
  Buffer, initial_size, append, retrieve, retrieve_all, read_string, retrieve_all_to_str,
  read_int32, peek_int32, ensure_writable, read_fd, readv_bytes, readable_bytes,
}
use light_rpc.Buffer.Bounds.{IsValid, retrieve-IsValid, length-retrieve}
use light_rpc.Buffer.Contents.{
  contents, length-contents, append-Appended, contents-retrieve, ensure_writable_lem,
  read_string_lem,
}
use light_rpc.Buffer.Io.{read_fd_lem}

-- A call of a client, and of the connection that fills the buffer from its socket.
pub data Op : Type 0 where
  put : List ℕ → Op
  received : List ℕ → Op
  reserve : ℕ → Op
  skip : ℕ → Op
  read : ℕ → Op
  read_word : Op
  read_all : Op

-- The bytes (or the number) that the call returns, and the buffer after it.
pub call : Op → Buffer → List ℕ × Buffer
call (put src) b = ([], append src b)
call (received src) b = ([], (read_fd (readv_bytes src) 0 b).2)
call (reserve n) b = ([], ensure_writable n b)
call (skip n) b = ([], retrieve n b)
call (read n) b = read_string n b
call read_word b = let (n, b') = read_int32 b in (n ∷ [], b')
call read_all b = retrieve_all_to_str b

pub run : List Op → Buffer → List (List ℕ)
run [] b = []
run (op ∷ ops) b = let (out, b') = call op b in out ∷ run ops b'

-- The same calls on a queue of bytes.
unfoldable pub queue_call : Op → List ℕ → List ℕ × List ℕ
queue_call (put src) q = ([], q ++ src)
queue_call (received src) q = ([], q ++ src)
queue_call (reserve n) q = ([], q)
queue_call (skip n) q = ([], drop n q)
queue_call (read n) q = (take n q, drop n q)
queue_call read_word q = (of_be32 (take 4 q) ∷ [], drop 4 q)
queue_call read_all q = (q, [])

pub queue_run : List Op → List ℕ → List (List ℕ)
queue_run [] q = []
queue_run (op ∷ ops) q = let (out, q') = queue_call op q in out ∷ queue_run ops q'

-- How far a call may make the vector grow.
abbrev pub cost : Op → ℕ
cost (put src) = length src + initial_size
cost (received src) = length src + initial_size
cost (reserve n) = n + initial_size
cost _ = 0

-- What the asserted conditions ask of the client.
abbrev pub Asks : Op → List ℕ → Type 0
Asks (skip n) q = n ≤ length q
Asks (read n) q = n ≤ length q
Asks read_word q = 4 ≤ length q
Asks _ q = Unit {0}

abbrev pub Allowed : ℕ → List Op → List ℕ → Type 0
Allowed room [] q = Unit {0}
Allowed room (op ∷ ops) q =
    (cost op ≤ room) × Asks op q × Allowed (room - cost op) ops (queue_call op q).1

-- One call: the same answer, the same bytes left, and the growth within `cost`.
record Agrees (op : Op) (b : Buffer) (r : List ℕ × Buffer) : Type 0 where
  answer : r.0 ≡ (queue_call op (contents b)).0
  left : contents r.1 ≡ (queue_call op (contents b)).1
  valid : IsValid r.1
  grown : length r.1.bytes ≤ length b.bytes + cost op

call-Agrees :
    (op : Op) {b : Buffer}
    → IsValid b
    → length b.bytes + cost op < size_mod
    → Asks op (contents b)
    → Agrees op b (call op b)
unfolding call queue_call read_string read_int32 peek_int32 retrieve_all_to_str retrieve_all
call-Agrees (put src) v f h =
    let a = append-Appended src v (omega arith) in
    record { answer = refl; left = a.stored; valid = a.valid; grown = omega (arith, a.grown) }
call-Agrees (received src) v f h =
    let a = (read_fd_lem 0 0 src v (omega arith)).0.2 in
    record { answer = refl; left = a.stored; valid = a.valid; grown = omega (arith, a.grown) }
call-Agrees (reserve n) v f h =
    let (r, same) = ensure_writable_lem n v (omega arith) in
    record { answer = refl; left = same; valid = r.valid; grown = omega (arith, r.grown) }
call-Agrees (skip n) {b} v f h = record {
  answer = refl;
  left = contents-retrieve n v;
  valid = retrieve-IsValid n v;
  grown = omega (arith, length-retrieve n b);
}
call-Agrees (read n) {b} v f h =
    let (s, rest, _) = read_string_lem n v (omega (arith, length-contents v)) in
    record {
      answer = s;
      left = rest;
      valid = retrieve-IsValid n v;
      grown = omega (arith, length-retrieve n b);
    }
call-Agrees read_word {b} v f h = record {
  answer =
      ap (λ xs. of_be32 xs ∷ [])
        (sym (
          take-take 4 (readable_bytes b) (drop b.read_pos b.bytes)
            (omega (arith, length-contents v))));
  left = contents-retrieve 4 v;
  valid = retrieve-IsValid 4 v;
  grown = omega (arith, length-retrieve 4 b);
}
call-Agrees read_all v f h = record {
  answer = refl;
  left = refl;
  valid = omega arith;
  grown = omega arith;
}

-- Any sequence of calls that respects the asserted conditions, and that cannot make the vector
-- outgrow `size_t`, gets from a valid buffer the answers that a queue of its bytes would give.
pub run_refines :
    (ops : List Op) (room : ℕ) {b : Buffer}
    → IsValid b
    → length b.bytes + room < size_mod
    → Allowed room ops (contents b)
    → run ops b ≡ queue_run ops (contents b)
unfolding run queue_run
run_refines [] room v f h = refl
run_refines (op ∷ ops) room {b} v f (enough, asks, later) =
    let a = call-Agrees op v (omega arith) asks in
    let rest =
      run_refines ops (room - cost op) a.valid (omega (arith, a.grown)) (rw a.left later) in
    ap₂ ◌∷◌ a.answer (rest ∙ ap (queue_run ops) a.left)
