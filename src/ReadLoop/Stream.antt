-- ===== src/ReadLoop/Stream.antt =====
-- The read loop handles, in order, exactly the messages at the front of the buffer, and ends.
use light_rpc.Prelude.{
  ℕ, zero, suc, ◌+◌, ◌<◌, ◌≡◌, refl, ap, ◌∙◌, Bool, List, [], ◌∷◌, Option, some, arith,
  if◌then◌else◌, ltb, length, length-drop, Bool-cases, inl, inr,
}
use light_rpc.Buffer.{Buffer, readable_bytes, peek_string_view, retrieve}
use light_rpc.Buffer.Bounds.{IsValid, retrieve-IsValid, length-retrieve}
use light_rpc.Buffer.Contents.{contents, length-contents, contents-retrieve}
use light_rpc.Codec.{ProtoMessage, DecodeStatus, ok, incomplete, corrupted, decode}
use light_rpc.Codec.Fragments.{decode_ok_bounds, decode_short}
use light_rpc.ReadLoop.{after_decode, read_loop, on_message, messages, messages_after}

module _ {T S : Type 0} (proto : ProtoMessage T) (handle : T → S → S) (close : S → S) where
  abbrev pub handle_all : List T → S → S
  handle_all [] s = s
  handle_all (m ∷ ms) s = handle_all ms (handle m s)

  -- The messages handled, and then the connection closed if a corrupted frame follows.
  abbrev pub outcome : List T × Bool × List ℕ → S → S
  outcome (ms, bad, rest) s = if bad then close (handle_all ms s) else handle_all ms s

  -- The loop has ended with this state and these bytes left, in a valid buffer of the same size.
  pub record Ends (b : Buffer) (s : S) (spec : List T × Bool × List ℕ) (r : Option (Buffer × S))
      : Type 0 where
    pub buffer : Buffer
    pub result : r ≡ some (buffer, outcome spec s)
    pub left : contents buffer ≡ spec.2
    pub valid : IsValid buffer
    pub size : length buffer.bytes ≡ length b.bytes

  -- One round, given the rounds that follow.
  round-Ends :
      (fuel : ℕ) (b : Buffer) (s : S)
      → IsValid b
      → ((m : T) (n : ℕ)
          → decode proto (contents b) ≡ ok m n
          → Ends
              (retrieve n b)
              (handle m s)
              (messages proto fuel (contents (retrieve n b)))
              (read_loop proto handle close fuel (retrieve n b) (handle m s)))
      → (d : DecodeStatus T) → decode proto (contents b) ≡ d
      → Ends b s
          (messages_after proto (messages proto fuel) (contents b) d)
          (after_decode proto handle close (read_loop proto handle close fuel) b s d)
  unfolding after_decode messages_after
  round-Ends fuel b s v next incomplete e = record {
    buffer = b;
    result = refl;
    left = refl;
    valid = v;
    size = refl;
  }
  round-Ends fuel b s v next (corrupted n) e = record {
    buffer = b;
    result = refl;
    left = refl;
    valid = v;
    size = refl;
  }
  round-Ends fuel b s v next (ok m n) e =
      let r = next m n e in
      let same = contents-retrieve n v in
      record {
        buffer = r.buffer;
        result =
            r.result
            ∙ ap (λ xs. some (r.buffer, outcome (messages proto fuel xs) (handle m s))) same;
        left = r.left ∙ ap (λ xs. (messages proto fuel xs).2) same;
        valid = r.valid;
        size = r.size ∙ length-retrieve n b;
      }

  -- A message takes bytes, so the rounds left are enough for what it leaves.
  next_round :
      (fuel : ℕ) (b : Buffer) (s : S)
      → IsValid b
      → readable_bytes b < suc fuel
      → ((b' : Buffer) (s' : S)
          → IsValid b'
          → readable_bytes b' < fuel
          → Ends b' s'
              (messages proto fuel (contents b'))
              (read_loop proto handle close fuel b' s'))
      → (m : T) (n : ℕ) → decode proto (contents b) ≡ ok m n
      → Ends
          (retrieve n b)
          (handle m s)
          (messages proto fuel (contents (retrieve n b)))
          (read_loop proto handle close fuel (retrieve n b) (handle m s))
  next_round fuel b s v h rec m n e =
      let bounds = decode_ok_bounds proto (contents b) m n (omega (arith, length-contents v)) e in
      let v' = retrieve-IsValid n v in
      rec (retrieve n b) (handle m s) v' (
        omega (
          arith,
          bounds,
          length-contents v,
          length-contents v',
          ap length (contents-retrieve n v),
          length-drop n (contents b),
        ))

  pub read_loop-Ends :
      (fuel : ℕ) (b : Buffer) (s : S)
      → IsValid b
      → readable_bytes b < fuel
      → Ends b s (messages proto fuel (contents b)) (read_loop proto handle close fuel b s)
  unfolding read_loop messages peek_string_view
  read_loop-Ends zero b s v h = absurd (omega arith)
  read_loop-Ends (suc fuel) b s v h = elim (Bool-cases (ltb (readable_bytes b) 4)) [
    | inl few ↦
        rw (few, decode_short proto (contents b) (ground (arith, length-contents v)))
          (record { buffer = b; result = refl; left = refl; valid = v; size = refl })
    | inr enough ↦ rw enough (
        round-Ends fuel b s v (next_round fuel b s v h (read_loop-Ends fuel))
          (decode proto (contents b)) refl)
  ]

  -- `onMessage` ends, and its effect is that of handling, in order, the messages at the front of the
  -- buffer, and of closing the connection where a corrupted frame follows them; the bytes from there
  -- on stay in the buffer.
  pub on_message-Ends :
      (b : Buffer) (s : S)
      → IsValid b
      → Ends b s
          (messages proto (readable_bytes b + 1) (contents b))
          (on_message proto handle close b s)
  unfolding on_message
  on_message-Ends b s v = read_loop-Ends (readable_bytes b + 1) b s v (omega arith)
