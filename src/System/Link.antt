-- ===== src/System/Link.antt =====
-- System: one direction of the connection. The sender's frames, in their order, are a stream; the
-- receiver has read some of it into its buffer and has been handed some messages.
use light_rpc.Prelude.{
  ℕ, ◌+◌, ◌≤◌, ◌<◌, ◌≡◌, refl, sym, ap, ◌∙◌, List, [], ◌∷◌, ◌++◌, Option, none, some, arith, length,
  take, drop, append_assoc, append-nil, length-append, take-append-drop, drop-append_left,
  drop-append_self, length-take, length-drop, drop-drop, drop_all, inl, inr, ◌⊎◌, Option-cases,
}
use light_rpc.Prelude.Words.{size_mod}
use light_rpc.Buffer.{Buffer, create, initial_size, read_fd, readv_bytes}
use light_rpc.Buffer.Bounds.{IsValid, create-IsValid}
use light_rpc.Buffer.Contents.{contents, length-contents}
use light_rpc.Codec.{ProtoMessage, incomplete, decode, encode, max_frame_size}
use light_rpc.Codec.Fragments.{decode_short}
use light_rpc.Codec.Frame.{frame, Survives, encode-frame, decode-encode}
use light_rpc.ReadLoop.{on_message}
use light_rpc.ReadLoop.Stream.{handle_all}
use light_rpc.ReadLoop.Split.{Sendable, stream, sent_messages}
use light_rpc.ReadLoop.Chunks.{chunk-Chunked}

-- The bytes of some frames.
abbrev pub joined : List (List ℕ) → List ℕ
joined [] = []
joined (f ∷ fs) = f ++ joined fs

abbrev pub frames_of : {T : Type 0} → List (T × List ℕ) → List (List ℕ)
frames_of [] = []
frames_of ((m, bytes) ∷ sent) = frame bytes ∷ frames_of sent

-- At most `n` bytes of those not yet read.
abbrev pub next_chunk : ℕ → List (List ℕ) → ℕ → List ℕ
next_chunk n frames read = take n (drop read (joined frames))

joined-append : (fs gs : List (List ℕ)) → joined (fs ++ gs) ≡ joined fs ++ joined gs
joined-append [] gs = refl
joined-append (f ∷ fs) gs =
    ap (λ x. f ++ x) (joined-append fs gs) ∙ sym (append_assoc f (joined fs) (joined gs))

drop_taken : (n : ℕ) (xs : List ℕ) → drop (length (take n xs)) xs ≡ drop n xs
drop_taken n xs =
    ap (drop (length (take n xs))) (sym (take-append-drop n xs))
    ∙ drop-append_self (take n xs) (drop n xs) (length (take n xs)) refl

module _ {T : Type 0} where
  frames_of-append :
      (xs ys : List (T × List ℕ)) → frames_of (xs ++ ys) ≡ frames_of xs ++ frames_of ys
  frames_of-append [] ys = refl
  frames_of-append ((m, bytes) ∷ xs) ys = ap (◌∷◌ (frame bytes)) (frames_of-append xs ys)

  pub sent_messages-append :
      (xs ys : List (T × List ℕ)) → sent_messages (xs ++ ys) ≡ sent_messages xs ++ sent_messages ys
  sent_messages-append [] ys = refl
  sent_messages-append ((m, bytes) ∷ xs) ys = ap (◌∷◌ m) (sent_messages-append xs ys)

  stream-append : (xs ys : List (T × List ℕ)) → stream (xs ++ ys) ≡ stream xs ++ stream ys
  stream-append [] ys = refl
  stream-append ((m, bytes) ∷ xs) ys =
      ap (λ x. frame bytes ++ x) (stream-append xs ys)
      ∙ sym (append_assoc (frame bytes) (stream xs) (stream ys))

-- What the library writes it reads back, and no message is longer than `MAX_FRAME_SIZE`.
pub record Faithful {T : Type 0} (proto : ProtoMessage T) : Type 0 where
  pub reads_back :
      (m : T) (bytes : List ℕ)
      → proto.serialize m ≡ some bytes
      → (proto.parse bytes ≡ some m) × (length bytes ≤ max_frame_size)

module _ {T : Type 0} (proto : ProtoMessage T) where
  Sendable-append :
      (xs ys : List (T × List ℕ))
      → Sendable proto xs
      → Sendable proto ys
      → Sendable proto (xs ++ ys)
  Sendable-append [] ys h k = k
  Sendable-append ((m, bytes) ∷ xs) ys (s, size, h) k = (s, size, Sendable-append xs ys h k)

  -- The sender's frames are those of `sent`; `got` has been handed over, out of the first `read`
  -- bytes of the stream, and the buffer holds the start of a frame that is not yet whole.
  pub record Link (sent : List (T × List ℕ)) (frames : List (List ℕ)) (read : ℕ) (buffer : Buffer)
      (got : List T) : Type 0 where
    pub later : List (T × List ℕ)
    pub framed : frames ≡ frames_of sent
    pub order : sent_messages sent ≡ got ++ sent_messages later
    pub later_Sendable : Sendable proto later
    pub within : read ≤ length (joined frames)
    pub pending : contents buffer ++ drop read (joined frames) ≡ stream later
    pub waits : decode proto (contents buffer) ≡ incomplete
    pub valid : IsValid buffer

  -- What the message's `encode` says about it.
  pub encode-cases :
      (faithful : Faithful proto) (m : T)
      → (encode proto m ≡ none)
        ⊎ ((bytes : List ℕ) × Survives proto m bytes
            × (length bytes ≤ max_frame_size)
            × (encode proto m ≡ some (frame bytes)))
  unfolding encode
  encode-cases faithful m = elim (Option-cases (proto.serialize m)) [
    | inl e ↦ inl (rw (e, encode) refl)
    | inr (bytes, e) ↦
        let (back, size) = faithful.reads_back m bytes e in
        inr (
          bytes,
          record { written = e; read = back },
          size,
          encode-frame proto m bytes e (omega arith),
        )
  ]

  -- Nothing sent, and nothing read.
  pub create-Link : Link [] [] 0 (create initial_size) []
  unfolding create
  create-Link = record {
    later = [];
    framed = refl;
    order = refl;
    later_Sendable = tt;
    within = omega arith;
    pending = refl;
    waits = decode_short proto [] (omega arith);
    valid = create-IsValid initial_size (omega arith);
  }

  pub send-Link :
      (sent : List (T × List ℕ)) (frames : List (List ℕ)) (read : ℕ) (buffer : Buffer)
      (got : List T) (m : T) (bytes : List ℕ)
      → Link sent frames read buffer got
      → Survives proto m bytes
      → length bytes ≤ max_frame_size
      → Link (sent ++ ((m, bytes) ∷ [])) (frames ++ (frame bytes ∷ [])) read buffer got
  send-Link sent frames read buffer got m bytes k s size = record {
    later = k.later ++ one;
    framed = ap (λ x. x ++ (frame bytes ∷ [])) k.framed ∙ sym (frames_of-append sent one);
    order =
        sent_messages-append sent one
        ∙ ap (λ x. x ++ (m ∷ [])) k.order
        ∙ append_assoc got (sent_messages k.later) (m ∷ [])
        ∙ ap (λ x. got ++ x) (sym (sent_messages-append k.later one));
    later_Sendable = Sendable-append k.later one k.later_Sendable (s, size, tt);
    within =
        omega (arith, k.within, ap length all, length-append (joined frames) (frame bytes ++ []));
    pending =
        ap (λ x. contents buffer ++ x)
          (ap (drop read) all ∙ drop-append_left read (joined frames) (frame bytes ++ []) k.within)
        ∙ sym (append_assoc (contents buffer) (drop read (joined frames)) (frame bytes ++ []))
        ∙ ap (λ x. x ++ (frame bytes ++ [])) k.pending
        ∙ sym (stream-append k.later one);
    waits = k.waits;
    valid = k.valid;
  }
    where
      one : List (T × List ℕ)
      one = (m, bytes) ∷ []

      all : joined (frames ++ (frame bytes ∷ [])) ≡ joined frames ++ (frame bytes ++ [])
      all = joined-append frames (frame bytes ∷ [])

  nothing_later :
      (later : List (T × List ℕ)) (xs : List ℕ)
      → Sendable proto later
      → xs ≡ stream later
      → decode proto xs ≡ incomplete
      → length xs < size_mod
      → sent_messages later ≡ []
  nothing_later [] xs h e waits few = refl
  nothing_later ((m, bytes) ∷ later) xs (s, size, h) e waits few =
      let d = decode-encode proto m bytes (stream later) s size (omega (arith, ap length e, few)) in
      absurd (ground (arith, d.1, waits, ap (decode proto) e))

  -- A receiver that has read all the bytes has been handed all the messages.
  pub read_all :
      (sent : List (T × List ℕ)) (frames : List (List ℕ)) (read : ℕ) (buffer : Buffer)
      (got : List T)
      → Link sent frames read buffer got
      → read ≡ length (joined frames)
      → sent_messages sent ≡ got
  read_all sent frames read buffer got k h =
      k.order
      ∙ ap (λ xs. got ++ xs)
          (nothing_later k.later (contents buffer) k.later_Sendable
            (sym (append-nil (contents buffer))
              ∙ ap (λ xs. contents buffer ++ xs)
                  (sym (drop_all read (joined frames) (omega (arith, h))))
              ∙ k.pending)
            k.waits (omega (arith, length-contents k.valid, k.valid)))
      ∙ append-nil got

  module _ {S : Type 0} (handle : T → S → S) (close : S → S) where
    -- A read hands over some messages.
    pub record Read (sent : List (T × List ℕ)) (frames : List (List ℕ)) (read n : ℕ)
        (buffer : Buffer) (got : List T) (s : S) (r : Option (Buffer × S)) : Type 0 where
      pub handled : List T
      pub after : Buffer
      pub result : r ≡ some (after, handle_all proto handle close handled s)
      pub link : Link sent frames (read + length (next_chunk n frames read)) after (got ++ handled)
      pub grown : length after.bytes ≤ length buffer.bytes + n + initial_size

    pub on_message-Read :
        (sent : List (T × List ℕ)) (frames : List (List ℕ)) (read n : ℕ) (buffer : Buffer)
        (got : List T) (s : S)
        → Link sent frames read buffer got
        → length buffer.bytes + n + initial_size < size_mod
        → Read sent frames read n buffer got s (
            on_message proto handle close
              (read_fd (readv_bytes (next_chunk n frames read)) 0 buffer).2
              s)
    on_message-Read sent frames read n buffer got s k room =
        let chunk : List ℕ = next_chunk n frames read in
        let rest : List ℕ = drop n (drop read (joined frames)) in
        let short : length chunk ≤ n = omega (arith, length-take n (drop read (joined frames))) in
        let c =
          chunk-Chunked proto handle close chunk rest k.later buffer s k.valid (omega arith)
            k.later_Sendable
            (ap (λ x. contents buffer ++ x) (take-append-drop n (drop read (joined frames)))
              ∙ k.pending) in
        record {
          handled = c.handled;
          after = c.buffer;
          result = c.result;
          link = record {
            later = c.later;
            framed = k.framed;
            order =
                k.order
                ∙ ap (λ x. got ++ x) c.order
                ∙ sym (append_assoc got c.handled (sent_messages c.later));
            later_Sendable = c.later_Sendable;
            within = omega (
              arith,
              k.within,
              length-take n (drop read (joined frames)),
              length-drop read (joined frames),
            );
            pending =
                ap (λ x. contents c.buffer ++ x)
                  (sym (drop-drop (length chunk) read (joined frames))
                    ∙ drop_taken n (drop read (joined frames)))
                ∙ c.joined;
            waits = c.waits;
            valid = c.valid;
          };
          grown = omega (arith, c.grown);
        }
