-- ===== src/ReadLoop/Chunks.antt =====
-- Delivery: what the peer sends as frames reaches the handler message by message, however TCP cuts
-- the byte stream.
use light_rpc.Prelude.{
  ℕ, ◌+◌, ◌≤◌, ◌<◌, ◌≡◌, refl, sym, ap, ◌∙◌, Bool, false, List, [], ◌∷◌, ◌++◌, Option, some, arith,
  length, append-nil, append_assoc,
}
use light_rpc.Prelude.Words.{size_mod}
use light_rpc.Buffer.{Buffer, initial_size, readable_bytes, read_fd, readv_bytes}
use light_rpc.Buffer.Bounds.{IsValid}
use light_rpc.Buffer.Contents.{contents, length-contents, Appended}
use light_rpc.Buffer.Io.{read_fd_lem}
use light_rpc.Codec.{ProtoMessage, incomplete, decode}
use light_rpc.Codec.Fragments.{decode_short}
use light_rpc.ReadLoop.{receive, messages, on_message}
use light_rpc.ReadLoop.Stream.{handle_all, outcome, on_message-Ends}
use light_rpc.ReadLoop.Split.{Sendable, stream, sent_messages, messages-Split, all_arrived}

module _ {T : Type 0} (proto : ProtoMessage T) where
  module _ {S : Type 0} (handle : T → S → S) (close : S → S) where
    -- How far the chunks can make the buffer grow.
    abbrev pub chunks_cost : List (List ℕ) → ℕ
    chunks_cost [] = 0
    chunks_cost (c ∷ cs) = length c + initial_size + chunks_cost cs

    abbrev pub joined_chunks : List (List ℕ) → List ℕ
    joined_chunks [] = []
    joined_chunks (c ∷ cs) = c ++ joined_chunks cs

    -- The chunks have been received, with these messages handled in order, and nothing is left over.
    pub record Delivered (ms : List T) (s : S) (r : Option (Buffer × S)) : Type 0 where
      pub buffer : Buffer
      pub result : r ≡ some (buffer, handle_all proto handle close ms s)
      pub empty : contents buffer ≡ []
      pub valid : IsValid buffer

    handle_all-append :
        (xs ys : List T) (s : S)
        → handle_all proto handle close (xs ++ ys) s
          ≡ handle_all proto handle close ys (handle_all proto handle close xs s)
    handle_all-append [] ys s = refl
    handle_all-append (x ∷ xs) ys s = handle_all-append xs ys (handle x s)

    outcome_open :
        (r : List T × Bool × List ℕ) (ms : List T) (s : S)
        → r.0 ≡ ms
        → r.1 ≡ false
        → outcome proto handle close r s ≡ handle_all proto handle close ms s
    outcome_open (ms', bad, rest) ms s h k = rw k (ap (λ l. handle_all proto handle close l s) h)

    -- One chunk has been received: some messages were handled, and the rest of the stream is later.
    pub record Chunked (b : Buffer) (chunk rest : List ℕ) (sent : List (T × List ℕ)) (s : S)
        (r : Option (Buffer × S)) : Type 0 where
      pub handled : List T
      pub later : List (T × List ℕ)
      pub buffer : Buffer
      pub result : r ≡ some (buffer, handle_all proto handle close handled s)
      pub order : sent_messages sent ≡ handled ++ sent_messages later
      pub later_Sendable : Sendable proto later
      pub joined : contents buffer ++ rest ≡ stream later
      pub waits : decode proto (contents buffer) ≡ incomplete
      pub valid : IsValid buffer
      pub grown : length buffer.bytes ≤ length b.bytes + length chunk + initial_size

    pub chunk-Chunked :
        (chunk rest : List ℕ) (sent : List (T × List ℕ)) (b : Buffer) (s : S)
        → IsValid b
        → length b.bytes + length chunk + initial_size < size_mod
        → Sendable proto sent
        → contents b ++ (chunk ++ rest) ≡ stream sent
        → Chunked b chunk rest sent s
            (on_message proto handle close (read_fd (readv_bytes chunk) 0 b).2 s)
    chunk-Chunked c rest sent b s v w h e =
        let b1 : Buffer = (read_fd (readv_bytes c) 0 b).2 in
        let a : Appended c b b1 = (read_fd_lem 0 0 c v (omega arith)).0.2 in
        let m = on_message-Ends proto handle close b1 s a.valid in
        let sp =
          messages-Split proto (readable_bytes b1 + 1) (contents b1) rest sent
            (omega (arith, length-contents a.valid)) (omega (arith, length-contents a.valid)) h
            (ap (λ t. t ++ rest) a.stored ∙ append_assoc (contents b) c rest ∙ e) in
        let same =
          outcome_open (messages proto (readable_bytes b1 + 1) (contents b1)) sp.handled s sp.result
            sp.open_still in
        record {
          handled = sp.handled;
          later = sp.later;
          buffer = m.buffer;
          result = m.result ∙ ap (λ t. some (m.buffer, t)) same;
          order = sp.order;
          later_Sendable = sp.later_Sendable;
          joined = ap (λ t. t ++ rest) m.left ∙ sp.joined;
          waits = ap (decode proto) m.left ∙ sp.waits;
          valid = m.valid;
          grown = omega (arith, m.size, a.grown);
        }

    receive-Delivered :
        (chunks : List (List ℕ)) (sent : List (T × List ℕ)) (b : Buffer) (s : S)
        → IsValid b
        → length b.bytes + chunks_cost chunks < size_mod
        → Sendable proto sent
        → contents b ++ joined_chunks chunks ≡ stream sent
        → decode proto (contents b) ≡ incomplete
        → Delivered (sent_messages sent) s (receive proto handle close chunks b s)
    unfolding receive
    receive-Delivered [] sent b s v w h e d =
        let whole = sym (append-nil (contents b)) ∙ e in
        let over =
          all_arrived proto (contents b) sent (omega (arith, length-contents v)) h whole d in
        record {
          buffer = b;
          result = ap (λ l. some (b, handle_all proto handle close (sent_messages l) s)) (sym over);
          empty = whole ∙ ap stream over;
          valid = v;
        }
    receive-Delivered (c ∷ chunks) sent b s v w h e d =
        let k = chunk-Chunked c (joined_chunks chunks) sent b s v (omega arith) h e in
        let r =
          receive-Delivered chunks k.later k.buffer (handle_all proto handle close k.handled s)
            k.valid (omega (arith, k.grown, w)) k.later_Sendable k.joined k.waits in
        rw (k.result, receive)
          (record {
            buffer = r.buffer;
            result =
                r.result
                ∙ ap (λ t. some (r.buffer, t))
                    (sym (handle_all-append k.handled (sent_messages k.later) s)
                      ∙ ap (λ l. handle_all proto handle close l s) (sym k.order));
            empty = r.empty;
            valid = r.valid;
          })

    -- Delivery. A connection starts with an empty buffer and receives, in any chunks, the frames
    -- of messages that the library writes and reads back, each of at most `MAX_FRAME_SIZE` bytes.
    -- Then the handler is run on exactly those messages, in the order sent, the connection is not
    -- closed, and the buffer is empty again. (The chunks cannot make it outgrow `size_t`.)
    pub receive_delivers :
        (chunks : List (List ℕ)) (sent : List (T × List ℕ)) (b : Buffer) (s : S)
        → IsValid b
        → contents b ≡ []
        → length b.bytes + chunks_cost chunks < size_mod
        → Sendable proto sent
        → joined_chunks chunks ≡ stream sent
        → Delivered (sent_messages sent) s (receive proto handle close chunks b s)
    receive_delivers chunks sent b s v nothing w h e =
        receive-Delivered chunks sent b s v w h (ap (λ t. t ++ joined_chunks chunks) nothing ∙ e)
          (ap (decode proto) nothing ∙ decode_short proto [] (omega arith))
