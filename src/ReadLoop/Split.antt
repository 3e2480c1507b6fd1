-- ===== src/ReadLoop/Split.antt =====
-- A stream of frames of which a part has arrived: the whole messages in it, and the start of a frame.
use light_rpc.Prelude.{
  ℕ, zero, suc, ◌≤◌, ◌<◌, ◌≡◌, refl, sym, ap, ◌∙◌, Bool, false, List, [], ◌∷◌, ◌++◌, arith, length,
  take, drop, length-drop, take-append_left, drop-append_left, take-append_self, drop-append_self,
  take-append-drop, Bool-cases, inl, inr, leb,
}
use light_rpc.Prelude.Words.{size_mod}
use light_rpc.Codec.{ProtoMessage, incomplete, decode, max_frame_size}
use light_rpc.Codec.Frame.{frame, Survives, decode-encode}
use light_rpc.Codec.Fragments.{decode-take-frame, decode_short}
use light_rpc.ReadLoop.{messages, messages_after}

-- Two ways to cut one list.
cut_long :
    (xs ys f g : List ℕ)
    → xs ++ ys ≡ f ++ g
    → length f ≤ length xs
    → (xs ≡ f ++ drop (length f) xs) × (drop (length f) xs ++ ys ≡ g)
cut_long xs ys f g e h = (
  sym (take-append-drop (length f) xs)
      ∙ ap (λ t. t ++ drop (length f) xs)
          (sym (take-append_left (length f) xs ys h)
            ∙ ap (take (length f)) e
            ∙ take-append_self f g (length f) refl),
  sym (drop-append_left (length f) xs ys h)
      ∙ ap (drop (length f)) e
      ∙ drop-append_self f g (length f) refl,
)

cut_short :
    (xs ys f g : List ℕ) → xs ++ ys ≡ f ++ g → length xs < length f → xs ≡ take (length xs) f
cut_short xs ys f g e h =
    sym (take-append_self xs ys (length xs) refl)
    ∙ ap (take (length xs)) e
    ∙ take-append_left (length xs) f g (omega arith)

abbrev pub stream : {T : Type 0} → List (T × List ℕ) → List ℕ
stream [] = []
stream ((m, bytes) ∷ sent) = frame bytes ++ stream sent

abbrev pub sent_messages : {T : Type 0} → List (T × List ℕ) → List T
sent_messages [] = []
sent_messages ((m, bytes) ∷ sent) = m ∷ sent_messages sent

module _ {T : Type 0} (proto : ProtoMessage T) where
  -- What the peer sends: messages with their serialized bytes.
  abbrev pub Sendable : List (T × List ℕ) → Type 0
  Sendable [] = Unit {0}
  Sendable ((m, bytes) ∷ sent) =
      Survives proto m bytes × (length bytes ≤ max_frame_size) × Sendable sent

  -- The part of a stream that has arrived, `xs`, as the loop sees it: whole messages, and the start
  -- of a frame that waits for more.
  pub record Split (sent : List (T × List ℕ)) (ys : List ℕ) (r : List T × Bool × List ℕ)
      : Type 0 where
    pub handled : List T
    pub later : List (T × List ℕ)
    pub result : r.0 ≡ handled
    pub open_still : r.1 ≡ false
    pub order : sent_messages sent ≡ handled ++ sent_messages later
    pub later_Sendable : Sendable later
    pub joined : r.2 ++ ys ≡ stream later
    pub waits : decode proto r.2 ≡ incomplete

  pub messages-Split :
      (fuel : ℕ) (xs ys : List ℕ) (sent : List (T × List ℕ))
      → length xs < fuel
      → length xs < size_mod
      → Sendable sent
      → xs ++ ys ≡ stream sent
      → Split sent ys (messages proto fuel xs)
  unfolding messages messages_after
  messages-Split zero xs ys sent f w h e = absurd (omega arith)
  messages-Split (suc fuel) (x ∷ xs) ys [] f w h e = absurd (ground arith)
  messages-Split (suc fuel) [] ys [] f w h e = rw (decode_short proto [] (omega arith)) (record {
    handled = [];
    later = [];
    result = refl;
    open_still = refl;
    order = refl;
    later_Sendable = tt;
    joined = e;
    waits = decode_short proto [] (omega arith);
  })
  messages-Split (suc fuel) xs ys ((m, bytes) ∷ sent) f w (s, size, h) e =
      elim (Bool-cases (leb (length (frame bytes)) (length xs))) [
        | inl whole ↦
            let (front, back) = cut_long xs ys (frame bytes) (stream sent) e (ground arith) in
            let size' = ap length front in
            let d =
              ap (decode proto) front
              ∙ (decode-encode proto m bytes (drop (length (frame bytes)) xs) s size
                  (omega (arith, size', w))).1 in
            let r =
              messages-Split fuel (drop (length (frame bytes)) xs) ys sent
                (omega (arith, length-drop (length (frame bytes)) xs, f))
                (omega (arith, length-drop (length (frame bytes)) xs, w)) h back in
            rw d (record {
              handled = m ∷ r.handled;
              later = r.later;
              result = ap (◌∷◌ m) r.result;
              open_still = r.open_still;
              order = ap (◌∷◌ m) r.order;
              later_Sendable = r.later_Sendable;
              joined = r.joined;
              waits = r.waits;
            })
        | inr part ↦
            let d =
              ap (decode proto) (cut_short xs ys (frame bytes) (stream sent) e (ground arith))
              ∙ decode-take-frame proto bytes (length xs) size (ground arith) in
            rw d (record {
              handled = [];
              later = (m, bytes) ∷ sent;
              result = refl;
              open_still = refl;
              order = refl;
              later_Sendable = (s, size, h);
              joined = e;
              waits = d;
            })
      ]

  -- Bytes that make up a whole stream and are still only the start of a frame are none at all.
  pub all_arrived :
      (xs : List ℕ) (sent : List (T × List ℕ))
      → length xs < size_mod
      → Sendable sent
      → xs ≡ stream sent
      → decode proto xs ≡ incomplete
      → sent ≡ []
  all_arrived xs [] w h e d = refl
  all_arrived xs ((m, bytes) ∷ sent) w (s, size, h) e d = absurd (
      cc (
        d,
        ap (decode proto) e,
        (decode-encode proto m bytes (stream sent) s size (omega (arith, ap length e, w))).1,
      ))
