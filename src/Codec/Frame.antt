-- ===== src/Codec/Frame.antt =====
-- Codec: what one call of `decode` makes of one frame, and the round trip with `encode`.
use light_rpc.Prelude.{
  ℕ, ◌+◌, ◌≤◌, ◌<◌, ◌≡◌, refl, sym, ap, ◌∙◌, List, ◌++◌, some, arith, length, take, drop,
  length-append, take-append_self, le→ltb_false, lt→ltb,
}
use light_rpc.Prelude.Words.{size_mod, sub_size, to_be32, of_be32-to_be32}
use light_rpc.Codec.{
  ProtoMessage, ok, corrupted, max_frame_size, uint32_max, encode, decode, decode_body, encode_data,
  parse_data,
}

-- The frame of some serialized bytes.
abbrev pub frame : List ℕ → List ℕ
frame bytes = to_be32 (length bytes) ++ bytes

pub length-frame : (bytes : List ℕ) → length (frame bytes) ≡ 4 + length bytes
length-frame bytes = omega arith

encode_data-frame :
    (bytes : List ℕ) → length bytes ≤ uint32_max → encode_data bytes ≡ some (frame bytes)
unfolding encode_data
encode_data-frame bytes h =
    rw (le→ltb_false uint32_max (length bytes) h)
      (ap (λ n. some (to_be32 n ++ bytes)) (omega arith))

module _ {T : Type 0} (proto : ProtoMessage T) where
  open proto use {serialize, parse}

  -- The library writes the message as `bytes` and reads those bytes back as the message.
  pub record Survives (m : T) (bytes : List ℕ) : Type 0 where
    pub written : serialize m ≡ some bytes
    pub read : parse bytes ≡ some m

  pub encode-frame :
      (m : T) (bytes : List ℕ)
      → serialize m ≡ some bytes
      → length bytes ≤ uint32_max
      → encode proto m ≡ some (frame bytes)
  unfolding encode
  encode-frame m bytes h k = rw (h, encode) (encode_data-frame bytes k)

  decode_body-full :
      (buffer : List ℕ) (len : ℕ)
      → 4 + len ≤ length buffer
      → length buffer < size_mod
      → len ≤ max_frame_size
      → decode_body proto len buffer ≡ parse_data proto (take len (drop 4 buffer)) (4 + len)
  unfolding decode_body
  decode_body-full buffer len h w k =
      rw
        (
          le→ltb_false max_frame_size len k,
          le→ltb_false (sub_size (length buffer) 4) len (omega arith),
        )
        (ap (parse_data proto (take len (drop 4 buffer))) (omega arith))

  -- The length field of a frame is read back.
  decode-length :
      (bytes rest : List ℕ)
      → length bytes ≤ uint32_max
      → decode proto (frame bytes ++ rest) ≡ decode_body proto (length bytes) (frame bytes ++ rest)
  unfolding decode
  decode-length bytes rest h = rw (le→ltb_false (length (frame bytes ++ rest)) 4 (omega arith)) (
      ap (λ n. decode_body proto n (frame bytes ++ rest))
        (of_be32-to_be32 (length bytes) (omega arith)))

  -- A frame within the limit is decoded as its bytes are parsed, whatever follows it, and
  -- `consumed` is its length.
  pub decode-frame :
      (bytes rest : List ℕ)
      → length bytes ≤ max_frame_size
      → length (frame bytes ++ rest) < size_mod
      → decode proto (frame bytes ++ rest) ≡ parse_data proto bytes (4 + length bytes)
  decode-frame bytes rest h w =
      decode-length bytes rest (omega arith)
      ∙ decode_body-full (frame bytes ++ rest) (length bytes)
          (omega (arith, length-append bytes rest)) w h
      ∙ ap (λ xs. parse_data proto xs (4 + length bytes))
          (take-append_self bytes rest (length bytes) refl)

  -- The round trip. A message that the library writes and reads back, of at most `MAX_FRAME_SIZE`
  -- bytes, is encoded, and from its frame, whatever follows it in the buffer, `decode` returns Ok
  -- with that message and consumes exactly the frame.
  pub decode-encode :
      (m : T) (bytes rest : List ℕ)
      → Survives m bytes
      → length bytes ≤ max_frame_size
      → length (frame bytes ++ rest) < size_mod
      → (encode proto m ≡ some (frame bytes))
        × (decode proto (frame bytes ++ rest) ≡ ok m (length (frame bytes)))
  unfolding parse_data
  decode-encode m bytes rest s h w = (
    encode-frame m bytes s.written (omega arith),
    decode-frame bytes rest h w
        ∙ rw (s.read, parse_data) (ap (λ n. ok m n) (sym (length-frame bytes))),
  )

  -- `encode` accepts more than `decode`: a message whose bytes are more than `MAX_FRAME_SIZE` and at
  -- most UINT32_MAX is encoded, and every receiver calls its frame corrupted.
  pub decode-encode_oversize :
      (m : T) (bytes rest : List ℕ)
      → serialize m ≡ some bytes
      → max_frame_size < length bytes
      → length bytes ≤ uint32_max
      → (encode proto m ≡ some (frame bytes)) × (decode proto (frame bytes ++ rest) ≡ corrupted 0)
  unfolding decode_body
  decode-encode_oversize m bytes rest s h k = (
    encode-frame m bytes s k,
    decode-length bytes rest k ∙ rw (lt→ltb max_frame_size (length bytes) h),
  )
