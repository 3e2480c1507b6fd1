-- ===== src/Codec/Fragments.antt =====
-- Codec: frames that arrive in pieces. What `decode` says of a buffer stays true as more bytes
-- arrive, unless it has said Incomplete.
use light_rpc.Prelude.{
  ℕ, ◌+◌, ◌≤◌, ◌<◌, ◌≡◌, ◌≢◌, ap, ◌∙◌, List, ◌++◌, arith, length, take, drop, length-append,
  length-take, take-take, length-drop, take-append_left, drop-append_left,
}
use light_rpc.Prelude.Words.{size_mod, of_be32, of_be32-to_be32}
use light_rpc.Codec.{ProtoMessage, ok, incomplete, max_frame_size, decode, decode_body, parse_data}
use light_rpc.Codec.Frame.{frame}

module _ {T : Type 0} (proto : ProtoMessage T) where
  open proto use {serialize, parse}

  -- A verdict other than Incomplete does not change when more bytes arrive.
  pub decode-append :
      (xs ys : List ℕ)
      → length (xs ++ ys) < size_mod
      → decode proto xs ≢ incomplete
      → decode proto (xs ++ ys) ≡ decode proto xs
  unfolding decode decode_body
  decode-append xs ys w h = ground (
    arith,
    length-append xs ys,
    take-append_left 4 xs ys,
    drop-append_left 4 xs ys,
    length-drop 4 xs,
    take-append_left (of_be32 (take 4 xs)) (drop 4 xs) ys,
  )

  -- Ok means that the frame is there whole: at least its length field is consumed, and never more
  -- than the buffer holds.
  pub decode_ok_bounds :
      (buffer : List ℕ) (m : T) (n : ℕ)
      → length buffer < size_mod
      → decode proto buffer ≡ ok m n
      → (4 ≤ n) × (n ≤ length buffer) × (n ≤ 4 + max_frame_size)
  unfolding decode decode_body parse_data
  decode_ok_bounds buffer m n w h = ground arith

  pub decode_short : (xs : List ℕ) → length xs < 4 → decode proto xs ≡ incomplete
  unfolding decode
  decode_short xs h = ground arith

  decode_partial :
      (xs : List ℕ) (len : ℕ)
      → (4 ≤ length xs → of_be32 (take 4 xs) ≡ len)
      → len ≤ max_frame_size
      → length xs < 4 + len
      → decode proto xs ≡ incomplete
  unfolding decode decode_body
  decode_partial xs len e h k = ground arith

  -- Every proper prefix of a frame within the limit is Incomplete, and consumes nothing.
  pub decode-take-frame :
      (bytes : List ℕ) (n : ℕ)
      → length bytes ≤ max_frame_size
      → n < 4 + length bytes
      → decode proto (take n (frame bytes)) ≡ incomplete
  decode-take-frame bytes n h k =
      decode_partial (take n (frame bytes)) (length bytes) field h
        (omega (arith, length-take n (frame bytes)))
    where
      field :
          4 ≤ length (take n (frame bytes)) → of_be32 (take 4 (take n (frame bytes))) ≡ length bytes
      field p =
          ap of_be32 (take-take 4 n (frame bytes) (omega (arith, length-take n (frame bytes))))
          ∙ of_be32-to_be32 (length bytes) (omega arith)
