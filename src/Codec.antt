-- ===== src/Codec.antt =====
-- code/protocol/codec.h: frames of a four-byte length in network order and a serialized message.
-- The message type is the protobuf library's: its `SerializeToString` and `ParseFromString` are a
-- parameter.
pub mod Frame
pub mod Fragments
use light_rpc.Prelude.{
  ℕ, ◌+◌, ◌*◌, ◌%◌, List, ◌++◌, Option, none, some, if◌then◌else◌, ltb, length, take, drop,
}
use light_rpc.Prelude.Words.{u32_mod, sub_size, of_be32, to_be32}

-- `SerializeToString` and `ParseFromString` of a generated message class; `none` where they return
-- false.
pub record ProtoMessage (T : Type 0) : Type 0 where
  pub serialize : T → Option (List ℕ)
  pub parse : List ℕ → Option T

-- The status that `decode` returns, with what it has stored: the message, where there is one, and
-- `consumed` (0 where the frame is incomplete).
pub data DecodeStatus (T : Type 0) : Type 0 where
  ok : T → ℕ → DecodeStatus T
  incomplete : DecodeStatus T
  corrupted : ℕ → DecodeStatus T

abbrev pub max_frame_size : ℕ
max_frame_size = 64 * 1024 * 1024

-- UINT32_MAX
abbrev pub uint32_max : ℕ
uint32_max = 4294967295

-- The tests on the serialized bytes, and the frame.
unfoldable pub encode_data : List ℕ → Option (List ℕ)
encode_data bytes =
    if ltb uint32_max (length bytes) then none else some (to_be32 (length bytes % u32_mod) ++ bytes)

module _ {T : Type 0} (proto : ProtoMessage T) where
  open proto use {serialize, parse}

  unfoldable pub encode : T → Option (List ℕ)
  encode msg = elim (serialize msg) [ none ↦ none | some bytes ↦ encode_data bytes ]

  unfoldable pub parse_data : List ℕ → ℕ → DecodeStatus T
  parse_data bytes consumed = elim (parse bytes) [
    | none ↦ corrupted consumed
    | some msg ↦ ok msg consumed
  ]

  unfoldable pub decode_body : ℕ → List ℕ → DecodeStatus T
  decode_body len buffer =
      if ltb max_frame_size len
      then corrupted 0
      else if ltb (sub_size (length buffer) 4) len
      then incomplete
      else parse_data (take len (drop 4 buffer)) ((4 + len) % u32_mod)

  unfoldable pub decode : List ℕ → DecodeStatus T
  decode buffer =
      if ltb (length buffer) 4 then incomplete else decode_body (of_be32 (take 4 buffer)) buffer
