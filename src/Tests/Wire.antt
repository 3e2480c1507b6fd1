-- ===== src/Tests/Wire.antt =====
-- Tests of the codec and of the read loop.
use light_rpc.Prelude.{
  ℕ, ◌+◌, ◌≡◌, refl, List, [], ◌∷◌, ◌++◌, some, replicate, length-replicate, length, arith,
}
use light_rpc.Prelude.Words.{of_be32}
use light_rpc.Buffer.{create, readable_bytes}
use light_rpc.Buffer.Bounds.{create-IsValid}
use light_rpc.Buffer.Contents.{contents}
use light_rpc.Codec.{ok, corrupted, encode, decode, decode_body, parse_data}
use light_rpc.Codec.Frame.{frame, decode-encode, decode-encode_oversize}
use light_rpc.ReadLoop.{receive, on_message, messages}
use light_rpc.ReadLoop.Split.{sent_messages}
use light_rpc.ReadLoop.Chunks.{Delivered, receive_delivers}
use light_rpc.ReadLoop.Stream.{Ends, on_message-Ends}
use light_rpc.Tests.Data.{bytes_proto, two_frames, filled}

abbrev push : List ℕ → List (List ℕ) → List (List ℕ)
push m s = s ++ (m ∷ [])

abbrev keep : List (List ℕ) → List (List ℕ)
keep s = s

abbrev two_sent : List (List ℕ × List ℕ)
two_sent = (7 ∷ 8 ∷ [], 7 ∷ 8 ∷ []) ∷ ([], []) ∷ []

abbrev three_chunks : List (List ℕ)
three_chunks = (0 ∷ 0 ∷ []) ∷ (0 ∷ 2 ∷ 7 ∷ []) ∷ (8 ∷ 0 ∷ 0 ∷ 0 ∷ 0 ∷ []) ∷ []

receive_delivers_example :
    Delivered bytes_proto push keep
      (sent_messages two_sent)
      []
      (receive bytes_proto push keep three_chunks (create 16) [])
unfolding create
receive_delivers_example =
    receive_delivers bytes_proto push keep three_chunks two_sent (create 16) []
      (create-IsValid 16 (omega arith)) refl (omega arith)
      ((
        record { written = refl; read = refl },
        omega arith,
        (record { written = refl; read = refl }, omega arith, tt),
      ))
      refl

on_message-Ends_example :
    Ends bytes_proto push keep filled []
      (messages bytes_proto (readable_bytes filled + 1) (contents filled))
      (on_message bytes_proto push keep filled [])
on_message-Ends_example = on_message-Ends bytes_proto push keep filled [] (omega arith)

decode-encode_example :
    (encode bytes_proto (7 ∷ 8 ∷ []) ≡ some (frame (7 ∷ 8 ∷ [])))
    × (decode bytes_proto (frame (7 ∷ 8 ∷ []) ++ (9 ∷ []))
        ≡ ok (7 ∷ 8 ∷ []) (length (frame (7 ∷ 8 ∷ []))))
decode-encode_example =
    decode-encode bytes_proto (7 ∷ 8 ∷ []) (7 ∷ 8 ∷ []) (9 ∷ [])
      (record { written = refl; read = refl }) (omega arith) (omega arith)

of_length : (n : ℕ) → (xs : List ℕ) × (length xs ≡ n)
of_length n = (replicate n 7, length-replicate n 7)

-- One byte more than `decode` takes.
oversize : (xs : List ℕ) × (length xs ≡ 67108865)
oversize = of_length 67108865

decode-encode_oversize_example :
    (encode bytes_proto oversize.0 ≡ some (frame oversize.0))
    × (decode bytes_proto (frame oversize.0 ++ []) ≡ corrupted 0)
decode-encode_oversize_example =
    decode-encode_oversize bytes_proto oversize.0 oversize.0 [] refl (omega (arith, oversize.1))
      (omega (arith, oversize.1))

decode-two_frames : decode bytes_proto two_frames ≡ ok (7 ∷ 8 ∷ []) 6
unfolding decode decode_body parse_data of_be32
decode-two_frames = refl
