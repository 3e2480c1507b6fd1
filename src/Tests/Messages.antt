-- ===== src/Tests/Messages.antt =====
-- The two messages of the protocol as their fields, each after its length; the hash and the digits.
use light_rpc.Prelude.{
  ℕ, ◌≤◌, ◌≡◌, refl, sym, ap, ◌∙◌, List, [], ◌∷◌, ◌++◌, Option, none, some, arith, length, take,
  drop, leb, if◌then◌else◌, take-append_self, drop-append_self, Bool-cases, inl, inr,
}
use light_rpc.Prelude.Eq.{Text}
use light_rpc.Codec.{ProtoMessage, max_frame_size}
use light_rpc.Rpc.{RpcRequest, RpcResponse}
use light_rpc.System.Link.{Faithful}

abbrev pub limited : List ℕ → Option (List ℕ)
limited bytes = if leb (length bytes) max_frame_size then some bytes else none

abbrev pub response_bytes : RpcResponse → List ℕ
response_bytes r = r.code ∷ length r.request_id ∷ length r.msg ∷ (r.request_id ++ (r.msg ++ r.body))

abbrev pub read_response : List ℕ → Option RpcResponse
read_response [] = none
read_response (code ∷ []) = none
read_response (code ∷ i ∷ []) = none
read_response (code ∷ i ∷ m ∷ bytes) = some (record {
  request_id = take i bytes;
  code = code;
  msg = take m (drop i bytes);
  body = drop m (drop i bytes);
})

abbrev pub response_proto : ProtoMessage RpcResponse
response_proto = record {
  serialize = λ (r : RpcResponse). limited (response_bytes r);
  parse = read_response;
}

abbrev pub request_bytes : RpcRequest → List ℕ
request_bytes r =
    length r.service_name
    ∷ length r.method_name
    ∷ length r.request_id
    ∷ (r.service_name ++ (r.method_name ++ (r.request_id ++ r.body)))

abbrev pub read_request : List ℕ → Option RpcRequest
read_request [] = none
read_request (s ∷ []) = none
read_request (s ∷ m ∷ []) = none
read_request (s ∷ m ∷ i ∷ bytes) =
    let rest = drop m (drop s bytes) in
    some (record {
      service_name = take s bytes;
      method_name = take m (drop s bytes);
      request_id = take i rest;
      body = drop i rest;
    })

abbrev pub request_proto : ProtoMessage RpcRequest
request_proto = record {
  serialize = λ (r : RpcRequest). limited (request_bytes r);
  parse = read_request;
}

limited_lem :
    (xs bytes : List ℕ) → limited xs ≡ some bytes → (xs ≡ bytes) × (length bytes ≤ max_frame_size)
limited_lem xs bytes e = elim (Bool-cases (leb (length xs) max_frame_size)) [
  | inl h ↦ let same : xs ≡ bytes = grind (arith, e, h) in (same, ground (arith, h, ap length same))
  | inr h ↦ absurd (ground (arith, e, h))
]

take_front : (xs ys : List ℕ) → take (length xs) (xs ++ ys) ≡ xs
take_front xs ys = take-append_self xs ys (length xs) refl

drop_front : (xs ys : List ℕ) → drop (length xs) (xs ++ ys) ≡ ys
drop_front xs ys = drop-append_self xs ys (length xs) refl

response_read : (r : RpcResponse) → read_response (response_bytes r) ≡ some r
response_read r =
    rw
      (
        drop_front r.request_id (r.msg ++ r.body),
        take_front r.request_id (r.msg ++ r.body),
        take_front r.msg r.body,
        drop_front r.msg r.body,
      )
      refl

request_read : (r : RpcRequest) → read_request (request_bytes r) ≡ some r
request_read r =
    rw
      (
        drop_front r.service_name (r.method_name ++ (r.request_id ++ r.body)),
        take_front r.service_name (r.method_name ++ (r.request_id ++ r.body)),
        take_front r.method_name (r.request_id ++ r.body),
        drop_front r.method_name (r.request_id ++ r.body),
        take_front r.request_id r.body,
        drop_front r.request_id r.body,
      )
      refl

pub response_proto-Faithful : Faithful response_proto
response_proto-Faithful = record {
  reads_back = λ r bytes e.
      let (same, size) = limited_lem (response_bytes r) bytes e in
      (ap read_response (sym same) ∙ response_read r, size);
}

pub request_proto-Faithful : Faithful request_proto
request_proto-Faithful = record {
  reads_back = λ r bytes e.
      let (same, size) = limited_lem (request_bytes r) bytes e in
      (ap read_request (sym same) ∙ request_read r, size);
}

abbrev pub hash_of : Text → ℕ
hash_of = length

abbrev pub digits : ℕ → Text
digits n = 48 ∷ []
