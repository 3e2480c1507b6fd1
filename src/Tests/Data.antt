-- ===== src/Tests/Data.antt =====
-- Messages for the tests: byte strings that are their own encoding, and requests and responses that
-- are written as their id.
use light_rpc.Prelude.{ℕ, List, [], ◌∷◌, some}
use light_rpc.Buffer.{Buffer}
use light_rpc.Codec.{ProtoMessage}
use light_rpc.Rpc.{RpcRequest, RpcResponse}

abbrev pub bytes_proto : ProtoMessage (List ℕ)
bytes_proto = record { serialize = some; parse = some }

abbrev pub ping : RpcRequest
ping = record {
  service_name = 115 ∷ [];
  method_name = 109 ∷ [];
  request_id = 49 ∷ [];
  body = 5 ∷ [];
}

abbrev pub request_proto : ProtoMessage RpcRequest
request_proto = record {
  serialize = λ (r : RpcRequest). some r.request_id;
  parse = λ xs. some (record ping { request_id = xs });
}

abbrev pub response_proto : ProtoMessage RpcResponse
response_proto = record {
  serialize = λ (r : RpcResponse). some r.request_id;
  parse = λ xs. some (record { request_id = xs; code = 0; msg = []; body = [] });
}

-- A frame with the message [7, 8], and one with the empty message.
abbrev pub two_frames : List ℕ
two_frames = 0 ∷ 0 ∷ 0 ∷ 2 ∷ 7 ∷ 8 ∷ 0 ∷ 0 ∷ 0 ∷ 0 ∷ []

abbrev pub filled : Buffer
filled = record { bytes = two_frames; read_pos = 0; write_pos = 10 }
