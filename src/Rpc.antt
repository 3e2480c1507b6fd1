-- ===== src/Rpc.antt =====
-- code/protocol/base_proto/rpc.proto: the two messages. Strings and `bytes` are byte lists, and an
-- `int32` is its bit pattern. A message starts with its fields empty.
use light_rpc.Prelude.{ℕ, List, []}
use light_rpc.Prelude.Eq.{Text}

pub record RpcRequest : Type 0 where
  pub service_name : Text
  pub method_name : Text
  pub request_id : Text
  pub body : List ℕ

pub record RpcResponse : Type 0 where
  pub request_id : Text
  pub code : ℕ
  pub msg : Text
  pub body : List ℕ

abbrev pub empty_response : RpcResponse
empty_response = record { request_id = []; code = 0; msg = []; body = [] }
