-- ===== src/Server/Tests.antt =====
-- Tests of the server.
use light_rpc.Prelude.{◌+◌, ◌≡◌, refl, true, false, [], ◌∷◌, some, length, arith}
use light_rpc.Buffer.{Buffer, readable_bytes}
use light_rpc.Buffer.Contents.{contents}
use light_rpc.Codec.{encode, encode_data, decode, decode_body, parse_data}
use light_rpc.Prelude.Words.{of_be32}
use light_rpc.Rpc.{RpcRequest}
use light_rpc.ReadLoop.{messages, messages_after}
use light_rpc.Server.{Session, on_message}
use light_rpc.Server.Requests.{Refusable, Served, on_message_accounts}
use light_rpc.Server.Gate.{on_message_gate}
use light_rpc.Tests.Data.{ping, request_proto, response_proto, filled}

abbrev session : Session
session = record {
  stopped = false;
  pool = record {
    is_closed = false;
    tasks = [];
    workers = [];
    active_tasks = 0;
    max_queue_size = 1;
  };
  conn_id = 3;
  conn = record { connected = true; sent = [] };
}

refusable : (r : RpcRequest) → length r.request_id ≡ 2 → Refusable response_proto r
unfolding encode encode_data
refusable r h = record {
  stop_frame = 0 ∷ 0 ∷ 0 ∷ 2 ∷ r.request_id;
  stop_encoded = ground (arith, h);
  busy_frame = 0 ∷ 0 ∷ 0 ∷ 2 ∷ r.request_id;
  busy_encoded = ground (arith, h);
}

abbrev first : RpcRequest
first = record ping { request_id = 7 ∷ 8 ∷ [] }

abbrev second : RpcRequest
second = record ping { request_id = 9 ∷ 9 ∷ [] }

-- A buffer with two requests: the first is queued, and then the queue is full.
abbrev two_requests : Buffer
two_requests = record {
  bytes = 0 ∷ 0 ∷ 0 ∷ 2 ∷ 7 ∷ 8 ∷ 0 ∷ 0 ∷ 0 ∷ 2 ∷ 9 ∷ 9 ∷ [];
  read_pos = 0;
  write_pos = 12;
}

on_message_accounts_example :
    (b' : Buffer) × (s' : Session) × (on_message response_proto request_proto two_requests session
      ≡ some (b', s'))
    × Served response_proto
        (messages request_proto (readable_bytes two_requests + 1) (contents two_requests)).0
        session
        s'
unfolding messages messages_after decode decode_body parse_data of_be32
on_message_accounts_example =
    on_message_accounts response_proto request_proto two_requests session (omega arith) refl
      (refusable first refl, (refusable second refl, tt))

on_message_gate_example :
    (b' : Buffer) × (s' : Session) × (on_message response_proto request_proto filled
        (record session { stopped = true })
      ≡ some (b', s'))
    × (s'.pool ≡ session.pool)
on_message_gate_example =
    on_message_gate response_proto request_proto filled (record session { stopped = true })
      (omega arith) refl
