-- ===== src/Server.antt =====
-- code/rpc/rpc_server.h and rpc_server.cc: what the server does with a request, on the loop's
-- thread (`onMessage`) and on a worker's (the task). `send` and `close` of a connection are
-- `TcpConnection::send` and `close` as their caller sees them: what is sent on a connection that is
-- not connected is dropped. Logging is left out. The flag `stopped_` and the pool may be changed by
-- other threads between two requests; the theorems on one request hold for any state.
pub mod Requests
pub mod Gate
pub mod Sending
pub mod Tasks
mod Tests
use light_rpc.Prelude.{ℕ, Bool, true, false, List, [], ◌∷◌, ◌++◌, Option, none, some, if◌then◌else◌}
use light_rpc.Prelude.Eq.{Text, codes}
use light_rpc.Buffer.{Buffer}
use light_rpc.Codec.{ProtoMessage, encode}
use light_rpc.ErrorCode.{number, server_busy, server_shutting_down}
use light_rpc.ThreadPool.{Pool, try_add_task}
use light_rpc.Rpc.{RpcRequest, RpcResponse, empty_response}
use light_rpc.Service.{RpcService, InvokeResult, returned, escaped, invoke}
use light_rpc.ReadLoop

pub record Conn : Type 0 where
  pub connected : Bool
  pub sent : List (List ℕ)

pub send : List ℕ → Conn → Conn
send bytes c = if c.connected then record c { sent = c.sent ++ (bytes ∷ []) } else c

pub close : Conn → Conn
close c = record c { connected = false }

-- The lambda given to the pool: the request it has copied, and the connection it points to weakly.
pub record Task : Type 0 where
  pub request : RpcRequest
  pub weak_conn : ℕ

-- What `onMessage` changes: the connection `conn_id`, and the server's pool.
pub record Session : Type 0 where
  pub stopped : Bool
  pub pool : Pool Task
  pub conn_id : ℕ
  pub conn : Conn

abbrev pub shutting_down : RpcRequest → RpcResponse
shutting_down request = record empty_response {
  request_id = request.request_id;
  code = number server_shutting_down;
  msg = codes "server shutting down";
}

abbrev pub busy : RpcRequest → RpcResponse
busy request = record empty_response {
  request_id = request.request_id;
  code = number server_busy;
  msg = codes "Server busy, try again later";
}

pub close_session : Session → Session
unfolding close
close_session s = record s { conn = close s.conn }

module _ (response_proto : ProtoMessage RpcResponse) where
  -- Encode, and send what could be encoded.
  pub send_response : RpcResponse → Conn → Conn
  send_response response c = elim (encode response_proto response) [
    | none ↦ c
    | some encoded ↦ send encoded c
  ]

  -- What follows `TryAddTask`.
  after_add : RpcRequest → Session → Bool × Pool Task → Session
  after_add request s (true, pool) = record s { pool = pool }
  after_add request s (false, pool) = record s {
    pool = pool;
    conn = send_response (busy request) s.conn;
  }

  -- The body of the loop for one request.
  pub handle_request : RpcRequest → Session → Session
  unfolding after_add
  handle_request request s =
      if s.stopped
      then record s { conn = send_response (shutting_down request) s.conn }
      else after_add request s
          (try_add_task (record { request = request; weak_conn = s.conn_id }) s.pool)

  pub on_message : ProtoMessage RpcRequest → Buffer → Session → Option (Buffer × Session)
  on_message request_proto = ReadLoop.on_message request_proto handle_request close_session

  -- The task, with what `weak_conn.lock()` gives. An exception that leaves `Invoke` is swallowed by
  -- the worker, and nothing is sent.
  reply_invoked : InvokeResult → Conn → Conn
  reply_invoked (returned found response) c = send_response response c
  reply_invoked (escaped response) c = c

  pub run_task : RpcService → RpcRequest → Option Conn → Option Conn
  unfolding reply_invoked
  run_task service request none = none
  run_task service request (some c) = some (reply_invoked (invoke request empty_response service) c)
