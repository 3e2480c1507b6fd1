-- ===== src/Server/Sending.antt =====
-- RpcServer: the ends of a request and of a task, with what they send left as a call.
use light_rpc.Prelude.{
  ℕ, ◌≡◌, ◌⊎◌, inl, inr, refl, ap, Bool, true, false, List, [], ◌∷◌, ◌++◌, some, none, arith,
  length, leb, Bool-cases, Option-cases,
}
use light_rpc.Codec.{ProtoMessage, encode}
use light_rpc.ThreadPool.{try_add_task}
use light_rpc.Rpc.{RpcRequest, RpcResponse, empty_response}
use light_rpc.Service.{RpcService, returned, escaped, invoke}
use light_rpc.ReadLoop
use light_rpc.Buffer.{Buffer}
use light_rpc.Server.{
  Conn, Session, send, send_response, shutting_down, busy, handle_request, run_task, reply_invoked,
  on_message, close_session, close,
}

pub close_session_lem :
    (s : Session) → close_session s ≡ record s { conn = record s.conn { connected = false } }
unfolding close_session close
close_session_lem s = refl

module _ (response_proto : ProtoMessage RpcResponse) where
  pub send_response_dropped :
      (response : RpcResponse) (c : Conn)
      → (encode response_proto response ≡ none) ⊎ (c.connected ≡ false)
      → send_response response_proto response c ≡ c
  unfolding send_response send
  send_response_dropped response c (inl e) = rw (e, send_response) refl
  send_response_dropped response c (inr h) = elim (Option-cases (encode response_proto response)) [
    | inl e ↦ rw (e, send_response) refl
    | inr (f, e) ↦ rw (e, h, send_response, send) refl
  ]

  pub send_response_sent :
      (response : RpcResponse) (c : Conn) (f : List ℕ)
      → encode response_proto response ≡ some f
      → c.connected ≡ true
      → send_response response_proto response c ≡ record c { sent = c.sent ++ (f ∷ []) }
  unfolding send_response send
  send_response_sent response c f e h = ground (arith, e, h)

  pub data Ended (r : RpcRequest) (s new : Session) : Type 0 where
    queued :
        new ≡ record s {
          pool = record s.pool {
            tasks = s.pool.tasks ++ (record { request = r; weak_conn = s.conn_id } ∷ []);
          };
        }
        → Ended r s new
    turned_away :
        new ≡ record s { conn = send_response response_proto (shutting_down r) s.conn }
        → Ended r s new
    overloaded :
        new ≡ record s { conn = send_response response_proto (busy r) s.conn } → Ended r s new

  pub handle_request-Ended :
      (r : RpcRequest) (s : Session) → Ended r s (handle_request response_proto r s)
  unfolding handle_request try_add_task
  handle_request-Ended r s = elim (Bool-cases s.stopped) [
    | inl h ↦ turned_away (rw (h, handle_request) refl)
    | inr h ↦ elim (Bool-cases s.pool.is_closed) [
      | inl shut ↦ overloaded (rw (h, shut, handle_request, try_add_task) refl)
      | inr open_pool ↦ elim (Bool-cases (leb s.pool.max_queue_size (length s.pool.tasks))) [
        | inl full ↦ overloaded (rw (h, open_pool, full, handle_request, try_add_task) refl)
        | inr room ↦ queued (rw (h, open_pool, room, handle_request, try_add_task) refl)
      ]
    ]
  ]

  pub run_task_returned :
      (service : RpcService) (request : RpcRequest) (c : Conn) (found : Bool)
      (response : RpcResponse)
      → invoke request empty_response service ≡ returned found response
      → run_task response_proto service request (some c)
        ≡ some (send_response response_proto response c)
  unfolding run_task reply_invoked
  run_task_returned service request c found response h =
      ap (λ x. some (reply_invoked response_proto x c)) h

  pub run_task_escaped :
      (service : RpcService) (request : RpcRequest) (c : Conn) (left : RpcResponse)
      → invoke request empty_response service ≡ escaped left
      → run_task response_proto service request (some c) ≡ some c
  unfolding run_task reply_invoked
  run_task_escaped service request c left h = ap (λ x. some (reply_invoked response_proto x c)) h

  pub run_task_unlocked :
      (service : RpcService) (request : RpcRequest)
      → run_task response_proto service request none ≡ none
  unfolding run_task
  run_task_unlocked service request = refl

  pub on_request_lem :
      (request_proto : ProtoMessage RpcRequest) (b : Buffer) (s : Session)
      → on_message response_proto request_proto b s
        ≡ ReadLoop.on_message request_proto (handle_request response_proto) close_session b s
  unfolding on_message
  on_request_lem request_proto b s = refl
