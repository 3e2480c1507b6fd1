-- ===== src/Server/Gate.antt =====
-- RpcServer: once the server has stopped, nothing is queued any more.
use light_rpc.Prelude.{ℕ, ◌+◌, ◌≡◌, refl, ◌∙◌, Bool, true, List, [], ◌∷◌, some, arith}
use light_rpc.Buffer.{Buffer, readable_bytes}
use light_rpc.Buffer.Bounds.{IsValid}
use light_rpc.Buffer.Contents.{contents}
use light_rpc.Codec.{ProtoMessage}
use light_rpc.Rpc.{RpcRequest, RpcResponse}
use light_rpc.ReadLoop.{messages}
use light_rpc.ReadLoop.Stream.{handle_all, outcome, on_message-Ends}
use light_rpc.Server.{Session, handle_request, close_session, on_message}

module _ (response_proto : ProtoMessage RpcResponse) where
  handle_request_gate :
      (r : RpcRequest) (s : Session)
      → s.stopped ≡ true
      → ((handle_request response_proto r s).pool ≡ s.pool)
        × ((handle_request response_proto r s).stopped ≡ true)
  unfolding handle_request
  handle_request_gate r s h = ground arith

  handle_all_gate :
      (rs : List RpcRequest) (request_proto : ProtoMessage RpcRequest) (s : Session)
      → s.stopped ≡ true
      → (handle_all request_proto (handle_request response_proto) close_session rs s).pool ≡ s.pool
  handle_all_gate [] p s h = refl
  handle_all_gate (r ∷ rs) p s h =
      let (same, still) = handle_request_gate r s h in
      handle_all_gate rs p (handle_request response_proto r s) still ∙ same

  pool-outcome :
      (request_proto : ProtoMessage RpcRequest) (spec : List RpcRequest × Bool × List ℕ)
      (s : Session)
      → (outcome request_proto (handle_request response_proto) close_session spec s).pool
        ≡ (handle_all request_proto (handle_request response_proto) close_session spec.0 s).pool
  unfolding close_session
  pool-outcome p (rs, bad, rest) s = ground arith

  -- The gate: once the server has stopped, `onMessage` ends and adds no task to the pool, whatever
  -- arrives, so that `WaitForTasks` waits only for the tasks that were there.
  pub on_message_gate :
      (request_proto : ProtoMessage RpcRequest) (b : Buffer) (s : Session)
      → IsValid b
      → s.stopped ≡ true
      → (b' : Buffer) × (s' : Session) × (on_message response_proto request_proto b s
          ≡ some (b', s'))
        × (s'.pool ≡ s.pool)
  unfolding on_message
  on_message_gate p b s v h =
      let spec = messages p (readable_bytes b + 1) (contents b) in
      let e = on_message-Ends p (handle_request response_proto) close_session b s v in
      (
        e.buffer,
        outcome p (handle_request response_proto) close_session spec s,
        e.result,
        pool-outcome p spec s ∙ handle_all_gate spec.0 p s h,
      )
