-- ===== src/System/Serving.antt =====
-- System: the requests that the server has been handed, what became of each, and the frames that the
-- client will read.
use mathlib.Core.List.{Perm, perm_middle, perm_append_singleton, map-append}
use mathlib.Core.List.Perm
use light_rpc.Prelude.{
  ℕ, ◌≡◌, sym, ap, ◌∙◌, subst, false, List, [], ◌∷◌, ◌++◌, append_assoc, length, ◌≤◌, Bool-cases,
  inl, inr,
}
use light_rpc.Buffer.{Buffer}
use light_rpc.Codec.{ProtoMessage, max_frame_size}
use light_rpc.Rpc.{RpcRequest, RpcResponse}
use light_rpc.Service.{RpcService}
use light_rpc.Server.{Conn, send_response}
use light_rpc.Server.Sending.{send_response_dropped, send_response_sent}
use light_rpc.Codec.Frame.{frame, Survives}
use light_rpc.ReadLoop.Split.{sent_messages}
use light_rpc.System.Link.{Faithful, Link, send-Link, encode-cases, sent_messages-append}
use light_rpc.System.Outcomes.{
  asked, given, IsAnswer, AllAnswers, AllAnswers-append, Unanswered, unwritable, cut_off,
  AllUnanswered, AllUnanswered-closed,
}

-- Each request taken is held by the pool, answered by a frame that has been sent, or dropped: one of
-- these, once. The frames sent are those answers, in their order.
pub record Serving (response_proto : ProtoMessage RpcResponse) (service : RpcService)
    (taken waiting : List RpcRequest) (conn : Conn) (read : ℕ) (buffer : Buffer)
    (got : List RpcResponse) : Type 0 where
  pub responses : List (RpcResponse × List ℕ)
  pub downlink : Link response_proto responses conn.sent read buffer got
  pub answers : List (RpcRequest × RpcResponse)
  pub dropped : List RpcRequest
  pub lost : AllUnanswered response_proto service conn.connected dropped
  pub answered : sent_messages responses ≡ given answers
  pub honest : AllAnswers service answers
  pub accounted : Perm taken (waiting ++ (dropped ++ asked answers))

module _ {response_proto : ProtoMessage RpcResponse} {service : RpcService}
    {taken waiting : List RpcRequest} {conn : Conn} {read : ℕ} {buffer : Buffer}
    {got : List RpcResponse}
    (v : Serving response_proto service taken waiting conn read buffer got) where
  pub arrives :
      (r : RpcRequest)
      → Serving response_proto service (taken ++ (r ∷ [])) (r ∷ waiting) conn read buffer got
  arrives r = record {
    responses = v.responses;
    downlink = v.downlink;
    answers = v.answers;
    dropped = v.dropped;
    lost = v.lost;
    answered = v.answered;
    honest = v.honest;
    accounted = Perm.trans (perm_append_singleton r taken) (Perm.cons r v.accounted);
  }

  -- A read by the client.
  pub reads :
      {read' : ℕ} {buffer' : Buffer} {got' : List RpcResponse}
      → Link response_proto v.responses conn.sent read' buffer' got'
      → Serving response_proto service taken waiting conn read' buffer' got'
  reads link = record {
    responses = v.responses;
    downlink = link;
    answers = v.answers;
    dropped = v.dropped;
    lost = v.lost;
    answered = v.answered;
    honest = v.honest;
    accounted = v.accounted;
  }

  pub closes :
      Serving response_proto service taken waiting
        (record conn { connected = false })
        read
        buffer
        got
  closes = record {
    responses = v.responses;
    downlink = v.downlink;
    answers = v.answers;
    dropped = v.dropped;
    lost = AllUnanswered-closed response_proto service conn.connected v.dropped v.lost;
    answered = v.answered;
    honest = v.honest;
    accounted = v.accounted;
  }

  pub moves :
      {waiting' : List RpcRequest}
      → Perm waiting waiting'
      → Serving response_proto service taken waiting' conn read buffer got
  moves h = record {
    responses = v.responses;
    downlink = v.downlink;
    answers = v.answers;
    dropped = v.dropped;
    lost = v.lost;
    answered = v.answered;
    honest = v.honest;
    accounted = Perm.trans v.accounted (Perm.append_right _ h);
  }

module _ {response_proto : ProtoMessage RpcResponse} {service : RpcService}
    {taken waiting : List RpcRequest} {conn : Conn} {read : ℕ} {buffer : Buffer}
    {got : List RpcResponse} {r : RpcRequest}
    (v : Serving response_proto service taken (r ∷ waiting) conn read buffer got) where
  pub drops :
      Unanswered response_proto service conn.connected r
      → Serving response_proto service taken waiting conn read buffer got
  drops why = record {
    responses = v.responses;
    downlink = v.downlink;
    answers = v.answers;
    dropped = r ∷ v.dropped;
    lost = (why, v.lost);
    answered = v.answered;
    honest = v.honest;
    accounted =
        Perm.trans v.accounted (Perm.symm (perm_middle waiting (v.dropped ++ asked v.answers)));
  }

  sends :
      (response : RpcResponse) (bytes : List ℕ)
      → IsAnswer service r response
      → Survives response_proto response bytes
      → length bytes ≤ max_frame_size
      → Serving response_proto service taken waiting
          (record conn { sent = conn.sent ++ (frame bytes ∷ []) })
          read
          buffer
          got
  sends response bytes a s size = record {
    responses = v.responses ++ ((response, bytes) ∷ []);
    downlink =
        send-Link response_proto v.responses conn.sent read buffer got response bytes v.downlink s
          size;
    answers = v.answers ++ ((r, response) ∷ []);
    dropped = v.dropped;
    lost = v.lost;
    answered =
        sent_messages-append v.responses ((response, bytes) ∷ [])
        ∙ ap (λ xs. xs ++ (response ∷ [])) v.answered
        ∙ sym (map-append (λ (x : RpcRequest × RpcResponse). x.1) v.answers ((r, response) ∷ []));
    honest = AllAnswers-append service v.answers ((r, response) ∷ []) v.honest (a, tt);
    accounted = subst (Perm taken) here (
        Perm.trans v.accounted
          (Perm.symm (perm_append_singleton r (waiting ++ (v.dropped ++ asked v.answers)))));
  }
    where
      here :
          (waiting ++ (v.dropped ++ asked v.answers)) ++ (r ∷ [])
          ≡ waiting ++ (v.dropped ++ asked (v.answers ++ ((r, response) ∷ [])))
      here =
          append_assoc waiting (v.dropped ++ asked v.answers) (r ∷ [])
          ∙ ap (λ xs. waiting ++ xs)
              (append_assoc v.dropped (asked v.answers) (r ∷ [])
                ∙ ap (λ xs. v.dropped ++ xs)
                    (sym (
                      map-append (λ (x : RpcRequest × RpcResponse). x.0) v.answers
                        ((r, response) ∷ []))))

  pub responds :
      Faithful response_proto
      → (response : RpcResponse) → IsAnswer service r response
      → Serving response_proto service taken waiting
          (send_response response_proto response conn)
          read
          buffer
          got
  responds faithful response a = elim (encode-cases response_proto faithful response) [
    | inl e ↦
        rw (send_response_dropped response_proto response conn (inl e))
          (drops (unwritable response a e))
    | inr (bytes, s, size, e) ↦ elim (Bool-cases conn.connected) [
      | inl h ↦
          rw (send_response_sent response_proto response conn (frame bytes) e h)
            (sends response bytes a s size)
      | inr h ↦ rw (send_response_dropped response_proto response conn (inr h)) (drops (cut_off h))
    ]
  ]
