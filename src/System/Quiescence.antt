-- ===== src/System/Quiescence.antt =====
-- System: what holds once everything has been read and the pool holds nothing.
use mathlib.Core.List.{Perm}
use light_rpc.Prelude.{ℕ, ◌≡◌, List, [], ◌++◌, length, Bool, is_empty, ◌&&◌, ◌==◌}
use light_rpc.Prelude.Eq.{Text}
use light_rpc.Codec.{ProtoMessage}
use light_rpc.Rpc.{RpcRequest, RpcResponse}
use light_rpc.Service.{RpcService}
use light_rpc.ThreadPool.Hands.{held}
use light_rpc.Client.{create as create_client, run as client_run, Event as ClientEvent}
use light_rpc.Client.History.{own, heard, written}
use light_rpc.System.{System, Event, create, run}
use light_rpc.System.Link.{joined}
use light_rpc.System.Outcomes.{asked, given, AllAnswers, AllUnanswered}
use light_rpc.System.Invariant.{acts}

-- All bytes sent have been read, at both ends, and no task is queued or runs.
pub is_quiet : System → Bool
is_quiet s =
    (s.server_read == length (joined s.client.sent))
    && (s.client_read == length (joined s.session.conn.sent))
    && is_empty (held s.session.pool)

record IsQuiet (s : System) : Type 0 where
  server_has_all : s.server_read ≡ length (joined s.client.sent)
  client_has_all : s.client_read ≡ length (joined s.session.conn.sent)
  pool_is_idle : held s.session.pool ≡ []

module _ (request_proto : ProtoMessage RpcRequest) (response_proto : ProtoMessage RpcResponse)
    (hash : Text → ℕ) (to_string : ℕ → Text) (service : RpcService) where
  -- `answers` pairs requests with their responses.
  pub record Settled (es : List Event) (s : System) : Type 0 where
    pub answers : List (RpcRequest × RpcResponse)
    pub unanswered : List RpcRequest
    pub every : Perm (written request_proto hash to_string (acts es)) (unanswered ++ asked answers)
    pub honest : AllAnswers service answers
    pub excused : AllUnanswered response_proto service s.session.conn.connected unanswered
    pub trace : List ClientEvent
    pub behaved : s.client ≡ client_run request_proto hash to_string trace create_client
    pub acted : own trace ≡ acts es
    pub delivered : heard trace ≡ given answers
