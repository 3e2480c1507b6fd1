-- ===== src/System/Answers.antt =====
-- System: what the client's callbacks are given, from end to end.
use mathlib.Core.List.{Mem}
use mathlib.Core.List.Perm
use light_rpc.Prelude.{ℕ, ◌≡◌, ◌⊎◌, List, [], ◌∷◌}
use light_rpc.Rpc.{RpcRequest, RpcResponse}
use light_rpc.Service.{RpcService}
use light_rpc.Client.Provenance.{IsLocal}
use light_rpc.System.{System}
use light_rpc.System.Outcomes.{IsAnswer}

module _ (service : RpcService) where
  -- The server's answer to one of these requests, under that request's id.
  pub record AnswersOne (requests : List RpcRequest) (response : RpcResponse) : Type 0 where
    pub request : RpcRequest
    pub among : Mem request requests
    pub answer : IsAnswer service request response
    pub same_id : response.request_id ≡ request.request_id

  abbrev pub AllAnswered : List RpcRequest → List (ℕ × RpcResponse) → Type 0
  AllAnswered requests [] = Unit {0}
  AllAnswered requests ((cb, response) ∷ replies) =
      (IsLocal response ⊎ ∥ AnswersOne requests response ∥₁) × AllAnswered requests replies
