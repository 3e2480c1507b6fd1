-- ===== src/Examples/Replies.antt =====
-- Examples: the example client and server over one connection of System.
use mathlib.Core.List.{Mem}
use light_rpc.Prelude.{ℕ, ◌≡◌, ◌⊎◌, List, [], ◌∷◌, some}
use light_rpc.Rpc.{RpcRequest, RpcResponse}
use light_rpc.Server.{shutting_down, busy}
use light_rpc.Client.Provenance.{IsLocal}
use light_rpc.System.{System}
use light_rpc.Examples.{Library, ExampleCall, call_request, callback_prints}
use light_rpc.Examples.Outputs.{expected}

module _ (lib : Library) where
  -- The request is one that a call of the example makes, under its id.
  pub record IsExample (request : RpcRequest) : Type 0 where
    pub which : ExampleCall
    pub made : call_request lib which request.request_id ≡ some request

  abbrev pub AllExample : List RpcRequest → Type 0
  AllExample [] = Unit {0}
  AllExample (request ∷ requests) = IsExample request × AllExample requests

  -- The callback of a call that is among the requests has got its answer, under its id, and printed
  -- it as expected, or has got one of the two refusals.
  pub record Printed (requests : List RpcRequest) (response : RpcResponse) : Type 0 where
    pub request : RpcRequest
    pub among : Mem request requests
    pub same_id : response.request_id ≡ request.request_id
    pub example : IsExample request
    pub outcome :
        (callback_prints lib example.which response ≡ expected lib example.which)
        ⊎ ((response ≡ shutting_down request) ⊎ (response ≡ busy request))

  abbrev pub AllPrinted : List RpcRequest → List (ℕ × RpcResponse) → Type 0
  AllPrinted requests [] = Unit {0}
  AllPrinted requests ((cb, response) ∷ replies) =
      (IsLocal response ⊎ ∥ Printed requests response ∥₁) × AllPrinted requests replies
