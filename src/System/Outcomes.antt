-- ===== src/System/Outcomes.antt =====
-- System: what becomes of a request.
use light_rpc.Prelude.{◌≡◌, refl, Bool, false, List, [], ◌∷◌, ◌++◌, none, map}
use light_rpc.Codec.{ProtoMessage, encode}
use light_rpc.Rpc.{RpcRequest, RpcResponse, empty_response}
use light_rpc.Service.{RpcService, invoke, returned, escaped}
use light_rpc.Server.{shutting_down, busy, Task}

abbrev pub task_request : Task → RpcRequest
task_request task = task.request

abbrev pub requests_of : List Task → List RpcRequest
requests_of = map task_request

abbrev pub asked : List (RpcRequest × RpcResponse) → List RpcRequest
asked = map (λ (answer : RpcRequest × RpcResponse). answer.0)

abbrev pub given : List (RpcRequest × RpcResponse) → List RpcResponse
given = map (λ (answer : RpcRequest × RpcResponse). answer.1)

-- How a response came about: the method's own, or one of the two refusals.
pub data IsAnswer (service : RpcService) (request : RpcRequest) (response : RpcResponse)
    : Type 0 where
  invoked :
      (found : Bool)
      → invoke request empty_response service ≡ returned found response
      → IsAnswer service request response
  refused : response ≡ shutting_down request → IsAnswer service request response
  overloaded : response ≡ busy request → IsAnswer service request response

abbrev pub AllAnswers : RpcService → List (RpcRequest × RpcResponse) → Type 0
AllAnswers service [] = Unit {0}
AllAnswers service ((request, response) ∷ answers) =
    IsAnswer service request response × AllAnswers service answers

pub AllAnswers-append :
    (service : RpcService) (xs ys : List (RpcRequest × RpcResponse))
    → AllAnswers service xs
    → AllAnswers service ys
    → AllAnswers service (xs ++ ys)
AllAnswers-append service [] ys h k = k
AllAnswers-append service (x ∷ xs) ys h k = (h.0, AllAnswers-append service xs ys h.1 k)

-- Why a request gets no answer: its method threw what is no `std::exception`; the library could not
-- write the answer; or the connection is no longer connected.
pub data Unanswered (response_proto : ProtoMessage RpcResponse) (service : RpcService)
    (connected : Bool) (request : RpcRequest) : Type 0 where
  threw :
      (left : RpcResponse)
      → invoke request empty_response service ≡ escaped left
      → Unanswered response_proto service connected request
  unwritable :
      (response : RpcResponse)
      → IsAnswer service request response
      → encode response_proto response ≡ none
      → Unanswered response_proto service connected request
  cut_off : connected ≡ false → Unanswered response_proto service connected request

abbrev pub AllUnanswered : ProtoMessage RpcResponse → RpcService → Bool → List RpcRequest → Type 0
AllUnanswered response_proto service connected [] = Unit {0}
AllUnanswered response_proto service connected (request ∷ requests) =
    Unanswered response_proto service connected request
    × AllUnanswered response_proto service connected requests

Unanswered-closed :
    {response_proto : ProtoMessage RpcResponse} {service : RpcService} {connected : Bool}
    {request : RpcRequest}
    → Unanswered response_proto service connected request
    → Unanswered response_proto service false request
Unanswered-closed (threw left e) = threw left e
Unanswered-closed (unwritable response a e) = unwritable response a e
Unanswered-closed (cut_off h) = cut_off refl

pub AllUnanswered-closed :
    (response_proto : ProtoMessage RpcResponse) (service : RpcService) (connected : Bool)
    (requests : List RpcRequest)
    → AllUnanswered response_proto service connected requests
    → AllUnanswered response_proto service false requests
AllUnanswered-closed p service connected [] h = tt
AllUnanswered-closed p service connected (r ∷ requests) (h, k) =
    (Unanswered-closed h, AllUnanswered-closed p service connected requests k)
