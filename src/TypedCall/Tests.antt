-- ===== src/TypedCall/Tests.antt =====
-- A typed call of a method that adds one to each byte.
use light_rpc.Prelude.{ℕ, suc, ◌≡◌, refl, List, [], ◌∷◌, map, some}
use light_rpc.Prelude.Eq.{codes}
use light_rpc.Service.{HandlerResult, done, create}
use light_rpc.TypedCall.{roundtrip, typed_call_answers}
use light_rpc.Tests.Data.{bytes_proto}

abbrev increment : List ℕ → HandlerResult (List ℕ)
increment xs = done (map suc xs)

typed_call_answers_example :
    roundtrip bytes_proto bytes_proto increment (115 ∷ []) (109 ∷ []) (49 ∷ []) create (1 ∷ 2 ∷ [])
    ≡ some (record { code = 0; msg = codes "success"; response = some (2 ∷ 3 ∷ []) })
typed_call_answers_example =
    typed_call_answers bytes_proto bytes_proto increment (115 ∷ []) (109 ∷ []) (49 ∷ []) create
      (1 ∷ 2 ∷ []) (2 ∷ 3 ∷ []) (1 ∷ 2 ∷ []) (2 ∷ 3 ∷ []) refl refl refl refl refl
