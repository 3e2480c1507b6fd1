-- ===== src/Service/Tests.antt =====
-- Tests of the registry.
use light_rpc.Prelude.{◌≡◌, refl, false, [], ◌∷◌}
use light_rpc.Prelude.Assoc.{lookup}
use light_rpc.Prelude.Eq.{text_eq_instance, codes}
use light_rpc.Rpc.{empty_response}
use light_rpc.Service.{returned, create, invoke}
use light_rpc.Tests.Data.{ping}

unknown_method :
    invoke ping empty_response create
    ≡ returned false (record empty_response {
      code = 2001;
      msg = codes "Service not found: s.m";
      request_id = 49 ∷ [];
    })
unfolding invoke lookup
unknown_method = refl
