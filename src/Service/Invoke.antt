-- ===== src/Service/Invoke.antt =====
-- RpcService: what `Invoke` answers, on every path.
use light_rpc.Prelude.{◌≡◌, ◌⊎◌, Bool, true, false, arith}
use light_rpc.ErrorCode.{number, server_service_not_found, server_internal_error}
use light_rpc.Rpc.{RpcRequest, RpcResponse}
use light_rpc.Service.{RpcService, invoke, after_callback, returned, has_service}

-- A response that `Invoke` returns carries the id of its request, whatever the callback wrote
-- there. Either it returns true and the method is registered; or it returns false and the code is
-- SERVER_SERVICE_NOT_FOUND, the method not registered, or SERVER_INTERNAL_ERROR, the method
-- registered.
pub invoke_answers :
    (req : RpcRequest) (resp : RpcResponse) (r : RpcService) (b : Bool) (answer : RpcResponse)
    → invoke req resp r ≡ returned b answer
    → let registered = has_service req.service_name req.method_name r in
      (answer.request_id ≡ req.request_id)
      × (((b ≡ true) × (registered ≡ true))
          ⊎ ((b ≡ false) × (answer.code ≡ number server_service_not_found) × (registered ≡ false))
          ⊎ ((b ≡ false) × (answer.code ≡ number server_internal_error) × (registered ≡ true)))
unfolding invoke after_callback has_service
invoke_answers req resp r b answer h = ground arith
