-- ===== src/Service.antt =====
-- code/rpc/rpc_service.h and rpc_service.cc: the registry of methods, and their invocation; and the
-- callback that `Register` of rpc_server.h builds from a typed handler.
-- A method's C++ exceptions are values: `threw_std` carries what `what()` says, `threw_other` is an
-- exception that is not a `std::exception`. Both carry the response as the method left it.
pub mod Lookup
pub mod Invoke
mod Tests
use light_rpc.Prelude.{ℕ, Bool, true, false, List, [], ◌∷◌, ◌++◌, Option, none, some, length}
use light_rpc.Prelude.Eq.{Text, codes, text_eq_instance}
use light_rpc.Prelude.Assoc.{lookup, insert}
use light_rpc.Codec.{ProtoMessage}
use light_rpc.ErrorCode.{
  number, ok, server_service_not_found, server_internal_error, server_request_parse_failed,
  server_response_serialize_failed,
}
use light_rpc.Rpc.{RpcRequest, RpcResponse}

pub data CallbackResult : Type 0 where
  finished : RpcResponse → CallbackResult
  threw_std : Text → RpcResponse → CallbackResult
  threw_other : RpcResponse → CallbackResult

abbrev pub ServiceCallback : Type 0
ServiceCallback = RpcRequest → RpcResponse → CallbackResult

pub record RpcService : Type 0 where
  pub methods : List (Text × ServiceCallback)

abbrev pub create : RpcService
create = record { methods = [] }

abbrev pub make_method_key : Text → Text → Text
make_method_key service_name method_name = service_name ++ (b'.' ∷ method_name)

unfoldable pub register_method : Text → Text → ServiceCallback → RpcService → RpcService
register_method service_name method_name callback s = record s {
  methods = insert (make_method_key service_name method_name) callback s.methods;
}

pub has_service : Text → Text → RpcService → Bool
has_service service_name method_name s =
    elim (lookup (make_method_key service_name method_name) s.methods) [
      | none ↦ false
      | some callback ↦ true
    ]

pub service_count : RpcService → ℕ
service_count s = length s.methods

-- What `Invoke` returns and leaves in `response`; `escaped` where the exception passes through it.
pub data InvokeResult : Type 0 where
  returned : Bool → RpcResponse → InvokeResult
  escaped : RpcResponse → InvokeResult

-- `try { ... } catch (const std::exception &e) { ... }`
unfoldable pub after_callback : RpcRequest → CallbackResult → InvokeResult
after_callback request (finished response) =
    returned true (record response { request_id = request.request_id })
after_callback request (threw_std what response) = returned false (record response {
  code = number server_internal_error;
  msg = what;
  request_id = request.request_id;
})
after_callback request (threw_other response) = escaped response

unfoldable pub invoke : RpcRequest → RpcResponse → RpcService → InvokeResult
unfolding after_callback
invoke request response s =
    let key = make_method_key request.service_name request.method_name in
    elim (lookup key s.methods) [
      | none ↦ returned false (record response {
        code = number server_service_not_found;
        msg = codes "Service not found: " ++ key;
        request_id = request.request_id;
      })
      | some target_cb ↦ after_callback request (target_cb request response)
    ]

-- How a typed handler ends: it has filled the response, or an exception has left it.
pub data HandlerResult (RspT : Type 0) : Type 0 where
  done : RspT → HandlerResult RspT
  raised_std : Text → HandlerResult RspT
  raised_other : HandlerResult RspT

module _ {ReqT RspT : Type 0} (req_proto : ProtoMessage ReqT) (rsp_proto : ProtoMessage RspT)
    (handler : ReqT → HandlerResult RspT) where
  -- The end of the lambda: `resp` already carries the request id.
  unfoldable pub reply_typed : RpcResponse → HandlerResult RspT → CallbackResult
  reply_typed resp (raised_std what) = threw_std what resp
  reply_typed resp raised_other = threw_other resp
  reply_typed resp (done response) = elim (rsp_proto.serialize response) [
    | none ↦ finished (record resp {
      code = number server_response_serialize_failed;
      msg = codes "Failed to serialize response body";
    })
    | some out ↦ finished (record resp { code = number ok; msg = codes "success"; body = out })
  ]

  unfoldable pub typed_callback : ServiceCallback
  unfolding reply_typed
  typed_callback req resp =
      let resp' : RpcResponse = record resp { request_id = req.request_id } in
      elim (req_proto.parse req.body) [
        | none ↦ finished (record resp' {
          code = number server_request_parse_failed;
          msg = codes "Failed to parse request body";
        })
        | some request ↦ reply_typed resp' (handler request)
      ]
