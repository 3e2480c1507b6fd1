-- ===== src/TypedCall.antt =====
-- `RpcClient::Call` of code/rpc/rpc_client.h, and a typed call from end to end: through the
-- request's body, the method that `RpcServer::Register` has built, and the response's body.
mod Tests
use light_rpc.Prelude.{
  ℕ, refl, sym, ap, ◌∙◌, Bool, true, false, [], ◌≡◌, List, ◌++◌, Option, none, some, if◌then◌else◌,
  ◌==◌, arith,
}
use light_rpc.Prelude.Eq.{Text, codes, text_eq_iff, text_eq_instance}
use light_rpc.Prelude.Assoc.{lookup, lookup-insert}
use light_rpc.Codec.{ProtoMessage}
use light_rpc.Codec.Frame.{Survives}
use light_rpc.ErrorCode.{
  number, client_request_serialize_failed, client_response_parse_failed, server_service_not_found,
  ok as ok_code,
}
use light_rpc.Rpc.{RpcRequest, RpcResponse, empty_response}
use light_rpc.Service.{
  RpcService, HandlerResult, done, typed_callback, register_method, invoke, after_callback,
  returned, escaped, make_method_key, reply_typed,
}

-- The arguments of the typed callback; `none` for a message that has not been parsed.
pub record Reply (RspT : Type 0) : Type 0 where
  pub code : ℕ
  pub msg : Text
  pub response : Option RspT

-- What `Call` does: it fails at once, or goes on to `CallRaw` with this body.
pub data Called (RspT : Type 0) : Type 0 where
  fails : Reply RspT → Called RspT
  calls : List ℕ → Called RspT

module _ {ReqT RspT : Type 0} (req_proto : ProtoMessage ReqT) (rsp_proto : ProtoMessage RspT) where
  unfoldable pub call : ReqT → Called RspT
  call req = elim (req_proto.serialize req) [
    | none ↦ fails (record {
      code = number client_request_serialize_failed;
      msg = codes "serialize request failed";
      response = none;
    })
    | some body ↦ calls body
  ]

  -- The lambda `raw_cb`.
  pub raw_callback : RpcResponse → Reply RspT
  raw_callback resp =
      if resp.code == number ok_code
      then (elim (rsp_proto.parse resp.body) [
        | none ↦ record {
          code = number client_response_parse_failed;
          msg = resp.msg;
          response = none;
        }
        | some rsp ↦ record { code = resp.code; msg = resp.msg; response = some rsp }
      ])
      else record { code = resp.code; msg = resp.msg; response = none }

  abbrev pub request_with : Text → Text → Text → List ℕ → RpcRequest
  request_with service method id body = record {
    service_name = service;
    method_name = method;
    request_id = id;
    body = body;
  }

  -- A request that serializes to a body which parses back, a method registered with a handler that
  -- answers it, and an answer that serializes to a body which parses back: the caller's lambda gets
  -- that answer out of what `Invoke` returns.
  pub invoked_answers :
      (handler : ReqT → HandlerResult RspT) (service method id : Text) (r : RpcService) (req : ReqT)
      (rsp : RspT) (body out : List ℕ)
      → lookup (make_method_key service method) r.methods
        ≡ some (typed_callback req_proto rsp_proto handler)
      → Survives req_proto req body
      → handler req ≡ done rsp
      → Survives rsp_proto rsp out
      → (response : RpcResponse) × (invoke (request_with service method id body) empty_response r
          ≡ returned true response)
        × (raw_callback response ≡ record { code = 0; msg = codes "success"; response = some rsp })
  unfolding raw_callback invoke after_callback typed_callback reply_typed
  invoked_answers handler service method id r req rsp body out found s h t = (
    record { request_id = id; code = 0; msg = codes "success"; body = out },
    ground (arith, found, s.read, h, t.written),
    ground (arith, t.read),
  )

  -- A method that is not registered.
  pub invoked_missing :
      (service method id : Text) (r : RpcService) (body : List ℕ)
      → lookup (make_method_key service method) r.methods ≡ none
      → (response : RpcResponse) × (invoke (request_with service method id body) empty_response r
          ≡ returned false response)
        × (raw_callback response ≡ record {
          code = number server_service_not_found;
          msg = codes "Service not found: " ++ make_method_key service method;
          response = none;
        })
  unfolding raw_callback invoke
  invoked_missing service method id r body missing = (
    record {
      request_id = id;
      code = number server_service_not_found;
      msg = codes "Service not found: " ++ make_method_key service method;
      body = [];
    },
    ground (arith, missing),
    refl,
  )

  -- The request that `Call` gives to `CallRaw`, under this id, if it gets that far.
  unfoldable pub request_of : Text → Text → Text → Called RspT → Option RpcRequest
  request_of service method id (fails reply) = none
  request_of service method id (calls body) = some (request_with service method id body)

  made_request :
      (service method id : Text) (req : ReqT) (body : List ℕ) (request : RpcRequest)
      → req_proto.serialize req ≡ some body
      → request_of service method id (call req) ≡ some request
      → request_with service method id body ≡ request
  unfolding request_of call
  made_request service method id req body request w e = ground (arith, w, e)

  same_response : (f g : Bool) (x y : RpcResponse) → returned f x ≡ returned g y → x ≡ y
  same_response f g x y e = cc

  -- Whatever the answer of `Invoke` to the request that `Call` makes, the lambda gets out of it what
  -- it gets out of the one answer that is known.
  pub only_answer :
      (service method id : Text) (r : RpcService) (req : ReqT) (body : List ℕ)
      (request : RpcRequest) (f g : Bool) (response known : RpcResponse) (reply : Reply RspT)
      → req_proto.serialize req ≡ some body
      → request_of service method id (call req) ≡ some request
      → invoke request empty_response r ≡ returned f response
      → invoke (request_with service method id body) empty_response r ≡ returned g known
      → raw_callback known ≡ reply
      → raw_callback response ≡ reply
  only_answer service method id r req body request f g response known reply w m i k e =
      let same : request_with service method id body ≡ request =
        made_request service method id req body request w m in
      let is_known : response ≡ known =
        same_response f g response known
          (sym i ∙ ap (λ q. invoke q empty_response r) (sym same) ∙ k) in
      ap raw_callback is_known ∙ e

  module _ (handler : ReqT → HandlerResult RspT) (service method id : Text) (r : RpcService) where
    abbrev pub registered : RpcService
    registered = register_method service method (typed_callback req_proto rsp_proto handler) r

    registered-lookup :
        lookup (make_method_key service method) registered.methods
        ≡ some (typed_callback req_proto rsp_proto handler)
    unfolding register_method
    registered-lookup = ground (
      arith,
      lookup-insert (make_method_key service method) (make_method_key service method)
          (typed_callback req_proto rsp_proto handler) r.methods,
      text_eq_iff (make_method_key service method) (make_method_key service method),
    )

    -- The body a `Call` goes on with, put through the registry of a server on which the method has been
    -- registered and back through the client's lambda; `none` where an exception of the method
    -- escapes.
    pub roundtrip : ReqT → Option (Reply RspT)
    roundtrip req = elim (call req) [
      | fails reply ↦ some reply
      | calls body ↦ elim (invoke (request_with service method id body) empty_response registered) [
        | returned success_flag resp ↦ some (raw_callback resp)
        | escaped resp ↦ none
      ]
    ]

    -- A request that serializes to a body which parses back, a handler that answers it, and an
    -- answer that serializes to a body which parses back: the caller gets the handler's answer, with
    -- code 0 and "success", whatever the registry held before.
    pub typed_call_answers :
        (req : ReqT) (rsp : RspT) (body out : List ℕ)
        → req_proto.serialize req ≡ some body
        → req_proto.parse body ≡ some req
        → handler req ≡ done rsp
        → rsp_proto.serialize rsp ≡ some out
        → rsp_proto.parse out ≡ some rsp
        → roundtrip req ≡ some (record { code = 0; msg = codes "success"; response = some rsp })
    unfolding roundtrip call
    typed_call_answers req rsp body out s p h t q =
        let (response, i, e) =
          invoked_answers handler service method id registered req rsp body out registered-lookup
            (record { written = s; read = p }) h (record { written = t; read = q }) in
        ground (arith, s, i, e)
