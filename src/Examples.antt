-- ===== src/Examples.antt =====
-- examples/server_example.cc and client_example.cc, over the messages of examples/proto/user.proto and
-- math.proto: the three methods that the server registers, the client's wait for its connection, the
-- requests of its four calls, and what their callbacks print. Parameters are the protobuf library, how
-- a stream prints an `int32`, and `IsConnected` at each reading. The server's own output, the
-- idle-wait test between the calls, the pauses, logging and the wait for Enter are left out. An
-- `int32` is its bit pattern.
pub mod Outputs
pub mod Replies
mod Tests
use light_rpc.Prelude.{
  ℕ, zero, suc, ◌+◌, ◌%◌, Bool, true, false, List, [], ◌∷◌, ◌++◌, Option, none, some, if◌then◌else◌,
  ◌==◌, ◌>>=◌,
}
use light_rpc.Prelude.Eq.{Text, codes}
use light_rpc.Prelude.Words.{u32_mod}
use light_rpc.Codec.{ProtoMessage}
use light_rpc.Service.{RpcService, HandlerResult, done, register_method, typed_callback, create}
use light_rpc.TypedCall.{Reply, call, raw_callback, request_of}
use light_rpc.Rpc.{RpcRequest, RpcResponse}

-- The calls of the client: the last is of a method that does not exist.
pub data ExampleCall : Type 0 where
  get_user_call create_user_call add_call missing_call : ExampleCall

pub record GetUserRequest : Type 0 where
  pub user_id : ℕ

pub record GetUserResponse : Type 0 where
  pub user_id : ℕ
  pub name : Text
  pub email : Text

pub record CreateUserRequest : Type 0 where
  pub name : Text
  pub email : Text

pub record CreateUserResponse : Type 0 where
  pub user_id : ℕ

pub record AddRequest : Type 0 where
  pub a : ℕ
  pub b : ℕ

pub record AddResponse : Type 0 where
  pub result : ℕ

-- The generated messages, and how a stream prints an `int32`.
pub record Library : Type 0 where
  pub get_user_request : ProtoMessage GetUserRequest
  pub get_user_response : ProtoMessage GetUserResponse
  pub create_user_request : ProtoMessage CreateUserRequest
  pub create_user_response : ProtoMessage CreateUserResponse
  pub add_request : ProtoMessage AddRequest
  pub add_response : ProtoMessage AddResponse
  pub to_string : ℕ → Text

-- The three lambdas of the server.
pub get_user : GetUserRequest → HandlerResult GetUserResponse
get_user req =
    done (record { user_id = req.user_id; name = codes "John"; email = codes "john@example.com" })

pub create_user : CreateUserRequest → HandlerResult CreateUserResponse
create_user req = done (record { user_id = 2 })

-- The sum wraps around; in C++ that is undefined where it does not fit an `int32`.
pub add : AddRequest → HandlerResult AddResponse
add req = done (record { result = (req.a + req.b) % u32_mod })

abbrev pub user_service : Text
user_service = codes "UserService"

abbrev pub math_service : Text
math_service = codes "MathService"

-- The requests of the client.
abbrev pub get_req : GetUserRequest
get_req = record { user_id = 1 }

abbrev pub create_req : CreateUserRequest
create_req = record { name = codes "Alice"; email = codes "alice@example.com" }

abbrev pub add_req : AddRequest
add_req = record { a = 100; b = 200 }

abbrev pub timeout_req : AddRequest
timeout_req = record { a = 1; b = 2 }

-- `while (!client.IsConnected() && timeout > 0)`: `timeout` rounds at most, and the number of the
-- reading after the loop. `is_connected i` is the reading number `i`.
pub wait_connected : (ℕ → Bool) → ℕ → ℕ → ℕ
wait_connected is_connected zero i = suc i
wait_connected is_connected (suc timeout) i =
    let rest = wait_connected is_connected timeout (suc i) in if is_connected i then suc i else rest

-- A callback's lines: a title after an empty line, and the failure or the fields. A message that was not parsed has its
-- fields empty.
pub print_reply :
    {RspT : Type 0} → (ℕ → Text) → Text → (RspT → List Text) → RspT → Reply RspT → List Text
print_reply to_string title fields empty reply =
    (10 ∷ title)
    ∷ (if reply.code == 0
        then (elim reply.response [ none ↦ fields empty | some rsp ↦ fields rsp ])
        else (codes "RPC failed: code=" ++ (to_string reply.code ++ (codes ", msg=" ++ reply.msg)))
          ∷ [])

module _ (lib : Library) where
  abbrev pub user_fields : GetUserResponse → List Text
  user_fields resp =
      (codes "user_id: " ++ lib.to_string resp.user_id)
      ∷ (codes "name:    " ++ resp.name)
      ∷ (codes "email:   " ++ resp.email)
      ∷ []

  abbrev pub new_user_fields : CreateUserResponse → List Text
  new_user_fields resp = (codes "new user_id: " ++ lib.to_string resp.user_id) ∷ []

  abbrev pub result_fields : AddResponse → List Text
  result_fields resp = (codes "result: " ++ lib.to_string resp.result) ∷ []

  -- The server's `main` up to `Start`.
  pub register_methods : RpcService
  unfolding register_method
  register_methods =
      register_method math_service (codes "Add")
        (typed_callback lib.add_request lib.add_response add)
        (register_method user_service (codes "CreateUser")
          (typed_callback lib.create_user_request lib.create_user_response create_user)
          (register_method user_service (codes "GetUser")
            (typed_callback lib.get_user_request lib.get_user_response get_user) create))

  -- The request that each call gives to `CallRaw`, under the id that it gets there.
  pub call_request : ExampleCall → Text → Option RpcRequest
  call_request get_user_call id =
      request_of lib.get_user_request lib.get_user_response user_service (codes "GetUser") id
        (call lib.get_user_request lib.get_user_response get_req)
  call_request create_user_call id =
      request_of lib.create_user_request lib.create_user_response user_service (codes "CreateUser")
        id (call lib.create_user_request lib.create_user_response create_req)
  call_request add_call id =
      request_of lib.add_request lib.add_response math_service (codes "Add") id
        (call lib.add_request lib.add_response add_req)
  call_request missing_call id =
      request_of lib.add_request lib.add_response math_service (codes "NonExistentMethod") id
        (call lib.add_request lib.add_response timeout_req)

  -- What the callback of each call prints when it is run with this response.
  pub callback_prints : ExampleCall → RpcResponse → List Text
  callback_prints get_user_call resp =
      print_reply lib.to_string (codes "=== GetUser Response ===") user_fields
        (record { user_id = 0; name = []; email = [] })
        (raw_callback lib.get_user_request lib.get_user_response resp)
  callback_prints create_user_call resp =
      print_reply lib.to_string (codes "=== CreateUser Response ===") new_user_fields
        (record { user_id = 0 })
        (raw_callback lib.create_user_request lib.create_user_response resp)
  callback_prints add_call resp =
      print_reply lib.to_string (codes "=== Add Response ===") result_fields (record { result = 0 })
        (raw_callback lib.add_request lib.add_response resp)
  callback_prints missing_call resp =
      print_reply lib.to_string (codes "=== NonExistentMethod Response ===") result_fields
        (record { result = 0 }) (raw_callback lib.add_request lib.add_response resp)
