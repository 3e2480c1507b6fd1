-- ===== src/Server/Tasks.antt =====
-- RpcServer: what the task of a request sends.
use light_rpc.Prelude.{ℕ, ◌≡◌, Bool, true, List, [], ◌∷◌, ◌++◌, some, arith}
use light_rpc.Codec.{ProtoMessage, encode}
use light_rpc.Rpc.{RpcRequest, RpcResponse, empty_response}
use light_rpc.Service.{RpcService, returned, escaped, invoke}
use light_rpc.Service.Invoke.{invoke_answers}
use light_rpc.Server.{Conn, send, send_response, run_task}

module _ (response_proto : ProtoMessage RpcResponse) (service : RpcService) where
  -- The task of a request whose method returns or throws a `std::exception` sends one frame, that of
  -- the answer, which carries the request's id, if the connection still lives and the answer can be
  -- encoded.
  pub run_task_answers :
      (request : RpcRequest) (c : Conn) (found : Bool) (answer : RpcResponse) (f : List ℕ)
      → c.connected ≡ true
      → invoke request empty_response service ≡ returned found answer
      → encode response_proto answer ≡ some f
      → (run_task response_proto service request (some c)
          ≡ some (record c { sent = c.sent ++ (f ∷ []) }))
        × (answer.request_id ≡ request.request_id)
  unfolding run_task send_response send
  run_task_answers request c found answer f live h e =
      (ground (arith, h, e), (invoke_answers request empty_response service found answer h).0)

  -- A method that throws anything else gets no answer: nothing is sent, on any connection.
  pub run_task_silent :
      (request : RpcRequest) (c : Conn) (left : RpcResponse)
      → invoke request empty_response service ≡ escaped left
      → run_task response_proto service request (some c) ≡ some c
  unfolding run_task
  run_task_silent request c left h = ground (arith, h)
