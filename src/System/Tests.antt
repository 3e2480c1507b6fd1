-- ===== src/System/Tests.antt =====
-- Tests of the system: one call from end to end.
use light_rpc.Prelude.{List, [], ◌∷◌, true}
use light_rpc.Rpc.{RpcRequest}
use light_rpc.Service.{RpcService}
use light_rpc.Client.{begins, continues, connection}
use light_rpc.System.{
  System, Event, client_does, client_reads, server_reads, worker_takes, worker_ends,
}

abbrev no_methods : RpcService
no_methods = record { methods = [] }

abbrev call : RpcRequest
call = record {
  service_name = 115 ∷ [];
  method_name = 109 ∷ [];
  request_id = 49 ∷ [];
  body = 5 ∷ [];
}

-- A call is made, read in two parts, queued, run, and its answer is read.
abbrev one_call : List Event
one_call =
    client_does (connection true)
    ∷ client_does (begins (49 ∷ []) 7)
    ∷ client_does (continues call 1000)
    ∷ server_reads 6
    ∷ server_reads 100
    ∷ worker_takes 0
    ∷ worker_ends 0 true
    ∷ client_reads 100
    ∷ []
