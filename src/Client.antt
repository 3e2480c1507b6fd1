-- ===== src/Client.antt =====
-- code/rpc/rpc_client.h and rpc_client.cc: the calls that wait for an answer. The functions are the
-- sections that the client runs under `pending_mutex_` or on one thread; the threads' interleaving
-- is any sequence of events (`run`). A callback is a number, and running it is recorded in `replies`.
-- Timers and sending are recorded as calls of the event loop and the TCP client. Parameters are
-- `std::hash` (with its conversion to `int`), `std::to_string` and the protobuf library. Logging is
-- left out, and so is the case of an empty `std::function`.
pub mod Once
pub mod History
pub mod Provenance
pub mod RequestId
mod Tests
use light_rpc.Prelude.{
  ℕ, Bool, true, false, not, ◌||◌, List, [], ◌∷◌, ◌++◌, Option, none, some, if◌then◌else◌,
}
use light_rpc.Prelude.Eq.{Text, codes, text_eq_instance}
use light_rpc.Prelude.Assoc.{lookup, insert, erase}
use light_rpc.Buffer.{Buffer}
use light_rpc.Codec.{ProtoMessage, encode}
use light_rpc.ErrorCode.{
  RpcErrorCode, number, client_request_timeout, client_connection_disconnected,
  client_network_error, client_not_running, client_encode_failed,
}
use light_rpc.Rpc.{RpcRequest, RpcResponse, empty_response}
use light_rpc.ReadLoop

pub data TimerCall : Type 0 where
  added : ℕ → Text → ℕ → TimerCall
  removed : ℕ → TimerCall

-- `lost` holds the calls whose entry in `pending_calls_` was overwritten by a call with the same id.
pub record Client : Type 0 where
  pub stopped : Bool
  pub connected : Bool
  pub pending : List (Text × ℕ)
  pub close_requested : Bool
  pub timers : List TimerCall
  pub sent : List (List ℕ)
  pub calls : List (Text × ℕ)
  pub replies : List (ℕ × RpcResponse)
  pub lost : List (Text × ℕ)

unfoldable pub create : Client
create = record {
  stopped = false;
  connected = false;
  pending = [];
  close_requested = false;
  timers = [];
  sent = [];
  calls = [];
  replies = [];
  lost = [];
}

abbrev pub failure : Text → RpcErrorCode → Text → RpcResponse
failure request_id code msg = record empty_response {
  request_id = request_id;
  code = number code;
  msg = msg;
}

pub reply : ℕ → RpcResponse → Client → Client
reply cb response c = record c { replies = c.replies ++ ((cb, response) ∷ []) }

-- Look the id up, move the callback out and erase the entry, under the lock; then run the callback.
pub answer : RpcResponse → Client → Client
unfolding reply
answer response c = elim (lookup response.request_id c.pending) [
  | none ↦ c
  | some cb ↦ reply cb response (record c { pending = erase response.request_id c.pending })
]

overwritten : Text → Option ℕ → List (Text × ℕ)
overwritten request_id none = []
overwritten request_id (some cb) = (request_id, cb) ∷ []

-- The first part of `CallRaw`, under the lock.
pub begin_call : Text → ℕ → Client → Client
unfolding reply overwritten
begin_call request_id cb c =
    let c' : Client = record c { calls = (request_id, cb) ∷ c.calls } in
    if c.stopped || not c.connected
    then reply cb (failure request_id client_not_running (codes "client stopped/disconnected")) c'
    else record c' {
      pending = insert request_id cb c.pending;
      lost = overwritten request_id (lookup request_id c.pending) ++ c.lost;
    }

pub on_timeout : Text → Client → Client
unfolding answer
on_timeout request_id c =
    answer (failure request_id client_request_timeout (codes "request timeout")) c

-- `DropAllPending`, over the map that has been swapped out.
pub drop_entries : (Text → ℕ) → RpcErrorCode → Text → List (Text × ℕ) → Client → Client
drop_entries hash code msg [] c = c
drop_entries hash code msg ((request_id, cb) ∷ entries) c =
    drop_entries hash code msg entries (record c {
      timers = c.timers ++ (removed (hash request_id) ∷ []);
      replies = c.replies ++ ((cb, failure request_id code msg) ∷ []);
    })

pub drop_all_pending : (Text → ℕ) → RpcErrorCode → Text → Client → Client
unfolding drop_entries
drop_all_pending hash code msg c = drop_entries hash code msg c.pending (record c { pending = [] })

-- `disconnects` is `onConnection` at the end of a connection; `connection` is `SetConnected` of the
-- TCP client, which follows it (or comes before it, at the start) as a step of its own, so that another
-- thread's call may come between.
pub data Event : Type 0 where
  begins : Text → ℕ → Event
  continues : RpcRequest → ℕ → Event
  times_out : Text → Event
  receives : RpcResponse → Event
  connection : Bool → Event
  disconnects : Event
  network_error : ℕ → Event
  stops : Event

module _ (request_proto : ProtoMessage RpcRequest) (hash : Text → ℕ) (to_string : ℕ → Text) where
  -- The rest of `CallRaw`, with the request that it builds: the timer, and the frame or the failure.
  pub continue_call : RpcRequest → ℕ → Client → Client
  unfolding answer
  continue_call request timeout_ms c =
      let timer : ℕ = hash request.request_id in
      let c' : Client = record c {
        timers = c.timers ++ (added timer request.request_id timeout_ms ∷ []);
      } in
      elim (encode request_proto request) [
        | none ↦
            answer (failure request.request_id client_encode_failed (codes "encode request failed"))
              (record c' { timers = c'.timers ++ (removed timer ∷ []) })
        | some encoded ↦ record c' { sent = c.sent ++ (encoded ∷ []) }
      ]

  -- The body of the loop of `onMessage` for one response.
  pub on_response : RpcResponse → Client → Client
  unfolding answer
  on_response response c =
      answer response (record c { timers = c.timers ++ (removed (hash response.request_id) ∷ []) })

  -- `onConnection`, at the end of a connection; `IsConnected` follows by an event of its own.
  pub on_disconnected : Client → Client
  unfolding drop_all_pending
  on_disconnected c =
      if c.stopped
      then c
      else drop_all_pending hash client_connection_disconnected
          (codes "tcp connection disconnected") c

  pub on_error : ℕ → Client → Client
  unfolding drop_all_pending
  on_error err c =
      if c.stopped
      then c
      else drop_all_pending hash client_network_error
          (codes "tcp client io error, err=" ++ to_string err) c

  -- `Stop`, up to the disconnection.
  pub stop : Client → Client
  unfolding drop_all_pending
  stop c =
      if c.stopped
      then c
      else drop_all_pending hash client_not_running (codes "rpc client stopped")
          (record c { stopped = true })

  pub step : Event → Client → Client
  unfolding begin_call continue_call on_timeout on_response on_disconnected on_error stop
  step (begins request_id cb) c = begin_call request_id cb c
  step (continues request timeout_ms) c = continue_call request timeout_ms c
  step (times_out request_id) c = on_timeout request_id c
  step (receives response) c = on_response response c
  step (connection up) c = record c { connected = up }
  step disconnects c = on_disconnected c
  step (network_error err) c = on_error err c
  step stops c = stop c

  pub run : List Event → Client → Client
  run [] c = c
  run (e ∷ es) c = run es (step e c)

  pub close_client : Client → Client
  close_client c = record c { close_requested = true }

  pub on_message : ProtoMessage RpcResponse → Buffer → Client → Option (Buffer × Client)
  on_message response_proto = ReadLoop.on_message response_proto on_response close_client
