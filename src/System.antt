-- ===== src/System.antt =====
-- A client and a server together, over one connection: `RpcClient` (code/rpc/rpc_client.cc) with its
-- `onMessage`, the byte streams between the two, `RpcServer::onMessage` (code/rpc/rpc_server.cc), the
-- pool (code/base/pool/threadpool.h) and the tasks. The streams are the frames that each side has
-- sent; a read takes the next bytes of one, as many as have come. Any sequence of events is a
-- possible interleaving. The server has no other connection. What `RpcClient::CallRaw` sends is taken
-- to reach the stream also where `TcpClient::Send` would find the connection gone and drop it.
pub mod Link
pub mod Outcomes
pub mod Serving
pub mod Answering
pub mod Invariant
pub mod Reads
pub mod Safety
pub mod Answers
pub mod Quiescence
mod Tests
use light_rpc.Prelude.{
  ℕ, ◌+◌, Bool, true, false, not, ◌||◌, List, [], ◌∷◌, ◌++◌, Option, none, some, if◌then◌else◌,
  length, get_elem?, is_empty,
}
use light_rpc.Prelude.Eq.{Text}
use light_rpc.Buffer.{Buffer, create as create_buffer, initial_size, read_fd, readv_bytes}
use light_rpc.Codec.{ProtoMessage}
use light_rpc.ThreadPool.{Worker, running, Pool, wake, finish, pool_step, create as create_pool}
use light_rpc.Rpc.{RpcRequest, RpcResponse}
use light_rpc.Service.{RpcService}
use light_rpc.Server.{Conn, Task, Session, close_session, run_task, on_message as on_request}
use light_rpc.Client.{
  Client, create as create_client, receives, step as client_step, on_message as on_response,
  Event as ClientEvent,
}
use light_rpc.System.Link.{next_chunk}

-- `client_read` is the number of bytes that the client has read of the frames in `session.conn.sent`,
-- and `server_read` of those in `client.sent`.
pub record System : Type 0 where
  pub client : Client
  pub client_buffer : Buffer
  pub client_read : ℕ
  pub session : Session
  pub server_buffer : Buffer
  pub server_read : ℕ

-- `worker_ends` says whether the connection still lives when the task looks it up, if it is no longer
-- connected; a connected one is held by `TcpServer::connections_`.
pub data Event : Type 0 where
  client_does : ClientEvent → Event
  client_reads : ℕ → Event
  server_reads : ℕ → Event
  worker_takes : ℕ → Event
  worker_ends : ℕ → Bool → Event
  server_stops : Event
  server_closes : Event

-- One connection, and `thread_count` workers that wait.
pub create : ℕ → ℕ → System
create thread_count max_queue_size = record {
  client = create_client;
  client_buffer = create_buffer initial_size;
  client_read = 0;
  session = record {
    stopped = false;
    pool = create_pool thread_count max_queue_size;
    conn_id = 0;
    conn = record { connected = true; sent = [] };
  };
  server_buffer = create_buffer initial_size;
  server_read = 0;
}

-- What the task leaves of the connection; nothing is sent where it no longer lives.
pub kept : Conn → Option Conn → Conn
kept c none = c
kept c (some c') = c'

pub client_has_read : System → ℕ → Option (Buffer × Client) → Option System
client_has_read s n none = none
client_has_read s n (some (buffer, client)) =
    some (record s { client = client; client_buffer = buffer; client_read = s.client_read + n })

pub server_has_read : System → ℕ → Option (Buffer × Session) → Option System
server_has_read s n none = none
server_has_read s n (some (buffer, session)) =
    some (record s { session = session; server_buffer = buffer; server_read = s.server_read + n })

module _ (request_proto : ProtoMessage RpcRequest) (response_proto : ProtoMessage RpcResponse)
    (hash : Text → ℕ) (to_string : ℕ → Text) (service : RpcService) where
  -- A response comes by a read, and not of itself.
  pub own_step : ClientEvent → Client → Client
  own_step (receives response) c = c
  own_step e c = client_step request_proto hash to_string e c

  -- `handleRead` with `Buffer::readFd`, and `onMessage`; there is no read before a byte has come. The
  -- client's side does not test its connection's state as the server's does, so that it may read
  -- where the code no longer would: the runs of the code are among those of the model.
  pub client_read_step : ℕ → System → Option System
  unfolding client_has_read
  client_read_step n s =
      let chunk : List ℕ = next_chunk n s.session.conn.sent s.client_read in
      if is_empty chunk
      then some s
      else client_has_read s (length chunk) (
          on_response request_proto hash to_string response_proto
            (read_fd (readv_bytes chunk) 0 s.client_buffer).2 s.client)

  pub server_read_step : ℕ → System → Option System
  unfolding server_has_read
  server_read_step n s =
      let chunk : List ℕ = next_chunk n s.client.sent s.server_read in
      if is_empty chunk || not s.session.conn.connected
      then some s
      else server_has_read s (length chunk) (
          on_request response_proto request_proto (read_fd (readv_bytes chunk) 0 s.server_buffer).2
            s.session)

  -- The worker runs the task it has in hand, and ends its round.
  pub end_task : ℕ → Bool → Option (Worker Task) → Session → Session
  unfolding kept
  end_task i lives (some (running task)) s = record s {
    pool = pool_step (finish i) s.pool;
    conn = kept s.conn (
        run_task response_proto service task.request
          (if lives || s.conn.connected then some s.conn else none));
  }
  end_task i lives _ s = s

  pub step : Event → System → Option System
  unfolding own_step client_read_step server_read_step end_task
  step (client_does e) s = some (record s { client = own_step e s.client })
  step (client_reads n) s = client_read_step n s
  step (server_reads n) s = server_read_step n s
  step (worker_takes i) s =
      some (record s { session = record s.session { pool = pool_step (wake i) s.session.pool } })
  step (worker_ends i lives) s =
      some (record s { session = end_task i lives (get_elem? s.session.pool.workers i) s.session })
  step server_stops s = some (record s { session = record s.session { stopped = true } })
  step server_closes s = some (record s { session = close_session s.session })

  pub run : List Event → System → Option System
  run [] s = some s
  run (e ∷ es) s = elim (step e s) [ none ↦ none | some s' ↦ run es s' ]
