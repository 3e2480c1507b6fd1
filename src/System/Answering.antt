-- ===== src/System/Answering.antt =====
-- System: the server's part: what a request, a task and a read leave of the requests taken.
use mathlib.Core.List.Perm
use light_rpc.Prelude.{
  ℕ, ◌≡◌, inl, inr, refl, sym, Bool, false, ◌||◌, List, [], ◌∷◌, ◌++◌, Option, none, some,
  append_assoc, append-nil, arith, Bool-cases, get_elem?, if◌then◌else◌,
}
use light_rpc.Prelude.Eq.{Text}
use light_rpc.Buffer.{Buffer}
use light_rpc.Codec.{ProtoMessage}
use light_rpc.Rpc.{RpcRequest, RpcResponse, empty_response}
use light_rpc.Service.{RpcService, invoke, returned, escaped, InvokeResult}
use light_rpc.ThreadPool.{Worker, waiting, running, returned as worker_returned, finish, pool_step}
use light_rpc.ThreadPool.Hands.{held, held-finish, held-push}
use light_rpc.Server.{
  Conn, Task, Session, shutting_down, busy, handle_request, close_session, run_task,
}
use light_rpc.Server.Sending.{
  Ended, queued, turned_away, overloaded as pool_full, handle_request-Ended, run_task_returned,
  run_task_escaped, run_task_unlocked,
}
use light_rpc.ReadLoop.Stream.{handle_all}
use light_rpc.System.{end_task, kept}
use light_rpc.System.Link.{Faithful}
use light_rpc.System.Outcomes.{
  task_request, requests_of, invoked, refused, overloaded, threw, cut_off,
}
use light_rpc.System.Serving.{Serving, arrives, moves, drops, responds}

-- The requests that the pool holds.
abbrev pub waiting_in : Session → List RpcRequest
waiting_in s = requests_of (held s.pool)

module _ (request_proto : ProtoMessage RpcRequest) (response_proto : ProtoMessage RpcResponse)
    (hash : Text → ℕ) (to_string : ℕ → Text) (service : RpcService) where
  module _ (response_Faithful : Faithful response_proto) where
    handle_request-Serving :
        (r : RpcRequest) (s : Session) (taken : List RpcRequest) (read : ℕ) (buffer : Buffer)
        (got : List RpcResponse)
        → Serving response_proto service taken (waiting_in s) s.conn read buffer got
        → Serving response_proto service
            (taken ++ (r ∷ []))
            (waiting_in (handle_request response_proto r s))
            (handle_request response_proto r s).conn
            read
            buffer
            got
    handle_request-Serving r s taken read buffer got v =
        ended (handle_request response_proto r s) (handle_request-Ended response_proto r s)
      where
        ended :
            (new : Session)
            → Ended response_proto r s new
            → Serving response_proto service
                (taken ++ (r ∷ []))
                (waiting_in new)
                new.conn
                read
                buffer
                got
        ended new (queued e) =
            rw e (moves (arrives v r) (Perm.map task_request (held-push _ s.pool)))
        ended new (turned_away e) =
            rw e (responds (arrives v r) response_Faithful (shutting_down r) (refused refl))
        ended new (pool_full e) =
            rw e (responds (arrives v r) response_Faithful (busy r) (overloaded refl))

    pub handle_all-Serving :
        (rs : List RpcRequest) (s : Session) (taken : List RpcRequest) (read : ℕ) (buffer : Buffer)
        (got : List RpcResponse)
        → Serving response_proto service taken (waiting_in s) s.conn read buffer got
        → let new = handle_all request_proto (handle_request response_proto) close_session rs s in
          Serving response_proto service (taken ++ rs) (waiting_in new) new.conn read buffer got
    handle_all-Serving [] s taken read buffer got v = rw (append-nil taken) v
    handle_all-Serving (r ∷ rs) s taken read buffer got v =
        rw (sym (append_assoc taken (r ∷ []) rs)) (
          handle_all-Serving rs (handle_request response_proto r s) (taken ++ (r ∷ [])) read buffer
            got (handle_request-Serving r s taken read buffer got v))

    run_task-Serving :
        (r : RpcRequest) (conn : Conn) (lives : Bool) (others taken : List RpcRequest) (read : ℕ)
        (buffer : Buffer) (got : List RpcResponse)
        → Serving response_proto service taken (r ∷ others) conn read buffer got
        → Serving response_proto service taken others
            (kept conn (
              run_task response_proto service r
                (if lives || conn.connected then some conn else none)))
            read
            buffer
            got
    unfolding kept
    run_task-Serving r conn lives others taken read buffer got v =
        elim (Bool-cases (lives || conn.connected)) [
          | inl alive ↦ rw alive (ended (invoke r empty_response service) refl)
          | inr gone ↦
              let cut : conn.connected ≡ false = ground (arith, gone) in
              rw (gone, run_task_unlocked response_proto service r) (drops v (cut_off cut))
        ]
      where
        ended :
            (result : InvokeResult)
            → invoke r empty_response service ≡ result
            → Serving response_proto service taken others
                (kept conn (run_task response_proto service r (some conn)))
                read
                buffer
                got
        ended (returned found response) e =
            rw (run_task_returned response_proto service r conn found response e)
              (responds v response_Faithful response (invoked found e))
        ended (escaped left) e =
            rw (run_task_escaped response_proto service r conn left e) (drops v (threw left e))

    pub end_task-Serving :
        (i : ℕ) (lives : Bool) (w : Option (Worker Task)) (s : Session) (taken : List RpcRequest)
        (read : ℕ) (buffer : Buffer) (got : List RpcResponse)
        → get_elem? s.pool.workers i ≡ w
        → Serving response_proto service taken (waiting_in s) s.conn read buffer got
        → let new = end_task request_proto response_proto hash to_string service i lives w s in
          Serving response_proto service taken (waiting_in new) new.conn read buffer got
    unfolding end_task
    end_task-Serving i lives none s taken read buffer got e v = v
    end_task-Serving i lives (some waiting) s taken read buffer got e v = v
    end_task-Serving i lives (some worker_returned) s taken read buffer got e v = v
    end_task-Serving i lives (some (running task)) s taken read buffer got e v =
        run_task-Serving task.request s.conn lives
          (requests_of (held (pool_step (finish i) s.pool))) taken read buffer got
          (moves v (Perm.map task_request (held-finish i s.pool task e)))
