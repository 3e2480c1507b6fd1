-- ===== src/Server/Requests.antt =====
-- RpcServer: each request that arrives is answered at once or queued, once.
use light_rpc.Prelude.{
  ℕ, suc, ◌+◌, ◌-◌, ◌≤◌, ◌<◌, ◌≡◌, ◌⊎◌, inl, inr, sym, ap, subst, ◌∙◌, Bool, true, false, ◌||◌,
  if◌then◌else◌, List, [], ◌∷◌, ◌++◌, some, arith, length, length-append, append_assoc, append-nil,
  take, drop, take-nil, drop-nil, Bool-cases, leb,
}
use light_rpc.Buffer.{Buffer, readable_bytes}
use light_rpc.Buffer.Bounds.{IsValid}
use light_rpc.Buffer.Contents.{contents}
use light_rpc.Codec.{ProtoMessage, encode}
use light_rpc.ThreadPool.{Pool, try_add_task}
use light_rpc.Rpc.{RpcRequest, RpcResponse}
use light_rpc.ReadLoop.{messages}
use light_rpc.ReadLoop.Stream.{handle_all, outcome, on_message-Ends}
use light_rpc.Server.{
  Conn, Task, Session, send, close, send_response, shutting_down, busy, handle_request,
  close_session, on_message,
}

module _ (response_proto : ProtoMessage RpcResponse) where
  -- The library can write the two refusals of this request.
  pub record Refusable (r : RpcRequest) : Type 0 where
    pub stop_frame : List ℕ
    pub stop_encoded : encode response_proto (shutting_down r) ≡ some stop_frame
    pub busy_frame : List ℕ
    pub busy_encoded : encode response_proto (busy r) ≡ some busy_frame

  abbrev pub AllRefusable : List RpcRequest → Type 0
  AllRefusable [] = Unit {0}
  AllRefusable (r ∷ rs) = Refusable r × AllRefusable rs

  -- What becomes of a request. Either the server runs, the pool takes tasks, and the request is
  -- queued last, with nothing sent; or it is refused by a frame that follows those sent, and the
  -- queue stays as it is: SERVER_SHUTTING_DOWN where the server has stopped, SERVER_BUSY where the
  -- pool is closed or its queue full.
  pub data Handled (r : RpcRequest) (old new : Session) : Type 0 where
    queued :
        (old.stopped ≡ false)
          × (old.pool.is_closed ≡ false)
          × (length old.pool.tasks < old.pool.max_queue_size)
        → new.pool.tasks ≡ old.pool.tasks ++ (record { request = r; weak_conn = old.conn_id } ∷ [])
        → new.conn ≡ old.conn
        → Handled r old new
    turned_away :
        (f : List ℕ)
        → (old.stopped ≡ true) × (encode response_proto (shutting_down r) ≡ some f)
        → new.pool ≡ old.pool
        → new.conn ≡ record old.conn { sent = old.conn.sent ++ (f ∷ []) }
        → Handled r old new
    overloaded :
        (f : List ℕ)
        → (old.stopped ≡ false) × (encode response_proto (busy r) ≡ some f)
        → (old.pool.is_closed ≡ true) ⊎ (old.pool.max_queue_size ≤ length old.pool.tasks)
        → new.pool ≡ old.pool
        → new.conn ≡ record old.conn { sent = old.conn.sent ++ (f ∷ []) }
        → Handled r old new

  handle_stopped :
      (r : RpcRequest) (s : Session)
      → Refusable r
      → s.conn.connected ≡ true
      → s.stopped ≡ true
      → Handled r s (handle_request response_proto r s)
  unfolding handle_request send_response send
  handle_stopped r s v c h =
      turned_away v.stop_frame (h, v.stop_encoded) (ground arith) (ground (arith, v.stop_encoded))

  handle_running :
      (r : RpcRequest) (s : Session)
      → Refusable r
      → s.conn.connected ≡ true
      → s.stopped ≡ false
      → Handled r s (handle_request response_proto r s)
  unfolding handle_request send_response send try_add_task
  handle_running r s v c h = elim (Bool-cases s.pool.is_closed) [
    | inl shut ↦
        overloaded v.busy_frame (h, v.busy_encoded) (inl shut) (ground arith)
          (ground (arith, v.busy_encoded))
    | inr open_pool ↦ elim (Bool-cases (leb s.pool.max_queue_size (length s.pool.tasks))) [
      | inl full ↦
          overloaded v.busy_frame (h, v.busy_encoded) (inr (ground arith)) (ground arith)
            (ground (arith, v.busy_encoded))
      | inr room ↦ queued (h, open_pool, ground arith) (ground arith) (ground arith)
    ]
  ]

  -- A request that arrives on a live connection is queued or refused, with what is sent and what is
  -- queued as `Handled` says.
  pub handle_request-Handled :
      (r : RpcRequest) (s : Session)
      → Refusable r
      → s.conn.connected ≡ true
      → Handled r s (handle_request response_proto r s)
  handle_request-Handled r s v c = elim (Bool-cases s.stopped) [
    | inl h ↦ handle_stopped r s v c h
    | inr h ↦ handle_running r s v c h
  ]

  -- What no request changes.
  pub record Keeps (old new : Session) : Type 0 where
    pub same_stopped : new.stopped ≡ old.stopped
    pub same_id : new.conn_id ≡ old.conn_id
    pub same_closed : new.pool.is_closed ≡ old.pool.is_closed
    pub same_size : new.pool.max_queue_size ≡ old.pool.max_queue_size
    pub same_connected : new.conn.connected ≡ old.conn.connected

  handle_request-Keeps :
      (r : RpcRequest) (s : Session) → Keeps s (handle_request response_proto r s)
  unfolding handle_request send_response send try_add_task
  handle_request-Keeps r s = record {
    same_stopped = ground arith;
    same_id = ground arith;
    same_closed = ground arith;
    same_size = ground arith;
    same_connected = ground arith;
  }

  -- How many more tasks the server would take.
  abbrev pub room_of : Bool → Pool Task → ℕ
  room_of stopped pool =
      if stopped || pool.is_closed then 0 else pool.max_queue_size - length pool.tasks

  abbrev pub room : Session → ℕ
  room s = room_of s.stopped s.pool

  abbrev pub refusal : Bool → RpcRequest → RpcResponse
  refusal stopped r = if stopped then shutting_down r else busy r

  abbrev pub tasks_for : ℕ → List RpcRequest → List Task
  tasks_for conn_id [] = []
  tasks_for conn_id (r ∷ rs) = record { request = r; weak_conn = conn_id } ∷ tasks_for conn_id rs

  -- The frames are those of the requests' refusals, in order.
  abbrev pub AllRefused : Bool → List RpcRequest → List (List ℕ) → Type 0
  AllRefused stopped [] [] = Unit {0}
  AllRefused stopped (r ∷ rs) (f ∷ fs) =
      (encode response_proto (refusal stopped r) ≡ some f) × AllRefused stopped rs fs
  AllRefused stopped [] (f ∷ fs) = ⊥
  AllRefused stopped (r ∷ rs) [] = ⊥

  -- As many of the requests as there is room for have been queued, in order, each with its own
  -- request and the connection's id, and every other one has been refused by its own frame, in order.
  pub record Served (rs : List RpcRequest) (old new : Session) : Type 0 where
    pub tasks : new.pool.tasks ≡ old.pool.tasks ++ tasks_for old.conn_id (take (room old) rs)
    pub frames : List (List ℕ)
    pub sent : new.conn.sent ≡ old.conn.sent ++ frames
    pub refusals : AllRefused old.stopped (drop (room old) rs) frames

  queued_next :
      (r : RpcRequest) (rs : List RpcRequest) (s s1 new : Session)
      → Keeps s s1
      → room s ≡ suc (room s1)
      → s1.pool.tasks ≡ s.pool.tasks ++ (record { request = r; weak_conn = s.conn_id } ∷ [])
      → s1.conn ≡ s.conn
      → Served rs s1 new
      → Served (r ∷ rs) s new
  queued_next r rs s s1 new k e t c w = record {
    tasks =
        subst (λ n. new.pool.tasks ≡ s.pool.tasks ++ tasks_for s.conn_id (take n (r ∷ rs))) (sym e)
          (w.tasks
            ∙ ap (λ l. l ++ tasks_for s1.conn_id (take (room s1) rs)) t
            ∙ append_assoc s.pool.tasks (record { request = r; weak_conn = s.conn_id } ∷ [])
                (tasks_for s1.conn_id (take (room s1) rs))
            ∙ ap
                (λ i.
                  s.pool.tasks
                  ++ (record { request = r; weak_conn = s.conn_id }
                      ∷ tasks_for i (take (room s1) rs)))
                k.same_id);
    frames = w.frames;
    sent = w.sent ∙ ap (λ (d : Conn). d.sent ++ w.frames) c;
    refusals =
        subst (λ n. AllRefused s.stopped (drop n (r ∷ rs)) w.frames) (sym e)
          (subst (λ b. AllRefused b (drop (room s1) rs) w.frames) k.same_stopped w.refusals);
  }

  refused_next :
      (r : RpcRequest) (rs : List RpcRequest) (s s1 new : Session) (f : List ℕ)
      → Keeps s s1
      → room s ≡ 0
      → encode response_proto (refusal s.stopped r) ≡ some f
      → s1.pool ≡ s.pool
      → s1.conn ≡ record s.conn { sent = s.conn.sent ++ (f ∷ []) }
      → Served rs s1 new
      → Served (r ∷ rs) s new
  refused_next r rs s s1 new f k e x p c w =
      let e1 : room s1 ≡ 0 =
        ap (λ b. room_of b s1.pool) k.same_stopped ∙ ap (room_of s.stopped) p ∙ e in
      record {
        tasks =
            subst (λ n. new.pool.tasks ≡ s.pool.tasks ++ tasks_for s.conn_id (take n (r ∷ rs)))
              (sym e)
              (w.tasks
                ∙ ap (λ (q : Pool Task). q.tasks ++ tasks_for s1.conn_id (take (room s1) rs)) p
                ∙ ap (λ n. s.pool.tasks ++ tasks_for s1.conn_id (take n rs)) e1);
        frames = f ∷ w.frames;
        sent =
            w.sent
            ∙ ap (λ (d : Conn). d.sent ++ w.frames) c
            ∙ append_assoc s.conn.sent (f ∷ []) w.frames;
        refusals =
            subst (λ n. AllRefused s.stopped (drop n (r ∷ rs)) (f ∷ w.frames)) (sym e)
              (
                x,
                subst (λ n. AllRefused s.stopped (drop n rs) w.frames) e1
                    (subst (λ b. AllRefused b (drop (room s1) rs) w.frames) k.same_stopped
                      w.refusals),
              );
      }

  serves_next :
      (r : RpcRequest) (rs : List RpcRequest) (s s1 new : Session)
      → Keeps s s1
      → Handled r s s1
      → Served rs s1 new
      → Served (r ∷ rs) s new
  serves_next r rs s s1 new k (queued (run, open_pool, free) t c) w =
      queued_next r rs s s1 new k
        (ground (
          arith,
          k.same_stopped,
          k.same_closed,
          k.same_size,
          ap length t,
          length-append s.pool.tasks (record { request = r; weak_conn = s.conn_id } ∷ []),
        ))
        t c w
  serves_next r rs s s1 new k (turned_away f (stop, x) p c) w =
      refused_next r rs s s1 new f k (ground arith) (ground (arith, x)) p c w
  serves_next r rs s s1 new k (overloaded f (run, x) full p c) w =
      refused_next r rs s s1 new f k (ground (arith, full)) (ground (arith, x)) p c w

  handle_all-Served :
      (rs : List RpcRequest) (request_proto : ProtoMessage RpcRequest) (s : Session)
      → AllRefusable rs
      → s.conn.connected ≡ true
      → Served rs s (handle_all request_proto (handle_request response_proto) close_session rs s)
  handle_all-Served [] p s v c = record {
    tasks =
        sym (append-nil s.pool.tasks)
        ∙ ap (λ rs. s.pool.tasks ++ tasks_for s.conn_id rs) (sym (take-nil (room s)));
    frames = [];
    sent = sym (append-nil s.conn.sent);
    refusals = subst (λ rs. AllRefused s.stopped rs []) (sym (drop-nil (room s))) tt;
  }
  handle_all-Served (r ∷ rs) p s (v, vs) c =
      let k = handle_request-Keeps r s in
      serves_next r rs s (handle_request response_proto r s)
        (handle_all p (handle_request response_proto) close_session (r ∷ rs) s) k
        (handle_request-Handled r s v c)
        (handle_all-Served rs p (handle_request response_proto r s) vs (k.same_connected ∙ c))

  outcome-Served :
      (request_proto : ProtoMessage RpcRequest) (spec : List RpcRequest × Bool × List ℕ)
      (s : Session)
      → Served spec.0 s
          (handle_all request_proto (handle_request response_proto) close_session spec.0 s)
      → Served spec.0 s (outcome request_proto (handle_request response_proto) close_session spec s)
  unfolding close_session close
  outcome-Served p (rs, false, rest) s w = w
  outcome-Served p (rs, true, rest) s w = record {
    tasks = w.tasks;
    frames = w.frames;
    sent = w.sent;
    refusals = w.refusals;
  }

  -- `onMessage` ends, and each request that stood whole at the front of the buffer is dealt with,
  -- once and in order. Where the server runs and the pool is open, as many of them as the queue has
  -- room for are queued behind the tasks that wait, each task with its own request and the
  -- connection's id; each of the others, and all of them where the server has stopped or the pool
  -- is closed, is answered by the frame of its own refusal, SERVER_SHUTTING_DOWN where the server
  -- has stopped and SERVER_BUSY otherwise, behind the frames sent. Nothing else is queued or sent.
  -- (The connection is connected, the buffer is valid, and both refusals of each of these requests
  -- can be encoded.)
  pub on_message_accounts :
      (request_proto : ProtoMessage RpcRequest) (b : Buffer) (s : Session)
      → IsValid b
      → s.conn.connected ≡ true
      → AllRefusable (messages request_proto (readable_bytes b + 1) (contents b)).0
      → (b' : Buffer) × (s' : Session) × (on_message response_proto request_proto b s
          ≡ some (b', s'))
        × Served (messages request_proto (readable_bytes b + 1) (contents b)).0 s s'
  unfolding on_message
  on_message_accounts p b s v c refusable =
      let spec = messages p (readable_bytes b + 1) (contents b) in
      let e = on_message-Ends p (handle_request response_proto) close_session b s v in
      (
        e.buffer,
        outcome p (handle_request response_proto) close_session spec s,
        e.result,
        outcome-Served p spec s (handle_all-Served spec.0 p s refusable c),
      )
