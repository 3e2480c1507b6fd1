-- ===== src/System/Reads.antt =====
-- System: the reads of the two sides keep the invariant.
use light_rpc.Prelude.{
  ℕ, ◌+◌, ◌<◌, ◌≡◌, inl, inr, refl, sym, ap, ◌∙◌, not, ◌||◌, List, [], ◌∷◌, ◌++◌, Option, some,
  append-nil, arith, map, length, Bool-cases, is_empty,
}
use light_rpc.Prelude.Eq.{Text}
use light_rpc.Prelude.Words.{size_mod}
use light_rpc.Buffer.{initial_size}
use light_rpc.Codec.{ProtoMessage}
use light_rpc.Rpc.{RpcRequest, RpcResponse}
use light_rpc.Service.{RpcService}
use light_rpc.Server.{Session, handle_request, close_session}
use light_rpc.Server.Sending.{on_request_lem}
use light_rpc.Client.{
  create as create_client, run as client_run, receives, on_response, close_client,
}
use light_rpc.Client.History.{
  own, own-append, own-receives, heard, heard-append, heard-receives, written, written-append,
  written-receives, run-append, sent-receives, handle_all-run, on_response_lem,
}
use light_rpc.ReadLoop.Stream.{handle_all}
use light_rpc.System.{
  System, Event, client_does, client_reads, server_reads, worker_takes, worker_ends, server_stops,
  server_closes, client_has_read, server_has_read, client_read_step, server_read_step,
}
use light_rpc.System.Link.{Faithful, next_chunk, on_message-Read}
use light_rpc.System.Serving.{Serving, reads}
use light_rpc.System.Answering.{waiting_in, handle_all-Serving}
use light_rpc.System.Invariant.{IsConsistent, acts, acts_more}

-- The bytes of the two buffers, and what the reads to come may add to them.
abbrev pub buffered : System → ℕ
buffered s = length s.client_buffer.bytes + length s.server_buffer.bytes

abbrev pub cost : List Event → ℕ
cost [] = 0
cost (client_does e ∷ es) = cost es
cost (client_reads n ∷ es) = n + initial_size + cost es
cost (server_reads n ∷ es) = n + initial_size + cost es
cost (worker_takes i ∷ es) = cost es
cost (worker_ends i lives ∷ es) = cost es
cost (server_stops ∷ es) = cost es
cost (server_closes ∷ es) = cost es

module _ (request_proto : ProtoMessage RpcRequest) (response_proto : ProtoMessage RpcResponse)
    (hash : Text → ℕ) (to_string : ℕ → Text) (service : RpcService) where
  -- The step ends, in a sound state, and what the reads to come need stays free.
  pub record Goes (past : List Event) (s : System) (es : List Event) (r : Option System)
      : Type 0 where
    pub next : System
    pub result : r ≡ some next
    pub sound : IsConsistent request_proto response_proto hash to_string service past next
    pub room : buffered next + cost es < size_mod

  pub with_session :
      (past : List Event) (e : Event) (s : System)
      (v : IsConsistent request_proto response_proto hash to_string service past s)
      (session : Session)
      → acts (e ∷ []) ≡ []
      → Serving response_proto service v.taken
          (waiting_in session)
          session.conn
          s.client_read
          s.client_buffer
          v.got
      → IsConsistent request_proto response_proto hash to_string service
          (past ++ (e ∷ []))
          (record s { session = session })
  with_session past e s v session none_done serving = record {
    requests = v.requests;
    taken = v.taken;
    got = v.got;
    trace = v.trace;
    uplink = v.uplink;
    serving = serving;
    behaved = v.behaved;
    acted = v.acted ∙ acts_more past e none_done;
    wrote = v.wrote;
    received = v.received;
  }

  pub client_read-Goes :
      (past : List Event) (n : ℕ) (s : System) (es : List Event)
      → IsConsistent request_proto response_proto hash to_string service past s
      → buffered s + (n + initial_size + cost es) < size_mod
      → Goes
          (past ++ (client_reads n ∷ []))
          s
          es
          (client_read_step request_proto response_proto hash to_string service n s)
  unfolding client_read_step client_has_read
  client_read-Goes past n s es v room =
      elim (Bool-cases (is_empty (next_chunk n s.session.conn.sent s.client_read))) [
        | inl none_come ↦ record {
          next = s;
          result = rw none_come refl;
          sound = with_session past (client_reads n) s v s.session refl v.serving;
          room = omega arith;
        }
        | inr some_come ↦
            let k =
              on_message-Read response_proto (on_response request_proto hash to_string)
                (close_client request_proto hash to_string) v.serving.responses s.session.conn.sent
                s.client_read n s.client_buffer v.got s.client v.serving.downlink (omega arith) in
            let e =
              on_response_lem request_proto hash to_string response_proto _ s.client
              ∙ k.result
              ∙ ap (λ x. some (k.after, x))
                  (handle_all-run request_proto hash to_string response_proto k.handled s.client) in
            record {
              next = record s {
                client = client_run request_proto hash to_string (map receives k.handled) s.client;
                client_buffer = k.after;
                client_read =
                    s.client_read + length (next_chunk n s.session.conn.sent s.client_read);
              };
              result = rw (some_come, e) refl;
              sound = record {
                requests = v.requests;
                taken = v.taken;
                got = v.got ++ k.handled;
                trace = v.trace ++ map receives k.handled;
                uplink =
                    rw (sent-receives request_proto hash to_string k.handled s.client) v.uplink;
                serving = reads v.serving k.link;
                behaved =
                    ap (client_run request_proto hash to_string (map receives k.handled)) v.behaved
                    ∙ sym (
                        run-append request_proto hash to_string v.trace (map receives k.handled)
                          create_client);
                acted =
                    own-append v.trace (map receives k.handled)
                    ∙ ap (λ xs. own v.trace ++ xs) (own-receives k.handled)
                    ∙ append-nil (own v.trace)
                    ∙ v.acted
                    ∙ acts_more past (client_reads n) refl;
                wrote =
                    v.wrote
                    ∙ sym (
                        written-append request_proto hash to_string v.trace (map receives k.handled)
                        ∙ ap (λ xs. written request_proto hash to_string v.trace ++ xs)
                            (written-receives request_proto hash to_string k.handled)
                        ∙ append-nil (written request_proto hash to_string v.trace));
                received =
                    heard-append v.trace (map receives k.handled)
                    ∙ ap (λ xs. heard v.trace ++ xs) (heard-receives k.handled)
                    ∙ ap (λ xs. xs ++ k.handled) v.received;
              };
              room = omega (arith, k.grown);
            }
      ]

  module _ (response_Faithful : Faithful response_proto) where
    pub server_read-Goes :
        (past : List Event) (n : ℕ) (s : System) (es : List Event)
        → IsConsistent request_proto response_proto hash to_string service past s
        → buffered s + (n + initial_size + cost es) < size_mod
        → Goes
            (past ++ (server_reads n ∷ []))
            s
            es
            (server_read_step request_proto response_proto hash to_string service n s)
    unfolding server_read_step server_has_read
    server_read-Goes past n s es v room =
        elim (Bool-cases
          (is_empty (next_chunk n s.client.sent s.server_read) || not s.session.conn.connected)) [
            | inl no_read ↦ record {
              next = s;
              result = rw no_read refl;
              sound = with_session past (server_reads n) s v s.session refl v.serving;
              room = omega arith;
            }
            | inr reads_some ↦
                let k =
                  on_message-Read request_proto (handle_request response_proto) close_session
                    v.requests s.client.sent s.server_read n s.server_buffer v.taken s.session
                    v.uplink (omega arith) in
                let e = on_request_lem response_proto request_proto _ s.session ∙ k.result in
                record {
                  next = record s {
                    session =
                        handle_all request_proto (handle_request response_proto) close_session
                          k.handled s.session;
                    server_buffer = k.after;
                    server_read = s.server_read + length (next_chunk n s.client.sent s.server_read);
                  };
                  result = rw (reads_some, e) refl;
                  sound = record {
                    requests = v.requests;
                    taken = v.taken ++ k.handled;
                    got = v.got;
                    trace = v.trace;
                    uplink = k.link;
                    serving =
                        handle_all-Serving request_proto response_proto hash to_string service
                          response_Faithful k.handled s.session v.taken s.client_read
                          s.client_buffer v.got v.serving;
                    behaved = v.behaved;
                    acted = v.acted ∙ acts_more past (server_reads n) refl;
                    wrote = v.wrote;
                    received = v.received;
                  };
                  room = omega (arith, k.grown);
                }
          ]
