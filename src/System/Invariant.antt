-- ===== src/System/Invariant.antt =====
-- System: the invariant, and the client's own events.
use light_rpc.Prelude.{
  ℕ, ◌≡◌, inl, inr, refl, sym, ap, ◌∙◌, List, [], ◌∷◌, ◌++◌, append_assoc, append-nil, arith,
}
use light_rpc.Prelude.Eq.{Text}
use light_rpc.Codec.{ProtoMessage}
use light_rpc.Codec.Frame.{frame}
use light_rpc.Rpc.{RpcRequest, RpcResponse}
use light_rpc.Service.{RpcService}
use light_rpc.Client.{
  Client, create as create_client, run as client_run, step as client_step, Event as ClientEvent,
  begins, continues, times_out, receives, connection, disconnects, network_error, stops,
}
use light_rpc.Client.History.{
  own, own-append, heard, heard-append, written, writes, written-append, run-append, run_one, Sends,
  none_sent, one_sent, step-Sends,
}
use light_rpc.ReadLoop.Split.{sent_messages}
use light_rpc.System.{
  System, Event, client_does, client_reads, server_reads, worker_takes, worker_ends, server_stops,
  server_closes, own_step,
}
use light_rpc.System.Link.{Faithful, Link, send-Link, encode-cases, sent_messages-append}
use light_rpc.System.Serving.{Serving}
use light_rpc.System.Answering.{waiting_in}

-- What the client has done of itself.
abbrev pub acts : List Event → List ClientEvent
acts [] = []
acts (client_does e ∷ es) = own (e ∷ []) ++ acts es
acts (client_reads n ∷ es) = acts es
acts (server_reads n ∷ es) = acts es
acts (worker_takes i ∷ es) = acts es
acts (worker_ends i lives ∷ es) = acts es
acts (server_stops ∷ es) = acts es
acts (server_closes ∷ es) = acts es

acts-append : (xs ys : List Event) → acts (xs ++ ys) ≡ acts xs ++ acts ys
acts-append [] ys = refl
acts-append (client_does e ∷ xs) ys =
    ap (λ x. own (e ∷ []) ++ x) (acts-append xs ys)
    ∙ sym (append_assoc (own (e ∷ [])) (acts xs) (acts ys))
acts-append (client_reads n ∷ xs) ys = acts-append xs ys
acts-append (server_reads n ∷ xs) ys = acts-append xs ys
acts-append (worker_takes i ∷ xs) ys = acts-append xs ys
acts-append (worker_ends i lives ∷ xs) ys = acts-append xs ys
acts-append (server_stops ∷ xs) ys = acts-append xs ys
acts-append (server_closes ∷ xs) ys = acts-append xs ys

pub acts_more :
    (past : List Event) (e : Event) → acts (e ∷ []) ≡ [] → acts past ≡ acts (past ++ (e ∷ []))
acts_more past e h =
    sym (append-nil (acts past))
    ∙ ap (λ x. acts past ++ x) (sym h)
    ∙ sym (acts-append past (e ∷ []))

module _ (request_proto : ProtoMessage RpcRequest) (response_proto : ProtoMessage RpcResponse)
    (hash : Text → ℕ) (to_string : ℕ → Text) (service : RpcService) where
  -- What holds between any two events. `requests` are those the client has sent, `taken` those the
  -- server has been handed, `got` the responses the client has been handed, and `trace` the events of
  -- the client.
  pub record IsConsistent (past : List Event) (s : System) : Type 0 where
    pub requests : List (RpcRequest × List ℕ)
    pub taken : List RpcRequest
    pub got : List RpcResponse
    pub trace : List ClientEvent
    pub uplink : Link request_proto requests s.client.sent s.server_read s.server_buffer taken
    pub serving :
        Serving response_proto service taken
          (waiting_in s.session)
          s.session.conn
          s.client_read
          s.client_buffer
          got
    pub behaved : s.client ≡ client_run request_proto hash to_string trace create_client
    pub acted : own trace ≡ acts past
    pub wrote : sent_messages requests ≡ written request_proto hash to_string trace
    pub received : heard trace ≡ got

  module _ (request_Faithful : Faithful request_proto) where
    written_next :
        (past : List Event) (e : ClientEvent) (s : System) (v : IsConsistent past s)
        (new : List RpcRequest)
        → writes request_proto hash to_string e ≡ new
        → sent_messages v.requests ++ new
          ≡ written request_proto hash to_string (v.trace ++ (e ∷ []))
    written_next past e s v new w =
        ap (λ xs. xs ++ new) v.wrote
        ∙ ap (λ xs. written request_proto hash to_string v.trace ++ xs)
            (sym w ∙ sym (append-nil (writes request_proto hash to_string e)))
        ∙ sym (written-append request_proto hash to_string v.trace (e ∷ []))

    -- An event of the client that is no response received.
    client_step-IsConsistent :
        (past : List Event) (e : ClientEvent) (s : System)
        → IsConsistent past s
        → heard (e ∷ []) ≡ []
        → IsConsistent
            (past ++ (client_does e ∷ []))
            (record s { client = client_step request_proto hash to_string e s.client })
    client_step-IsConsistent past e s v quiet =
        sends (step-Sends request_proto hash to_string e s.client)
      where
        next : Client
        next = client_step request_proto hash to_string e s.client

        same_trace :
            next ≡ client_run request_proto hash to_string (v.trace ++ (e ∷ [])) create_client
        same_trace =
            sym (run_one request_proto hash to_string e s.client)
            ∙ ap (client_run request_proto hash to_string (e ∷ [])) v.behaved
            ∙ sym (run-append request_proto hash to_string v.trace (e ∷ []) create_client)

        same_got : heard (v.trace ++ (e ∷ [])) ≡ v.got
        same_got =
            heard-append v.trace (e ∷ [])
            ∙ ap (λ xs. heard v.trace ++ xs) quiet
            ∙ append-nil (heard v.trace)
            ∙ v.received

        with_uplink :
            (requests : List (RpcRequest × List ℕ))
            → Link request_proto requests next.sent s.server_read s.server_buffer v.taken
            → sent_messages requests ≡ written request_proto hash to_string (v.trace ++ (e ∷ []))
            → IsConsistent (past ++ (client_does e ∷ [])) (record s { client = next })
        with_uplink requests link wrote = record {
          requests = requests;
          taken = v.taken;
          got = v.got;
          trace = v.trace ++ (e ∷ []);
          uplink = link;
          serving = v.serving;
          behaved = same_trace;
          acted =
              own-append v.trace (e ∷ [])
              ∙ ap (λ x. x ++ own (e ∷ [])) v.acted
              ∙ ap (λ x. acts past ++ x) (sym (append-nil (own (e ∷ []))))
              ∙ sym (acts-append past (client_does e ∷ []));
          wrote = wrote;
          received = same_got;
        }

        sends :
            Sends request_proto hash to_string e s.client next
            → IsConsistent (past ++ (client_does e ∷ [])) (record s { client = next })
        sends (none_sent same w) =
            with_uplink v.requests (rw same v.uplink)
              (sym (append-nil (sent_messages v.requests)) ∙ written_next past e s v [] w)
        sends (one_sent request f encoded same w) =
            elim (encode-cases request_proto request_Faithful request) [
              | inl none_e ↦ absurd (cc (none_e, encoded))
              | inr (bytes, survives, size, e') ↦
                  let f_e : f ≡ frame bytes = grind (arith, encoded, e') in
                  with_uplink (v.requests ++ ((request, bytes) ∷ []))
                    (rw (same, f_e)
                      (send-Link request_proto v.requests s.client.sent s.server_read
                        s.server_buffer v.taken request bytes v.uplink survives size))
                    (sent_messages-append v.requests ((request, bytes) ∷ [])
                      ∙ written_next past e s v (request ∷ []) w)
            ]

    pub own_step-IsConsistent :
        (past : List Event) (e : ClientEvent) (s : System)
        → IsConsistent past s
        → IsConsistent (past ++ (client_does e ∷ [])) (record s {
          client = own_step request_proto response_proto hash to_string service e s.client;
        })
    unfolding own_step
    own_step-IsConsistent past (receives response) s v = record {
      requests = v.requests;
      taken = v.taken;
      got = v.got;
      trace = v.trace;
      uplink = v.uplink;
      serving = v.serving;
      behaved = v.behaved;
      acted = v.acted ∙ acts_more past (client_does (receives response)) refl;
      wrote = v.wrote;
      received = v.received;
    }
    own_step-IsConsistent past (begins id cb) s v =
        client_step-IsConsistent past (begins id cb) s v refl
    own_step-IsConsistent past (continues request timeout_ms) s v =
        client_step-IsConsistent past (continues request timeout_ms) s v refl
    own_step-IsConsistent past (times_out id) s v =
        client_step-IsConsistent past (times_out id) s v refl
    own_step-IsConsistent past (connection up) s v =
        client_step-IsConsistent past (connection up) s v refl
    own_step-IsConsistent past disconnects s v = client_step-IsConsistent past disconnects s v refl
    own_step-IsConsistent past (network_error err) s v =
        client_step-IsConsistent past (network_error err) s v refl
    own_step-IsConsistent past stops s v = client_step-IsConsistent past stops s v refl
