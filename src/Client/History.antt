-- ===== src/Client/History.antt =====
-- RpcClient: its events so far, the requests that they have written, and the responses received.
use light_rpc.Prelude.{
  ℕ, ◌≡◌, inl, inr, refl, sym, ap, ◌∙◌, Bool, true, false, List, [], ◌∷◌, ◌++◌, Option, some, none,
  arith, map, append_assoc, Option-cases, if◌then◌else◌,
}
use light_rpc.Prelude.Eq.{Text, codes, text_eq_instance}
use light_rpc.Prelude.Assoc.{lookup}
use light_rpc.Buffer.{Buffer}
use light_rpc.Codec.{ProtoMessage, encode}
use light_rpc.ErrorCode.{
  RpcErrorCode, client_connection_disconnected, client_network_error, client_not_running,
}
use light_rpc.Rpc.{RpcRequest, RpcResponse}
use light_rpc.ReadLoop
use light_rpc.ReadLoop.Stream.{handle_all}
use light_rpc.Client.{
  Client, Event, begins, continues, times_out, receives, connection, disconnects, network_error,
  stops, reply, answer, begin_call, continue_call, on_timeout, on_response, drop_entries,
  drop_all_pending, on_disconnected, on_error, stop, step, run, close_client, on_message,
}

-- The responses received.
abbrev pub heard : List Event → List RpcResponse
heard [] = []
heard (receives response ∷ es) = response ∷ heard es
heard (begins id cb ∷ es) = heard es
heard (continues request timeout_ms ∷ es) = heard es
heard (times_out id ∷ es) = heard es
heard (connection up ∷ es) = heard es
heard (disconnects ∷ es) = heard es
heard (network_error err ∷ es) = heard es
heard (stops ∷ es) = heard es

pub heard-append : (xs ys : List Event) → heard (xs ++ ys) ≡ heard xs ++ heard ys
heard-append [] ys = refl
heard-append (receives response ∷ xs) ys = ap (◌∷◌ response) (heard-append xs ys)
heard-append (begins id cb ∷ xs) ys = heard-append xs ys
heard-append (continues request timeout_ms ∷ xs) ys = heard-append xs ys
heard-append (times_out id ∷ xs) ys = heard-append xs ys
heard-append (connection up ∷ xs) ys = heard-append xs ys
heard-append (disconnects ∷ xs) ys = heard-append xs ys
heard-append (network_error err ∷ xs) ys = heard-append xs ys
heard-append (stops ∷ xs) ys = heard-append xs ys

pub heard-receives : (rs : List RpcResponse) → heard (map receives rs) ≡ rs
heard-receives [] = refl
heard-receives (r ∷ rs) = ap (◌∷◌ r) (heard-receives rs)

-- The events other than responses received.
abbrev pub own : List Event → List Event
own [] = []
own (receives response ∷ es) = own es
own (begins id cb ∷ es) = begins id cb ∷ own es
own (continues request timeout_ms ∷ es) = continues request timeout_ms ∷ own es
own (times_out id ∷ es) = times_out id ∷ own es
own (connection up ∷ es) = connection up ∷ own es
own (disconnects ∷ es) = disconnects ∷ own es
own (network_error err ∷ es) = network_error err ∷ own es
own (stops ∷ es) = stops ∷ own es

pub own-append : (xs ys : List Event) → own (xs ++ ys) ≡ own xs ++ own ys
own-append [] ys = refl
own-append (receives response ∷ xs) ys = own-append xs ys
own-append (begins id cb ∷ xs) ys = ap (◌∷◌ (begins id cb)) (own-append xs ys)
own-append (continues request timeout_ms ∷ xs) ys =
    ap (◌∷◌ (continues request timeout_ms)) (own-append xs ys)
own-append (times_out id ∷ xs) ys = ap (◌∷◌ (times_out id)) (own-append xs ys)
own-append (connection up ∷ xs) ys = ap (◌∷◌ (connection up)) (own-append xs ys)
own-append (disconnects ∷ xs) ys = ap (◌∷◌ disconnects) (own-append xs ys)
own-append (network_error err ∷ xs) ys = ap (◌∷◌ (network_error err)) (own-append xs ys)
own-append (stops ∷ xs) ys = ap (◌∷◌ stops) (own-append xs ys)

pub own-receives : (rs : List RpcResponse) → own (map receives rs) ≡ []
own-receives [] = refl
own-receives (r ∷ rs) = own-receives rs

sent-answer : (response : RpcResponse) (c : Client) → (answer response c).sent ≡ c.sent
unfolding answer reply
sent-answer response c = elim (Option-cases (lookup response.request_id c.pending)) [
  | inl e ↦ rw (e, answer) refl
  | inr (cb, e) ↦ rw (e, answer) refl
]

sent-begin_call : (id : Text) (cb : ℕ) (c : Client) → (begin_call id cb c).sent ≡ c.sent
unfolding begin_call reply
sent-begin_call id cb c = ground arith

sent-drop_entries :
    (hash : Text → ℕ) (code : RpcErrorCode) (msg : Text) (entries : List (Text × ℕ)) (c : Client)
    → (drop_entries hash code msg entries c).sent ≡ c.sent
unfolding drop_entries
sent-drop_entries hash code msg [] c = refl
sent-drop_entries hash code msg (e ∷ entries) c = sent-drop_entries hash code msg entries _

sent-drop_all_pending :
    (hash : Text → ℕ) (code : RpcErrorCode) (msg : Text) (c : Client)
    → (drop_all_pending hash code msg c).sent ≡ c.sent
unfolding drop_all_pending
sent-drop_all_pending hash code msg c = sent-drop_entries hash code msg c.pending _

if_sent : (b : Bool) (c d : Client) → d.sent ≡ c.sent → (if b then c else d).sent ≡ c.sent
if_sent true c d e = refl
if_sent false c d e = e

module _ (request_proto : ProtoMessage RpcRequest) (hash : Text → ℕ) (to_string : ℕ → Text) where
  -- The requests that have been encoded.
  abbrev pub written_if : RpcRequest → Option (List ℕ) → List RpcRequest
  written_if request none = []
  written_if request (some bytes) = request ∷ []

  abbrev pub writes : Event → List RpcRequest
  writes (continues request timeout_ms) = written_if request (encode request_proto request)
  writes _ = []

  abbrev pub written : List Event → List RpcRequest
  written [] = []
  written (e ∷ es) = writes e ++ written es

  pub written-append : (xs ys : List Event) → written (xs ++ ys) ≡ written xs ++ written ys
  written-append [] ys = refl
  written-append (e ∷ xs) ys =
      ap (λ x. writes e ++ x) (written-append xs ys)
      ∙ sym (append_assoc (writes e) (written xs) (written ys))

  pub written-receives : (rs : List RpcResponse) → written (map receives rs) ≡ []
  written-receives [] = refl
  written-receives (r ∷ rs) = written-receives rs

  pub run-append :
      (xs ys : List Event) (c : Client)
      → run request_proto hash to_string (xs ++ ys) c
        ≡ run request_proto hash to_string ys (run request_proto hash to_string xs c)
  unfolding run
  run-append [] ys c = refl
  run-append (e ∷ xs) ys c = run-append xs ys _

  pub written-own : (es : List Event) → written (own es) ≡ written es
  written-own [] = refl
  written-own (receives response ∷ es) = written-own es
  written-own (begins id cb ∷ es) = written-own es
  written-own (continues request timeout_ms ∷ es) =
      ap (λ x. writes (continues request timeout_ms) ++ x) (written-own es)
  written-own (times_out id ∷ es) = written-own es
  written-own (connection up ∷ es) = written-own es
  written-own (disconnects ∷ es) = written-own es
  written-own (network_error err ∷ es) = written-own es
  written-own (stops ∷ es) = written-own es

  pub run_none : (c : Client) → run request_proto hash to_string [] c ≡ c
  unfolding run
  run_none c = refl

  pub run_one :
      (e : Event) (c : Client)
      → run request_proto hash to_string (e ∷ []) c ≡ step request_proto hash to_string e c
  unfolding run
  run_one e c = refl

  -- What an event adds to the frames: none, or that of the request it has written.
  pub data Sends (e : Event) (c new : Client) : Type 0 where
    none_sent : new.sent ≡ c.sent → writes e ≡ [] → Sends e c new
    one_sent :
        (request : RpcRequest) (f : List ℕ)
        → encode request_proto request ≡ some f
        → new.sent ≡ c.sent ++ (f ∷ [])
        → writes e ≡ request ∷ []
        → Sends e c new

  sent-on_disconnected :
      (c : Client) → (on_disconnected request_proto hash to_string c).sent ≡ c.sent
  unfolding on_disconnected
  sent-on_disconnected c = if_sent c.stopped c _ (
      sent-drop_all_pending hash client_connection_disconnected
        (codes "tcp connection disconnected") c)

  sent-on_error :
      (err : ℕ) (c : Client) → (on_error request_proto hash to_string err c).sent ≡ c.sent
  unfolding on_error
  sent-on_error err c = if_sent c.stopped c _ (
      sent-drop_all_pending hash client_network_error
        (codes "tcp client io error, err=" ++ to_string err) c)

  sent-stop : (c : Client) → (stop request_proto hash to_string c).sent ≡ c.sent
  unfolding stop
  sent-stop c = if_sent c.stopped c _ (
      sent-drop_all_pending hash client_not_running (codes "rpc client stopped")
        (record c { stopped = true }))

  pub step-Sends : (e : Event) (c : Client) → Sends e c (step request_proto hash to_string e c)
  unfolding step continue_call on_timeout on_response
  step-Sends (begins id cb) c = none_sent (sent-begin_call id cb c) refl
  step-Sends (continues request timeout_ms) c = elim (Option-cases (encode request_proto request)) [
    | inl e ↦ none_sent (rw (e, continue_call) (sent-answer _ _)) (rw e refl)
    | inr (f, e) ↦ one_sent request f e (rw (e, continue_call) refl) (rw e refl)
  ]
  step-Sends (times_out id) c = none_sent (sent-answer _ c) refl
  step-Sends (receives response) c = none_sent (sent-answer response _) refl
  step-Sends (connection up) c = none_sent refl refl
  step-Sends disconnects c = none_sent (sent-on_disconnected c) refl
  step-Sends (network_error err) c = none_sent (sent-on_error err c) refl
  step-Sends stops c = none_sent (sent-stop c) refl

  pub sent-receives :
      (rs : List RpcResponse) (c : Client)
      → (run request_proto hash to_string (map receives rs) c).sent ≡ c.sent
  unfolding run step on_response
  sent-receives [] c = refl
  sent-receives (r ∷ rs) c = sent-receives rs _ ∙ sent-answer r _

  pub handle_all-run :
      (response_proto : ProtoMessage RpcResponse) (rs : List RpcResponse) (c : Client)
      → handle_all response_proto
          (on_response request_proto hash to_string)
          (close_client request_proto hash to_string)
          rs
          c
        ≡ run request_proto hash to_string (map receives rs) c
  unfolding run step
  handle_all-run p [] c = refl
  handle_all-run p (r ∷ rs) c = handle_all-run p rs _

  pub on_response_lem :
      (response_proto : ProtoMessage RpcResponse) (b : Buffer) (c : Client)
      → on_message request_proto hash to_string response_proto b c
        ≡ ReadLoop.on_message response_proto
            (on_response request_proto hash to_string)
            (close_client request_proto hash to_string)
            b
            c
  unfolding on_message
  on_response_lem p b c = refl
