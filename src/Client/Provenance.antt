-- ===== src/Client/Provenance.antt =====
-- RpcClient: where the response that a callback is run with comes from.
use mathlib.Core.List.{Mem, mem-cons, mem-append_left, mem-append_right}
use light_rpc.Prelude.{
  ℕ, ◌≡◌, ◌⊎◌, inl, inr, refl, sym, Bool, true, false, List, [], ◌∷◌, ◌++◌, append_assoc,
  append-nil, Option-cases, Bool-cases, if◌then◌else◌, not, ◌||◌,
}
use light_rpc.Prelude.Eq.{Text, codes, text_eq_instance}
use light_rpc.Prelude.Assoc.{lookup}
use light_rpc.Codec.{ProtoMessage, encode}
use light_rpc.ErrorCode.{
  RpcErrorCode, client_request_timeout, client_connection_disconnected, client_network_error,
  client_not_running, client_encode_failed,
}
use light_rpc.Rpc.{RpcRequest, RpcResponse}
use light_rpc.Client.{
  Client, Event, begins, continues, times_out, receives, connection, disconnects, network_error,
  stops, reply, answer, begin_call, continue_call, on_timeout, on_response, drop_entries,
  drop_all_pending, on_disconnected, on_error, stop, step, run, create, failure,
}
use light_rpc.Client.History.{heard, heard-append}

-- The codes of the failures that the client reports of itself.
abbrev pub is_local : RpcErrorCode → Bool
is_local client_request_timeout = true
is_local client_connection_disconnected = true
is_local client_network_error = true
is_local client_not_running = true
is_local client_encode_failed = true
is_local _ = false

pub record IsLocal (response : RpcResponse) : Type 0 where
  pub request_id : Text
  pub code : RpcErrorCode
  pub msg : Text
  pub made : response ≡ failure request_id code msg
  pub own : is_local code ≡ true

-- Each callback has been run with a failure of the client's own, or with a response received.
abbrev pub AllFrom : List RpcResponse → List (ℕ × RpcResponse) → Type 0
AllFrom past [] = Unit {0}
AllFrom past ((cb, response) ∷ replies) =
    (IsLocal response ⊎ Mem response past) × AllFrom past replies

AllFrom-append :
    (past : List RpcResponse) (xs ys : List (ℕ × RpcResponse))
    → AllFrom past xs
    → AllFrom past ys
    → AllFrom past (xs ++ ys)
AllFrom-append past [] ys h k = k
AllFrom-append past (x ∷ xs) ys h k = (h.0, AllFrom-append past xs ys h.1 k)

AllFrom-later :
    (past more : List RpcResponse) (xs : List (ℕ × RpcResponse))
    → AllFrom past xs
    → AllFrom (past ++ more) xs
AllFrom-later past more [] h = tt
AllFrom-later past more (x ∷ xs) (inl own, h) = (inl own, AllFrom-later past more xs h)
AllFrom-later past more (x ∷ xs) (inr m, h) =
    (inr (mem-append_left more m), AllFrom-later past more xs h)

answer-AllFrom :
    (past : List RpcResponse) (response : RpcResponse) (c : Client)
    → IsLocal response ⊎ Mem response past
    → AllFrom past c.replies
    → AllFrom past (answer response c).replies
unfolding answer reply
answer-AllFrom past response c f h = elim (Option-cases (lookup response.request_id c.pending)) [
  | inl e ↦ rw (e, answer) h
  | inr (cb, e) ↦ rw (e, answer) (AllFrom-append past c.replies ((cb, response) ∷ []) h (f, tt))
]

IsLocal-failure :
    (request_id : Text) (code : RpcErrorCode) (msg : Text)
    → is_local code ≡ true
    → IsLocal (failure request_id code msg)
IsLocal-failure request_id code msg own = record {
  request_id = request_id;
  code = code;
  msg = msg;
  made = refl;
  own = own;
}

begin_call-AllFrom :
    (past : List RpcResponse) (id : Text) (cb : ℕ) (c : Client)
    → AllFrom past c.replies
    → AllFrom past (begin_call id cb c).replies
unfolding begin_call reply
begin_call-AllFrom past id cb c h = elim (Bool-cases (c.stopped || not c.connected)) [
  | inl e ↦ rw e (
      AllFrom-append past c.replies _ h (
        inl (IsLocal-failure id client_not_running (codes "client stopped/disconnected") refl),
        tt,
      ))
  | inr e ↦ rw e h
]

drop_entries-AllFrom :
    (past : List RpcResponse) (hash : Text → ℕ) (code : RpcErrorCode) (msg : Text)
    (entries : List (Text × ℕ)) (c : Client)
    → is_local code ≡ true
    → AllFrom past c.replies
    → AllFrom past (drop_entries hash code msg entries c).replies
unfolding drop_entries
drop_entries-AllFrom past hash code msg [] c own h = h
drop_entries-AllFrom past hash code msg ((id, cb) ∷ entries) c own h =
    drop_entries-AllFrom past hash code msg entries _ own (
      AllFrom-append past c.replies ((cb, failure id code msg) ∷ []) h
        (inl (IsLocal-failure id code msg own), tt))

drop_all_pending-AllFrom :
    (past : List RpcResponse) (hash : Text → ℕ) (code : RpcErrorCode) (msg : Text) (c : Client)
    → is_local code ≡ true
    → AllFrom past c.replies
    → AllFrom past (drop_all_pending hash code msg c).replies
unfolding drop_all_pending
drop_all_pending-AllFrom past hash code msg c own h =
    drop_entries-AllFrom past hash code msg c.pending _ own h

if_AllFrom :
    (past : List RpcResponse) (b : Bool) (c d : Client)
    → AllFrom past c.replies
    → AllFrom past d.replies
    → AllFrom past (if b then c else d).replies
if_AllFrom past true c d h k = h
if_AllFrom past false c d h k = k

module _ (request_proto : ProtoMessage RpcRequest) (hash : Text → ℕ) (to_string : ℕ → Text) where
  continue_call-AllFrom :
      (past : List RpcResponse) (request : RpcRequest) (timeout_ms : ℕ) (c : Client)
      → AllFrom past c.replies
      → AllFrom past (continue_call request_proto hash to_string request timeout_ms c).replies
  unfolding continue_call
  continue_call-AllFrom past request timeout_ms c h =
      elim (Option-cases (encode request_proto request)) [
        | inl e ↦
            rw (e, continue_call)
              (answer-AllFrom past _ _
                (inl (
                  IsLocal-failure request.request_id client_encode_failed
                    (codes "encode request failed") refl))
                h)
        | inr (f, e) ↦ rw (e, continue_call) h
      ]

  step-AllFrom :
      (past : List RpcResponse) (e : Event) (c : Client)
      → AllFrom past c.replies
      → AllFrom (past ++ heard (e ∷ [])) (step request_proto hash to_string e c).replies
  unfolding step on_timeout on_response on_disconnected on_error stop
  step-AllFrom past (receives response) c h =
      answer-AllFrom (past ++ (response ∷ [])) response _
        (inr (mem-append_right past (mem-cons.1 ∣ inl refl ∣₁)))
        (AllFrom-later past (response ∷ []) c.replies h)
  step-AllFrom past (begins id cb) c h = rw (append-nil past) (begin_call-AllFrom past id cb c h)
  step-AllFrom past (continues request timeout_ms) c h =
      rw (append-nil past) (continue_call-AllFrom past request timeout_ms c h)
  step-AllFrom past (times_out id) c h = rw (append-nil past) (
      answer-AllFrom past _ c
        (inl (IsLocal-failure id client_request_timeout (codes "request timeout") refl)) h)
  step-AllFrom past (connection up) c h = rw (append-nil past) h
  step-AllFrom past disconnects c h = rw (append-nil past) (
      if_AllFrom past c.stopped c _ h (
        drop_all_pending-AllFrom past hash client_connection_disconnected
          (codes "tcp connection disconnected") c refl h))
  step-AllFrom past (network_error err) c h = rw (append-nil past) (
      if_AllFrom past c.stopped c _ h (
        drop_all_pending-AllFrom past hash client_network_error
          (codes "tcp client io error, err=" ++ to_string err) c refl h))
  step-AllFrom past stops c h = rw (append-nil past) (
      if_AllFrom past c.stopped c _ h (
        drop_all_pending-AllFrom past hash client_not_running (codes "rpc client stopped")
          (record c { stopped = true }) refl h))

  run-AllFrom :
      (es : List Event) (past : List RpcResponse) (c : Client)
      → AllFrom past c.replies
      → AllFrom (past ++ heard es) (run request_proto hash to_string es c).replies
  unfolding run
  run-AllFrom [] past c h = rw (append-nil past) h
  run-AllFrom (e ∷ es) past c h =
      rw (heard-append (e ∷ []) es, sym (append_assoc past (heard (e ∷ [])) (heard es)))
        (run-AllFrom es (past ++ heard (e ∷ [])) _ (step-AllFrom past e c h))

  -- No response is made up: whatever the events, each callback has been run with a failure that the
  -- client reports of itself, or with a response that it has received.
  pub run-create-AllFrom :
      (es : List Event) → AllFrom (heard es) (run request_proto hash to_string es create).replies
  unfolding create
  run-create-AllFrom es = run-AllFrom es [] create tt
