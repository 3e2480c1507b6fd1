-- ===== src/Client/Once.antt =====
-- RpcClient: every call is answered once, with its own id, whatever the interleaving.
use mathlib.Core.List.{Perm, perm_middle}
use mathlib.Core.List.Perm
use light_rpc.Prelude.{
  ℕ, ◌≡◌, refl, sym, ap, ◌∙◌, subst, inl, inr, Bool, true, false, not, ◌||◌, List, [], ◌∷◌, ◌++◌,
  append_assoc, arith, Bool-cases, Option-cases, if◌then◌else◌,
}
use light_rpc.Prelude.Eq.{Text, codes, text_eq_instance}
use light_rpc.Prelude.Assoc.{
  lookup, insert, erase, Uniq, Uniq-insert, Uniq-erase, erase-perm, insert-perm,
  insert-perm_replace,
}
use light_rpc.Codec.{ProtoMessage, encode}
use light_rpc.ErrorCode.{
  RpcErrorCode, client_connection_disconnected, client_network_error, client_not_running,
}
use light_rpc.Rpc.{RpcRequest, RpcResponse}
use light_rpc.Client.{
  Client, create, failure, reply, answer, overwritten, begin_call, on_timeout, drop_entries,
  drop_all_pending, Event, begins, continues, times_out, receives, connection, disconnects,
  network_error, stops, continue_call, on_response, on_disconnected, on_error, stop, step, run,
  removed,
}

-- The calls that have been answered: the id that the response carries, and the callback that was run.
abbrev pub answered : List (ℕ × RpcResponse) → List (Text × ℕ)
answered [] = []
answered ((cb, response) ∷ replies) = (response.request_id, cb) ∷ answered replies

-- Each call is answered, waiting, or overwritten by a later call with its id: one of these, once.
pub record IsSound (c : Client) : Type 0 where
  pub uniq : Uniq c.pending
  pub once : Perm c.calls (answered c.replies ++ (c.pending ++ c.lost))
  pub quiet : c.stopped ≡ true → c.pending ≡ []

answered-append :
    (xs ys : List (ℕ × RpcResponse)) → answered (xs ++ ys) ≡ answered xs ++ answered ys
answered-append [] ys = refl
answered-append (x ∷ xs) ys = ap (◌∷◌ (x.1.request_id, x.0)) (answered-append xs ys)

-- An entry goes over from the rest to the answered ones.
answered_one :
    (replies : List (ℕ × RpcResponse)) (cb : ℕ) (response : RpcResponse) (rest : List (Text × ℕ))
    → answered replies ++ ((response.request_id, cb) ∷ rest)
      ≡ answered (replies ++ ((cb, response) ∷ [])) ++ rest
answered_one replies cb response rest =
    sym (append_assoc (answered replies) ((response.request_id, cb) ∷ []) rest)
    ∙ ap (λ xs. xs ++ rest) (sym (answered-append replies ((cb, response) ∷ [])))

answer-IsSound : (response : RpcResponse) (c : Client) → IsSound c → IsSound (answer response c)
unfolding answer reply erase
answer-IsSound response c v = elim (Option-cases (lookup response.request_id c.pending)) [
  | inl e ↦ rw (e, answer) v
  | inr (cb, e) ↦
      rw (e, answer)
        (record {
          uniq = Uniq-erase response.request_id c.pending v.uniq;
          once = subst (Perm c.calls) (answered_one c.replies cb response _) (
              Perm.trans v.once (
                Perm.append_left (answered c.replies) (
                  Perm.append_right c.lost
                    (erase-perm response.request_id cb c.pending v.uniq e))));
          quiet = λ h. ap (erase response.request_id) (v.quiet h);
        })
]

begin_refused :
    (id : Text) (cb : ℕ) (c : Client) (response : RpcResponse)
    → response.request_id ≡ id
    → IsSound c
    → Perm
        ((id, cb) ∷ c.calls)
        (answered (c.replies ++ ((cb, response) ∷ [])) ++ (c.pending ++ c.lost))
begin_refused id cb c response e v =
    subst (Perm ((id, cb) ∷ c.calls)) (answered_one c.replies cb response _) (
      rw e
        (Perm.trans (Perm.cons (id, cb) v.once) (Perm.symm (perm_middle (answered c.replies) _))))

begin_accepted :
    (id : Text) (cb : ℕ) (c : Client)
    → IsSound c
    → Perm ((id, cb) ∷ c.calls) (
        answered c.replies
        ++ (insert id cb c.pending ++ (overwritten id (lookup id c.pending) ++ c.lost)))
unfolding overwritten
begin_accepted id cb c v = Perm.trans start (elim (Option-cases (lookup id c.pending)) [
  | inl e ↦
      rw (e, overwritten)
        (Perm.append_left (answered c.replies)
          (Perm.append_right c.lost (Perm.symm (insert-perm id cb c.pending e))))
  | inr (old, e) ↦
      rw (e, overwritten)
        (Perm.append_left (answered c.replies) (
          Perm.trans
            (Perm.append_right c.lost (Perm.symm (insert-perm_replace id cb old c.pending e)))
            (Perm.symm (perm_middle (insert id cb c.pending) c.lost))))
])
  where
    start : Perm ((id, cb) ∷ c.calls) (answered c.replies ++ (((id, cb) ∷ c.pending) ++ c.lost))
    start = Perm.trans (Perm.cons (id, cb) v.once) (Perm.symm (perm_middle (answered c.replies) _))

begin_call-IsSound : (id : Text) (cb : ℕ) (c : Client) → IsSound c → IsSound (begin_call id cb c)
unfolding begin_call reply
begin_call-IsSound id cb c v = elim (Bool-cases (c.stopped || not c.connected)) [
  | inl e ↦ rw e (record { uniq = v.uniq; once = begin_refused id cb c _ refl v; quiet = v.quiet })
  | inr e ↦ rw e (record {
    uniq = Uniq-insert id cb c.pending v.uniq;
    once = begin_accepted id cb c v;
    quiet = λ h. absurd (ground (arith, h, e));
  })
]

-- Dropping entries that have been taken out of `pending_calls_`.
drop_entries-IsSound :
    (hash : Text → ℕ) (code : RpcErrorCode) (msg : Text) (entries : List (Text × ℕ)) (c : Client)
    → c.pending ≡ []
    → Perm c.calls (answered c.replies ++ (entries ++ c.lost))
    → IsSound (drop_entries hash code msg entries c)
      × ((drop_entries hash code msg entries c).pending ≡ [])
unfolding drop_entries
drop_entries-IsSound hash code msg [] c e h =
    (record { uniq = rw e tt; once = rw e h; quiet = λ _. e }, e)
drop_entries-IsSound hash code msg ((id, cb) ∷ entries) c e h =
    drop_entries-IsSound hash code msg entries
      (record c {
        timers = c.timers ++ (removed (hash id) ∷ []);
        replies = c.replies ++ ((cb, failure id code msg) ∷ []);
      })
      e (subst (Perm c.calls) (answered_one c.replies cb (failure id code msg) _) h)

drop_all_pending-IsSound :
    (hash : Text → ℕ) (code : RpcErrorCode) (msg : Text) (c : Client)
    → Perm c.calls (answered c.replies ++ (c.pending ++ c.lost))
    → IsSound (drop_all_pending hash code msg c) × ((drop_all_pending hash code msg c).pending ≡ [])
unfolding drop_all_pending
drop_all_pending-IsSound hash code msg c h =
    drop_entries-IsSound hash code msg c.pending (record c { pending = [] }) refl h

if_IsSound : (b : Bool) (x y : Client) → IsSound x → IsSound y → IsSound (if b then x else y)
if_IsSound true x y v w = v
if_IsSound false x y v w = w

-- A change of the fields that the invariant does not read.
aside :
    (c d : Client)
    → IsSound c
    → d.pending ≡ c.pending
    → d.replies ≡ c.replies
    → d.calls ≡ c.calls
    → d.lost ≡ c.lost
    → d.stopped ≡ c.stopped
    → IsSound d
aside c d v p r k l s = record {
  uniq = rw p v.uniq;
  once = rw (p, r, k, l) v.once;
  quiet = λ h. p ∙ v.quiet (sym s ∙ h);
}

module _ (request_proto : ProtoMessage RpcRequest) (hash : Text → ℕ) (to_string : ℕ → Text) where
  continue_call-IsSound :
      (request : RpcRequest) (timeout_ms : ℕ) (c : Client)
      → IsSound c
      → IsSound (continue_call request_proto hash to_string request timeout_ms c)
  unfolding continue_call
  continue_call-IsSound request timeout_ms c v =
      elim (Option-cases (encode request_proto request)) [
        | inl e ↦ rw (e, continue_call) (answer-IsSound _ _ (aside c _ v refl refl refl refl refl))
        | inr (f, e) ↦ rw (e, continue_call) (aside c _ v refl refl refl refl refl)
      ]

  on_disconnected-IsSound :
      (c : Client) → IsSound c → IsSound (on_disconnected request_proto hash to_string c)
  unfolding on_disconnected
  on_disconnected-IsSound c v =
      if_IsSound c.stopped c _ v
        (drop_all_pending-IsSound hash client_connection_disconnected
          (codes "tcp connection disconnected") c v.once).0

  on_error-IsSound :
      (err : ℕ) (c : Client) → IsSound c → IsSound (on_error request_proto hash to_string err c)
  unfolding on_error
  on_error-IsSound err c v =
      if_IsSound c.stopped c _ v
        (drop_all_pending-IsSound hash client_network_error
          (codes "tcp client io error, err=" ++ to_string err) c v.once).0

  stop-IsSound : (c : Client) → IsSound c → IsSound (stop request_proto hash to_string c)
  unfolding stop
  stop-IsSound c v =
      if_IsSound c.stopped c _ v
        (drop_all_pending-IsSound hash client_not_running (codes "rpc client stopped")
          (record c { stopped = true }) v.once).0

  step-IsSound :
      (e : Event) (c : Client) → IsSound c → IsSound (step request_proto hash to_string e c)
  unfolding step on_timeout on_response
  step-IsSound (begins id cb) c v = begin_call-IsSound id cb c v
  step-IsSound (continues request timeout_ms) c v = continue_call-IsSound request timeout_ms c v
  step-IsSound (times_out id) c v = answer-IsSound _ c v
  step-IsSound (receives response) c v =
      answer-IsSound response _ (aside c _ v refl refl refl refl refl)
  step-IsSound (connection up) c v = aside c _ v refl refl refl refl refl
  step-IsSound disconnects c v = on_disconnected-IsSound c v
  step-IsSound (network_error err) c v = on_error-IsSound err c v
  step-IsSound stops c v = stop-IsSound c v

  run-IsSound :
      (es : List Event) (c : Client) → IsSound c → IsSound (run request_proto hash to_string es c)
  unfolding run
  run-IsSound [] c v = v
  run-IsSound (e ∷ es) c v = run-IsSound es _ (step-IsSound e c v)

  create-IsSound : IsSound create
  unfolding create
  create-IsSound = record { uniq = tt; once = Perm.refl []; quiet = λ _. refl }

  -- Whatever calls, timeouts, responses, disconnections, errors and stops come in whatever order:
  -- each call of `CallRaw` is in one of three places, once. Its callback has been run, with a
  -- response that carries the call's id; or it waits in `pending_calls_`; or a later call with the
  -- same id has overwritten it. The waiting ids are distinct, and a stopped client waits for nothing.
  pub run-create-IsSound : (es : List Event) → IsSound (run request_proto hash to_string es create)
  run-create-IsSound es = run-IsSound es create create-IsSound

  -- After `Stop`, at any moment, every call has been answered, once, or overwritten.
  pub stopped_answers_all :
      (es : List Event)
      → (run request_proto hash to_string es create).stopped ≡ true
      → Perm (run request_proto hash to_string es create).calls (
          answered (run request_proto hash to_string es create).replies
          ++ (run request_proto hash to_string es create).lost)
  stopped_answers_all es h =
      let c : Client = run request_proto hash to_string es create in
      let v = run-create-IsSound es in
      subst (λ p. Perm c.calls (answered c.replies ++ (p ++ c.lost))) (v.quiet h) v.once
