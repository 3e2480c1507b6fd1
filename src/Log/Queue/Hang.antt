-- ===== src/Log/Queue/Hang.antt =====
-- AsyncQueue: when the consumer learns that the queue is closed.
use light_rpc.Prelude.{◌≡◌, ◌≢◌, ◌⊎◌, inl, inr, refl, true, List, [], ◌∷◌, arith}
use light_rpc.Prelude.Eq.{Text}
use light_rpc.Log.Queue.{
  push, pop, pop_items, pop_awake, close, Consumer, entering, asleep, roused, holding, finished,
  Event, pushes, consumes, flushes, closes, Run, notify, push_step, pop_step, consume_step, step,
  run,
}

-- What can still happen once the destructor waits for the thread.
abbrev pub Joining : List Event → Type 0
Joining [] = Unit {0}
Joining (pushes item ∷ es) = Joining es
Joining (consumes ∷ es) = Joining es
Joining (flushes ∷ es) = ⊥
Joining (closes ∷ es) = ⊥

-- Not in the wait, and on its way into it.
abbrev pub IsAway : Consumer → Type 0
IsAway entering = Unit {0}
IsAway asleep = ⊥
IsAway roused = ⊥
IsAway (holding item) = Unit {0}
IsAway finished = ⊥

-- Closed, with the consumer not told.
record IsLost (r : Run) : Type 0 where
  shut : r.queue.closed ≡ true
  no_items : r.queue.items ≡ []
  untold : IsAway r.consumer ⊎ (r.consumer ≡ asleep)

notify-IsAway : (c : Consumer) → IsAway c → IsAway (notify c)
unfolding notify
notify-IsAway entering h = tt
notify-IsAway asleep h = h
notify-IsAway roused h = h
notify-IsAway (holding item) h = tt
notify-IsAway finished h = h

untold_lives : (c : Consumer) → IsAway c ⊎ (c ≡ asleep) → c ≢ finished
untold_lives entering h = λ e. ground arith
untold_lives asleep h = λ e. ground arith
untold_lives roused h = λ e. ground arith
untold_lives (holding item) h = λ e. ground arith
untold_lives finished (inl h) = absurd h
untold_lives finished (inr h) = absurd (ground arith)

close-IsLost : (r : Run) → IsAway r.consumer → IsLost (step closes r)
unfolding step close notify
close-IsLost r h = record {
  shut = refl;
  no_items = refl;
  untold = inl (notify-IsAway r.consumer h);
}

consume-IsLost : (p : Consumer) (r : Run) → r.consumer ≡ p → IsLost r → IsLost (consume_step p r)
unfolding consume_step pop pop_items pop_step
consume-IsLost entering r e v = ground arith
consume-IsLost asleep r e v = v
consume-IsLost roused r e v = ground arith
consume-IsLost (holding item) r e v = record {
  shut = v.shut;
  no_items = v.no_items;
  untold = inl tt;
}
consume-IsLost finished r e v = v

push_refused : (item : Text) (r : Run) → r.queue.closed ≡ true → step (pushes item) r ≡ r
unfolding step push push_step
push_refused item r h = ground arith

run-IsLost : (es : List Event) (r : Run) → Joining es → IsLost r → IsLost (run es r)
unfolding run step
run-IsLost [] r j v = v
run-IsLost (pushes item ∷ es) r j v =
    run-IsLost es (step (pushes item) r) j (rw (push_refused item r v.shut) v)
run-IsLost (consumes ∷ es) r j v =
    run-IsLost es (step consumes r) j (consume-IsLost r.consumer r refl v)
run-IsLost (flushes ∷ es) r j v = absurd j
run-IsLost (closes ∷ es) r j v = absurd j

-- `pop` tests `closed_` only after a wait. Where the queue is closed while the writing thread holds a
-- line or is about to take one, the thread never ends, whatever is pushed and however often it runs
-- after that. (Nothing else notifies it, and no wake-up is spurious.) A thread that was asleep ends in
-- its next step.
pub close_unseen :
    (es : List Event) (r r0 : Run)
    → IsAway r.consumer
    → Joining es
    → r0.consumer ≡ asleep
    → ((run (closes ∷ es) r).consumer ≢ finished)
      × ((run (closes ∷ consumes ∷ []) r0).consumer ≡ finished)
unfolding run step close notify consume_step pop_awake pop_step
close_unseen es r r0 h j a =
    let v = run-IsLost es (step closes r) j (close-IsLost r h) in
    (untold_lives (run es (step closes r)).consumer v.untold, ground arith)
