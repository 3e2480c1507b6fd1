-- ===== src/Log/Queue/Fifo.antt =====
-- AsyncQueue: bounded, first in first out, and no notification is lost.
use light_rpc.Prelude.{
  ℕ, ◌≤◌, ◌≡◌, ◌≢◌, ◌⊎◌, inr, refl, true, List, [], ◌∷◌, ◌++◌, append_assoc, length, length-append,
  arith,
}
use light_rpc.Prelude.Eq.{Text}
use light_rpc.Log.Queue.{
  push, pop, pop_items, pop_awake, close, Consumer, entering, asleep, roused, holding, finished,
  Event, pushes, consumes, flushes, closes, Run, notify, push_step, pop_step, consume_step, step,
  run, fresh,
}

pub record IsFifo (r : Run) : Type 0 where
  pub fifo : (r.queue.closed ≡ true) ⊎ (r.accepted ≡ r.delivered ++ r.queue.items)
  pub bounded : length r.queue.items ≤ r.queue.capacity
  -- A consumer sleeps only while there is nothing to take.
  pub awake : (r.consumer ≢ asleep) ⊎ (r.queue.items ≡ [])

push-IsFifo : (item : Text) (r : Run) → IsFifo r → IsFifo (push_step item (push item r.queue) r)
unfolding push_step push notify
push-IsFifo item r v = ground (
  arith,
  append_assoc r.delivered r.queue.items (item ∷ []),
  length-append r.queue.items (item ∷ []),
)

pop_items-IsFifo :
    (items : List Text) (r : Run)
    → r.queue.items ≡ items
    → IsFifo r
    → IsFifo (pop_step (pop_items items r.queue) r)
unfolding pop_items pop_step
pop_items-IsFifo [] r e v = ground arith
pop_items-IsFifo (item ∷ items) r e v = ground (arith, append_assoc r.delivered (item ∷ []) items)

consume-IsFifo : (p : Consumer) (r : Run) → r.consumer ≡ p → IsFifo r → IsFifo (consume_step p r)
unfolding consume_step pop_awake pop pop_step
consume-IsFifo entering r e v = pop_items-IsFifo r.queue.items r refl v
consume-IsFifo asleep r e v = v
consume-IsFifo roused r e v = ground (arith, pop_items-IsFifo r.queue.items r refl v)
consume-IsFifo (holding item) r e v = ground arith
consume-IsFifo finished r e v = v

step-IsFifo : (e : Event) (r : Run) → IsFifo r → IsFifo (step e r)
unfolding step notify close
step-IsFifo (pushes item) r v = push-IsFifo item r v
step-IsFifo consumes r v = consume-IsFifo r.consumer r refl v
step-IsFifo flushes r v = ground arith
step-IsFifo closes r v = ground arith

run-IsFifo : (es : List Event) (r : Run) → IsFifo r → IsFifo (run es r)
unfolding run
run-IsFifo [] r v = v
run-IsFifo (e ∷ es) r v = run-IsFifo es (step e r) (step-IsFifo e r v)

-- Whatever is pushed, taken, notified and closed, and in whatever order: the queue never holds more
-- lines than its capacity; while it is open, the lines that it took are, in their order and each once,
-- those that the consumer was handed and then those it holds; and the consumer is never asleep while
-- there is a line to take.
pub run-fresh-IsFifo : (es : List Event) (capacity : ℕ) → IsFifo (run es (fresh capacity))
unfolding fresh
run-fresh-IsFifo es capacity =
    run-IsFifo es (fresh capacity)
      (record { fifo = inr refl; bounded = omega arith; awake = inr refl })
