-- ===== src/Log/Queue.antt =====
-- code/base/log/log.h, `AsyncQueue`: the bounded queue between the callers of `write` and the thread
-- that writes the files. Each locked section is a function; a wait ends its section. The queue's
-- life with its one consumer is any sequence of events (`run`). `cond_consumer_` is where the
-- consumer stands: a notification rouses it only where it sleeps. No producer ever waits, since
-- `write` pushes only where there is room (Log/Lines).
pub mod Fifo
pub mod Hang
use light_rpc.Prelude.{
  ℕ, Bool, true, false, List, [], ◌∷◌, ◌++◌, if◌then◌else◌, leb, length, is_empty,
}
use light_rpc.Prelude.Eq.{Text}

pub record AsyncQueue : Type 0 where
  pub items : List Text
  pub capacity : ℕ
  pub closed : Bool

pub data Pushed : Type 0 where
  refused waits : Pushed
  pushed : AsyncQueue → Pushed

pub data Popped : Type 0 where
  sleeps ends : Popped
  popped : Text → AsyncQueue → Popped

abbrev pub create : ℕ → AsyncQueue
create capacity = record { items = []; capacity = capacity; closed = false }

abbrev pub empty : AsyncQueue → Bool
empty q = is_empty q.items

abbrev pub full : AsyncQueue → Bool
full q = leb q.capacity (length q.items)

-- `closed_` is tested before any wait, and not after it.
unfoldable pub push : Text → AsyncQueue → Pushed
push item q =
    if q.closed
    then refused
    else if full q
    then waits
    else pushed (record q { items = q.items ++ (item ∷ []) })

pop_items : List Text → AsyncQueue → Popped
pop_items [] q = sleeps
pop_items (item ∷ items) q = popped item (record q { items = items })

-- `pop` up to its first wait.
unfoldable pub pop : AsyncQueue → Popped
unfolding pop_items
pop q = pop_items q.items q

-- `pop` after a wait: only here is `closed_` tested.
pub pop_awake : AsyncQueue → Popped
unfolding pop
pop_awake q = if q.closed then ends else pop q

pub close : AsyncQueue → AsyncQueue
close q = record q { items = []; closed = true }

-- Where the consumer stands: at the start of `pop`, asleep in it, roused, with a line, or at its end.
pub data Consumer : Type 0 where
  entering asleep roused : Consumer
  holding : Text → Consumer
  finished : Consumer

pub data Event : Type 0 where
  pushes : Text → Event
  consumes : Event
  flushes : Event
  closes : Event

-- A queue with its history: the lines that it took, and those that the consumer has been handed.
pub record Run : Type 0 where
  pub queue : AsyncQueue
  pub consumer : Consumer
  pub accepted : List Text
  pub delivered : List Text

notify : Consumer → Consumer
notify entering = entering
notify asleep = roused
notify roused = roused
notify (holding item) = holding item
notify finished = finished

push_step : Text → Pushed → Run → Run
unfolding notify
push_step item refused r = r
push_step item waits r = r
push_step item (pushed q) r = record r {
  queue = q;
  consumer = notify r.consumer;
  accepted = r.accepted ++ (item ∷ []);
}

pop_step : Popped → Run → Run
pop_step sleeps r = record r { consumer = asleep }
pop_step ends r = record r { consumer = finished }
pop_step (popped item q) r = record r {
  queue = q;
  consumer = holding item;
  delivered = r.delivered ++ (item ∷ []);
}

-- The consumer's next section, the loop of `AsyncWrite_` included.
consume_step : Consumer → Run → Run
unfolding pop_step pop_awake
consume_step entering r = pop_step (pop r.queue) r
consume_step asleep r = r
consume_step roused r = pop_step (pop_awake r.queue) r
consume_step (holding item) r = record r { consumer = entering }
consume_step finished r = r

pub step : Event → Run → Run
unfolding push_step consume_step notify close
step (pushes item) r = push_step item (push item r.queue) r
step consumes r = consume_step r.consumer r
step flushes r = record r { consumer = notify r.consumer }
step closes r = record r { queue = close r.queue; consumer = notify r.consumer }

pub run : List Event → Run → Run
run [] r = r
run (e ∷ es) r = run es (step e r)

pub fresh : ℕ → Run
fresh capacity = record {
  queue = create capacity;
  consumer = entering;
  accepted = [];
  delivered = [];
}
