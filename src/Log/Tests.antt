-- ===== src/Log/Tests.antt =====
-- Tests of the log: lines, files, and the queue's end.
use light_rpc.Prelude.{◌≡◌, ◌≢◌, refl, ◌++◌, List, [], ◌∷◌, none, some, true, arith}
use light_rpc.Prelude.Eq.{Text, codes}
use light_rpc.Buffer
use light_rpc.Log.{Log, create, init, warn, Date, dated, rotate, write, async_write, title}
use light_rpc.Log.Printing.{Holds}
use light_rpc.Log.Lines.{writes_whole_line, long_line_loses_newline}
use light_rpc.Log.Rotation.{Line, OnDay, write_all, init-OnDay}
use light_rpc.Log.Queue
use light_rpc.Log.Queue.{
  Event, pushes, consumes, flushes, closes, Run, entering, asleep, finished, run, fresh,
}
use light_rpc.Log.Queue.Fifo.{IsFifo, run-fresh-IsFifo}
use light_rpc.Log.Queue.Hang.{close_unseen}

abbrev today : Date
today = record { year = 2024; month = 2; day = 29 }

-- A log whose buffer has 20 bytes.
abbrev logging : Log
logging = record {
  line_count = 3;
  to_day = 29;
  is_open = true;
  buff = Buffer.create 20;
  level = 1;
  is_async = true;
  file = some (dated today none);
  queue = some (Queue.create 2);
  out = [];
}

empty_buffer : Holds [] 20 (Buffer.create 20)
unfolding Buffer.create
empty_buffer = record { valid = omega arith; stored = refl; same_size = refl; at_start = refl }

abbrev clock : Text
clock = codes "2 "

abbrev some_lines : List Line
some_lines =
    (record { time = clock; level = 1; message = some (codes "up") })
    ∷ (record { time = clock; level = 2; message = none })
    ∷ []

init-OnDay_example :
    OnDay today 2
      (write_all today some_lines (init (record { level = warn; max_queue_size = 8 }) today create))
init-OnDay_example =
    init-OnDay (record { level = warn; max_queue_size = 8 }) today some_lines create

-- It goes through the queue.
writes_whole_line_example :
    (async_write (write today clock 1 (some (codes "up")) logging)).out
    ≡ ((rotate today logging).file, ((clock ++ title 1) ++ codes "up") ++ (10 ∷ [])) ∷ []
writes_whole_line_example =
    writes_whole_line today clock 1 (codes "up") 20 logging empty_buffer (omega arith)
      (refl, refl, omega arith) (ground arith) (ground arith) (omega arith) (omega arith)

-- Nine bytes are left for ten.
long_line_loses_newline_example :
    (async_write (write today clock 1 (some (codes "0123456789")) logging)).out
    ≡ ((rotate today logging).file, (clock ++ title 1) ++ codes "01234567") ∷ []
long_line_loses_newline_example =
    long_line_loses_newline today clock 1 (codes "0123456789") 20 logging empty_buffer (omega arith)
      (refl, refl, omega arith) (ground arith) (ground arith) (omega arith) (omega arith)
      (omega arith)

abbrev some_events : List Event
some_events =
    pushes (1 ∷ [])
    ∷ consumes
    ∷ pushes (2 ∷ [])
    ∷ pushes (3 ∷ [])
    ∷ pushes (4 ∷ [])
    ∷ consumes
    ∷ flushes
    ∷ []

run-fresh-IsFifo_example : IsFifo (run some_events (fresh 2))
run-fresh-IsFifo_example = run-fresh-IsFifo some_events 2

-- A thread that has written its last line, and one that waits for the next.
abbrev last_written : Run
last_written = record {
  queue = Queue.create 2;
  consumer = entering;
  accepted = (1 ∷ []) ∷ [];
  delivered = (1 ∷ []) ∷ [];
}

abbrev waiting : Run
waiting = record last_written { consumer = asleep }

close_unseen_example :
    ((run (closes ∷ consumes ∷ consumes ∷ []) last_written).consumer ≢ finished)
    × ((run (closes ∷ consumes ∷ []) waiting).consumer ≡ finished)
close_unseen_example = close_unseen (consumes ∷ consumes ∷ []) last_written waiting tt tt refl
