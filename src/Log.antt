-- ===== src/Log.antt =====
-- code/base/log/log.h and log.cc. A line is built in `buff_`, and goes to the queue of the writing
-- thread or straight to the file; `out` records each `fputs`, with the name of the file that was
-- open. The locked sections are functions. The text of the time and of the message as `snprintf` and
-- `vsnprintf` would print them in full are arguments. A level is a number of 0 or more; `lineCount_`
-- does not reach the end of `int`; a file is named by its date and part, its
-- directory and suffix being left out, and opening it succeeds.
-- What `flush` does, a notification and `fflush`, does not show in this state. Log/Queue is the queue
-- between the threads.
pub mod Queue
pub mod Printing
pub mod Lines
pub mod Rotation
mod Tests
use light_rpc.Prelude.{
  ℕ, zero, suc, ◌/◌, ◌%◌, Bool, true, false, not, ◌&&◌, ◌||◌, List, [], ◌∷◌, ◌++◌, Option, none,
  some, if◌then◌else◌, ltb, leb, ◌==◌, length, take, drop,
}
use light_rpc.Prelude.Eq.{Text, codes}
use light_rpc.Buffer
use light_rpc.Buffer.{
  Buffer, has_written, write_begin, append, writable_bytes, retrieve_all, retrieve_all_to_str,
}
use light_rpc.Log.Queue.{
  AsyncQueue, Pushed, refused, waits, pushed, Popped, sleeps, ends, popped, push, pop, full,
}

pub data LogLevel : Type 0 where
  debug info warn error : LogLevel

pub record LogConfig : Type 0 where
  pub level : LogLevel
  pub max_queue_size : ℕ

abbrev pub level_number : LogLevel → ℕ
level_number debug = 0
level_number info = 1
level_number warn = 2
level_number error = 3

pub record Date : Type 0 where
  pub year : ℕ
  pub month : ℕ
  pub day : ℕ

-- `path_/yyyy_mm_dd` and the suffix, with the number of the part where it has one.
pub data FileName : Type 0 where
  dated : Date → Option ℕ → FileName

pub record Log : Type 0 where
  pub line_count : ℕ
  pub to_day : ℕ
  pub is_open : Bool
  pub buff : Buffer
  pub level : ℕ
  pub is_async : Bool
  pub file : Option FileName
  pub queue : Option AsyncQueue
  pub out : List (Option FileName × Text)

abbrev pub max_lines : ℕ
max_lines = 50000

pub create : Log
create = record {
  line_count = 0;
  to_day = 0;
  is_open = false;
  buff = Buffer.create Buffer.initial_size;
  level = 0;
  is_async = false;
  file = none;
  queue = none;
  out = [];
}

abbrev pub get_level : Log → ℕ
get_level l = l.level

abbrev pub set_level : ℕ → Log → Log
set_level level l = record l { level = level }

-- The test of LOG_BASE.
pub logs : ℕ → Log → Bool
logs level l = l.is_open && leb (get_level l) level

keep_queue : ℕ → Option AsyncQueue → Option AsyncQueue
keep_queue size none = some (Queue.create size)
keep_queue size (some q) = some q

-- `Init`, on the date that the clock gives.
pub init : LogConfig → Date → Log → Log
unfolding keep_queue
init config date l = record l {
  is_open = true;
  level = level_number config.level;
  is_async = ltb 0 config.max_queue_size;
  queue = if ltb 0 config.max_queue_size then keep_queue config.max_queue_size l.queue else l.queue;
  line_count = 0;
  to_day = date.day;
  buff = retrieve_all l.buff;
  file = some (dated date none);
}

-- The choice of the file, at the start of `write`.
unfoldable pub rotate : Date → Log → Log
rotate date l =
    if not (l.to_day == date.day) || (ltb 0 l.line_count && (l.line_count % max_lines == 0))
    then (if not (l.to_day == date.day)
        then record l { file = some (dated date none); to_day = date.day; line_count = 0 }
        else record l { file = some (dated date (some (l.line_count / max_lines))) })
    else l

abbrev pub title : ℕ → Text
title level =
    if level == 0
    then codes "[debug]: "
    else if level == 1
    then codes "[info] : "
    else if level == 2
    then codes "[warn] : "
    else if level == 3
    then codes "[error]: "
    else codes "[info] : "

pub append_log_level_title : ℕ → Buffer → Buffer
append_log_level_title level b = append (title level) b

-- What `snprintf` stores of `text` in `size` bytes, its terminator included.
abbrev pub printed : ℕ → Text → Text
printed zero text = []
printed (suc n) text = take n text ++ (0 ∷ [])

-- `snprintf` at `WriteBegin()`, and `HasWritten` of the length that it returns.
pub print_time : Text → Buffer → Buffer
print_time time b = has_written (length time) (write_begin (printed 128 time) b)

-- `vsnprintf` into what is writable, and `HasWritten` of what it returns, which is at most that.
unfoldable pub print_message : Option Text → Buffer → Buffer
print_message none b = has_written 0 b
print_message (some message) b =
    let writable = writable_bytes b in
    has_written (if ltb writable (length message) then writable else length message)
      (write_begin (printed writable message) b)

pub build_line : Text → ℕ → Option Text → Buffer → Buffer
unfolding append_log_level_title print_time
build_line time level message b =
    append (10 ∷ 0 ∷ []) (print_message message (append_log_level_title level (print_time time b)))

-- What `fputs` writes: the bytes before the first zero.
unfoldable pub c_string : Text → Text
c_string [] = []
c_string (b ∷ bs) = let rest = c_string bs in if b == 0 then [] else b ∷ rest

pub fputs : Text → Log → Log
unfolding c_string
fputs text l = record l { out = l.out ++ ((l.file, c_string text) ∷ []) }

after_push : Pushed → Log → Log
after_push refused l = l
after_push waits l = l
after_push (pushed q) l = record l { queue = some q }

-- The end of `write`: to the queue if there is one that has room, else to the file, from `Peek()` on.
emit_to : Option AsyncQueue → Log → Log
unfolding after_push fputs
emit_to none l = fputs (drop l.buff.read_pos l.buff.bytes) l
emit_to (some q) l =
    if l.is_async && not (full q)
    then after_push (push (Buffer.peek_string_view l.buff) q) l
    else fputs (drop l.buff.read_pos l.buff.bytes) l

pub emit : Log → Log
unfolding emit_to
emit l = let l1 : Log = emit_to l.queue l in record l1 { buff = retrieve_all l1.buff }

pub write : Date → Text → ℕ → Option Text → Log → Log
unfolding emit
write date time level message l =
    let l1 : Log = rotate date l in
    emit
      (record l1 { line_count = suc l1.line_count; buff = build_line time level message l1.buff })

after_pop : Popped → Log → Log
unfolding fputs
after_pop sleeps l = l
after_pop ends l = l
after_pop (popped text q) l = fputs text (record l { queue = some q })

-- A round of `AsyncWrite_`; where there is nothing in the queue it waits.
pub async_write : Log → Log
unfolding after_pop
async_write l = elim l.queue [ none ↦ l | some q ↦ after_pop (pop q) l ]
