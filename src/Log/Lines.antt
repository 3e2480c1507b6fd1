-- ===== src/Log/Lines.antt =====
-- Log: what a line looks like when it reaches the file.
use light_rpc.Prelude.{
  ℕ, zero, suc, ◌+◌, ◌-◌, ◌≤◌, ◌<◌, ◌≡◌, refl, sym, ap, ◌∙◌, subst, false, [], ◌∷◌, ◌++◌, Option,
  none, some, append_assoc, length, take, drop, length-append, length-take, take_all,
  take-append-drop, arith,
}
use light_rpc.Prelude.Words.{size_mod}
use light_rpc.Prelude.Eq.{Text}
use light_rpc.Buffer
use light_rpc.Buffer.{
  Buffer, has_written, write_begin, append, writable_bytes, readable_bytes, initial_size, peek,
  ensure_writable,
}
use light_rpc.Buffer.Bounds.{writable-eq}
use light_rpc.Buffer.Contents.{contents, append-Appended}
use light_rpc.Buffer.Counting.{has_written-Counted}
use light_rpc.Log.Printing.{
  Holds, NoZero, NoZero-append, NoZero-take, title-NoZero, length-title, c_string-append,
  append-Holds, print-Holds, count-Holds, write_pos-eq,
}
use light_rpc.Log.Queue.{AsyncQueue, push, pop, full}
use light_rpc.Log.{
  Log, Date, title, append_log_level_title, printed, print_time, print_message, build_line,
  c_string, rotate, write, emit, emit_to, after_push, after_pop, fputs, async_write,
}

-- The time and the title, as the buffer holds them before the message.
start-Holds :
    (time : Text) (level size : ℕ) (b : Buffer)
    → Holds [] size b
    → length time < 128
    → length time + 9 < size
    → Holds (time ++ title level) size (append_log_level_title level (print_time time b))
unfolding append_log_level_title print_time
start-Holds time level size b h fits room =
    append-Holds time (title level) size (print_time time b)
      (print-Holds [] time 128 size b h fits (omega arith)) (omega (arith, length-title level))

-- A message that fits with its terminator.
message-Holds :
    (s message : Text) (size : ℕ) (b : Buffer)
    → Holds s size b
    → length s + length message < size
    → Holds (s ++ message) size (print_message (some message) b)
unfolding print_message
message-Holds s message size b h room =
    let w : writable_bytes b ≡ size - length s =
      omega (arith, writable-eq h.valid, write_pos-eq s size b h, h.same_size) in
    subst
      (λ n.
        Holds (s ++ message) size
          (has_written n (write_begin (printed (writable_bytes b) message) b)))
      (ground (arith, w))
      (print-Holds s message (writable_bytes b) size b h (omega (arith, w)) room)

cut_at :
    (s message : Text) (w n size : ℕ) (b : Buffer)
    → Holds s size b
    → 0 < w
    → w ≡ size - length s
    → n ≡ w
    → w ≤ length message
    → Holds
        (s ++ (take (w - 1) message ++ (0 ∷ [])))
        size
        (has_written n (write_begin (printed w message) b))
cut_at s message zero n size b h pos e same full = absurd (omega arith)
cut_at s message (suc k) n size b h pos e same full =
    let src : Text = take k message ++ (0 ∷ []) in
    let long : length src ≡ suc k =
      omega (arith, length-append (take k message) (0 ∷ []), length-take k message) in
    let all : s ++ take (suc k) src ≡ s ++ src =
      ap (λ x. s ++ x) (take_all (suc k) src (omega (arith, long))) in
    let exact : suc k - 1 ≡ k = omega arith in
    rw (exact, same, ← all)
      (count-Holds s src (suc k) size b (has_written (suc k) (write_begin src b)) h (
        has_written-Counted src (suc k) b h.valid
          (omega (arith, long, write_pos-eq s size b h, h.same_size)) (omega (arith, long))))

-- One that does not: it is cut, and its terminator is counted with it.
cut-Holds :
    (s message : Text) (size : ℕ) (b : Buffer)
    → Holds s size b
    → length s < size
    → size ≤ length s + length message
    → Holds
        (s ++ (take (size - length s - 1) message ++ (0 ∷ [])))
        size
        (print_message (some message) b)
unfolding print_message
cut-Holds s message size b h some_room full =
    let w : writable_bytes b ≡ size - length s =
      omega (arith, writable-eq h.valid, write_pos-eq s size b h, h.same_size) in
    subst
      (λ k. Holds (s ++ (take (k - 1) message ++ (0 ∷ []))) size (print_message (some message) b)) w
      (cut_at s message (writable_bytes b) _ size b h (omega (arith, w)) w (ground (arith, w))
        (omega (arith, w)))

ending :
    (s : Text) (size : ℕ) (b : Buffer)
    → Holds s size b
    → size + 2 + initial_size < size_mod
    → contents (append (10 ∷ 0 ∷ []) b) ≡ s ++ (10 ∷ 0 ∷ [])
ending s size b h small =
    (append-Appended (10 ∷ 0 ∷ []) h.valid (omega (arith, h.same_size))).stored
    ∙ ap (λ x. x ++ (10 ∷ 0 ∷ [])) h.stored

-- Nothing waits in the queue, if there is one, and it can take a line.
abbrev pub NothingQueued : Option AsyncQueue → Type 0
NothingQueued none = Unit {0}
NothingQueued (some q) = (q.items ≡ []) × (q.closed ≡ false) × (0 < q.capacity)

emit_out :
    (o : Option AsyncQueue) (l : Log)
    → l.queue ≡ o
    → NothingQueued o
    → c_string (drop l.buff.read_pos l.buff.bytes) ≡ c_string (Buffer.peek_string_view l.buff)
    → (async_write (emit l)).out
      ≡ l.out ++ ((l.file, c_string (Buffer.peek_string_view l.buff)) ∷ [])
unfolding async_write emit emit_to fputs after_push after_pop push pop
emit_out none l e q same = ground arith
emit_out (some k) l e (i, c, p) same = ground arith

emit_text :
    (t tail : Text) (l : Log)
    → NoZero t
    → contents l.buff ≡ t ++ (0 ∷ tail)
    → NothingQueued l.queue
    → (async_write (emit l)).out ≡ l.out ++ ((l.file, t) ∷ [])
unfolding Buffer.peek_string_view
emit_text t tail l n e q =
    let whole : c_string (Buffer.peek_string_view l.buff) ≡ t =
      ap c_string e ∙ c_string-append t tail n in
    let rest : Text = drop (readable_bytes l.buff) (drop l.buff.read_pos l.buff.bytes) in
    let raw : c_string (drop l.buff.read_pos l.buff.bytes) ≡ t =
      ap c_string (
        sym (take-append-drop (readable_bytes l.buff) (drop l.buff.read_pos l.buff.bytes))
        ∙ ap (λ x. x ++ rest) e
        ∙ append_assoc t (0 ∷ tail) rest)
      ∙ c_string-append t (tail ++ rest) n in
    emit_out l.queue l refl q (raw ∙ sym whole) ∙ ap (λ x. l.out ++ ((l.file, x) ∷ [])) whole

rotate_rest :
    (date : Date) (l : Log)
    → ((rotate date l).buff ≡ l.buff)
      × ((rotate date l).queue ≡ l.queue)
      × ((rotate date l).out ≡ l.out)
unfolding rotate
rotate_rest date l = ground arith

-- What `write` and the writing thread do with a line whose text is `t`.
write_text :
    (date : Date) (time : Text) (level : ℕ) (message t tail : Text) (l : Log)
    → NoZero t
    → contents (build_line time level (some message) l.buff) ≡ t ++ (0 ∷ tail)
    → NothingQueued l.queue
    → (async_write (write date time level (some message) l)).out
      ≡ l.out ++ (((rotate date l).file, t) ∷ [])
unfolding write
write_text date time level message t tail l n e q =
    let (same_buff, same_queue, same_out) = rotate_rest date l in
    let l1 : Log = rotate date l in
    emit_text t tail
      (record l1 {
        line_count = suc l1.line_count;
        buff = build_line time level (some message) l1.buff;
      })
      n (ap (λ b. contents (build_line time level (some message) b)) same_buff ∙ e)
      (subst NothingQueued (sym same_queue) q)
    ∙ ap (λ o. o ++ (((rotate date l).file, t) ∷ [])) same_out

-- A line that fits in the buffer reaches the file that `rotate` chooses whole: the time, the title of
-- its level, the message and a newline, once, and at the end of what has been written. It does so
-- whether `write` puts it out itself or through the queue and the writing thread. (The buffer is
-- empty and small beside `size_t`, the queue is empty and open, no byte of the text is zero, and the
-- time has less than 128 bytes.)
pub writes_whole_line :
    (date : Date) (time : Text) (level : ℕ) (message : Text) (size : ℕ) (l : Log)
    → Holds [] size l.buff
    → size + 2 + initial_size < size_mod
    → NothingQueued l.queue
    → NoZero time
    → NoZero message
    → length time < 128
    → length time + 9 + length message < size
    → (async_write (write date time level (some message) l)).out
      ≡ l.out ++ (((rotate date l).file, ((time ++ title level) ++ message) ++ (10 ∷ [])) ∷ [])
unfolding build_line
writes_whole_line date time level message size l h small q nt nm fits room =
    let s : Text = time ++ title level in
    let long : length s ≡ length time + 9 =
      omega (arith, length-append time (title level), length-title level) in
    let start = start-Holds time level size l.buff h fits (omega arith) in
    let b : Buffer = append_log_level_title level (print_time time l.buff) in
    let held = message-Holds s message size b start (omega (arith, long)) in
    write_text date time level message ((s ++ message) ++ (10 ∷ [])) [] l
      (NoZero-append (s ++ message) (10 ∷ [])
        (NoZero-append s message (NoZero-append time (title level) nt (title-NoZero level)) nm)
        ((λ e. absurd (omega arith)), tt))
      (ending (s ++ message) size (print_message (some message) b) held small
        ∙ sym (append_assoc (s ++ message) (10 ∷ []) (0 ∷ [])))
      q

-- A message too long for the buffer loses its end and the newline with it: what reaches the file is
-- the time, the title, and one character less of the message than the buffer could hold, since the
-- terminator of `vsnprintf` stays before the newline and `fputs` stops there. (The conditions are those
-- of a whole line, but for the length of the message.)
pub long_line_loses_newline :
    (date : Date) (time : Text) (level : ℕ) (message : Text) (size : ℕ) (l : Log)
    → Holds [] size l.buff
    → size + 2 + initial_size < size_mod
    → NothingQueued l.queue
    → NoZero time
    → NoZero message
    → length time < 128
    → length time + 9 < size
    → size ≤ length time + 9 + length message
    → (async_write (write date time level (some message) l)).out
      ≡ l.out
        ++ ((
          (rotate date l).file,
          (time ++ title level) ++ take (size - length (time ++ title level) - 1) message,
        )
            ∷ [])
unfolding build_line
long_line_loses_newline date time level message size l h small q nt nm fits start_fits over =
    let s : Text = time ++ title level in
    let long : length s ≡ length time + 9 =
      omega (arith, length-append time (title level), length-title level) in
    let part : Text = take (size - length s - 1) message in
    let start = start-Holds time level size l.buff h fits start_fits in
    let b : Buffer = append_log_level_title level (print_time time l.buff) in
    let held = cut-Holds s message size b start (omega (arith, long)) (omega (arith, long)) in
    write_text date time level message (s ++ part) (10 ∷ 0 ∷ []) l
      (NoZero-append s part (NoZero-append time (title level) nt (title-NoZero level))
        (NoZero-take (size - length s - 1) message nm))
      (ending (s ++ (part ++ (0 ∷ []))) size (print_message (some message) b) held small
        ∙ ap (λ x. x ++ (10 ∷ 0 ∷ [])) (sym (append_assoc s part (0 ∷ [])))
        ∙ append_assoc (s ++ part) (0 ∷ []) (10 ∷ 0 ∷ []))
      q
