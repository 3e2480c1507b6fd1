-- ===== src/Log/Rotation.antt =====
-- Log: which file a line goes to.
use light_rpc.Prelude.{
  ℕ, zero, suc, ◌+◌, ◌/◌, ◌%◌, ◌-◌, ◌≡◌, ◌<◌, ◌⊎◌, inl, inr, sym, ap, ◌∙◌, ◌≢◌, length, subst, refl,
  Option, none, some, List, [], ◌∷◌, arith,
}
use light_rpc.Prelude.Eq.{Text}
use light_rpc.Log.{
  Log, LogConfig, init, build_line, Date, FileName, dated, max_lines, rotate, write, emit, emit_to,
  after_push, fputs,
}
use light_rpc.Log.Queue.{Pushed}

-- The file of the day's part `k`: the first has no number.
abbrev pub part : Date → ℕ → FileName
part date zero = dated date none
part date (suc k) = dated date (some (suc k))

-- What has been asked of `write`.
pub record Line : Type 0 where
  pub time : Text
  pub level : ℕ
  pub message : Option Text

abbrev pub write_all : Date → List Line → Log → Log
write_all date [] l = l
write_all date (line ∷ lines) l =
    write_all date lines (write date line.time line.level line.message l)

-- The log has written `n` lines of this day.
pub record OnDay (date : Date) (n : ℕ) (l : Log) : Type 0 where
  pub same_day : l.to_day ≡ date.day
  pub count : l.line_count ≡ n
  pub file : l.file ≡ some (part date ((n - 1) / max_lines))

after_push_same :
    (p : Pushed) (l : Log)
    → ((after_push p l).to_day ≡ l.to_day)
      × ((after_push p l).line_count ≡ l.line_count)
      × ((after_push p l).file ≡ l.file)
unfolding after_push
after_push_same p l = ground arith

emit_same :
    (l : Log)
    → ((emit l).to_day ≡ l.to_day) × ((emit l).line_count ≡ l.line_count) × ((emit l).file ≡ l.file)
unfolding emit emit_to fputs
emit_same l = grind (arith, after_push_same)

part_number : (date : Date) (k : ℕ) → 0 < k → part date k ≡ dated date (some k)
part_number date zero h = absurd (omega arith)
part_number date (suc k) h = refl

rotate_new_part :
    (date : Date) (l : Log)
    → l.to_day ≡ date.day
    → 0 < l.line_count
    → l.line_count % max_lines ≡ 0
    → rotate date l ≡ record l { file = some (dated date (some (l.line_count / max_lines))) }
unfolding rotate
rotate_new_part date l d h m = ground arith

rotate_same :
    (date : Date) (l : Log)
    → l.to_day ≡ date.day
    → (l.line_count ≡ 0) ⊎ (l.line_count % max_lines ≢ 0)
    → rotate date l ≡ l
unfolding rotate
rotate_same date l d h = ground arith

new_part : (n : ℕ) → ((0 < n) × (n % max_lines ≡ 0)) ⊎ (n ≡ 0) ⊎ (n % max_lines ≢ 0)
new_part n = ground arith

same_part : (n : ℕ) → (n ≡ 0) ⊎ (n % max_lines ≢ 0) → (n - 1) / max_lines ≡ n / max_lines
same_part n h = omega arith

rotate-OnDay :
    (date : Date) (n : ℕ) (l : Log)
    → OnDay date n l
    → ((rotate date l).to_day ≡ date.day)
      × ((rotate date l).line_count ≡ n)
      × ((rotate date l).file ≡ some (part date (n / max_lines)))
rotate-OnDay date n l v = elim (new_part n) [
  | inl (h, m) ↦
      rw (rotate_new_part date l v.same_day (omega (arith, v.count)) (ground (arith, v.count))) (
        v.same_day,
        v.count,
        ap some (
            ap (λ k. dated date (some (k / max_lines))) v.count
            ∙ sym (part_number date (n / max_lines) (omega arith))),
      )
  | inr h ↦
      rw (rotate_same date l v.same_day (ground (arith, v.count)))
        (v.same_day, v.count, v.file ∙ ap (λ k. some (part date k)) (same_part n h))
]

write-OnDay :
    (date : Date) (n : ℕ) (line : Line) (l : Log)
    → OnDay date n l
    → OnDay date (suc n) (write date line.time line.level line.message l)
unfolding write
write-OnDay date n line l v =
    let (d, c, f) = rotate-OnDay date n l v in
    let l1 : Log = rotate date l in
    let l2 : Log = record l1 {
      line_count = suc l1.line_count;
      buff = build_line line.time line.level line.message l1.buff;
    } in
    let (d', c', f') = emit_same l2 in
    record {
      same_day = d' ∙ d;
      count = c' ∙ ap suc c;
      file = f' ∙ f ∙ ap (λ k. some (part date (k / max_lines))) (omega arith);
    }

write_all-OnDay :
    (date : Date) (lines : List Line) (n : ℕ) (l : Log)
    → OnDay date n l
    → OnDay date (n + length lines) (write_all date lines l)
write_all-OnDay date [] n l v = subst (λ k. OnDay date k l) (omega arith) v
write_all-OnDay date (line ∷ lines) n l v =
    subst (λ k. OnDay date k (write_all date (line ∷ lines) l)) (omega arith)
      (write_all-OnDay date lines (suc n) (write date line.time line.level line.message l)
        (write-OnDay date n line l v))

-- However many lines are written on the day of `Init`, the log counts them, and the file that
-- is open then is that of the part of the last one: the first for lines 1 to 50000, part 1 for lines
-- 50001 to 100000, and so on.
pub init-OnDay :
    (config : LogConfig) (date : Date) (lines : List Line) (l : Log)
    → OnDay date (length lines) (write_all date lines (init config date l))
unfolding init
init-OnDay config date lines l =
    subst (λ k. OnDay date k (write_all date lines (init config date l))) (omega arith)
      (write_all-OnDay date lines 0 (init config date l)
        (record { same_day = refl; count = refl; file = refl }))
