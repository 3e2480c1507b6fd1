-- ===== src/Log/Printing.antt =====
-- Log: the buffer in which a line is built.
use light_rpc.Prelude.{
  ℕ, zero, suc, ◌+◌, ◌≤◌, ◌<◌, ◌≡◌, ◌≢◌, refl, ap, ◌∙◌, subst, [], ◌∷◌, ◌++◌, length, take,
  length-append, take_all, take-append_self, arith,
}
use light_rpc.Prelude.Eq.{Text}
use light_rpc.Buffer.{Buffer, has_written, write_begin, append}
use light_rpc.Buffer.Bounds.{IsValid, readable-eq}
use light_rpc.Buffer.Contents.{contents, length-contents}
use light_rpc.Buffer.Counting.{Counted, has_written-Counted, append-Counted}
use light_rpc.Log.{title, printed, c_string}

-- No byte is zero.
abbrev pub NoZero : Text → Type 0
NoZero [] = Unit {0}
NoZero (b ∷ bs) = (b ≢ 0) × NoZero bs

pub NoZero-append : (s t : Text) → NoZero s → NoZero t → NoZero (s ++ t)
NoZero-append [] t h k = k
NoZero-append (b ∷ bs) t (n, h) k = (n, NoZero-append bs t h k)

pub NoZero-take : (n : ℕ) (s : Text) → NoZero s → NoZero (take n s)
NoZero-take zero s h = tt
NoZero-take (suc n) [] h = tt
NoZero-take (suc n) (b ∷ bs) (x, h) = (x, NoZero-take n bs h)

pub c_string-append : (s t : Text) → NoZero s → c_string (s ++ (0 ∷ t)) ≡ s
unfolding c_string
c_string-append [] t h = refl
c_string-append (b ∷ bs) t (n, h) = ground (arith, c_string-append bs t h)

pub length-title : (level : ℕ) → length (title level) ≡ 9
length-title level = ground arith

pub title-NoZero : (level : ℕ) → NoZero (title level)
title-NoZero level = ground arith

-- A buffer that holds the text `s`, from the vector's start.
pub record Holds (s : Text) (size : ℕ) (b : Buffer) : Type 0 where
  pub valid : IsValid b
  pub stored : contents b ≡ s
  pub same_size : length b.bytes ≡ size
  pub at_start : b.read_pos ≡ 0

pub count-Holds :
    (s src : Text) (k size : ℕ) (b new : Buffer)
    → Holds s size b
    → Counted src k b new
    → Holds (s ++ take k src) size new
count-Holds s src k size b new h c = record {
  valid = c.valid;
  stored = c.stored ∙ ap (λ x. x ++ take k src) h.stored;
  same_size = c.same_size ∙ h.same_size;
  at_start = c.same_start ∙ h.at_start;
}

pub write_pos-eq : (s : Text) (size : ℕ) (b : Buffer) → Holds s size b → b.write_pos ≡ length s
write_pos-eq s size b h =
    omega (arith, length-contents h.valid, readable-eq h.valid, ap length h.stored, h.at_start)

pub append-Holds :
    (s src : Text) (size : ℕ) (b : Buffer)
    → Holds s size b
    → length s + length src ≤ size
    → Holds (s ++ src) size (append src b)
append-Holds s src size b h room =
    subst (λ x. Holds (s ++ x) size (append src b)) (take_all (length src) src (omega arith))
      (count-Holds s src (length src) size b (append src b) h
        (append-Counted src b h.valid (omega (arith, write_pos-eq s size b h, h.same_size))))

-- `snprintf` of a text that fits, with its terminator, in the `n` bytes it may use.
printed_whole : (n : ℕ) (text : Text) → length text < n → printed n text ≡ text ++ (0 ∷ [])
printed_whole zero text h = absurd (omega arith)
printed_whole (suc n) text h = ap (λ x. x ++ (0 ∷ [])) (take_all n text (omega arith))

pub print-Holds :
    (s text : Text) (n size : ℕ) (b : Buffer)
    → Holds s size b
    → length text < n
    → length s + length text < size
    → Holds (s ++ text) size (has_written (length text) (write_begin (printed n text) b))
print-Holds s text n size b h fits room = rw (printed_whole n text fits) (
    subst (λ x. Holds (s ++ x) size (has_written (length text) (write_begin (text ++ (0 ∷ [])) b)))
      (take-append_self text (0 ∷ []) (length text) refl)
      (count-Holds s (text ++ (0 ∷ [])) (length text) size b
        (has_written (length text) (write_begin (text ++ (0 ∷ [])) b)) h
        (has_written-Counted (text ++ (0 ∷ [])) (length text) b h.valid
          (omega (arith, write_pos-eq s size b h, h.same_size, length-append text (0 ∷ [])))
          (omega (arith, length-append text (0 ∷ []))))))
