-- ===== src/Buffer/Counting.antt =====
-- Buffer: writing at `WriteBegin()` and counting only a part of it with `HasWritten`.
use light_rpc.Prelude.{
  ℕ, suc, ◌+◌, ◌≤◌, ◌≡◌, sym, ap, ◌∙◌, List, [], ◌∷◌, ◌++◌, length, take, drop, take-take, arith,
  refl, subst,
}
use light_rpc.Buffer.{
  Buffer, readable_bytes, has_written, write_begin, append, ensure_writable, overwrite,
}
use light_rpc.Buffer.Bounds.{IsValid, length-overwrite, readable-eq}
use light_rpc.Buffer.Contents.{contents, length-contents, Appended, write_begin-Appended}

take-append_part : (s t : List ℕ) (k : ℕ) → take (length s + k) (s ++ t) ≡ s ++ take k t
take-append_part [] t k = ap (λ n. take n t) (omega arith)
take-append_part (b ∷ bs) t k =
    let e : length (b ∷ bs) + k ≡ suc (length bs + k) = omega arith in
    ap (λ n. take n (b ∷ (bs ++ t))) e ∙ ap (◌∷◌ b) (take-append_part bs t k)

-- After a write of `src` of which `k` bytes are counted.
pub record Counted (src : List ℕ) (k : ℕ) (old new : Buffer) : Type 0 where
  pub valid : IsValid new
  pub stored : contents new ≡ contents old ++ take k src
  pub same_size : length new.bytes ≡ length old.bytes
  pub same_start : new.read_pos ≡ old.read_pos

pub has_written-Counted :
    (src : List ℕ) (k : ℕ) (b : Buffer)
    → IsValid b
    → b.write_pos + length src ≤ length b.bytes
    → k ≤ length src
    → Counted src k b (has_written k (write_begin src b))
unfolding has_written write_begin
has_written-Counted src k b v room h = record {
  valid = new-IsValid;
  stored =
      ap (λ n. take n rest)
        (omega (arith, length-contents v, readable-eq new-IsValid, readable-eq v))
      ∙ sym (
          take-take (length (contents b) + k) (readable_bytes full) rest
            (omega (arith, length-contents v, readable-eq a.valid, readable-eq v)))
      ∙ ap (take (length (contents b) + k)) a.stored
      ∙ take-append_part (contents b) src k;
  same_size = length-overwrite b.bytes b.write_pos src room;
  same_start = refl;
}
  where
    full : Buffer
    full = has_written (length src) (write_begin src b)

    a : Appended src b full
    a = write_begin-Appended src v room

    rest : List ℕ
    rest = drop b.read_pos (overwrite b.bytes b.write_pos src)

    new-IsValid : IsValid (has_written k (write_begin src b))
    new-IsValid = omega (arith, length-overwrite b.bytes b.write_pos src)

-- An `Append` that finds room grows nothing.
pub append-Counted :
    (src : List ℕ) (b : Buffer)
    → IsValid b
    → b.write_pos + length src ≤ length b.bytes
    → Counted src (length src) b (append src b)
unfolding append ensure_writable
append-Counted src b v room =
    subst (λ c. Counted src (length src) b (has_written (length src) (write_begin src c)))
      (ground arith) (has_written-Counted src (length src) b v room (omega arith))
