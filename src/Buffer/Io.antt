-- ===== src/Buffer/Io.antt =====
-- Buffer: `ReadFd` and `WriteFd` against what the kernel delivers.
use light_rpc.Prelude.{
  ℕ, ◌<◌, ◌≡◌, refl, ap, ◌∙◌, List, ◌++◌, none, some, arith, inl, inr, length, take, drop,
  length-take, length-drop, take-append-drop, append_assoc, Bool-cases, leb,
}
use light_rpc.Buffer.{
  Buffer, readv_failed, readv_bytes, writable_bytes, write_begin, has_written, fill, fill_up,
  read_fd, append,
}
use light_rpc.Buffer.Bounds.{IsValid, Fits}
use light_rpc.Buffer.Contents.{
  contents, Appended, append-Appended, write_begin-Appended, length-write_begin,
}

fill_up_lem :
    (part : List ℕ) (b : Buffer)
    → IsValid b
    → length part ≡ writable_bytes b
    → fill_up part b ≡ has_written (length part) (write_begin part b)
unfolding fill_up has_written write_begin
fill_up_lem part b v h = ground arith

fill_up-Appended :
    {b : Buffer} (part : List ℕ)
    → IsValid b
    → length part ≡ writable_bytes b
    → Appended part b (fill_up part b) × (length (fill_up part b).bytes ≡ length b.bytes)
fill_up-Appended {b} part v h =
    rw (fill_up_lem part b v h)
      (write_begin-Appended part v (omega arith), length-write_begin part b (omega arith))

fill_over :
    {b : Buffer} (src : List ℕ)
    → IsValid b
    → Fits (length src) b
    → writable_bytes b < length src
    → Appended src b
        (append (drop (writable_bytes b) src) (fill_up (take (writable_bytes b) src) b))
fill_over {b} src v f h =
    let n : ℕ = writable_bytes b in
    let (a, size) = fill_up-Appended (take n src) v (omega (arith, length-take n src)) in
    let r = append-Appended (drop n src) a.valid (omega (arith, length-drop n src, size)) in
    record {
      valid = r.valid;
      stored =
          r.stored
          ∙ ap (λ xs. xs ++ drop n src) a.stored
          ∙ append_assoc (contents b) (take n src) (drop n src)
          ∙ ap (◌++◌ (contents b)) (take-append-drop n src);
      grown = omega (arith, r.grown, size, length-drop n src);
    }

fill-Appended :
    {b : Buffer} (src : List ℕ) → IsValid b → Fits (length src) b → Appended src b (fill src b)
unfolding fill
fill-Appended {b} src v f = elim (Bool-cases (leb (length src) (writable_bytes b))) [
  | inl fits ↦ rw fits (write_begin-Appended src v (ground arith))
  | inr over ↦ rw over (fill_over src v f (ground arith))
]

-- `ReadFd` stores exactly the bytes that the kernel has delivered, behind those that wait, whether
-- they fit or went through `extrabuf`; it returns their number. On an error it returns -1, hands
-- out the `errno` and leaves the buffer as it was.
pub read_fd_lem :
    {b : Buffer} (saved errno : ℕ) (src : List ℕ)
    → IsValid b
    → Fits (length src) b
    → (let (n, e, b') = read_fd (readv_bytes src) saved b in
        (n ≡ some (length src)) × (e ≡ saved) × Appended src b b')
      × (read_fd (readv_failed errno) saved b ≡ (none, errno, b))
unfolding read_fd
read_fd_lem saved errno src v f = ((refl, refl, fill-Appended src v f), refl)
