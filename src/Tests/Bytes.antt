-- ===== src/Tests/Bytes.antt =====
-- Tests of the buffer.
use light_rpc.Prelude.{◌≡◌, List, [], ◌∷◌, arith}
use light_rpc.Buffer.Contents.{contents}
use light_rpc.Buffer.Fifo.{
  Op, put, received, reserve, skip, read, read_word, read_all, run, queue_call, queue_run,
  run_refines,
}
use light_rpc.Tests.Data.{filled}

-- Read the length, then the message, make room, receive some bytes and read what is there.
abbrev some_ops : List Op
some_ops =
    read_word
    ∷ read 2
    ∷ reserve 20
    ∷ received (1 ∷ 2 ∷ 3 ∷ [])
    ∷ put (4 ∷ [])
    ∷ skip 4
    ∷ read_all
    ∷ []

run_refines_example : run some_ops filled ≡ queue_run some_ops (contents filled)
unfolding queue_call
run_refines_example = run_refines some_ops 100000 {b = filled} (omega arith) (omega arith) (
  omega arith,
  omega arith,
  (
    omega arith,
    omega arith,
    (
      omega arith,
      tt,
      (omega arith, tt, (omega arith, tt, (omega arith, omega arith, (omega arith, tt, tt)))),
    ),
  ),
)
