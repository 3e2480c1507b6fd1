-- ===== src/Connection/Effects.antt =====
-- TcpConnection: what a `send` and a writable socket do to the stream.
use light_rpc.Prelude.{
  ℕ, ◌+◌, ◌<◌, ◌≤◌, ◌≡◌, ◌⊎◌, refl, sym, ap, ◌∙◌, List, [], ◌∷◌, ◌++◌, Option, none, some, true,
  false, arith, length, take, drop, append_assoc, append-nil, take-append-drop, length-drop,
  take_all, Bool-cases, inl, inr, ◌==◌, ltb,
}
use light_rpc.Prelude.Words.{size_mod}
use light_rpc.Buffer.{
  Buffer, Written, write_failed, wrote, initial_size, readable_bytes, retrieve, write_fd,
}
use light_rpc.Buffer.Bounds.{IsValid, retrieve-IsValid, length-retrieve}
use light_rpc.Buffer.Contents.{contents, length-contents, append-Appended, contents-retrieve}
use light_rpc.Connection.{
  connected, disconnected, TcpConnection, keep_rest, keep_all, try_write, send_in_loop, send, taken,
  rest_writing, handle_write,
}

-- The bytes on the wire, and those that wait behind them.
abbrev pub stream : TcpConnection → List ℕ
stream c = c.wire ++ contents c.output_buffer

-- The output buffer is valid, and the loop watches for writing while a live connection has bytes
-- that wait.
pub record IsSound (c : TcpConnection) : Type 0 where
  pub valid : IsValid c.output_buffer
  pub watched :
      (c.state ≡ disconnected)
      ⊎ (readable_bytes c.output_buffer ≡ 0)
      ⊎ (c.channel.events.output ≡ true)

-- The effect of one event: what it adds to the stream, and how far the buffer has grown.
pub record Adds (src : List ℕ) (extra : ℕ) (old new : TcpConnection) : Type 0 where
  pub sound : IsSound new
  pub same : new.state ≡ old.state
  pub more : stream new ≡ stream old ++ src
  pub grown : length new.output_buffer.bytes ≤ length old.output_buffer.bytes + extra

keep_all-Adds :
    (src : List ℕ) (c : TcpConnection)
    → IsSound c
    → length c.output_buffer.bytes + length src + initial_size < size_mod
    → Adds src (length src + initial_size) c (keep_all src c)
unfolding keep_all
keep_all-Adds src c v f =
    let a = append-Appended src v.valid f in
    record {
      sound = record { valid = a.valid; watched = inr (inr refl) };
      same = refl;
      more = ap (◌++◌ c.wire) a.stored ∙ sym (append_assoc c.wire (contents c.output_buffer) src);
      grown = omega (arith, a.grown);
    }

nothing_waits : {b : Buffer} → IsValid b → readable_bytes b ≡ 0 → contents b ≡ []
nothing_waits {b} v h = elim_nil (contents b) (length-contents v ∙ h)
  where
    elim_nil : (xs : List ℕ) → length xs ≡ 0 → xs ≡ []
    elim_nil [] e = refl
    elim_nil (x ∷ xs) e = absurd (omega arith)

keep_rest-Adds :
    (src : List ℕ) (n : ℕ) (c : TcpConnection)
    → IsSound c
    → readable_bytes c.output_buffer ≡ 0
    → length c.output_buffer.bytes + length src + initial_size < size_mod
    → Adds src (length src + initial_size) c (keep_rest src n c)
unfolding keep_rest
keep_rest-Adds src n c v h f = elim (Bool-cases (ltb n (length src))) [
  | inl less ↦
      let a = append-Appended (drop n src) v.valid (omega (arith, length-drop n src)) in
      rw less (record {
        sound = record { valid = a.valid; watched = inr (inr refl) };
        same = refl;
        more =
            ap (◌++◌ (c.wire ++ take n src))
              (a.stored ∙ ap (λ xs. xs ++ drop n src) (nothing_waits v.valid h))
            ∙ append_assoc c.wire (take n src) (drop n src)
            ∙ ap (◌++◌ c.wire) (take-append-drop n src)
            ∙ ap (λ xs. xs ++ src)
                (sym (append-nil c.wire) ∙ ap (◌++◌ c.wire) (sym (nothing_waits v.valid h)));
        grown = omega (arith, a.grown, length-drop n src);
      })
  | inr all ↦
      rw (all, take_all n src (ground arith))
        (record {
          sound = record { valid = v.valid; watched = inr (inl h) };
          same = refl;
          more =
              ap (◌++◌ (c.wire ++ src)) (nothing_waits v.valid h)
              ∙ append-nil (c.wire ++ src)
              ∙ ap (λ xs. xs ++ src)
                  (sym (append-nil c.wire) ∙ ap (◌++◌ c.wire) (sym (nothing_waits v.valid h)));
          grown = omega arith;
        })
]

try_write-Adds :
    (src : List ℕ) (w : Written) (c : TcpConnection)
    → IsSound c
    → readable_bytes c.output_buffer ≡ 0
    → length c.output_buffer.bytes + length src + initial_size < size_mod
    → Adds src (length src + initial_size) c (try_write src w c)
unfolding try_write
try_write-Adds src (write_failed errno) c v h f = keep_all-Adds src c v f
try_write-Adds src (wrote n) c v h f = keep_rest-Adds src n c v h f

send_idle :
    (src : List ℕ) (w : Written) (c : TcpConnection)
    → c.state ≡ connected
    → readable_bytes c.output_buffer ≡ 0
    → send src w c ≡ try_write src w c
unfolding send send_in_loop
send_idle src w c live e = ground arith

send_behind :
    (src : List ℕ) (w : Written) (c : TcpConnection)
    → c.state ≡ connected
    → (readable_bytes c.output_buffer == 0) ≡ false
    → send src w c ≡ keep_all src c
unfolding send send_in_loop
send_behind src w c live e = ground arith

pub send-Adds :
    (src : List ℕ) (w : Written) (c : TcpConnection)
    → IsSound c
    → c.state ≡ connected
    → length c.output_buffer.bytes + length src + initial_size < size_mod
    → Adds src (length src + initial_size) c (send src w c)
send-Adds src w c v live f = elim (Bool-cases (readable_bytes c.output_buffer == 0)) [
  | inl e ↦ rw (send_idle src w c live (ground arith)) (try_write-Adds src w c v (ground arith) f)
  | inr e ↦ rw (send_behind src w c live e) (keep_all-Adds src c v f)
]

taken-Adds : (n : ℕ) (c : TcpConnection) → IsSound c → Adds [] 0 c (taken (some n) c)
unfolding taken
taken-Adds n c v = elim (Bool-cases (ltb 0 n)) [
  | inl e ↦ rw e (record {
    sound = record { valid = retrieve-IsValid n v.valid; watched = still };
    same = refl;
    more =
        append_assoc c.wire (take n (contents c.output_buffer)) _
        ∙ ap (◌++◌ c.wire) (
            ap (◌++◌ (take n (contents c.output_buffer))) (contents-retrieve n v.valid)
            ∙ take-append-drop n (contents c.output_buffer))
        ∙ sym (append-nil (stream c));
    grown = omega (arith, length-retrieve n c.output_buffer);
  })
  | inr e ↦
      rw e
        (record { sound = v; same = refl; more = sym (append-nil (stream c)); grown = omega arith })
]
  where
    v' : IsValid (retrieve n c.output_buffer)
    v' = retrieve-IsValid n v.valid

    still :
        (c.state ≡ disconnected)
        ⊎ (readable_bytes (retrieve n c.output_buffer) ≡ 0)
        ⊎ (c.channel.events.output ≡ true)
    still = elim v.watched [
      | inl d ↦ inl d
      | inr (inl z) ↦ inr (
          inl (
            omega (
              arith,
              z,
              length-contents v',
              length-contents v.valid,
              ap length (contents-retrieve n v.valid),
              length-drop n (contents c.output_buffer),
            )))
      | inr (inr w) ↦ inr (inr w)
    ]

rest_writing-Adds : (c : TcpConnection) → IsSound c → Adds [] 0 c (rest_writing c)
unfolding rest_writing
rest_writing-Adds c v = elim (Bool-cases (readable_bytes c.output_buffer == 0)) [
  | inl e ↦ rw e (record {
    sound = record { valid = v.valid; watched = inr (inl (ground arith)) };
    same = refl;
    more = sym (append-nil (stream c));
    grown = omega arith;
  })
  | inr e ↦
      rw e
        (record { sound = v; same = refl; more = sym (append-nil (stream c)); grown = omega arith })
]

taken_by : (o : Option ℕ) (c : TcpConnection) → IsSound c → Adds [] 0 c (taken o c)
unfolding taken
taken_by none c v = record {
  sound = v;
  same = refl;
  more = sym (append-nil (stream c));
  grown = omega arith;
}
taken_by (some n) c v = taken-Adds n c v

handle_write_live :
    (w : Written) (c : TcpConnection)
    → c.state ≡ connected
    → handle_write w c ≡ rest_writing (taken (write_fd w 0 c.output_buffer).0 c)
unfolding handle_write
handle_write_live w c live = ground arith

pub handle_write-Adds :
    (w : Written) (c : TcpConnection)
    → IsSound c
    → c.state ≡ connected
    → Adds [] 0 c (handle_write w c)
handle_write-Adds w c v live = rw (handle_write_live w c live) (
    let t = taken_by (write_fd w 0 c.output_buffer).0 c v in
    let r = rest_writing-Adds (taken (write_fd w 0 c.output_buffer).0 c) t.sound in
    record {
      sound = r.sound;
      same = r.same ∙ t.same;
      more = r.more ∙ append-nil _ ∙ t.more;
      grown = omega (arith, r.grown, t.grown);
    })

-- Sending changes neither the state nor the descriptor.
pub send_same :
    (src : List ℕ) (w : Written) (c : TcpConnection)
    → ((send src w c).state ≡ c.state) × ((send src w c).fd ≡ c.fd)
unfolding send send_in_loop try_write keep_rest keep_all
send_same src w c = ground arith
