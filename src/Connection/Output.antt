-- ===== src/Connection/Output.antt =====
-- TcpConnection: the peer gets the bytes that were sent, in that order.
use light_rpc.Prelude.{
  ℕ, suc, ◌+◌, ◌<◌, ◌≡◌, refl, sym, ap, ◌∙◌, subst, List, [], ◌∷◌, ◌++◌, arith, length,
  append_assoc, append-nil, inl,
}
use light_rpc.Prelude.Words.{size_mod}
use light_rpc.Buffer.{initial_size}
use light_rpc.Channel
use light_rpc.Connection.{
  connected, disconnected, TcpConnection, send, handle_write, handle_close, Event, sends, writable,
  closes_down, step, run,
}
use light_rpc.Connection.Effects.{stream, IsSound, send-Adds, handle_write-Adds}

-- The bytes of the calls of `send` before the connection closes.
abbrev pub accepted : List Event → List ℕ
accepted [] = []
accepted (sends src w ∷ es) = src ++ accepted es
accepted (writable w ∷ es) = accepted es
accepted (closes_down ∷ es) = []

-- How far the events can make the output buffer grow.
abbrev pub cost : List Event → ℕ
cost [] = 0
cost (sends src w ∷ es) = length src + initial_size + cost es
cost (writable w ∷ es) = cost es
cost (closes_down ∷ es) = cost es

run_closed : (es : List Event) (c : TcpConnection) → c.state ≡ disconnected → run es c ≡ c
unfolding run step send handle_write handle_close
run_closed [] c h = refl
run_closed (sends src w ∷ es) c h = ap (run es) (ground arith) ∙ run_closed es c h
run_closed (writable w ∷ es) c h = ap (run es) (ground arith) ∙ run_closed es c h
run_closed (closes_down ∷ es) c h = ap (run es) (ground arith) ∙ run_closed es c h

closed :
    (c : TcpConnection)
    → c.state ≡ connected
    → handle_close c ≡ record c {
      state = disconnected;
      channel = Channel.remove (Channel.disable_all c.channel);
      closes = suc c.closes;
    }
unfolding handle_close
closed c h = ground arith

-- Whatever a live connection's kernel takes of each `write`, and whenever the socket becomes
-- writable: the bytes on the wire, with those that wait in the output buffer behind them, are those
-- that were there before and then all that was sent before the connection closed, in order. And the
-- loop keeps watching for writing while bytes wait. (The output buffer does not outgrow `size_t`.)
pub run_delivers :
    (es : List Event) (c : TcpConnection)
    → IsSound c
    → c.state ≡ connected
    → length c.output_buffer.bytes + cost es < size_mod
    → IsSound (run es c) × (stream (run es c) ≡ stream c ++ accepted es)
unfolding run step
run_delivers [] c v live f = (v, sym (append-nil (stream c)))
run_delivers (sends src w ∷ es) c v live f =
    let a = send-Adds src w c v live (omega arith) in
    let (sound, more) =
      run_delivers es (send src w c) a.sound (a.same ∙ live) (omega (arith, a.grown)) in
    (sound, more ∙ ap (λ xs. xs ++ accepted es) a.more ∙ append_assoc (stream c) src (accepted es))
run_delivers (writable w ∷ es) c v live f =
    let a = handle_write-Adds w c v live in
    let (sound, more) =
      run_delivers es (handle_write w c) a.sound (a.same ∙ live) (omega (arith, a.grown)) in
    (sound, more ∙ ap (λ xs. xs ++ accepted es) (a.more ∙ append-nil (stream c)))
run_delivers (closes_down ∷ es) c v live f =
    let c' : TcpConnection = record c {
      state = disconnected;
      channel = Channel.remove (Channel.disable_all c.channel);
      closes = suc c.closes;
    } in
    let over = ap (run es) (closed c live) ∙ run_closed es c' refl in
    subst (λ r. IsSound r × (stream r ≡ stream c ++ [])) (sym over)
      (record { valid = v.valid; watched = inl refl }, sym (append-nil (stream c)))
