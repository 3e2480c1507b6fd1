-- ===== src/Connection/Hangup.antt =====
-- TcpConnection: what a connection does when epoll reports an error or a hang-up.
use light_rpc.Prelude.{
  ℕ, ◌≡◌, ◌⊎◌, inr, refl, List, [], ◌∷◌, Bool, true, false, ◌||◌, arith, Option, none, some,
}
use light_rpc.Buffer.{Readv, Written, read_fd}
use light_rpc.Channel
use light_rpc.Channel.Dispatch.{handle_event-keeps}
use light_rpc.Channel.{call_if, handle_event, on_read, on_write, on_close, on_error}
use light_rpc.Connection.{
  connected, disconnected, TcpConnection, create, keep_rest, keep_all, try_write, send_in_loop,
  send, taken, rest_writing, handle_write, handle_close, after_read, handle_read, called, on_event,
}

-- The channel's callbacks: none for errors; the others as long as the connection lives.
pub record Wired (c : TcpConnection) : Type 0 where
  pub no_error : c.channel.error_callback ≡ false
  pub alive :
      (c.state ≡ disconnected)
      ⊎ ((c.channel.read_callback ≡ true)
          × (c.channel.write_callback ≡ true)
          × (c.channel.close_callback ≡ true))

-- What can happen to a connection.
pub data Notice : Type 0 where
  sends : List ℕ → Written → Notice
  reported : Channel.Events → Readv → Written → Notice
  closes_down : Notice

send-Wired : (src : List ℕ) (w : Written) (c : TcpConnection) → Wired c → Wired (send src w c)
unfolding send send_in_loop try_write keep_rest keep_all
send-Wired src w c v = ground arith

handle_write-Wired : (w : Written) (c : TcpConnection) → Wired c → Wired (handle_write w c)
unfolding handle_write taken rest_writing
handle_write-Wired w c v = ground arith

pub handle_close-Wired : (c : TcpConnection) → Wired c → Wired (handle_close c)
unfolding handle_close
handle_close-Wired c v = ground arith

module _ (message_callback error_callback : TcpConnection → TcpConnection) (would_block : ℕ → Bool)
    (keeps : (c : TcpConnection) → Wired c → Wired (message_callback c))
    (error_keeps : (c : TcpConnection) → Wired c → Wired (error_callback c)) where
  after_read-Wired :
      (n : Option ℕ) (errno : ℕ) (c : TcpConnection)
      → Wired c
      → Wired (after_read message_callback would_block n errno c)
  unfolding after_read
  after_read-Wired none errno c v = ground (arith, handle_close-Wired c v)
  after_read-Wired (some n) errno c v = ground (arith, handle_close-Wired c v, keeps c v)

  handle_read-Wired :
      (r : Readv) (c : TcpConnection)
      → Wired c
      → Wired (handle_read message_callback would_block r c)
  unfolding handle_read
  handle_read-Wired r c v =
      let (n, errno, b) = read_fd r 0 c.input_buffer in
      ground (
        arith,
        after_read-Wired n errno (record c { input_buffer = b })
            (record { no_error = v.no_error; alive = v.alive }),
      )

  called-Wired :
      (r : Readv) (w : Written) (cb : Channel.Callback) (c : TcpConnection)
      → Wired c
      → Wired (called message_callback would_block error_callback r w cb c)
  unfolding called
  called-Wired r w on_read c v = handle_read-Wired r c v
  called-Wired r w on_write c v = handle_write-Wired w c v
  called-Wired r w on_close c v = handle_close-Wired c v
  called-Wired r w on_error c v = error_keeps c v

  on_event-Wired :
      (revents : Channel.Events) (r : Readv) (w : Written) (c : TcpConnection)
      → Wired c
      → Wired (on_event message_callback would_block error_callback revents r w c)
  unfolding on_event
  on_event-Wired revents r w c v =
      handle_event-keeps (λ (k : TcpConnection). k.channel)
        (called message_callback would_block error_callback r w) Wired (called-Wired r w) revents c
        v

  pub step : Notice → TcpConnection → TcpConnection
  step (sends src w) c = send src w c
  step (reported revents r w) c = on_event message_callback would_block error_callback revents r w c
  step closes_down c = handle_close c

  unfoldable pub run : List Notice → TcpConnection → TcpConnection
  run [] c = c
  run (e ∷ es) c = run es (step e c)

  run-Wired : (es : List Notice) (c : TcpConnection) → Wired c → Wired (run es c)
  unfolding run step
  run-Wired [] c v = v
  run-Wired (sends src w ∷ es) c v = run-Wired es (send src w c) (send-Wired src w c v)
  run-Wired (reported revents r w ∷ es) c v =
      run-Wired es (on_event message_callback would_block error_callback revents r w c)
        (on_event-Wired revents r w c v)
  run-Wired (closes_down ∷ es) c v = run-Wired es (handle_close c) (handle_close-Wired c v)

  create-Wired : (fd : ℕ) → Wired (create fd)
  unfolding create
  create-Wired fd = record { no_error = refl; alive = inr (refl, refl, refl) }

  error_ignored :
      (revents : Channel.Events) (r : Readv) (w : Written) (c : TcpConnection)
      → Wired c
      → (revents.error || revents.hang_up) ≡ true
      → on_event message_callback would_block error_callback revents r w c ≡ c
  unfolding on_event handle_event call_if
  error_ignored revents r w c v h = ground (arith, v.no_error)

  peer_hang_up_closes :
      (revents : Channel.Events) (r : Readv) (w : Written) (c : TcpConnection)
      → Wired c
      → (revents.error || revents.hang_up) ≡ false
      → revents.peer_hang_up ≡ true
      → c.state ≡ connected
      → Channel.is_none_event c.channel ≡ false
      → on_event message_callback would_block error_callback revents r w c ≡ handle_close c
  unfolding on_event handle_event call_if called
  peer_hang_up_closes revents r w c v h p live watched = ground (arith, v.alive)

  -- Errors are dropped. At any moment in the life of a connection, after any sends, reports and
  -- closes, a report of EPOLLERR or EPOLLHUP leaves the connection exactly as it was, whatever an
  -- error callback would do: `create` sets none, and nothing sets one later. (The message callback
  -- and the error callback leave the channel's callbacks as the connection keeps them.)
  pub hang_up_ignored :
      (es : List Notice) (fd : ℕ) (revents : Channel.Events) (r : Readv) (w : Written)
      → (revents.error || revents.hang_up) ≡ true
      → on_event message_callback would_block error_callback revents r w (run es (create fd))
        ≡ run es (create fd)
  hang_up_ignored es fd revents r w h =
      error_ignored revents r w (run es (create fd)) (run-Wired es (create fd) (create-Wired fd)) h

  -- A peer that has sent its last bytes and shut down its side is closed without being read: where
  -- EPOLLRDHUP comes, with or without EPOLLIN, and no error, a live connection that watches for
  -- something goes straight to `handleClose`, and its input buffer stays as it was. (The message
  -- callback and an error callback leave the channel's callbacks as the connection keeps them.)
  pub half_close_unread :
      (es : List Notice) (fd : ℕ) (revents : Channel.Events) (r : Readv) (w : Written)
      → (revents.error || revents.hang_up) ≡ false
      → revents.peer_hang_up ≡ true
      → (run es (create fd)).state ≡ connected
      → Channel.is_none_event (run es (create fd)).channel ≡ false
      → (on_event message_callback would_block error_callback revents r w (run es (create fd))
          ≡ handle_close (run es (create fd)))
        × ((handle_close (run es (create fd))).input_buffer ≡ (run es (create fd)).input_buffer)
  unfolding handle_close
  half_close_unread es fd revents r w h p live watched = (
    peer_hang_up_closes revents r w (run es (create fd))
        (run-Wired es (create fd) (create-Wired fd)) h p live watched,
    ground arith,
  )
