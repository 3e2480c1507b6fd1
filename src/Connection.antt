-- ===== src/Connection.antt =====
-- code/network/tcp/tcp_connection.h and tcp_connection.cc: a connection on its loop's thread. What
-- the kernel does with a `read` or a `write` is an argument (`Readv` and `Written`, as for the
-- buffer); the bytes it has taken are recorded in `wire`. `IsInLoopThread` is true: a call from
-- another thread runs the same function later, on the loop's thread (Connection/Remote). The
-- connection and close callbacks of a close are recorded in `closes`; the message callback and the
-- test for EAGAIN and EWOULDBLOCK are parameters.
pub mod Effects
pub mod Output
pub mod Hangup
pub mod Remote
mod Tests
use light_rpc.Prelude.{
  ℕ, suc, ◌+◌, Bool, true, false, List, [], ◌∷◌, ◌++◌, Option, none, some, if◌then◌else◌, ◌==◌, ltb,
  length, take, drop,
}
use light_rpc.Channel
use light_rpc.Channel.{Channel}
use light_rpc.Buffer
use light_rpc.Buffer.{
  Readv, read_fd, Buffer, Written, write_failed, wrote, readable_bytes, append, retrieve, write_fd,
  peek,
}

pub data State : Type 0 where
  disconnected connected : State

pub record TcpConnection : Type 0 where
  pub fd : ℕ
  pub state : State
  pub input_buffer : Buffer
  pub output_buffer : Buffer
  pub channel : Channel
  pub wire : List ℕ
  pub closes : ℕ

-- The constructor, with its channel.
unfoldable pub create : ℕ → TcpConnection
create fd = record {
  fd = fd;
  state = connected;
  input_buffer = Buffer.create Buffer.initial_size;
  output_buffer = Buffer.create Buffer.initial_size;
  channel = Channel.enable_reading (record (Channel.create fd) {
    read_callback = true;
    write_callback = true;
    close_callback = true;
  });
  wire = [];
  closes = 0;
}

-- What is left of the data after `write` has taken `n` bytes: kept for later, if anything.
keep_rest : List ℕ → ℕ → TcpConnection → TcpConnection
keep_rest src n c =
    if ltb n (length src)
    then record c {
      output_buffer = append (drop n src) c.output_buffer;
      channel = Channel.enable_writing c.channel;
      wire = c.wire ++ take n src;
    }
    else record c { wire = c.wire ++ take n src }

-- All of the data is kept behind what waits.
keep_all : List ℕ → TcpConnection → TcpConnection
keep_all src c = record c {
  output_buffer = append src c.output_buffer;
  channel = Channel.enable_writing c.channel;
}

try_write : List ℕ → Written → TcpConnection → TcpConnection
unfolding keep_rest keep_all
try_write src (write_failed errno) c = keep_all src c
try_write src (wrote n) c = keep_rest src n c

pub send_in_loop : List ℕ → Written → TcpConnection → TcpConnection
unfolding try_write keep_all
send_in_loop src w c = elim c.state [
  | disconnected ↦ c
  | connected ↦ if readable_bytes c.output_buffer == 0 then try_write src w c else keep_all src c
]

pub send : List ℕ → Written → TcpConnection → TcpConnection
unfolding send_in_loop
send src w c = elim c.state [ disconnected ↦ c | connected ↦ send_in_loop src w c ]

-- What `WriteFd` has returned: the bytes taken leave the buffer (`retrieve 0` would change nothing,
-- and -1 does not reach it).
taken : Option ℕ → TcpConnection → TcpConnection
taken none c = c
taken (some n) c =
    if ltb 0 n
    then record c {
      output_buffer = retrieve n c.output_buffer;
      wire = c.wire ++ take n (peek (readable_bytes c.output_buffer) c.output_buffer);
    }
    else c

-- `DisableWriting` once nothing waits.
rest_writing : TcpConnection → TcpConnection
rest_writing c =
    if readable_bytes c.output_buffer == 0
    then record c { channel = Channel.disable_writing c.channel }
    else c

pub handle_write : Written → TcpConnection → TcpConnection
unfolding taken rest_writing
handle_write w c = elim c.state [
  | disconnected ↦ c
  | connected ↦ rest_writing (taken (write_fd w 0 c.output_buffer).0 c)
]

unfoldable pub handle_close : TcpConnection → TcpConnection
handle_close c = elim c.state [
  | disconnected ↦ c
  | connected ↦ record c {
    state = disconnected;
    channel = Channel.remove (Channel.disable_all c.channel);
    closes = suc c.closes;
  }
]

module _ (message_callback : TcpConnection → TcpConnection) (would_block : ℕ → Bool) where
  -- What follows `ReadFd`, by its result and `saved_errno`.
  after_read : Option ℕ → ℕ → TcpConnection → TcpConnection
  unfolding handle_close
  after_read none errno c = if would_block errno then c else handle_close c
  after_read (some n) errno c = if n == 0 then handle_close c else message_callback c

  pub handle_read : Readv → TcpConnection → TcpConnection
  unfolding after_read
  handle_read r c = elim c.state [
    | disconnected ↦ c
    | connected ↦
        let (n, errno, b) = read_fd r 0 c.input_buffer in
        after_read n errno (record c { input_buffer = b })
  ]

  -- The callbacks that the constructor has set. It sets none for errors: `error_callback` is
  -- whatever would be run if one were.
  called :
      (TcpConnection → TcpConnection)
      → Readv
      → Written
      → Channel.Callback
      → TcpConnection
      → TcpConnection
  unfolding handle_read handle_write handle_close
  called error_callback r w Channel.on_read c = handle_read r c
  called error_callback r w Channel.on_write c = handle_write w c
  called error_callback r w Channel.on_close c = handle_close c
  called error_callback r w Channel.on_error c = error_callback c

  -- `HandleEvent` of the connection's channel, with what a read and a write then give.
  pub on_event :
      (TcpConnection → TcpConnection)
      → Channel.Events
      → Readv
      → Written
      → TcpConnection
      → TcpConnection
  unfolding called
  on_event error_callback revents r w =
      Channel.handle_event (λ c. c.channel) (called error_callback r w) revents

pub data Event : Type 0 where
  sends : List ℕ → Written → Event
  writable : Written → Event
  closes_down : Event

pub step : Event → TcpConnection → TcpConnection
unfolding send handle_write handle_close
step (sends src w) c = send src w c
step (writable w) c = handle_write w c
step closes_down c = handle_close c

pub run : List Event → TcpConnection → TcpConnection
run [] c = c
run (e ∷ es) c = run es (step e c)
