-- ===== src/Channel.antt =====
-- code/network/core/channel.h and channel.cc: which events of a descriptor are watched, and which
-- callback an event runs. The bits of an epoll mask are Booleans. `Update` hands the channel to
-- `EventLoop::UpdateChannel`, and `Remove` to `RemoveChannel`: see EventLoop.
pub mod Dispatch
use light_rpc.Prelude.{ℕ, Bool, true, false, not, ◌||◌, if◌then◌else◌}

-- EPOLLIN, EPOLLOUT, EPOLLERR, EPOLLHUP, EPOLLRDHUP.
pub record Events : Type 0 where
  pub input : Bool
  pub output : Bool
  pub error : Bool
  pub hang_up : Bool
  pub peer_hang_up : Bool

abbrev pub no_events : Events
no_events = record {
  input = false;
  output = false;
  error = false;
  hang_up = false;
  peer_hang_up = false;
}

-- A callback is kept here as whether it is set.
pub record Channel : Type 0 where
  pub fd : ℕ
  pub events : Events
  pub read_callback : Bool
  pub write_callback : Bool
  pub close_callback : Bool
  pub error_callback : Bool

abbrev pub create : ℕ → Channel
create fd = record {
  fd = fd;
  events = no_events;
  read_callback = false;
  write_callback = false;
  close_callback = false;
  error_callback = false;
}

abbrev pub enable_reading : Channel → Channel
enable_reading c = record c { events = record c.events { input = true } }

abbrev pub enable_writing : Channel → Channel
enable_writing c = record c { events = record c.events { output = true } }

abbrev pub disable_reading : Channel → Channel
disable_reading c = record c { events = record c.events { input = false } }

abbrev pub disable_writing : Channel → Channel
disable_writing c = record c { events = record c.events { output = false } }

abbrev pub disable_all : Channel → Channel
disable_all c = record c { events = no_events }

-- `Remove` clears the callbacks and leaves `events_`.
abbrev pub remove : Channel → Channel
remove c = record c {
  read_callback = false;
  write_callback = false;
  close_callback = false;
  error_callback = false;
}

abbrev pub is_none_event : Channel → Bool
is_none_event c = not (
    c.events.input || c.events.output || c.events.error || c.events.hang_up
    || c.events.peer_hang_up)

pub data Callback : Type 0 where
  on_read on_write on_close on_error : Callback

-- `HandleEvent` over the state that the callbacks change, in which the channel is found. A callback
-- may remove the channel, so each is looked up when its turn comes.
module _ {S : Type 0} (channel : S → Channel) (call : Callback → S → S) where
  unfoldable pub call_if : Bool → Callback → S → S
  call_if is_set cb s = if is_set then call cb s else s

  unfoldable pub handle_event : Events → S → S
  unfolding call_if
  handle_event revents s =
      if is_none_event (channel s)
      then s
      else if revents.error || revents.hang_up
      then call_if (channel s).error_callback on_error s
      else if revents.peer_hang_up
      then call_if (channel s).close_callback on_close s
      else let s1 = if revents.input then call_if (channel s).read_callback on_read s else s in
        if revents.output then call_if (channel s1).write_callback on_write s1 else s1
