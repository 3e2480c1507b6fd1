-- ===== src/Epoller.antt =====
-- code/network/epoll/epoller.h and epoller.cc: registration with the kernel's epoll instance. The
-- kernel is a parameter: `ctl` is `epoll_ctl` (`none` is success, else the `errno`), on a state `K`.
pub mod Registration
mod Tests
use light_rpc.Prelude.{
  ℕ, ◌+◌, ◌-◌, ◌%◌, Bool, true, false, List, Option, none, some, if◌then◌else◌, ◌==◌, get_elem?,
}
use light_rpc.Prelude.Int.{ℤ, pos, negsuc}
use light_rpc.Prelude.Words.{u32_mod}
use light_rpc.Channel.{Events, no_events}

pub data CtlOp : Type 0 where
  add mod_op del : CtlOp

-- `struct epoll_event`; `data` is the eight bytes of the union, as a number.
pub record EpollEvent : Type 0 where
  pub events : Events
  pub payload : ℕ

-- `ev.data.fd = fd` writes the low four bytes, `ev.data.ptr = channel` all eight.
abbrev pub set_fd : ℕ → ℕ → ℕ
set_fd fd payload = payload - payload % u32_mod + fd % u32_mod

abbrev pub set_ptr : ℕ → ℕ → ℕ
set_ptr ptr payload = ptr

-- A channel is its address, and `nullptr` is 0. `garbage` is what the uninitialised `ev` holds.
abbrev pub make_event : ℕ → Events → ℕ → ℕ → EpollEvent
make_event fd events channel garbage = record {
  events = record events { peer_hang_up = true };
  payload = set_ptr channel (set_fd fd garbage);
}

-- `GetEventFd`, `GetEvents` and `GetChannel`, of an entry that `Wait` has stored.
abbrev pub get_event_fd : EpollEvent → ℕ
get_event_fd e = e.payload % u32_mod

abbrev pub get_events : EpollEvent → Events
get_events e = e.events

abbrev pub get_channel : EpollEvent → ℕ
get_channel e = e.payload

abbrev pub is_ok : Option ℕ → Bool
is_ok none = true
is_ok (some errno) = false

module _ {K : Type 0} (ctl : CtlOp → ℕ → EpollEvent → K → Option ℕ × K) (enoent garbage : ℕ) where
  pub add_fd : ℤ → Events → ℕ → K → Bool × K
  add_fd (negsuc n) events channel k = (false, k)
  add_fd (pos fd) events channel k =
      let (r, k') = ctl add fd (make_event fd events channel garbage) k in (is_ok r, k')

  -- The second attempt of `ModFd`, after an error.
  add_unless_other : ℕ → EpollEvent → Option ℕ × K → Bool × K
  add_unless_other fd ev (none, k) = (true, k)
  add_unless_other fd ev (some errno, k) =
      if errno == enoent then (let (r, k') = ctl add fd ev k in (is_ok r, k')) else (false, k)

  pub mod_fd : ℤ → Events → ℕ → K → Bool × K
  unfolding add_unless_other
  mod_fd (negsuc n) events channel k = (false, k)
  mod_fd (pos fd) events channel k =
      let ev = make_event fd events channel garbage in add_unless_other fd ev (ctl mod_op fd ev k)

  pub del_fd : ℤ → K → Bool × K
  del_fd (negsuc n) k = (false, k)
  del_fd (pos fd) k = let (r, k') = ctl del fd (make_event fd no_events 0 0) k in (is_ok r, k')
