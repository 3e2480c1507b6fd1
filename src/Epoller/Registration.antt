-- ===== src/Epoller/Registration.antt =====
-- Epoller: what is registered after `AddFd`, `ModFd` and `DelFd`.
use light_rpc.Prelude.{ℕ, ◌≡◌, true, Option, none, some, arith, Option-cases, inl, inr}
use light_rpc.Prelude.Int.{pos}
use light_rpc.Channel.{Events}
use light_rpc.Epoller.{CtlOp, add, mod_op, EpollEvent, make_event, mod_fd}

-- What epoll_ctl(2) documents, over the interest list of an instance.
pub record Documented {K : Type 0} (ctl : CtlOp → ℕ → EpollEvent → K → Option ℕ × K) (enoent : ℕ)
    (interest : K → ℕ → Option EpollEvent) : Type 0 where
  pub mod_absent :
      (k : K) (fd : ℕ) (e : EpollEvent)
      → interest k fd ≡ none
      → ctl mod_op fd e k ≡ (some enoent, k)
  pub mod_present :
      (k : K) (fd : ℕ) (e old : EpollEvent)
      → interest k fd ≡ some old
      → ((ctl mod_op fd e k).0 ≡ none) × (interest (ctl mod_op fd e k).1 fd ≡ some e)
  pub add_absent :
      (k : K) (fd : ℕ) (e : EpollEvent)
      → interest k fd ≡ none
      → ((ctl add fd e k).0 ≡ none) × (interest (ctl add fd e k).1 fd ≡ some e)

module _ {K : Type 0} (ctl : CtlOp → ℕ → EpollEvent → K → Option ℕ × K) (enoent garbage : ℕ)
    (interest : K → ℕ → Option EpollEvent) (doc : Documented ctl enoent interest) where
  -- `ModFd` registers the descriptor whether or not it was registered: afterwards the kernel
  -- watches for exactly the channel's events and EPOLLRDHUP, and hands out the channel's address.
  pub mod_fd-registers :
      (fd channel : ℕ) (events : Events) (k : K)
      → ((mod_fd ctl enoent garbage (pos fd) events channel k).0 ≡ true)
        × (interest (mod_fd ctl enoent garbage (pos fd) events channel k).1 fd
            ≡ some (record { events = record events { peer_hang_up = true }; payload = channel }))
  unfolding mod_fd
  mod_fd-registers fd channel events k = elim (Option-cases (interest k fd)) [
    | inl absent ↦ ground (
      arith,
      doc.mod_absent k fd (make_event fd events channel garbage) absent,
      doc.add_absent k fd (make_event fd events channel garbage) absent,
    )
    | inr (old, present) ↦
        ground (arith, doc.mod_present k fd (make_event fd events channel garbage) old present)
  ]
