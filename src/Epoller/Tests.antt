-- ===== src/Epoller/Tests.antt =====
-- Tests of the registrations, with an interest list of one place.
use light_rpc.Prelude.{ℕ, ◌≡◌, refl, sym, subst, Option, none, some}
use light_rpc.Epoller.{CtlOp, add, mod_op, del, EpollEvent}
use light_rpc.Epoller.Registration.{Documented}

-- `epoll_ctl` on an instance that watches one descriptor at most: 2 is ENOENT and 17 EEXIST.
abbrev one_ctl : CtlOp → ℕ → EpollEvent → Option EpollEvent → Option ℕ × Option EpollEvent
one_ctl add fd e none = (none, some e)
one_ctl add fd e (some old) = (some 17, some old)
one_ctl mod_op fd e none = (some 2, none)
one_ctl mod_op fd e (some old) = (none, some e)
one_ctl del fd e none = (some 2, none)
one_ctl del fd e (some old) = (none, none)

abbrev one_interest : Option EpollEvent → ℕ → Option EpollEvent
one_interest k fd = k

one_ctl-Documented : Documented one_ctl 2 one_interest
one_ctl-Documented = record {
  mod_absent =
      λ k fd e absent. subst (λ k'. one_ctl mod_op fd e k' ≡ (some 2, k')) (sym absent) refl;
  mod_present = λ k fd e old present.
      subst (λ k'. ((one_ctl mod_op fd e k').0 ≡ none) × ((one_ctl mod_op fd e k').1 ≡ some e))
        (sym present) (refl, refl);
  add_absent = λ k fd e absent.
      subst (λ k'. ((one_ctl add fd e k').0 ≡ none) × ((one_ctl add fd e k').1 ≡ some e))
        (sym absent) (refl, refl);
}
