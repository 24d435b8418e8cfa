-- ===== src/Epoll/Invariant/Register.antt =====
-- `RegisterFD` keeps the invariant, on each of its branches.
use raner.Common.{
  ℕ, ◌≡◌, refl, sym, ap, ◌∙◌, false, some, List, update, arith, ◌==◌, Bool-cases, Option-cases, inl,
  inr, ok, ◌>>=◌, bit_and, bit_or,
}
use raner.Kernel.{Kernel, Ctl, ctl_add, ctl_mod, watched_mask}
use raner.Epoll.{
  CbAndEventMask, EpollServer, Call, on_registration, record_call, watched, register_fd,
  set_nonblocking, fresh_entry, nonblock,
}
use raner.Epoll.Invariant.{Inv, Keeps, Returns, linked_in, in_use_in}
use raner.Epoll.Invariant.ReadyList.{remove_from_ready_list_lem}
use raner.Epoll.Invariant.Methods.{Keeps-trans, set_slot-Keeps}

module _ (os : Kernel) where
  open os use {State, interest, epoll_ctl, epoll_ctl_law, get_flags, set_flags, set_flags_law}

  kernel-Keeps :
      (k : State) (cs : List Call) (s : EpollServer os)
      → Inv os s
      → ((j : ℕ) → interest k j ≡ interest s.kernel j)
      → Keeps os s (record s { kernel = k; calls = cs })
  kernel-Keeps k cs s v same = record {
    inv = record {
      links = v.links;
      distinct = v.distinct;
      size = v.size;
      sound = v.sound;
      watches = λ j. same j ∙ v.watches j;
    };
    same_use = λ j. refl;
    shorter = omega arith;
  }

  -- The end of `RegisterFD`.
  set_nonblocking-Keeps :
      (fd : ℕ) (c : Call) (s₀ s : EpollServer os)
      → Keeps os s₀ s
      → Returns os (Keeps os s₀) (set_nonblocking os fd s >>= λ s'. ok (record_call os c s'))
  unfolding set_nonblocking
  set_nonblocking-Keeps fd c s₀ s kept = elim (Option-cases (get_flags s.kernel fd)) [
    | inl bad ↦ rw (bad, Returns) tt
    | inr (flags, good) ↦ elim (Bool-cases (bit_and flags (nonblock os) == 0)) [
      | inl blocking ↦ elim (Option-cases (set_flags s.kernel fd (bit_or flags (nonblock os)))) [
        | inl bad ↦ rw (good, blocking, bad, Returns) tt
        | inr (k, set) ↦
            rw (good, blocking, set, Returns)
              (Keeps-trans os kept (
                kernel-Keeps k _ s kept.inv
                  (λ j. set_flags_law s.kernel fd (bit_or flags (nonblock os)) k j set)))
      ]
      | inr already ↦
          rw (good, already, Returns)
            (Keeps-trans os kept (kernel-Keeps s.kernel _ s kept.inv (λ j. refl)))
    ]
  ]

  registered : ℕ → ℕ → CbAndEventMask → CbAndEventMask
  registered cb mask e = record e { cb = some cb; event_mask = mask; events_to_fake = 0 }

  -- The slot is taken over, with the kernel told by ADD or by MOD.
  take_slot-Keeps :
      (op : Ctl) (fd cb mask : ℕ) (e : CbAndEventMask) (cs : List Call) (s : EpollServer os)
      (k : State)
      → Inv os s
      → linked_in (s.cb_map fd) ≡ e.linked
      → in_use_in (s.cb_map fd) ≡ e.in_use
      → epoll_ctl s.kernel op fd (watched os mask) ≡ some k
      → watched_mask op (watched os mask) ≡ some (watched os mask)
      → Keeps os s (record s {
        cb_map = update s.cb_map fd (some (registered cb mask e));
        kernel = k;
        calls = cs;
      })
  unfolding registered
  take_slot-Keeps op fd cb mask e cs s k v l u good w =
      set_slot-Keeps os fd (some (registered cb mask e)) k cs s v (sym l) (sym u) refl (λ j.
        epoll_ctl_law s.kernel op fd (watched os mask) k j good
        ∙ ap (λ m. update (interest s.kernel) fd m j) w)

  pub register_fd-Keeps :
      (fd cb mask : ℕ) (s : EpollServer os)
      → Inv os s
      → Returns os (Keeps os s) (register_fd os fd cb mask s)
  unfolding register_fd registered
  register_fd-Keeps fd cb mask s v = elim (Option-cases (s.cb_map fd)) [
    | inl new ↦ elim (Option-cases (epoll_ctl s.kernel ctl_add fd (watched os mask))) [
      | inl bad ↦ rw (new, bad) tt
      | inr (k, good) ↦
          rw (new, good)
            (set_nonblocking-Keeps fd (on_registration cb fd mask) s _ (
              take_slot-Keeps ctl_add fd cb mask (fresh_entry os cb mask) s.calls s k v
                (ap linked_in new) (ap in_use_in new) good refl))
    ]
    | inr (e, at) ↦ elim (Option-cases e.cb) [
      | inl null ↦ elim (Option-cases (epoll_ctl s.kernel ctl_add fd (watched os mask))) [
        | inl bad ↦ rw (at, null, bad) tt
        | inr (k, good) ↦
            rw (at, null, good)
              (rw (at, Returns)
                (set_nonblocking-Keeps fd (on_registration cb fd mask) s _ (
                  take_slot-Keeps ctl_add fd cb mask e s.calls s k v (ap linked_in at)
                    (ap in_use_in at) good refl)))
      ]
      | inr (other, live) ↦
          let (t, done, kept, at', same, _) = remove_from_ready_list_lem os fd e s v at in
          elim (Option-cases (epoll_ctl t.kernel ctl_mod fd (watched os mask))) [
            | inl bad ↦ rw (at, live, done, bad) tt
            | inr (k, good) ↦
                rw (at, live, done, good)
                  (rw (at', Returns)
                    (set_nonblocking-Keeps fd (on_registration cb fd mask) s _ (
                      Keeps-trans os kept (
                        take_slot-Keeps ctl_mod fd cb mask (record e { linked = false }) _ t k
                          kept.inv (ap linked_in at') (ap in_use_in at') good refl))))
          ]
    ]
  ]
