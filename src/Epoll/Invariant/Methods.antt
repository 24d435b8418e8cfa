-- ===== src/Epoll/Invariant/Methods.antt =====
-- Every public method of EpollServer on descriptors keeps the invariant.
use raner.Common.{
  ℕ, ◌≡◌, refl, ◌∙◌, true, false, none, some, List, update, arith, Bool-cases, Option-cases, inl,
  inr, Outcome,
}
use raner.Kernel.{Kernel, ctl_mod, ctl_del}
use raner.Epoll.{
  CbAndEventMask, EpollServer, Call, put, if_registered, watched, modified, modify_fd,
  unregister_fd, handle_event, set_fd_ready, set_fd_not_ready,
}
use raner.Epoll.Invariant.{Slot, Inv, Keeps, Returns, linked_in, in_use_in, is_sound, wanted}
use raner.Epoll.Invariant.ReadyList.{remove_from_ready_list_lem, add_to_ready_list-Inv}

module _ (os : Kernel) where
  open os use {State, interest, epoll_ctl, epoll_ctl_law, get_flags, set_flags, set_flags_law}

  pub Keeps-refl : (s : EpollServer os) → Inv os s → Keeps os s s
  Keeps-refl s v = record { inv = v; same_use = λ j. refl; shorter = omega arith }

  pub Keeps-trans : {s t u : EpollServer os} → Keeps os s t → Keeps os t u → Keeps os s u
  Keeps-trans k l = record {
    inv = l.inv;
    same_use = λ j. l.same_use j ∙ k.same_use j;
    shorter = omega (arith, k.shorter, l.shorter);
  }

  -- A new value for the slot of `fd`, which the kernel was told of.
  pub set_slot-Inv :
      (fd : ℕ) (slot : Slot) (k : State) (cs : List Call) (s : EpollServer os)
      → Inv os s
      → linked_in slot ≡ linked_in (s.cb_map fd)
      → is_sound slot ≡ true
      → ((j : ℕ) → interest k j ≡ update (interest s.kernel) fd (wanted os slot) j)
      → Inv os (record s { cb_map = update s.cb_map fd slot; kernel = k; calls = cs })
  set_slot-Inv fd slot k cs s v same good told = record {
    links = λ j. ground (arith, v.links j);
    distinct = v.distinct;
    size = v.size;
    sound = λ j. ground (arith, v.sound j);
    watches = λ j. told j ∙ ground (arith, v.watches j);
  }

  pub set_slot-Keeps :
      (fd : ℕ) (slot : Slot) (k : State) (cs : List Call) (s : EpollServer os)
      → Inv os s
      → linked_in slot ≡ linked_in (s.cb_map fd)
      → in_use_in slot ≡ in_use_in (s.cb_map fd)
      → is_sound slot ≡ true
      → ((j : ℕ) → interest k j ≡ update (interest s.kernel) fd (wanted os slot) j)
      → Keeps os s (record s { cb_map = update s.cb_map fd slot; kernel = k; calls = cs })
  set_slot-Keeps fd slot k cs s v same use₁ good told = record {
    inv = set_slot-Inv fd slot k cs s v same good told;
    same_use = λ j. ground arith;
    shorter = omega arith;
  }

  -- The same with the kernel left alone, where it is to watch for no other events.
  pub keep_watch-Keeps :
      (fd : ℕ) (slot : Slot) (s : EpollServer os)
      → Inv os s
      → linked_in slot ≡ linked_in (s.cb_map fd)
      → in_use_in slot ≡ in_use_in (s.cb_map fd)
      → is_sound slot ≡ true
      → wanted os slot ≡ wanted os (s.cb_map fd)
      → Keeps os s (record s { cb_map = update s.cb_map fd slot })
  keep_watch-Keeps fd slot s v same use₁ good told =
      set_slot-Keeps fd slot s.kernel s.calls s v same use₁ good
        (λ j. ground (arith, v.watches j, v.watches fd))

  -- A method that acts on registered descriptors only.
  if_registered_lem :
      (fd : ℕ) (s : EpollServer os) (f : ℕ → CbAndEventMask → Outcome (EpollServer os))
      → Inv os s
      → ((cb : ℕ) (e : CbAndEventMask)
          → s.cb_map fd ≡ some e
          → e.cb ≡ some cb
          → Returns os (Keeps os s) (f cb e))
      → Returns os (Keeps os s) (if_registered os fd s f)
  if_registered_lem fd s f v h = elim (Option-cases (s.cb_map fd)) [
    | inl e ↦ rw (e, Returns) (Keeps-refl s v)
    | inr (e, at) ↦ elim (Option-cases e.cb) [
      | inl null ↦ rw (at, null, Returns) (Keeps-refl s v)
      | inr (cb, live) ↦ rw (at, live, Returns) (h cb e at live)
    ]
  ]

  pub modify_fd-Keeps :
      (fd remove_event add_event : ℕ) (s : EpollServer os)
      → Inv os s
      → Returns os (Keeps os s) (modify_fd os fd remove_event add_event s)
  unfolding modify_fd
  modify_fd-Keeps fd r a s v = if_registered_lem fd s _ v λ cb e at live.
      let mask = modified os e.event_mask r a in
      let e' = record e { event_mask = mask } in
      elim (Option-cases (epoll_ctl s.kernel ctl_mod fd (watched os mask))) [
        | inl bad ↦ rw bad tt
        | inr (k, good) ↦ rw good (
            set_slot-Keeps fd (some e') k _ s v (ground arith) (ground arith) (ground arith)
              (λ j. epoll_ctl_law s.kernel ctl_mod fd (watched os mask) k j good ∙ ground arith))
      ]

  pub handle_event-Keeps :
      (fd mask : ℕ) (s : EpollServer os)
      → Inv os s
      → Returns os (Keeps os s) (handle_event os fd mask s)
  unfolding handle_event
  handle_event-Keeps fd mask s v = if_registered_lem fd s _ v λ cb e at live.
      let e' = record e { events_asserted = mask } in
      let kept =
        keep_watch-Keeps fd (some e') s v (ground arith) (ground arith) (ground arith)
          (ground arith) in
      Keeps-trans kept
        (add_to_ready_list-Inv os fd e' (put os s fd e') kept.inv (ground arith) (ground arith))

  pub set_fd_ready-Keeps :
      (fd events_to_fake : ℕ) (s : EpollServer os)
      → Inv os s
      → Returns os (Keeps os s) (set_fd_ready os fd events_to_fake s)
  unfolding set_fd_ready
  set_fd_ready-Keeps fd fake s v = if_registered_lem fd s _ v λ cb e at live.
      let e' = record e { events_to_fake = fake } in
      let kept =
        keep_watch-Keeps fd (some e') s v (ground arith) (ground arith) (ground arith)
          (ground arith) in
      Keeps-trans kept
        (add_to_ready_list-Inv os fd e' (put os s fd e') kept.inv (ground arith) (ground arith))

  pub set_fd_not_ready-Keeps :
      (fd : ℕ) (s : EpollServer os) → Inv os s → Returns os (Keeps os s) (set_fd_not_ready os fd s)
  unfolding set_fd_not_ready
  set_fd_not_ready-Keeps fd s v = elim (Option-cases (s.cb_map fd)) [
    | inl e ↦ rw (e, Returns) (Keeps-refl s v)
    | inr (e, at) ↦
        let (s', done, kept, _, _, _) = remove_from_ready_list_lem os fd e s v at in
        rw (at, done, Returns) kept
  ]

  pub unregister_fd-Keeps :
      (fd : ℕ) (s : EpollServer os) → Inv os s → Returns os (Keeps os s) (unregister_fd os fd s)
  unfolding unregister_fd
  unregister_fd-Keeps fd s v = if_registered_lem fd s _ v λ cb e at live.
      let (t, done, kept, at', same, _) = remove_from_ready_list_lem os fd e s v at in
      elim (Option-cases (epoll_ctl t.kernel ctl_del fd 0)) [
        | inl bad ↦ rw (done, bad) tt
        | inr (k, good) ↦ elim (Bool-cases e.in_use) [
          | inl busy ↦
              let gone : CbAndEventMask = record e {
                cb = none;
                linked = false;
                event_mask = 0;
                events_to_fake = 0;
                in_use = true;
              } in
              rw (done, good)
                (rw (at', busy, Returns)
                  (Keeps-trans kept (
                    set_slot-Keeps fd (some gone) k _ t kept.inv (ground arith) (ground arith) refl
                      (λ j. epoll_ctl_law t.kernel ctl_del fd 0 k j good))))
          | inr idle ↦
              rw (done, good)
                (rw (at', idle, Returns)
                  (Keeps-trans kept (
                    set_slot-Keeps fd none k _ t kept.inv (ground arith) (ground arith) refl
                      (λ j. epoll_ctl_law t.kernel ctl_del fd 0 k j good))))
        ]
      ]
