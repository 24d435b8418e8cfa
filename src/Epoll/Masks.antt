-- ===== src/Epoll/Masks.antt =====
-- `StartRead`, `StopRead`, `StartWrite` and `StopWrite` against `HasRegisterRead` and
-- `HasRegisterWrite`.
use raner.Common.{
  ℕ, ◌+◌, ◌-◌, ◌^◌, ◌<◌, min, max, ◌≡◌, ap, ◌∙◌, ◌≢◌, Bool, true, false, Option, some, arith,
  bit_and, ◌==◌, update, Option-cases, inl, inr, Outcome, ok, Ends, Ends-map, Ends-self,
}
use raner.Common.Bits.{bit0, bit2, bit_and_one, bit_and_four, bit_or_bits, bit_and_bits}
use raner.Kernel.{Kernel, ctl_mod}
use raner.Epoll.{
  CbAndEventMask, EpollServer, epoll_in, epoll_out, complement, modified, modify_fd, start_read,
  stop_read, start_write, stop_write, has_register_read, has_register_write, watched,
}

complement_bits :
    (r : ℕ) → r < 2 ^ 32 → (bit0 (complement r) + bit0 r ≡ 1) × (bit2 (complement r) + bit2 r ≡ 1)
complement_bits r h = omega arith

module _ (os : Kernel) where
  -- What `ModifyFD` makes of the bits of EPOLLIN and EPOLLOUT: first removed, then added.
  pub modified_bits :
      (m r a : ℕ)
      → r < 2 ^ 32
      → (bit0 (modified os m r a) ≡ max (min (bit0 m) (1 - bit0 r)) (bit0 a))
        × (bit2 (modified os m r a) ≡ max (min (bit2 m) (1 - bit2 r)) (bit2 a))
  modified_bits m r a h = omega (
    arith,
    bit_or_bits (bit_and m (complement r)) a,
    bit_and_bits m (complement r),
    complement_bits r h,
  )

  -- `ModifyFD` on a registered descriptor changes its event mask and no other entry.
  pub modify_fd_lem :
      (fd r a : ℕ) (e : CbAndEventMask) (cb : ℕ) (s s' : EpollServer os)
      → s.cb_map fd ≡ some e
      → e.cb ≡ some cb
      → modify_fd os fd r a s ≡ ok s'
      → (s'.cb_map
          ≡ update s.cb_map fd (some (record e { event_mask = modified os e.event_mask r a })))
        × (s'.ready_list ≡ s.ready_list)
        × (s'.tmp_list ≡ s.tmp_list)
  unfolding modify_fd
  modify_fd_lem fd r a e cb s s' at live done =
      elim (Option-cases
        (os.epoll_ctl s.kernel ctl_mod fd (watched os (modified os e.event_mask r a)))) [
          | inl bad ↦ ground arith
          | inr (k, good) ↦ ground arith
        ]

  has_bits :
      (fd : ℕ) (e : CbAndEventMask) (s : EpollServer os)
      → s.cb_map fd ≡ some e
      → (has_register_read os fd s ≡ (bit0 e.event_mask == 1))
        × (has_register_write os fd s ≡ (bit2 e.event_mask == 1))
  unfolding has_register_read has_register_write
  has_bits fd e s at = ground (arith, bit_and_one e.event_mask, bit_and_four e.event_mask)

  has_elsewhere :
      (fd j : ℕ) (slot : Option CbAndEventMask) (s s' : EpollServer os)
      → j ≢ fd
      → s'.cb_map ≡ update s.cb_map fd slot
      → (has_register_read os j s' ≡ has_register_read os j s)
        × (has_register_write os j s' ≡ has_register_write os j s)
  unfolding has_register_read has_register_write
  has_elsewhere fd j slot s s' other e =
      let same : s'.cb_map j ≡ s.cb_map j =
        ap (λ (t : ℕ → Option CbAndEventMask). t j) e ∙ ground arith in
      ground (arith, same)

  -- `StartWrite` or `StopWrite`; `StartRead` or `StopRead`.
  abbrev pub switch_write : Bool → ℕ → EpollServer os → Outcome (EpollServer os)
  switch_write true fd s = start_write os fd s
  switch_write false fd s = stop_write os fd s

  abbrev pub switch_read : Bool → ℕ → EpollServer os → Outcome (EpollServer os)
  switch_read true fd s = start_read os fd s
  switch_read false fd s = stop_read os fd s

  -- The events registered for every descriptor but `fd` are as they were.
  abbrev pub SameElsewhere : ℕ → EpollServer os → EpollServer os → Type 0
  SameElsewhere fd s s' =
      (j : ℕ)
      → j ≢ fd
      → (has_register_read os j s' ≡ has_register_read os j s)
        × (has_register_write os j s' ≡ has_register_write os j s)

  has-modify_fd :
      (fd r a cb : ℕ) (e : CbAndEventMask) (s s' : EpollServer os)
      → r < 2 ^ 32
      → s.cb_map fd ≡ some e
      → e.cb ≡ some cb
      → modify_fd os fd r a s ≡ ok s'
      → (has_register_read os fd s' ≡ (max (min (bit0 e.event_mask) (1 - bit0 r)) (bit0 a) == 1))
        × (has_register_write os fd s' ≡ (max (min (bit2 e.event_mask) (1 - bit2 r)) (bit2 a) == 1))
        × SameElsewhere fd s s'
  has-modify_fd fd r a cb e s s' h at live done =
      let (map, _, _) = modify_fd_lem fd r a e cb s s' at live done in
      let e' = record e { event_mask = modified os e.event_mask r a } in
      let at' : s'.cb_map fd ≡ some e' =
        ap (λ (t : ℕ → Option CbAndEventMask). t fd) map ∙ ground arith in
      let (b0, b2) = modified_bits e.event_mask r a h in
      (
        rw (← b0) (has_bits fd e' s' at').0,
        rw (← b2) (has_bits fd e' s' at').1,
        λ j other. has_elsewhere fd j (some e') s s' other map,
      )

  -- When StartWrite (StopWrite) of a registered descriptor returns, HasRegisterWrite is true
  -- (false) of it, and HasRegisterRead of it and both of any other descriptor are as before.
  pub has_register_write-switch_write :
      (on : Bool) (fd cb : ℕ) (e : CbAndEventMask) (s s' : EpollServer os)
      → s.cb_map fd ≡ some e
      → e.cb ≡ some cb
      → switch_write on fd s ≡ ok s'
      → (has_register_write os fd s' ≡ on)
        × (has_register_read os fd s' ≡ has_register_read os fd s)
        × SameElsewhere fd s s'
  unfolding start_write stop_write
  has_register_write-switch_write true fd cb e s s' at live done =
      let (rd, wr, rest) = has-modify_fd fd 0 epoll_out cb e s s' (omega arith) at live done in
      (ground (arith, wr), ground (arith, rd, has_bits fd e s at), rest)
  has_register_write-switch_write false fd cb e s s' at live done =
      let (rd, wr, rest) = has-modify_fd fd epoll_out 0 cb e s s' (omega arith) at live done in
      (ground (arith, wr), ground (arith, rd, has_bits fd e s at), rest)

  -- When StartRead (StopRead) of a registered descriptor returns, HasRegisterRead is true (false)
  -- of it, and HasRegisterWrite of it and both of any other descriptor are as before.
  pub has_register_read-switch_read :
      (on : Bool) (fd cb : ℕ) (e : CbAndEventMask) (s s' : EpollServer os)
      → s.cb_map fd ≡ some e
      → e.cb ≡ some cb
      → switch_read on fd s ≡ ok s'
      → (has_register_read os fd s' ≡ on)
        × (has_register_write os fd s' ≡ has_register_write os fd s)
        × SameElsewhere fd s s'
  unfolding start_read stop_read
  has_register_read-switch_read true fd cb e s s' at live done =
      let (rd, wr, rest) = has-modify_fd fd 0 epoll_in cb e s s' (omega arith) at live done in
      (ground (arith, rd), ground (arith, wr, has_bits fd e s at), rest)
  has_register_read-switch_read false fd cb e s s' at live done =
      let (rd, wr, rest) = has-modify_fd fd epoll_in 0 cb e s s' (omega arith) at live done in
      (ground (arith, rd), ground (arith, wr, has_bits fd e s at), rest)

  -- The descriptor has a callback in the server.
  abbrev pub IsRegistered : ℕ → EpollServer os → Type 0
  IsRegistered fd s = (e : CbAndEventMask) × (cb : ℕ) × (s.cb_map fd ≡ some e) × (e.cb ≡ some cb)

  modify_fd-Ends_any :
      (fd r a : ℕ) (s : EpollServer os)
      → IsRegistered fd s
      → Ends (λ s'. Unit {0}) (modify_fd os fd r a s)
  unfolding modify_fd
  modify_fd-Ends_any fd r a s (e, cb, at, live) =
      elim (Option-cases
        (os.epoll_ctl s.kernel ctl_mod fd (watched os (modified os e.event_mask r a)))) [
          | inl bad ↦ rw (at, live, bad, Ends) tt
          | inr (k, good) ↦ rw (at, live, good, Ends) tt
        ]

  modify_fd-Ends :
      (fd r a : ℕ) (s : EpollServer os)
      → IsRegistered fd s
      → Ends (λ s'. modify_fd os fd r a s ≡ ok s') (modify_fd os fd r a s)
  modify_fd-Ends fd r a s registered =
      Ends-self (modify_fd os fd r a s) (modify_fd-Ends_any fd r a s registered)

  stays_registered :
      (fd r a : ℕ) (s s' : EpollServer os)
      → IsRegistered fd s
      → modify_fd os fd r a s ≡ ok s'
      → IsRegistered fd s'
  stays_registered fd r a s s' (e, cb, at, live) done =
      let (map, _, _) = modify_fd_lem fd r a e cb s s' at live done in
      (
        record e { event_mask = modified os e.event_mask r a },
        cb,
        ap (λ (t : ℕ → Option CbAndEventMask). t fd) map ∙ ground arith,
        live,
      )

  pub start_write-Ends :
      (fd : ℕ) (s : EpollServer os)
      → IsRegistered fd s
      → Ends (λ s'. IsRegistered fd s' × (has_register_write os fd s' ≡ true)) (start_write os fd s)
  unfolding start_write
  start_write-Ends fd s (e, cb, at, live) =
      Ends-map _ _ (modify_fd os fd 0 epoll_out s)
        (λ s' done. (
          stays_registered fd 0 epoll_out s s' (e, cb, at, live) done,
          (has_register_write-switch_write true fd cb e s s' at live done).0,
        ))
        (modify_fd-Ends fd 0 epoll_out s (e, cb, at, live))

  pub stop_write-Ends :
      (fd : ℕ) (s : EpollServer os)
      → IsRegistered fd s
      → Ends (λ s'. IsRegistered fd s' × (has_register_write os fd s' ≡ false)) (stop_write os fd s)
  unfolding stop_write
  stop_write-Ends fd s (e, cb, at, live) =
      Ends-map _ _ (modify_fd os fd epoll_out 0 s)
        (λ s' done. (
          stays_registered fd epoll_out 0 s s' (e, cb, at, live) done,
          (has_register_write-switch_write false fd cb e s s' at live done).0,
        ))
        (modify_fd-Ends fd epoll_out 0 s (e, cb, at, live))
