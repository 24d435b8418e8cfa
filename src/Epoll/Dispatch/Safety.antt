-- ===== src/Epoll/Dispatch/Safety.antt =====
-- `CallReadyListCallbacks` ends, whatever the callbacks do, and never follows a stale pointer.
use raner.Common.{
  ℕ, zero, suc, ◌≤◌, ◌<◌, ◌≡◌, sym, ap, subst, ◌∙◌, Bool, true, false, none, some, List, [], ◌∷◌,
  ◌++◌, append-nil, length, remove, update, arith, ◌==◌, if◌then◌else◌, Bool-cases, Option-cases,
  inl, inr, ltb, List-cases, AreDistinct, length-remove_le, Outcome, ok, fault, fatal, length_error,
  bad_pointer, ◌>>=◌, assertion, bit_or,
}
use raner.Kernel.{Kernel}
use raner.Epoll.{CbAndEventMask, EpollServer, is_empty, add_to_ready_list, put}
use raner.Epoll.Dispatch.{
  Action, register, unregister, modify, event, ready, not_ready, Handler, act, act_all, finish,
  dispatch_one, dispatch, call_ready_list_callbacks,
}
use raner.Epoll.Invariant.{Inv, Keeps, Returns, linked_in, in_use_in}
use raner.Epoll.Invariant.ReadyList.{remove_from_ready_list_lem, add_to_ready_list-Inv}
use raner.Epoll.Invariant.Methods.{
  Keeps-refl, Keeps-trans, set_slot-Inv, modify_fd-Keeps, handle_event-Keeps, set_fd_ready-Keeps,
  set_fd_not_ready-Keeps, unregister_fd-Keeps,
}
use raner.Epoll.Invariant.Register.{register_fd-Keeps}

module _ (os : Kernel) where
  open os use {interest}

  -- The rule for a bind.
  pub Returns-bind :
      (P Q : EpollServer os → Type 0) (m : Outcome (EpollServer os))
      (f : EpollServer os → Outcome (EpollServer os))
      → Returns os P m
      → ((t : EpollServer os) → P t → Returns os Q (f t))
      → Returns os Q (m >>= f)
  Returns-bind P Q (ok s) f p k = k s p
  Returns-bind P Q (fault fatal) f p k = tt
  Returns-bind P Q (fault assertion) f p k = absurd p
  Returns-bind P Q (fault length_error) f p k = absurd p
  Returns-bind P Q (fault bad_pointer) f p k = absurd p

  pub Returns-map :
      (P Q : EpollServer os → Type 0) (m : Outcome (EpollServer os))
      → ((s : EpollServer os) → P s → Q s)
      → Returns os P m
      → Returns os Q m
  Returns-map P Q (ok s) f p = f s p
  Returns-map P Q (fault fatal) f p = tt
  Returns-map P Q (fault assertion) f p = p
  Returns-map P Q (fault length_error) f p = p
  Returns-map P Q (fault bad_pointer) f p = p

  pub act-Keeps :
      (a : Action) (s : EpollServer os) → Inv os s → Returns os (Keeps os s) (act os a s)
  unfolding act
  act-Keeps (register fd cb mask) s v = register_fd-Keeps os fd cb mask s v
  act-Keeps (unregister fd) s v = unregister_fd-Keeps os fd s v
  act-Keeps (modify fd r a) s v = modify_fd-Keeps os fd r a s v
  act-Keeps (event fd mask) s v = handle_event-Keeps os fd mask s v
  act-Keeps (ready fd mask) s v = set_fd_ready-Keeps os fd mask s v
  act-Keeps (not_ready fd) s v = set_fd_not_ready-Keeps os fd s v

  act_all-Keeps-from :
      (actions : List Action) (s₀ s : EpollServer os)
      → Keeps os s₀ s
      → Returns os (Keeps os s₀) (act_all os actions s)
  unfolding act_all
  act_all-Keeps-from [] s₀ s k = k
  act_all-Keeps-from (a ∷ rest) s₀ s k =
      Returns-bind (Keeps os s) (Keeps os s₀) (act os a s) (act_all os rest) (act-Keeps a s k.inv)
        (λ t l. act_all-Keeps-from rest s₀ t (Keeps-trans os k l))

  -- Any sequence of calls of RegisterFD, UnregisterFD, ModifyFD, HandleEvent, SetFDReady and
  -- SetFDNotReady keeps the invariant of the descriptor table, the ready list and the kernel's
  -- interest set; it can only be cut short by an error of a system call.
  pub act_all-Keeps :
      (actions : List Action) (s : EpollServer os)
      → Inv os s
      → Returns os (Keeps os s) (act_all os actions s)
  act_all-Keeps actions s v = act_all-Keeps-from actions s s (Keeps-refl os s v)

  -- The state after a round that began in `s`.
  abbrev Round : EpollServer os → EpollServer os → Type 0
  Round s s' = Inv os s' × (length s'.tmp_list < length s.tmp_list)

  erased-Inv :
      (fd : ℕ) (e : CbAndEventMask) (was : Bool) (s : EpollServer os)
      → Inv os s
      → s.cb_map fd ≡ some e
      → e.cb ≡ none
      → Inv os (record s {
        cb_map = update (update s.cb_map fd (some (record e { in_use = was }))) fd none;
      })
  erased-Inv fd e was s v at null = record {
    links = λ j. ground (arith, v.links j, v.links fd, v.sound fd);
    distinct = v.distinct;
    size = v.size;
    sound = λ j. ground (arith, v.sound j);
    watches = λ j. ground (arith, v.watches j, v.watches fd);
  }

  finish-Inv :
      (fd : ℕ) (was : Bool) (out : ℕ) (s : EpollServer os)
      → Inv os s
      → in_use_in (s.cb_map fd) ≡ true
      → Returns os
          (λ s'. Inv os s' × (length s'.tmp_list ≤ length s.tmp_list))
          (finish os fd was out s)
  unfolding finish
  finish-Inv fd was out s v busy = elim (Option-cases (s.cb_map fd)) [
    | inl gone ↦ absurd (ground (arith, ap in_use_in gone))
    | inr (e, at) ↦ elim (Option-cases e.cb) [
      | inl null ↦ rw (at, null, Returns) (erased-Inv fd e was s v at null, omega arith)
      | inr (cb, live) ↦ rw (at, live, Returns) (kept-Inv e cb at live)
    ]
  ]
    where
      kept-Inv :
          (e : CbAndEventMask) (cb : ℕ)
          → s.cb_map fd ≡ some e
          → e.cb ≡ some cb
          → let e' = record e { in_use = was } in
            let s₁ = put os s fd e' in
            let e″ = record e' { events_to_fake = out } in
            let s' = if out == 0 then s₁ else add_to_ready_list os fd e″ (put os s₁ fd e″) in
            Inv os s' × (length s'.tmp_list ≤ length s.tmp_list)
      kept-Inv e cb at live =
          let e' = record e { in_use = was } in
          let s₁ = put os s fd e' in
          let e″ = record e' { events_to_fake = out } in
          let v₁ : Inv os s₁ =
            set_slot-Inv os fd (some e') s.kernel s.calls s v (ground arith) (ground arith)
              (λ j. ground (arith, v.watches j, v.watches fd)) in
          let v₂ : Inv os (put os s₁ fd e″) =
            set_slot-Inv os fd (some e″) s.kernel s.calls s₁ v₁ (ground arith) (ground arith)
              (λ j. ground (arith, v₁.watches j, v₁.watches fd)) in
          let k =
            add_to_ready_list-Inv os fd e″ (put os s₁ fd e″) v₂ (ground arith) (ground arith) in
          elim (Bool-cases (out == 0)) [
            | inl quiet ↦ rw quiet (v₁, omega arith)
            | inr again ↦ rw again (k.inv, k.shorter)
          ]

  -- A round takes the head of `tmp_list_` off. Its entry has a callback, and is still there when
  -- `OnEvent` returns.
  dispatch_one-Round :
      (on_event : Handler) (fd : ℕ) (rest : List ℕ) (s : EpollServer os)
      → Inv os s
      → s.tmp_list ≡ fd ∷ rest
      → Returns os (Round s) (dispatch_one os on_event fd s)
  unfolding dispatch_one
  dispatch_one-Round on_event fd rest s v first = elim (Option-cases (s.cb_map fd)) [
    | inl gone ↦ absurd (ground (arith, linked, ap linked_in gone))
    | inr (e, at) ↦ elim (Option-cases e.cb) [
      | inl null ↦ absurd (ground (arith, linked, v.sound fd, at, null))
      | inr (cb, live) ↦
          let (t, done, kept, at', same, cut) = remove_from_ready_list_lem os fd e s v at in
          let e₁ : CbAndEventMask = record e {
            linked = false;
            events_asserted = 0;
            events_to_fake = 0;
            in_use = true;
          } in
          let u = put os t fd e₁ in
          let vu : Inv os u =
            set_slot-Inv os fd (some e₁) t.kernel t.calls t kept.inv (ground arith) (ground arith)
              (λ j. ground (arith, kept.inv.watches j, kept.inv.watches fd)) in
          let (actions, out) = on_event cb fd (bit_or e.events_asserted e.events_to_fake) in
          rw counted (
            rw (at, done, Returns)
              (rw (at', live, Returns)
                (Returns-bind (Keeps os u) (Round s) (act_all os actions u)
                  (finish os fd e.in_use out) (act_all-Keeps actions u vu)
                  (λ w kw.
                    Returns-map (λ s'. Inv os s' × (length s'.tmp_list ≤ length w.tmp_list))
                      (Round s) (finish os fd e.in_use out w)
                      (λ s' p. (p.0, omega (arith, p.1, kw.shorter, ap length cut, shorter)))
                      (finish-Inv fd e.in_use out w kw.inv (kw.same_use fd ∙ ground arith))))))
    ]
  ]
    where
      linked : linked_in (s.cb_map fd) ≡ true
      linked = ground (arith, v.links fd)

      counted : ltb 0 s.ready_list_size ≡ true
      counted = ground (arith, v.size)

      shorter : length (remove fd s.tmp_list) < length s.tmp_list
      shorter = ground (arith, length-remove_le fd rest)

  dispatch_end :
      (fuel : ℕ) (on_event : Handler) (s : EpollServer os)
      → s.tmp_list ≡ []
      → dispatch os fuel on_event s ≡ ok s
  unfolding dispatch
  dispatch_end zero on_event s e = ground arith
  dispatch_end (suc fuel) on_event s e = ground arith

  dispatch-Done :
      (fuel : ℕ) (on_event : Handler) (s : EpollServer os)
      → Inv os s
      → length s.tmp_list ≤ fuel
      → Returns os (λ s'. Inv os s' × (s'.tmp_list ≡ [])) (dispatch os fuel on_event s)
  unfolding dispatch
  dispatch-Done zero on_event s v h = elim (List-cases s.tmp_list) [
    | inl empty ↦
        subst (Returns os (λ s'. Inv os s' × (s'.tmp_list ≡ [])))
          (sym (dispatch_end zero on_event s empty)) (v, empty)
    | inr (fd, rest, some_left) ↦ absurd (omega (arith, ap length some_left))
  ]
  dispatch-Done (suc fuel) on_event s v h = elim (List-cases s.tmp_list) [
    | inl empty ↦
        subst (Returns os (λ s'. Inv os s' × (s'.tmp_list ≡ [])))
          (sym (dispatch_end (suc fuel) on_event s empty)) (v, empty)
    | inr (fd, rest, first) ↦
        rw (first, Returns)
          (Returns-bind (Round s) (λ s'. Inv os s' × (s'.tmp_list ≡ []))
            (dispatch_one os on_event fd s) (dispatch os fuel on_event)
            (dispatch_one-Round on_event fd rest s v first)
            (λ t r. dispatch-Done fuel on_event t r.0 (omega (arith, r.1))))
  ]

  swap_lists-Inv :
      (s : EpollServer os)
      → Inv os s
      → s.tmp_list ≡ []
      → Inv os (record s { ready_list = s.tmp_list; tmp_list = s.ready_list })
  swap_lists-Inv s v none_left = record {
    links = λ j. ground (arith, v.links j, none_left);
    distinct =
        subst AreDistinct
          (ap (λ l. s.ready_list ++ l) none_left
            ∙ append-nil s.ready_list
            ∙ ap (λ l. l ++ s.ready_list) (sym none_left))
          v.distinct;
    size = omega (arith, v.size);
    sound = v.sound;
    watches = v.watches;
  }

  -- From a state of the invariant with an empty tmp list, CallReadyListCallbacks takes every entry
  -- off the tmp list and leaves a state of the invariant, whatever the callbacks call: the loop
  -- ends, no DCHECK fails, no null callback and no erased entry is used; only an error of a system
  -- call can end the process.
  pub call_ready_list_callbacks-Done :
      (on_event : Handler) (s : EpollServer os)
      → Inv os s
      → s.tmp_list ≡ []
      → Returns os (λ s'. Inv os s' × (s'.tmp_list ≡ [])) (call_ready_list_callbacks os on_event s)
  unfolding call_ready_list_callbacks
  call_ready_list_callbacks-Done on_event s v none_left =
      rw (ap is_empty none_left, Returns)
        (dispatch-Done (length s.ready_list) on_event
          (record s { ready_list = s.tmp_list; tmp_list = s.ready_list })
          (swap_lists-Inv s v none_left) (omega arith))
