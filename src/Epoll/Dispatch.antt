-- ===== src/Epoll/Dispatch.antt =====
-- `CallReadyListCallbacks` and the events part of `WaitForEventsAndCallHandleEvents`. What a
-- callback's `OnEvent` does to the server is a list of calls of its public methods, chosen freely.
pub mod Safety
pub mod Waking
use raner.Common.{
  ℕ, zero, suc, ◌+◌, ◌≤◌, ◌<◌, Bool, true, false, not, Option, none, some, List, [], ◌∷◌, length,
  bit_or, ltb, ◌==◌, if◌then◌else◌, update, Outcome, ok, fault, assertion, fatal, bad_pointer,
  require, ◌>>=◌, ◌>>◌,
}
use raner.Kernel.{Kernel}
use raner.Epoll.{
  CbAndEventMask, EpollServer, is_empty, deref, put, add_to_ready_list, remove_from_ready_list,
  register_fd, unregister_fd, modify_fd, handle_event, set_fd_ready, set_fd_not_ready,
}

pub data Action : Type 0 where
  register : ℕ → ℕ → ℕ → Action
  unregister : ℕ → Action
  modify : ℕ → ℕ → ℕ → Action
  event : ℕ → ℕ → Action
  ready : ℕ → ℕ → Action
  not_ready : ℕ → Action

-- `OnEvent` of the callback `cb`, by the descriptor and `in_events`: what it calls on the server,
-- and `out_ready_mask` when it returns.
abbrev pub Handler : Type 0
Handler = ℕ → ℕ → ℕ → List Action × ℕ

module _ (os : Kernel) where
  pub act : Action → EpollServer os → Outcome (EpollServer os)
  act (register fd cb mask) s = register_fd os fd cb mask s
  act (unregister fd) s = unregister_fd os fd s
  act (modify fd remove_event add_event) s = modify_fd os fd remove_event add_event s
  act (event fd mask) s = handle_event os fd mask s
  act (ready fd mask) s = set_fd_ready os fd mask s
  act (not_ready fd) s = set_fd_not_ready os fd s

  pub act_all : List Action → EpollServer os → Outcome (EpollServer os)
  act_all [] s = ok s
  act_all (a ∷ as₁) s = act a s >>= act_all as₁

  -- After `OnEvent`: the end of `in_use_guard`, and the entry is dropped or put back on the list.
  pub finish : ℕ → Bool → ℕ → EpollServer os → Outcome (EpollServer os)
  finish fd was_in_use out_ready_mask s = deref os s fd (λ e₀.
      let e = record e₀ { in_use = was_in_use } in
      let s₁ = put os s fd e in
      elim e.cb [
        | none ↦ ok (record s₁ { cb_map = update s₁.cb_map fd none })
        | some cb ↦
            let e₁ = record e { events_to_fake = out_ready_mask } in
            ok (if out_ready_mask == 0 then s₁ else add_to_ready_list os fd e₁ (put os s₁ fd e₁))
      ])

  -- One round of the loop on `tmp_list_`, for the entry at its head.
  pub dispatch_one : Handler → ℕ → EpollServer os → Outcome (EpollServer os)
  unfolding finish
  dispatch_one on_event fd s = do
    require (ltb 0 s.ready_list_size) assertion
    s₁ ← deref os s fd (λ e. remove_from_ready_list os fd e s)
    deref os s₁ fd (λ e.
        let in_events = bit_or e.events_asserted e.events_to_fake in
        elim e.cb [
          | none ↦ fault bad_pointer
          | some cb ↦
              let (actions, out_ready_mask) = on_event cb fd in_events in
              act_all actions
                (put os s₁ fd (record e { events_asserted = 0; events_to_fake = 0; in_use = true }))
              >>= finish fd e.in_use out_ready_mask
        ])

  -- The loop, with fuel for its rounds; without fuel it is taken for stuck.
  pub dispatch : ℕ → Handler → EpollServer os → Outcome (EpollServer os)
  dispatch zero on_event s = if is_empty s.tmp_list then ok s else fault assertion
  dispatch (suc fuel) on_event s = elim s.tmp_list [
    | [] ↦ ok s
    | fd ∷ rest ↦ dispatch_one on_event fd s >>= dispatch fuel on_event
  ]

  -- Each round takes an entry off `tmp_list_`, and nothing puts one on it.
  pub call_ready_list_callbacks : Handler → EpollServer os → Outcome (EpollServer os)
  unfolding dispatch dispatch_one
  call_ready_list_callbacks on_event s = do
    require (is_empty s.tmp_list) assertion
    dispatch (length s.ready_list) on_event
        (record s { ready_list = s.tmp_list; tmp_list = s.ready_list })

  -- The events that `epoll_wait` delivered, each a descriptor with its mask.
  pub handle_events : List (ℕ × ℕ) → EpollServer os → Outcome (EpollServer os)
  handle_events [] s = ok s
  handle_events ((fd, mask) ∷ events) s = handle_event os fd mask s >>= handle_events events

  -- `WaitForEventsAndCallHandleEvents` from the return of `epoll_wait` on.
  pub handle_and_call : Handler → List (ℕ × ℕ) → EpollServer os → Outcome (EpollServer os)
  unfolding handle_events call_ready_list_callbacks
  handle_and_call on_event events s = do
    s₁ ← handle_events events s
    if is_empty s₁.ready_list then ok s₁ else call_ready_list_callbacks on_event s₁
