-- ===== src/Wait/Rounds.antt =====
-- A round of the EpollServer keeps the invariants of the descriptors and of the alarms.
use raner.Common.{
  ℕ, ◌+◌, ◌≤◌, ◌<◌, ◌≡◌, refl, sym, ap, subst, ◌∙◌, Bool, true, false, ◌||◌, Bool-cases, inl, inr,
  ◌⊎◌, Option, none, some, List, [], ◌∷◌, length, ◌==◌, arith, if◌then◌else◌, Outcome, ok, fault,
  fatal, assertion, length_error, bad_pointer, ◌>>=◌, Ends, Ends-bind,
}
use raner.Kernel.{Kernel}
use raner.Epoll.{EpollServer, is_empty}
use raner.Epoll.Invariant.{Returns}
use raner.Epoll.Dispatch.{handle_and_call}
use raner.Epoll.Dispatch.Waking.{Rests, handle_and_call-Rests}
use raner.Alarms
use raner.Alarms.{Alarm, AlarmServer, acts, call_and_reregister_alarm_events}
use raner.Alarms.Order.{due}
use raner.Alarms.Invariant.{Inv, nothing}
use raner.Alarms.Invariant.Timers.{AreLater, acts-Keeps}
use raner.Alarms.Invariant.Firing.{call_and_reregister_alarm_events-Settled}
use raner.Wait.{
  WaitServer, Answers, Waited, woken, wait_failed, eintr, events_of, timeout_in_ms, wait_time,
  first_time, wait_for_events_and_call_handle_events, wait_for_events_and_execute_callbacks,
}

due-length : (now : ℕ) (l : List Alarm) → due now l ≤ length l
due-length now [] = omega arith
due-length now (a ∷ rest) = ground (arith, due-length now rest)

-- Every deadline is later than the epoch.
later_than_epoch : (todo : List Alarms.Action) → AreLater 0 todo
later_than_epoch [] = tt
later_than_epoch (Alarms.cancels id ∷ todo) = (tt, later_than_epoch todo)
later_than_epoch (Alarms.updates id d ∷ todo) = (ground arith, later_than_epoch todo)

module _ (os : Kernel) where
  Returns-Ends :
      (P : EpollServer os → Type 0) (m : Outcome (EpollServer os)) → Returns os P m → Ends P m
  Returns-Ends P (ok s) r = r
  Returns-Ends P (fault fatal) r = tt
  Returns-Ends P (fault assertion) r = r
  Returns-Ends P (fault length_error) r = r
  Returns-Ends P (fault bad_pointer) r = r

  events_of-Ends : (a : Waited) → Ends (λ e. Unit {0}) (events_of os a)
  unfolding events_of
  events_of-Ends (woken events) = tt
  events_of-Ends (wait_failed errno) = elim (Bool-cases (errno == eintr || errno == 0)) [
    | inl e ↦ rw e tt
    | inr e ↦ rw e tt
  ]

  -- Both invariants, and the server is not waiting.
  pub record IsWell (s : WaitServer os) : Type 0 where
    pub descriptors : Rests os s.epoll
    pub timers : Inv nothing s.alarms
    pub none_skipped : s.alarms.skipped ≡ []
    pub idle : s.in_wait ≡ false

  abbrev Handled : Answers os → WaitServer os → Type 0
  Handled w s' =
      Rests os s'.epoll
      × Inv nothing s'.alarms
      × (s'.alarms.skipped ≡ [])
      × (s'.recorded_now_in_us ≡ w.now_after)

  handles :
      (timeout : Option ℕ) (w : Answers os) (s : WaitServer os)
      → Rests os s.epoll
      → Inv nothing s.alarms
      → s.alarms.skipped ≡ []
      → Ends (Handled w) (wait_for_events_and_call_handle_events os timeout w s)
  unfolding wait_for_events_and_call_handle_events
  handles timeout w s r i n =
      let (a, run, kept) =
        acts-Keeps nothing 0 w.timer_calls s.alarms i (later_than_epoch w.timer_calls) in
      let stored : EpollServer os → AlarmServer → Outcome (WaitServer os) =
        λ e b. ok (record s { epoll = e; alarms = b; recorded_now_in_us = w.now_after }) in
      Ends-bind (λ e. Unit {0}) (Handled w)
        (events_of os (w.epoll_wait (timeout_in_ms timeout (is_empty s.epoll.ready_list))))
        (λ events. handle_and_call os w.on_event events s.epoll >>= λ e.
          acts w.timer_calls s.alarms >>= λ b. stored e b)
        (events_of-Ends (w.epoll_wait (timeout_in_ms timeout (is_empty s.epoll.ready_list))))
        (λ events u.
          Ends-bind (Rests os) (Handled w) (handle_and_call os w.on_event events s.epoll)
            (λ e. acts w.timer_calls s.alarms >>= λ b. stored e b)
            (Returns-Ends (Rests os) (handle_and_call os w.on_event events s.epoll)
              (handle_and_call-Rests os w.on_event events s.epoll r))
            (λ e r'.
              subst (λ m. Ends (Handled w) (m >>= λ b. stored e b)) (sym run)
                (r', kept.inv, kept.same_skipped ∙ n, refl)))

  Ends-else :
      {A : Type 0} (Q : A → Type 0) (b : Bool) (m n : Outcome A)
      → b ≡ false
      → Ends Q n
      → Ends Q (if b then m else n)
  Ends-else Q true m n e p = cc e
  Ends-else Q false m n e p = p

  module _ (does : AlarmServer → ℕ → List Alarms.Action) where
    -- What a round leaves; `next` is the time of the first alarm.
    abbrev Rounded : Answers os → Option ℕ → WaitServer os → Type 0
    Rounded w next s' = IsWell s' × ((next ≡ none) ⊎ (due w.now_after s'.alarms.alarm_map ≡ 0))

    calls_alarms :
        (w : Answers os) (next : Option ℕ) (s : WaitServer os)
        → ((t : AlarmServer) (id : ℕ) → AreLater w.now_after (does t id))
        → 0 < w.now_after
        → Handled w s
        → Ends (Rounded w next) (
            call_and_reregister_alarm_events does
              (length s.alarms.alarm_map + 1)
              s.recorded_now_in_us
              s.alarms
            >>= λ a. ok (record s { alarms = a; recorded_now_in_us = 0; in_wait = false }))
    calls_alarms w next s later t (r, i, n, e) =
        let (a, run, settled, n') =
          call_and_reregister_alarm_events-Settled does w.now_after (length s.alarms.alarm_map + 1)
            s.alarms later i n t (omega (arith, due-length w.now_after s.alarms.alarm_map)) in
        let stored : AlarmServer → Outcome (WaitServer os) =
          λ a. ok (record s { alarms = a; recorded_now_in_us = 0; in_wait = false }) in
        subst (λ m. Ends (Rounded w next) (m >>= stored))
          (sym (
            ap
              (λ k.
                call_and_reregister_alarm_events does (length s.alarms.alarm_map + 1) k s.alarms)
              e
            ∙ run))
          (
            record { descriptors = r; timers = settled.0; none_skipped = n'; idle = refl },
            inr (settled.1),
          )

    -- A call of WaitForEventsAndExecuteCallbacks, whatever epoll_wait and the callbacks of
    -- descriptors answer and whatever timers those set or cancel, if the timers' own callbacks set
    -- deadlines later than the clock behind epoll_wait only and that clock is not 0: unless a
    -- system call fails fatally, it returns, keeps the invariants of descriptors, ready list,
    -- timers and alarms, and if there was an alarm before, none is due at that time any more.
    pub wait_for_events_and_execute_callbacks-IsWell :
        (debug : Bool) (w : Answers os) (s : WaitServer os)
        → ((t : AlarmServer) (id : ℕ) → AreLater w.now_after (does t id))
        → 0 < w.now_after
        → IsWell s
        → Ends
            (λ s'.
              IsWell s'
              × ((first_time s.alarms.alarm_map ≡ none)
                  ⊎ (due w.now_after s'.alarms.alarm_map ≡ 0)))
            (wait_for_events_and_execute_callbacks os does debug w s)
    unfolding wait_for_events_and_execute_callbacks
    wait_for_events_and_execute_callbacks-IsWell debug w s later t v =
        Ends-else (Rounded w (first_time s.alarms.alarm_map)) s.in_wait
          (if debug then fault fatal else ok s) (body (first_time s.alarms.alarm_map)) v.idle
          (rounds (first_time s.alarms.alarm_map))
      where
        start : WaitServer os
        start = record s { in_wait = true }

        body : Option ℕ → Outcome (WaitServer os)
        body next = elim next [
          | none ↦
              wait_for_events_and_call_handle_events os s.timeout_in_us w
                (record s { in_wait = true })
              >>= λ s₁. ok (record s₁ { recorded_now_in_us = 0; in_wait = false })
          | some next ↦
              wait_for_events_and_call_handle_events os (wait_time s.timeout_in_us next w.now) w
                (record s { in_wait = true })
              >>= λ s₁.
                  call_and_reregister_alarm_events does (length s₁.alarms.alarm_map + 1)
                    s₁.recorded_now_in_us s₁.alarms
                  >>= λ a. ok (record s₁ { alarms = a; recorded_now_in_us = 0; in_wait = false })
        ]

        rounds : (next : Option ℕ) → Ends (Rounded w next) (body next)
        rounds none =
            Ends-bind (Handled w) (Rounded w none)
              (wait_for_events_and_call_handle_events os s.timeout_in_us w start)
              (λ s₁. ok (record s₁ { recorded_now_in_us = 0; in_wait = false }))
              (handles s.timeout_in_us w start v.descriptors v.timers v.none_skipped)
              (λ s₁ h. (
                record { descriptors = h.0; timers = h.1; none_skipped = h.2; idle = refl },
                inl refl,
              ))
        rounds (some next) =
            Ends-bind (Handled w) (Rounded w (some next))
              (wait_for_events_and_call_handle_events os (wait_time s.timeout_in_us next w.now) w
                start)
              (λ s₁.
                call_and_reregister_alarm_events does (length s₁.alarms.alarm_map + 1)
                  s₁.recorded_now_in_us s₁.alarms
                >>= λ a. ok (record s₁ { alarms = a; recorded_now_in_us = 0; in_wait = false }))
              (handles (wait_time s.timeout_in_us next w.now) w start v.descriptors v.timers
                v.none_skipped)
              (λ s₁ h. calls_alarms w (some next) s₁ later t h)
