-- ===== src/Wait.antt =====
-- raner/epoll_server.cc: `WaitForEventsAndExecuteCallbacks`, which puts the descriptors and the alarms
-- of the class EpollServer together. `epoll_wait` is a parameter that is told the time to wait in ms.
-- A timeout is `none` where the source's is negative. The clock's readings are arguments.
pub mod Bounds
pub mod Rounds
mod Tests
use raner.Common.{
  ℕ, ◌+◌, ◌-◌, ◌/◌, ◌%◌, ◌^◌, ◌==◌, Bool, true, false, not, ◌||◌, Option, none, some, List, [], ◌∷◌,
  ltb, length, if◌then◌else◌, Outcome, ok, fault, fatal, ◌>>=◌,
}
use raner.Kernel.{Kernel}
use raner.Epoll.{EpollServer, is_empty}
use raner.Epoll.Dispatch
use raner.Epoll.Dispatch.{Handler, handle_and_call}
use raner.Alarms
use raner.Alarms.{Alarm, AlarmServer, acts, call_and_reregister_alarm_events}

abbrev pub eintr : ℕ
eintr = 4

-- What `epoll_wait` returned.
pub data Waited : Type 0 where
  woken : List (ℕ × ℕ) → Waited
  wait_failed : ℕ → Waited

-- `static_cast<int>`, where a negative time is for ever.
abbrev pub int_ms : ℕ → Option ℕ
int_ms ms = if ltb (ms % 2 ^ 32) (2 ^ 31) then some (ms % 2 ^ 32) else none

-- The time to wait in ms, by whether the ready list is empty.
pub timeout_in_ms : Option ℕ → Bool → Option ℕ
timeout_in_ms none empty = if empty then none else some 0
timeout_in_ms (some t) empty =
    if t == 0 || not empty then some 0 else int_ms ((if ltb t 1000 then 1000 else t) / 1000)

-- The time to wait in us where the first alarm is at `next`.
pub wait_time : Option ℕ → ℕ → ℕ → Option ℕ
wait_time none next now = some (next - now)
wait_time (some t) next now = if ltb next (now + t) then some (next - now) else some t

abbrev pub first_time : List Alarm → Option ℕ
first_time [] = none
first_time (a ∷ rest) = some a.time

module _ (os : Kernel) where
  pub record WaitServer : Type 0 where
    pub epoll : EpollServer os
    pub alarms : AlarmServer
    pub timeout_in_us : Option ℕ
    pub recorded_now_in_us : ℕ
    pub in_wait : Bool

  -- What the world answers in a round: `epoll_wait`, the clock before and behind it, what `OnEvent`
  -- of the callbacks does to the descriptors, and which timers it sets and cancels.
  pub record Answers : Type 0 where
    pub epoll_wait : Option ℕ → Waited
    pub now : ℕ
    pub now_after : ℕ
    pub on_event : Handler
    pub timer_calls : List Alarms.Action

  -- The events that `epoll_wait` delivered.
  pub events_of : Waited → Outcome (List (ℕ × ℕ))
  events_of (woken events) = ok events
  events_of (wait_failed errno) = if errno == eintr || errno == 0 then ok [] else fault fatal

  pub wait_for_events_and_call_handle_events : Option ℕ → Answers → WaitServer → Outcome WaitServer
  unfolding events_of
  wait_for_events_and_call_handle_events timeout w s = do
    events ← events_of (w.epoll_wait (timeout_in_ms timeout (is_empty s.epoll.ready_list)))
    e ← handle_and_call os w.on_event events s.epoll
    a ← acts w.timer_calls s.alarms
    ok (record s { epoll = e; alarms = a; recorded_now_in_us = w.now_after })

  module _ (does : AlarmServer → ℕ → List Alarms.Action) where
    -- A call from within itself is a `LOG(DFATAL)`.
    pub wait_for_events_and_execute_callbacks : Bool → Answers → WaitServer → Outcome WaitServer
    unfolding wait_for_events_and_call_handle_events
    wait_for_events_and_execute_callbacks debug w s =
        if s.in_wait
        then (if debug then fault fatal else ok s)
        else elim (first_time s.alarms.alarm_map) [
          | none ↦
              wait_for_events_and_call_handle_events s.timeout_in_us w (record s { in_wait = true })
              >>= λ s₁. ok (record s₁ { recorded_now_in_us = 0; in_wait = false })
          | some next ↦
              wait_for_events_and_call_handle_events (wait_time s.timeout_in_us next w.now) w
                (record s { in_wait = true })
              >>= λ s₁.
                  call_and_reregister_alarm_events does (length s₁.alarms.alarm_map + 1)
                    s₁.recorded_now_in_us s₁.alarms
                  >>= λ a. ok (record s₁ { alarms = a; recorded_now_in_us = 0; in_wait = false })
        ]
