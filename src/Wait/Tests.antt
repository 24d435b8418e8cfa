-- ===== src/Wait/Tests.antt =====
-- A round of an EpollServer with one timer that is due and sets itself again.
use raner.Common.{
  ℕ, zero, suc, ◌-◌, ◌*◌, ◌≤◌, ◌≡◌, refl, true, false, not, ◌==◌, mem, Option, none, some, List, [],
  ◌∷◌, ◌⊎◌, max, subst, arith, Ends,
}
use raner.Epoll.Tests.{granting, empty_server, empty_server-Inv}
use raner.Alarms
use raner.Alarms.{Alarm, EpollTimer, AlarmServer, updates, find}
use raner.Alarms.Order.{due}
use raner.Wait.{
  WaitServer, Answers, woken, timeout_in_ms, wait_time, first_time,
  wait_for_events_and_execute_callbacks,
}
use raner.Wait.Bounds.{IsWithin, timeout-bounds}
use raner.Wait.Rounds.{IsWell, wait_for_events_and_execute_callbacks-IsWell}

abbrev one_timer : ℕ → EpollTimer
one_timer zero = record { deadline = 50; registered = true; token = 0 }
one_timer (suc id) = record { deadline = 0; registered = false; token = 0 }

abbrev one_set : AlarmServer
one_set = record {
  alarm_map = record { time = 50; cb = 0; token = 0 } ∷ [];
  all_alarms = 0 ∷ [];
  skipped = [];
  timers = one_timer;
  next_token = 1;
}

abbrev Own : ℕ → Option Alarm → Type 0
Own k none = Unit {0}
Own k (some a) = one_timer a.cb ≡ record { deadline = a.time; registered = true; token = k }

one_set_sound :
    (k : ℕ) (a : Alarm)
    → find k one_set.alarm_map ≡ some a
    → one_timer a.cb ≡ record { deadline = a.time; registered = true; token = k }
one_set_sound zero a e = subst (Own 0) e refl
one_set_sound (suc k) a e = absurd (ground (arith, e))

one_set_there :
    (id : ℕ)
    → (one_timer id).registered ≡ true
    → find (one_timer id).token one_set.alarm_map
      ≡ some (record { time = (one_timer id).deadline; cb = id; token = (one_timer id).token })
one_set_there zero r = refl
one_set_there (suc id) r = cc r

one_set_registered :
    (id : ℕ)
    → (not ((one_timer id).deadline == 0) ≡ (one_timer id).registered)
      × (mem id one_set.all_alarms ≡ (one_timer id).registered)
one_set_registered zero = (refl, refl)
one_set_registered (suc id) = (refl, ground arith)

abbrev waiting : WaitServer granting
waiting = record {
  epoll = empty_server;
  alarms = one_set;
  timeout_in_us = some 10000;
  recorded_now_in_us = 0;
  in_wait = false;
}

waiting-IsWell : IsWell granting waiting
waiting-IsWell = record {
  descriptors = (empty_server-Inv, refl);
  timers = record {
    distinct = ground arith;
    sorted = (tt, tt);
    fresh = λ k h. ground arith;
    low = λ k h. cc h;
    sound = λ k a e h. one_set_sound k a e;
    there = λ id r. (refl, one_set_there id r);
    matches = λ id. (one_set_registered id).0;
    all = λ id. (one_set_registered id).1;
  };
  none_skipped = refl;
  idle = refl;
}

abbrev quiet_round : Answers granting
quiet_round = record {
  epoll_wait = λ ms. woken ((3, 1) ∷ []);
  now = 20;
  now_after = 60;
  on_event = λ cb fd in_events. ([], 0);
  timer_calls = updates 7 55 ∷ [];
}

abbrev again : AlarmServer → ℕ → List Alarms.Action
again s id = updates id 500 ∷ []

wait_for_events_and_execute_callbacks-IsWell_example :
    Ends
      (λ s'.
        IsWell granting s'
        × ((first_time one_set.alarm_map ≡ none) ⊎ (due 60 s'.alarms.alarm_map ≡ 0)))
      (wait_for_events_and_execute_callbacks granting again true quiet_round waiting)
wait_for_events_and_execute_callbacks-IsWell_example =
    wait_for_events_and_execute_callbacks-IsWell granting again true quiet_round waiting
      (λ s id. (refl, tt)) (omega arith) waiting-IsWell

timeout-bounds_example :
    (ms : ℕ) × (timeout_in_ms (wait_time (some 10000) 7300 20) true ≡ some ms)
    × (ms * 1000 ≤ max 1000 (7300 - 20))
    × IsWithin (some 10000) ms
timeout-bounds_example = timeout-bounds (some 10000) 7300 20 true (omega arith)
