-- ===== src/Alarms/Tests.antt =====
-- Two timers, whose callbacks set and cancel timers.
use raner.Common.{
  ℕ, zero, suc, subst, Option, ◌≡◌, refl, true, false, not, ◌==◌, some, none, List, [], ◌∷◌, arith,
  ok, mem,
}
use raner.Alarms.{
  Alarm, EpollTimer, AlarmServer, Action, cancels, updates, acts, update, find,
  call_and_reregister_alarm_events,
}
use raner.Alarms.Invariant.{Inv, Keeps, nothing}
use raner.Alarms.Invariant.Methods.{Sets}
use raner.Alarms.Invariant.Timers.{update-Done, acts-Keeps}
use raner.Alarms.Invariant.Firing.{Settled, call_and_reregister_alarm_events-Settled}

-- Timer 1 is at 20 and 2 at 10.
abbrev two_timers : ℕ → EpollTimer
two_timers zero = record { deadline = 0; registered = false; token = 0 }
two_timers (suc zero) = record { deadline = 20; registered = true; token = 0 }
two_timers (suc (suc zero)) = record { deadline = 10; registered = true; token = 1 }
two_timers (suc (suc (suc id))) = record { deadline = 0; registered = false; token = 0 }

abbrev two_set : AlarmServer
two_set = record {
  alarm_map =
      record { time = 10; cb = 2; token = 1 } ∷ record { time = 20; cb = 1; token = 0 } ∷ [];
  all_alarms = 2 ∷ 1 ∷ [];
  skipped = [];
  timers = two_timers;
  next_token = 2;
}

abbrev Own : ℕ → Option Alarm → Type 0
Own k none = Unit {0}
Own k (some a) = two_timers a.cb ≡ record { deadline = a.time; registered = true; token = k }

two_set_sound :
    (k : ℕ) (a : Alarm)
    → find k two_set.alarm_map ≡ some a
    → two_timers a.cb ≡ record { deadline = a.time; registered = true; token = k }
two_set_sound zero a e = subst (Own 0) e refl
two_set_sound (suc zero) a e = subst (Own 1) e refl
two_set_sound (suc (suc k)) a e = absurd (ground (arith, e))

two_set_there :
    (id : ℕ)
    → (two_timers id).registered ≡ true
    → find (two_timers id).token two_set.alarm_map
      ≡ some (record { time = (two_timers id).deadline; cb = id; token = (two_timers id).token })
two_set_there zero r = cc r
two_set_there (suc zero) r = refl
two_set_there (suc (suc zero)) r = refl
two_set_there (suc (suc (suc id))) r = cc r

two_set_registered :
    (id : ℕ)
    → (not ((two_timers id).deadline == 0) ≡ (two_timers id).registered)
      × (mem id two_set.all_alarms ≡ (two_timers id).registered)
two_set_registered zero = (refl, refl)
two_set_registered (suc zero) = (refl, refl)
two_set_registered (suc (suc zero)) = (refl, refl)
two_set_registered (suc (suc (suc id))) = (refl, ground arith)

two_set-Inv : Inv nothing two_set
two_set-Inv = record {
  distinct = ground arith;
  sorted = ((omega arith, tt), (tt, tt));
  fresh = λ k h. ground arith;
  low = λ k h. cc h;
  sound = λ k a e h. two_set_sound k a e;
  there = λ id r. (refl, two_set_there id r);
  matches = λ id. (two_set_registered id).0;
  all = λ id. (two_set_registered id).1;
}

-- Whatever fires, 1 is set again for 40 and 2 is taken back.
abbrev callbacks : AlarmServer → ℕ → List Action
callbacks s id = updates 1 40 ∷ cancels 2 ∷ []

call_and_reregister_alarm_events-Settled_example :
    (s' : AlarmServer) × (call_and_reregister_alarm_events callbacks 3 30 two_set ≡ ok s')
    × Settled callbacks 30 s'
    × (s'.skipped ≡ [])
call_and_reregister_alarm_events-Settled_example =
    call_and_reregister_alarm_events-Settled callbacks 30 3 two_set (λ s id. (refl, (tt, tt)))
      two_set-Inv refl (omega arith) (omega arith)

update-Done_example :
    (s' : AlarmServer) × (update 1 50 two_set ≡ ok s')
    × Keeps nothing 30 two_set s'
    × Sets 1 50 two_set s'
update-Done_example = update-Done nothing 30 1 50 two_set two_set-Inv refl

acts-Keeps_example :
    (s' : AlarmServer) × (acts (callbacks two_set 2) two_set ≡ ok s') × Keeps nothing 30 two_set s'
acts-Keeps_example =
    acts-Keeps nothing 30 (callbacks two_set 2) two_set two_set-Inv (refl, (tt, tt))
