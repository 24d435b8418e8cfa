-- ===== src/Alarms/Invariant.antt =====
-- The invariant that ties the timers to the multimap of alarms.
pub mod Steps
pub mod Methods
pub mod Timers
pub mod Firing
use raner.Common.{
  ℕ, ◌≤◌, ◌<◌, ◌≡◌, Bool, true, false, not, Option, none, some, List, mem, AreDistinct, ◌==◌,
}
use raner.Alarms.{Alarm, EpollTimer, AlarmServer, find}
use raner.Alarms.Order.{tokens, IsSorted, due, IsAt}

-- A timer is registered exactly if it is set, and then its token leads to its one alarm, which
-- stands at its deadline. No alarm belongs to another timer, but for those at `hidden` tokens, which
-- are being called. The multimap is sorted.
pub record Inv (hidden : ℕ → Bool) (s : AlarmServer) : Type 0 where
  pub distinct : AreDistinct (tokens s.alarm_map)
  pub sorted : IsSorted s.alarm_map
  pub fresh : (k : ℕ) → s.next_token ≤ k → find k s.alarm_map ≡ none
  pub low : (k : ℕ) → hidden k ≡ true → k < s.next_token
  pub sound :
      (k : ℕ) (a : Alarm)
      → find k s.alarm_map ≡ some a
      → hidden k ≡ false
      → s.timers a.cb ≡ record { deadline = a.time; registered = true; token = k }
  pub there :
      (id : ℕ)
      → (s.timers id).registered ≡ true
      → (hidden (s.timers id).token ≡ false)
        × (find (s.timers id).token s.alarm_map
            ≡ some (record { time = (s.timers id).deadline; cb = id; token = (s.timers id).token }))
  pub matches : (id : ℕ) → not ((s.timers id).deadline == 0) ≡ (s.timers id).registered
  pub all : (id : ℕ) → mem id s.all_alarms ≡ (s.timers id).registered

abbrev pub nothing : ℕ → Bool
nothing k = false

-- What methods do that set no deadline up to `now`.
pub record Keeps (hidden : ℕ → Bool) (now : ℕ) (s s' : AlarmServer) : Type 0 where
  pub inv : Inv hidden s'
  pub no_more : due now s'.alarm_map ≤ due now s.alarm_map
  pub same_skipped : s'.skipped ≡ s.skipped
  pub at : (k : ℕ) → hidden k ≡ true → IsAt now k s.alarm_map → IsAt now k s'.alarm_map
