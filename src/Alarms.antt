-- ===== src/Alarms.antt =====
-- raner/epoll_server.cc and raner/epoll_timer.cc: the alarms of the class EpollServer and the class
-- EpollTimer, whose EpollTimerImpl is the one alarm callback of the library. A timer and its alarm
-- are a number. A time is the microseconds since the epoch, 0 a timer that is not set. An element of
-- the multimap `alarm_map_` has a number of its own, its `token`, for which the iterators stand.
-- What the callback of a timer does is the parameter `does`.
pub mod Order
pub mod Invariant
mod Tests
use raner.Common.{
  ℕ, zero, suc, ◌+◌, Bool, true, false, not, Option, none, some, List, [], ◌∷◌, mem, remove, ltb,
  leb, ◌==◌, if◌then◌else◌, Outcome, ok, fault, assertion, fatal, bad_pointer, require, ◌>>=◌, ◌>>◌,
}

pub record Alarm : Type 0 where
  pub time : ℕ
  pub cb : ℕ
  pub token : ℕ

pub record EpollTimer : Type 0 where
  pub deadline : ℕ
  pub registered : Bool
  pub token : ℕ

pub record AlarmServer : Type 0 where
  pub alarm_map : List Alarm
  pub all_alarms : List ℕ
  pub skipped : List ℕ
  pub timers : ℕ → EpollTimer
  pub next_token : ℕ

-- `std::multimap::insert` puts an element behind those with the same key.
abbrev pub insert : Alarm → List Alarm → List Alarm
insert x [] = x ∷ []
insert x (a ∷ rest) = if ltb x.time a.time then x ∷ a ∷ rest else a ∷ insert x rest

-- The element at an iterator.
abbrev pub find : ℕ → List Alarm → Option Alarm
find k [] = none
find k (a ∷ rest) = if k == a.token then some a else find k rest

abbrev pub erase : ℕ → List Alarm → List Alarm
erase k [] = []
erase k (a ∷ rest) = if k == a.token then erase k rest else a ∷ erase k rest

-- `begin()`; `none` is `end()`.
abbrev pub first : List Alarm → Option ℕ
first [] = none
first (a ∷ rest) = some a.token

-- `++i`
abbrev pub next_after : ℕ → List Alarm → Option ℕ
next_after k [] = none
next_after k (a ∷ rest) = if k == a.token then first rest else next_after k rest

abbrev pub set_timer : ℕ → EpollTimer → AlarmServer → AlarmServer
set_timer id t s = record s { timers = λ j. if j == id then t else s.timers j }

abbrev pub set_deadline : ℕ → ℕ → AlarmServer → AlarmServer
set_deadline id d s = set_timer id (record (s.timers id) { deadline = d }) s

abbrev pub is_set : ℕ → AlarmServer → Bool
is_set id s = not ((s.timers id).deadline == 0)

-- With `EpollAlarm::OnRegistration`.
pub register_alarm : ℕ → ℕ → AlarmServer → Outcome AlarmServer
register_alarm time id s =
    let k = s.next_token in
    require (not (mem id s.all_alarms)) fatal
    >> require (not (s.timers id).registered) assertion
    >> ok (
        set_timer id (record (s.timers id) { registered = true; token = k })
          (record s {
            alarm_map = insert (record { time = time; cb = id; token = k }) s.alarm_map;
            all_alarms = id ∷ s.all_alarms;
            next_token = k + 1;
          }))

-- With `EpollAlarm::OnUnregistration`.
pub unregister_alarm : ℕ → AlarmServer → Outcome AlarmServer
unregister_alarm k s = elim (find k s.alarm_map) [
  | none ↦ fault bad_pointer
  | some a ↦ ok (
      set_timer a.cb (record (s.timers a.cb) { registered = false })
        (record s { alarm_map = erase k s.alarm_map; all_alarms = remove a.cb s.all_alarms }))
]

pub unregister_if_registered : ℕ → AlarmServer → Outcome AlarmServer
unfolding unregister_alarm
unregister_if_registered id s =
    if (s.timers id).registered then unregister_alarm (s.timers id).token s else ok s

pub set_impl : ℕ → AlarmServer → Outcome AlarmServer
unfolding register_alarm
set_impl id s = require (is_set id s) assertion >> register_alarm (s.timers id).deadline id s

pub cancel_impl : ℕ → AlarmServer → Outcome AlarmServer
unfolding unregister_if_registered
cancel_impl id s = require (not (is_set id s)) assertion >> unregister_if_registered id s

pub update_impl : ℕ → AlarmServer → Outcome AlarmServer
unfolding cancel_impl set_impl
update_impl id s = cancel_impl id (set_deadline id 0 s) >>= λ s'.
    set_impl id (set_deadline id (s.timers id).deadline s')

pub set : ℕ → ℕ → AlarmServer → Outcome AlarmServer
unfolding set_impl
set id new_deadline s =
    require (not (is_set id s)) assertion
    >> require (not (new_deadline == 0)) assertion
    >> set_impl id (set_deadline id new_deadline s)

pub cancel : ℕ → AlarmServer → Outcome AlarmServer
unfolding cancel_impl
cancel id s = if is_set id s then cancel_impl id (set_deadline id 0 s) else ok s

pub update : ℕ → ℕ → AlarmServer → Outcome AlarmServer
unfolding cancel update_impl set_impl
update id new_deadline s =
    let s' = set_deadline id new_deadline s in
    if new_deadline == 0
    then cancel id s
    else (if is_set id s then update_impl id s' else set_impl id s')

-- A call of a timer's method. `Set` is not among them: of a timer that is not set, as its `DCHECK`
-- asks, it does what `Update` does.
pub data Action : Type 0 where
  cancels : ℕ → Action
  updates : ℕ → ℕ → Action

pub act : Action → AlarmServer → Outcome AlarmServer
act (cancels id) s = cancel id s
act (updates id d) s = update id d s

pub acts : List Action → AlarmServer → Outcome AlarmServer
acts [] s = ok s
acts (a ∷ rest) s = act a s >>= acts rest

module _ (does : AlarmServer → ℕ → List Action) where
  -- `fire`, with the timer's callback.
  pub fire : ℕ → AlarmServer → Outcome AlarmServer
  fire id s = if is_set id s then acts (does s id) (set_deadline id 0 s) else ok s

  -- With the time at which the alarm asks to be called again, 0 if it does not.
  pub on_alarm : ℕ → AlarmServer → Outcome (AlarmServer × ℕ)
  on_alarm id s =
      fire id (set_timer id (record (s.timers id) { registered = false }) s) >>= λ s'. ok (s', 0)

  -- The alarm at an iterator is called and its element erased. The next iterator is returned.
  pub call_alarm : ℕ → ℕ → Alarm → AlarmServer → Outcome (AlarmServer × Option ℕ)
  call_alarm now k a s = on_alarm a.cb (record s { all_alarms = remove a.cb s.all_alarms }) >>= λ r.
      let s₁ = r.0 in
      let again = r.1 in
      let i = next_after k s₁.alarm_map in
      let s₂ : AlarmServer = record s₁ { alarm_map = erase k s₁.alarm_map } in
      let s₃ : AlarmServer =
        if leb again now then record s₂ { skipped = a.cb ∷ s₂.skipped } else s₂ in
      if again == 0 then ok (s₂, i) else (register_alarm again a.cb s₃ >>= λ s₄. ok (s₄, i))

  -- From an iterator on. Out of fuel it fails.
  pub call_from : ℕ → ℕ → Option ℕ → AlarmServer → Outcome AlarmServer
  call_from zero now i s = fault assertion
  call_from (suc fuel) now i s =
      let rest = call_from fuel now in
      elim i [
        | none ↦ ok s
        | some k ↦ elim (find k s.alarm_map) [
          | none ↦ fault bad_pointer
          | some a ↦
              if ltb now a.time
              then ok s
              else (if mem a.cb s.skipped
                  then rest (next_after k s.alarm_map) s
                  else (call_alarm now k a s >>= λ r. rest r.1 r.0))
        ]
      ]

  pub call_and_reregister_alarm_events : ℕ → ℕ → AlarmServer → Outcome AlarmServer
  call_and_reregister_alarm_events fuel now s =
      require (not (now == 0)) assertion >> call_from fuel now (first s.alarm_map) s >>= λ s'.
      ok (record s' { skipped = [] })
