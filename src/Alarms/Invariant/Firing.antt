-- ===== src/Alarms/Invariant/Firing.antt =====
-- `CallAndReregisterAlarmEvents` calls every alarm that is due, and ends.
use raner.Common.{
  ℕ, zero, suc, ◌+◌, ◌≤◌, ◌<◌, ◌≡◌, refl, sym, ap, subst, ◌∙◌, Bool, true, false, not, Bool-cases,
  inl, inr, ◌⊎◌, Option, some, List, [], ◌∷◌, remove, ltb, ◌==◌, ==_refl, arith, if◌then◌else◌,
  Outcome, ok, assertion, require, ◌>>=◌, ◌>>◌,
}
use raner.Alarms.{
  Alarm, EpollTimer, AlarmServer, find, erase, first, next_after, set_timer, set_deadline, is_set,
  Action, acts, fire, on_alarm, call_alarm, call_from, call_and_reregister_alarm_events,
}
use raner.Alarms.Order.{IsAt, IsSorted, due, pop, StartsAt-due}
use raner.Alarms.Invariant.{Inv, nothing}
use raner.Alarms.Invariant.Steps.{Puts, hide, erase-Inv}
use raner.Alarms.Invariant.Methods.{pick}
use raner.Alarms.Invariant.Timers.{AreLater, acts-Keeps}

-- When `OnAlarm` is called, when `fire` is, and when the timer's callback is.
abbrev dropped : ℕ → AlarmServer → AlarmServer
dropped id s = record s { all_alarms = remove id s.all_alarms }

abbrev called : ℕ → AlarmServer → AlarmServer
called id s = set_timer id (record (s.timers id) { registered = false }) (dropped id s)

abbrev cleared : ℕ → AlarmServer → AlarmServer
cleared id s = set_deadline id 0 (called id s)

abbrev silent : EpollTimer → EpollTimer
silent t = record t { deadline = 0; registered = false }

abbrev off_if : Bool → EpollTimer → EpollTimer
off_if b t = if b then record t { registered = false } else t

abbrev reset : EpollTimer → EpollTimer
reset t = record t { deadline = 0 }

cleared-Puts :
    (id : ℕ) (s : AlarmServer) → Puts id (silent (s.timers id)) s.timers ((cleared id s).timers)
cleared-Puts id s j =
    pick (j == id) (reset (off_if (id == id) (s.timers id))) (silent (s.timers id))
      (if j == id then record (s.timers id) { registered = false } else s.timers j) (s.timers j)
      (ap (λ b. reset (off_if b (s.timers id))) (==_refl id))
      (λ e. ap (λ b. if b then record (s.timers id) { registered = false } else s.timers j) e)

abbrev finish : AlarmServer → AlarmServer
finish s = record s { skipped = [] }

abbrev ends : AlarmServer → Outcome AlarmServer
ends s = ok (finish s)

finish-Inv : (s : AlarmServer) → Inv nothing s → Inv nothing (finish s)
finish-Inv s i = record {
  distinct = i.distinct;
  sorted = i.sorted;
  fresh = i.fresh;
  low = i.low;
  sound = i.sound;
  there = i.there;
  matches = i.matches;
  all = i.all;
}

module _ (does : AlarmServer → ℕ → List Action) (now : ℕ) where
  fires :
      (id : ℕ) (s : AlarmServer)
      → is_set id s ≡ true
      → fire does id (called id s) ≡ acts (does (called id s) id) (cleared id s)
  unfolding fire
  fires id s e =
      ap (λ b. if b then acts (does (called id s) id) (cleared id s) else ok (called id s))
        (ap (λ b. not ((off_if b (s.timers id)).deadline == 0)) (==_refl id) ∙ e)

  called_alarm :
      (k : ℕ) (a : Alarm) (s s' : AlarmServer)
      → fire does a.cb (called a.cb s) ≡ ok s'
      → call_alarm does now k a s
        ≡ ok (record s' { alarm_map = erase k s'.alarm_map }, next_after k s'.alarm_map)
  unfolding call_alarm on_alarm
  called_alarm k a s s' e = rw e refl

  -- What a round leaves.
  abbrev Called : AlarmServer → AlarmServer → Option ℕ → Type 0
  Called s s' i =
      Inv nothing s'
      × (i ≡ first s'.alarm_map)
      × (due now s'.alarm_map + 1 ≤ due now s.alarm_map)
      × (s'.skipped ≡ s.skipped)

  call_alarm-Called :
      (k : ℕ) (a : Alarm) (s : AlarmServer)
      → ((t : AlarmServer) (id : ℕ) → AreLater now (does t id))
      → Inv nothing s
      → find k s.alarm_map ≡ some a
      → IsAt now k s.alarm_map
      → (s' : AlarmServer) × (i : Option ℕ) × (call_alarm does now k a s ≡ ok (s', i))
        × Called s s' i
  call_alarm-Called k a s later i found here =
      let own : s.timers a.cb ≡ record { deadline = a.time; registered = true; token = k } =
        i.sound k a found refl in
      let reg : (s.timers a.cb).registered ≡ true = ap (λ x. x.registered) own in
      let start : Inv (λ j. j == k) (cleared a.cb s) =
        subst (λ x. Inv (λ j. j == x) (cleared a.cb s)) (ap (λ x. x.token) own)
          (hide nothing s i a.cb (silent (s.timers a.cb)) ((cleared a.cb s).timers)
            (cleared-Puts a.cb s) reg refl refl) in
      let (s₂, run, kept) =
        acts-Keeps (λ j. j == k) now (does (called a.cb s) a.cb) (cleared a.cb s) start
          (later (called a.cb s) a.cb) in
      let (next, one) = pop now k s₂.alarm_map kept.inv.distinct (kept.at k (==_refl k) here) in
      (
        record s₂ { alarm_map = erase k s₂.alarm_map },
        next_after k s₂.alarm_map,
        called_alarm k a s s₂ (fires a.cb s (i.matches a.cb ∙ reg) ∙ run),
        (
          erase-Inv nothing k s₂ refl kept.inv,
          next,
          omega (arith, one, kept.no_more),
          kept.same_skipped,
        ),
      )

  stops :
      (fuel k : ℕ) (a : Alarm) (s : AlarmServer)
      → find k s.alarm_map ≡ some a
      → ltb now a.time ≡ true
      → call_from does (suc fuel) now (some k) s ≡ ok s
  unfolding call_from
  stops fuel k a s e l = rw (call_from, e, l) refl

  goes_on :
      (fuel k : ℕ) (a : Alarm) (s : AlarmServer)
      → find k s.alarm_map ≡ some a
      → ltb now a.time ≡ false
      → s.skipped ≡ []
      → call_from does (suc fuel) now (some k) s
        ≡ (call_alarm does now k a s >>= λ r. call_from does fuel now r.1 r.0)
  unfolding call_from
  goes_on fuel k a s e l n = rw (call_from, e, l, n) refl

  map-cases : (l : List Alarm) → (l ≡ []) ⊎ ((a : Alarm) × (rest : List Alarm) × (l ≡ a ∷ rest))
  map-cases [] = inl refl
  map-cases (a ∷ rest) = inr (a, rest, refl)

  -- Nothing is due any more.
  abbrev pub Settled : AlarmServer → Type 0
  Settled s = Inv nothing s × (due now s.alarm_map ≡ 0)

  call_from-Settled :
      (fuel : ℕ) (i : Option ℕ) (s : AlarmServer)
      → ((t : AlarmServer) (id : ℕ) → AreLater now (does t id))
      → Inv nothing s
      → s.skipped ≡ []
      → i ≡ first s.alarm_map
      → due now s.alarm_map < fuel
      → (s' : AlarmServer) × (call_from does fuel now i s ≡ ok s') × Settled s'
  unfolding call_from
  call_from-Settled zero i s later v n at enough = absurd (omega arith)
  call_from-Settled (suc fuel) i s later v n at enough = elim (map-cases s.alarm_map) [
    | inl e ↦
        (s, ap (λ x. call_from does (suc fuel) now x s) (at ∙ ap first e), (v, ap (due now) e))
    | inr (a, rest, e) ↦
        let k : ℕ = a.token in
        let found : find k s.alarm_map ≡ some a =
          ap (find k) e ∙ ap (λ b. if b then some a else find k rest) (==_refl k) in
        let from : call_from does (suc fuel) now i s ≡ call_from does (suc fuel) now (some k) s =
          ap (λ x. call_from does (suc fuel) now x s) (at ∙ ap first e) in
        elim (Bool-cases (ltb now a.time)) [
          | inl early ↦ (
            s,
            from ∙ stops fuel k a s found early,
            (
              v,
              ap (due now) e
                  ∙ StartsAt-due now a.time (a ∷ rest) (ground (arith, early))
                      (omega arith, (subst IsSorted e v.sorted).0),
            ),
          )
          | inr due_now ↦
              let (s₁, i₁, run, (v₁, at₁, fewer, n₁)) =
                call_alarm-Called k a s later v found
                  (subst (IsAt now k) (sym e) (refl, ground (arith, due_now))) in
              let (s₂, run₂, settled) =
                call_from-Settled fuel i₁ s₁ later v₁ (n₁ ∙ n) at₁ (omega (arith, fewer)) in
              (
                s₂,
                from
                    ∙ goes_on fuel k a s found due_now n
                    ∙ ap (λ m. m >>= λ r. call_from does fuel now r.1 r.0) run
                    ∙ run₂,
                settled,
              )
        ]
  ]

  -- If the timers' callbacks cancel timers and set deadlines later than the recorded time only,
  -- CallAndReregisterAlarmEvents, from a state of the invariant, returns: no check fails, no
  -- iterator dangles, and the loop ends within one round more than alarms are due. No alarm is due
  -- any more, the set of alarms to skip is empty, and the invariant holds: each timer that is set
  -- has one alarm, at its deadline, and no other alarm exists.
  pub call_and_reregister_alarm_events-Settled :
      (fuel : ℕ) (s : AlarmServer)
      → ((t : AlarmServer) (id : ℕ) → AreLater now (does t id))
      → Inv nothing s
      → s.skipped ≡ []
      → 0 < now
      → due now s.alarm_map < fuel
      → (s' : AlarmServer) × (call_and_reregister_alarm_events does fuel now s ≡ ok s')
        × Settled s'
        × (s'.skipped ≡ [])
  unfolding call_and_reregister_alarm_events
  call_and_reregister_alarm_events-Settled fuel s later v n t enough =
      let ticking : not (now == 0) ≡ true = ground (arith, t) in
      let (s', run, settled) = call_from-Settled fuel (first s.alarm_map) s later v n refl enough in
      (
        finish s',
        ap (λ b. require b assertion >> call_from does fuel now (first s.alarm_map) s >>= ends)
              ticking
            ∙ ap (λ m. m >>= ends) run,
        (finish-Inv s' (settled.0), settled.1),
        refl,
      )
