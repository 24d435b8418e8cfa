-- ===== src/Alarms/Invariant/Methods.antt =====
-- `Set`, `Cancel` and `Update` keep the invariant and change one deadline.
use raner.Common.{
  ℕ, ◌+◌, ◌<◌, ◌≡◌, refl, sym, ap, ◌∙◌, Bool, true, false, Bool-cases, inl, inr, some, ◌∷◌, mem,
  remove, ◌==◌, ==_refl, ==_iff, arith, if◌then◌else◌, Outcome, ok,
}
use raner.Alarms.{
  Alarm, EpollTimer, AlarmServer, insert, find, erase, set_timer, register_alarm, unregister_alarm,
  unregister_if_registered, set_impl, cancel_impl,
}
use raner.Alarms.Order.{due-insert, due-erase, insert-IsAt, erase-IsAt}
use raner.Alarms.Invariant.{Inv, Keeps}
use raner.Alarms.Invariant.Steps.{Puts, hide, register, erase-Inv}

-- Two choices by the same test.
pub pick {ℓ} :
    {A : Type ℓ} (b : Bool) (x x' y y' : A)
    → x ≡ x'
    → (b ≡ false → y ≡ y')
    → (if b then x else y) ≡ (if b then x' else y')
pick true x x' y y' p q = p
pick false x x' y y' p q = q refl

pub differ : (f : ℕ → Bool) (a b : ℕ) → f a ≡ false → f b ≡ true → (a == b) ≡ false
differ f a b p q = elim (Bool-cases (a == b)) [
  | inr e ↦ e
  | inl e ↦ cc (sym p ∙ ap f ((==_iff a b).0 e) ∙ q)
]

abbrev off : EpollTimer → EpollTimer
off t = record t { registered = false }

abbrev registered_at : ℕ → EpollTimer → EpollTimer
registered_at k t = record t { registered = true; token = k }

abbrev set_in : (ℕ → EpollTimer) → ℕ → EpollTimer → ℕ → EpollTimer
set_in f id t j = if j == id then t else f j

put_deadline :
    (id d : ℕ) (t : EpollTimer) (f g : ℕ → EpollTimer)
    → t.deadline ≡ d
    → ((j : ℕ) → (j == id) ≡ false → (g j).deadline ≡ (f j).deadline)
    → (j : ℕ) → (set_in g id t j).deadline ≡ (if j == id then d else (f j).deadline)
put_deadline id d t f g p q j = elim (Bool-cases (j == id)) [
  | inl e ↦
      ap (λ b. (if b then t else g j).deadline) e
      ∙ p
      ∙ sym (ap (λ b. if b then d else (f j).deadline) e)
  | inr e ↦
      ap (λ b. (if b then t else g j).deadline) e
      ∙ q j e
      ∙ sym (ap (λ b. if b then d else (f j).deadline) e)
]

unregister_alarm_lem :
    (k : ℕ) (a : Alarm) (s : AlarmServer)
    → find k s.alarm_map ≡ some a
    → unregister_alarm k s
      ≡ ok (
          set_timer a.cb
            (off (s.timers a.cb))
            (record s { alarm_map = erase k s.alarm_map; all_alarms = remove a.cb s.all_alarms }))
unfolding unregister_alarm
unregister_alarm_lem k a s e = rw (unregister_alarm, e) refl

registers :
    (id d : ℕ) (s : AlarmServer)
    → (s.timers id).deadline ≡ d
    → (d == 0) ≡ false
    → (s.timers id).registered ≡ false
    → mem id s.all_alarms ≡ false
    → set_impl id s
      ≡ ok (
          set_timer id (registered_at s.next_token (s.timers id)) (record s {
            alarm_map = insert (record { time = d; cb = id; token = s.next_token }) s.alarm_map;
            all_alarms = id ∷ s.all_alarms;
            next_token = s.next_token + 1;
          }))
unfolding set_impl register_alarm
registers id d s e n r m = rw (e, n, m, r) refl

unregisters :
    (id k : ℕ) (s : AlarmServer)
    → (s.timers id).deadline ≡ 0
    → (s.timers id).registered ≡ true
    → (s.timers id).token ≡ k
    → cancel_impl id s ≡ unregister_alarm k s
unfolding cancel_impl unregister_if_registered
unregisters id k s d r e = rw (d, r, e) refl

-- The deadline of `id` is `d`, the others are as they were.
abbrev pub Sets : ℕ → ℕ → AlarmServer → AlarmServer → Type 0
Sets id d s s' = (j : ℕ) → (s'.timers j).deadline ≡ (if j == id then d else (s.timers j).deadline)

module _ (hidden : ℕ → Bool) (now : ℕ) where
  -- The call returns, keeps the invariant, and has set the deadline of `id`.
  abbrev pub Done : ℕ → ℕ → AlarmServer → Outcome AlarmServer → Type 0
  Done id d s m = (s' : AlarmServer) × (m ≡ ok s') × Keeps hidden now s s' × Sets id d s s'

  pub cancel_impl-Done :
      (id : ℕ) (s : AlarmServer) (U : ℕ → EpollTimer)
      → Inv hidden s
      → (s.timers id).registered ≡ true
      → Puts id (record (s.timers id) { deadline = 0 }) s.timers U
      → Done id 0 s (cancel_impl id (record s { timers = U }))
  cancel_impl-Done id s U i r p =
      let tok : ℕ = (s.timers id).token in
      let own : U id ≡ record { deadline = 0; registered = (s.timers id).registered; token = tok } =
        p id
        ∙ ap (λ b. if b then record (s.timers id) { deadline = 0 } else s.timers id) (==_refl id) in
      let other : (j : ℕ) → (j == id) ≡ false → U j ≡ s.timers j =
        λ j e. p j ∙ ap (λ b. if b then record (s.timers id) { deadline = 0 } else s.timers j) e in
      let (open_tok, found) = i.there id r in
      let T : ℕ → EpollTimer = λ j. if j == id then record (U id) { registered = false } else U j in
      let changed : Puts id (record { deadline = 0; registered = false; token = tok }) s.timers T =
        λ j.
          pick (j == id) (record (U id) { registered = false })
            (record { deadline = 0; registered = false; token = tok }) (U j) (s.timers j)
            (ap off own) (other j) in
      (
        record s {
          alarm_map = erase tok s.alarm_map;
          all_alarms = remove id s.all_alarms;
          timers = T;
        },
        unregisters id tok (record s { timers = U }) (ap (λ x. x.deadline) own)
              (ap (λ x. x.registered) own ∙ r) (ap (λ x. x.token) own)
            ∙ unregister_alarm_lem tok
                (record { time = (s.timers id).deadline; cb = id; token = tok })
                (record s { timers = U }) found,
        record {
          inv =
              erase-Inv hidden tok (record s { all_alarms = remove id s.all_alarms; timers = T })
                open_tok
                (hide hidden s i id (record { deadline = 0; registered = false; token = tok }) T
                  changed r refl refl);
          no_more = due-erase now tok s.alarm_map;
          same_skipped = refl;
          at = λ k h q. erase-IsAt now k tok s.alarm_map (differ hidden tok k open_tok h) q;
        },
        put_deadline id 0 (record (U id) { registered = false }) s.timers U
            (ap (λ x. x.deadline) own) (λ j e. ap (λ x. x.deadline) (other j e)),
      )

  pub set_impl-Done :
      (id d : ℕ) (s : AlarmServer) (U : ℕ → EpollTimer)
      → Inv hidden s
      → (s.timers id).registered ≡ false
      → (d == 0) ≡ false
      → now < d
      → Puts id (record (s.timers id) { deadline = d }) s.timers U
      → Done id d s (set_impl id (record s { timers = U }))
  set_impl-Done id d s U i r nonzero late p =
      let own : U id ≡ record (s.timers id) { deadline = d } =
        p id
        ∙ ap (λ b. if b then record (s.timers id) { deadline = d } else s.timers id) (==_refl id) in
      let other : (j : ℕ) → (j == id) ≡ false → U j ≡ s.timers j =
        λ j e. p j ∙ ap (λ b. if b then record (s.timers id) { deadline = d } else s.timers j) e in
      let k : ℕ = s.next_token in
      let on : EpollTimer = record { deadline = d; registered = true; token = k } in
      let new_alarm : Alarm = record { time = d; cb = id; token = k } in
      let T : ℕ → EpollTimer = set_in U id (record (U id) { registered = true; token = k }) in
      let changed : Puts id on s.timers T = λ j.
        pick (j == id) (record (U id) { registered = true; token = k }) on (U j) (s.timers j)
          (ap (registered_at k) own) (other j) in
      (
        record s {
          alarm_map = insert new_alarm s.alarm_map;
          all_alarms = id ∷ s.all_alarms;
          timers = T;
          next_token = k + 1;
        },
        registers id d (record s { timers = U }) (ap (λ x. x.deadline) own) nonzero
            (ap (λ x. x.registered) own ∙ r) (i.all id ∙ r),
        record {
          inv = register hidden s i id on T changed r refl refl nonzero;
          no_more = omega (arith, due-insert now new_alarm s.alarm_map late);
          same_skipped = refl;
          at = λ j h q. insert-IsAt now j new_alarm s.alarm_map late q;
        },
        put_deadline id d (record (U id) { registered = true; token = k }) s.timers U
            (ap (λ x. x.deadline) own) (λ j e. ap (λ x. x.deadline) (other j e)),
      )
