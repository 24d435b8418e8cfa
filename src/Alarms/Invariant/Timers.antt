-- ===== src/Alarms/Invariant/Timers.antt =====
-- What `Cancel` and `Update` of a timer come to, and any number of them.
use raner.Common.{
  ℕ, ◌<◌, ◌≡◌, refl, sym, ap, ◌∙◌, Bool, true, false, not, Bool-cases, inl, inr, ◌||◌, List, [],
  ◌∷◌, ltb, ◌==◌, ==_refl, ==_iff, arith, if◌then◌else◌, Outcome, ok, ◌>>=◌,
}
use raner.Alarms.{
  EpollTimer, AlarmServer, set_deadline, is_set, set_impl, cancel_impl, update_impl, cancel, update,
  Action, cancels, updates, act, acts,
}
use raner.Alarms.Invariant.{Inv, Keeps}
use raner.Alarms.Invariant.Steps.{Puts}
use raner.Alarms.Invariant.Methods.{Sets, Done, cancel_impl-Done, set_impl-Done, pick}

is_zero : (n : ℕ) → not (n == 0) ≡ false → n ≡ 0
is_zero n e = ground (arith, e)

-- No deadline up to `now` is set.
abbrev pub IsLater : ℕ → Action → Type 0
IsLater now (cancels id) = Unit {0}
IsLater now (updates id d) = (d == 0 || ltb now d) ≡ true

abbrev pub AreLater : ℕ → List Action → Type 0
AreLater now [] = Unit {0}
AreLater now (a ∷ todo) = IsLater now a × AreLater now todo

abbrev reset : EpollTimer → EpollTimer
reset t = record t { deadline = 0 }

abbrev twice : ℕ → ℕ → AlarmServer → ℕ → EpollTimer
twice id d s = (set_deadline id 0 (set_deadline id d s)).timers

-- `Update` with a deadline.
abbrev reset_or_set : ℕ → ℕ → AlarmServer → Bool → Outcome AlarmServer
reset_or_set id d s b =
    if b then update_impl id (set_deadline id d s) else set_impl id (set_deadline id d s)

abbrev chosen : ℕ → Bool → EpollTimer → EpollTimer
chosen d b t = if b then record t { deadline = d } else t

module _ (hidden : ℕ → Bool) (now : ℕ) where
  pub Keeps-then :
      {s t u : AlarmServer} → Keeps hidden now s t → Keeps hidden now t u → Keeps hidden now s u
  Keeps-then a b = record {
    inv = b.inv;
    no_more = omega (arith, a.no_more, b.no_more);
    same_skipped = b.same_skipped ∙ a.same_skipped;
    at = λ k h p. b.at k h (a.at k h p);
  }

  Keeps-none : {s : AlarmServer} → Inv hidden s → Keeps hidden now s s
  Keeps-none i = record { inv = i; no_more = omega arith; same_skipped = refl; at = λ k h p. p }

  pub cancel-Done : (id : ℕ) (s : AlarmServer) → Inv hidden s → Done hidden now id 0 s (cancel id s)
  unfolding cancel
  cancel-Done id s i = elim (Bool-cases (s.timers id).registered) [
    | inl r ↦
        let (s', e, k, d) =
          cancel_impl-Done hidden now id s ((set_deadline id 0 s).timers) i r (λ j. refl) in
        (
          s',
          ap (λ b. if b then cancel_impl id (set_deadline id 0 s) else ok s) (i.matches id ∙ r) ∙ e,
          k,
          d,
        )
    | inr r ↦ (
      s,
      ap (λ b. if b then cancel_impl id (set_deadline id 0 s) else ok s) (i.matches id ∙ r),
      Keeps-none i,
      unchanged r,
    )
  ]
    where
      unchanged : (s.timers id).registered ≡ false → Sets id 0 s s
      unchanged r j = elim (Bool-cases (j == id)) [
        | inr e ↦ sym (ap (λ b. if b then 0 else (s.timers j).deadline) e)
        | inl e ↦
            ap (λ x. (s.timers x).deadline) ((==_iff j id).0 e)
            ∙ is_zero (s.timers id).deadline (i.matches id ∙ r)
            ∙ sym (ap (λ b. if b then 0 else (s.timers j).deadline) e)
      ]

  update_impl-Done :
      (id d : ℕ) (s : AlarmServer)
      → Inv hidden s
      → (s.timers id).registered ≡ true
      → (d == 0) ≡ false
      → now < d
      → Done hidden now id d s (update_impl id (set_deadline id d s))
  unfolding update_impl
  update_impl-Done id d s i r nonzero late =
      let (s₁, e₁, k₁, d₁) = cancel_impl-Done hidden now id s (twice id d s) i r puts in
      let off : (s₁.timers id).registered ≡ false =
        sym (k₁.inv.matches id)
        ∙ ap (λ n. not (n == 0))
            (d₁ id ∙ ap (λ b. if b then 0 else (s.timers id).deadline) (==_refl id)) in
      let (s₂, e₂, k₂, d₂) =
        set_impl-Done hidden now id d s₁ ((set_deadline id d s₁).timers) k₁.inv off nonzero late
          (λ j. refl) in
      (
        s₂,
        ap
              (λ b. cancel_impl id (record s { timers = twice id d s }) >>= λ s'. set_impl id (
                set_deadline id
                  ((if b then record (s.timers id) { deadline = d } else s.timers id).deadline) s'))
              (==_refl id)
            ∙ ap (λ m. m >>= λ s'. set_impl id (set_deadline id d s')) e₁
            ∙ e₂,
        Keeps-then k₁ k₂,
        λ j.
            d₂ j
            ∙ pick (j == id) d d (s₁.timers j).deadline (s.timers j).deadline refl
                (λ e. d₁ j ∙ ap (λ b. if b then 0 else (s.timers j).deadline) e),
      )
    where
      puts : Puts id (record (s.timers id) { deadline = 0 }) s.timers (twice id d s)
      puts j =
          pick (j == id) (reset (chosen d (id == id) (s.timers id))) (reset (s.timers id))
            (if j == id then record (s.timers id) { deadline = d } else s.timers j) (s.timers j)
            (ap (λ b. reset (chosen d b (s.timers id))) (==_refl id))
            (λ e. ap (λ b. if b then record (s.timers id) { deadline = d } else s.timers j) e)

  -- Update of a timer, from a state of the invariant, to no deadline or to one later than a given
  -- time, returns in a state of the invariant: the deadline is the new one, those of the other
  -- timers are as before, and no more alarms are due at the given time than before.
  pub update-Done :
      (id d : ℕ) (s : AlarmServer)
      → Inv hidden s
      → (d == 0 || ltb now d) ≡ true
      → Done hidden now id d s (update id d s)
  unfolding update
  update-Done id d s i late = elim (Bool-cases (d == 0)) [
    | inl zero_now ↦
        let e : d ≡ 0 = (==_iff d 0).0 zero_now in
        let (s', run, k, c) = cancel-Done id s i in
        (
          s',
          ap (λ b. if b then cancel id s else reset_or_set id d s (is_set id s)) zero_now ∙ run,
          k,
          λ j. c j ∙ ap (λ n. if j == id then n else (s.timers j).deadline) (sym e),
        )
    | inr nonzero ↦ elim (Bool-cases (s.timers id).registered) [
      | inl r ↦
          let (s', run, k, c) =
            update_impl-Done id d s i r nonzero (ground (arith, late, nonzero)) in
          (
            s',
            ap (λ b. if b then cancel id s else reset_or_set id d s (is_set id s)) nonzero
                ∙ ap (reset_or_set id d s) (i.matches id ∙ r)
                ∙ run,
            k,
            c,
          )
      | inr r ↦
          let (s', run, k, c) =
            set_impl-Done hidden now id d s ((set_deadline id d s).timers) i r nonzero
              (ground (arith, late, nonzero)) (λ j. refl) in
          (
            s',
            ap (λ b. if b then cancel id s else reset_or_set id d s (is_set id s)) nonzero
                ∙ ap (reset_or_set id d s) (i.matches id ∙ r)
                ∙ run,
            k,
            c,
          )
    ]
  ]

  act-Keeps :
      (a : Action) (s : AlarmServer)
      → Inv hidden s
      → IsLater now a
      → (s' : AlarmServer) × (act a s ≡ ok s') × Keeps hidden now s s'
  unfolding act
  act-Keeps (cancels id) s i l = let (s', e, k, c) = cancel-Done id s i in (s', e, k)
  act-Keeps (updates id d) s i l = let (s', e, k, c) = update-Done id d s i l in (s', e, k)

  -- Any sequence of calls of Cancel, and of Update to no deadline or to ones later than a given
  -- time, returns and keeps the invariant of the timers and the alarms.
  pub acts-Keeps :
      (todo : List Action) (s : AlarmServer)
      → Inv hidden s
      → AreLater now todo
      → (s' : AlarmServer) × (acts todo s ≡ ok s') × Keeps hidden now s s'
  unfolding acts
  acts-Keeps [] s i l = (s, refl, Keeps-none i)
  acts-Keeps (a ∷ todo) s i l =
      let (s₁, e₁, k₁) = act-Keeps a s i (l.0) in
      let (s₂, e₂, k₂) = acts-Keeps todo s₁ k₁.inv (l.1) in
      (s₂, ap (λ m. m >>= acts todo) e₁ ∙ e₂, Keeps-then k₁ k₂)
