-- ===== src/Alarms/Invariant/Steps.antt =====
-- The changes of state that registering, unregistering and calling an alarm consist of.
use raner.Common.{
  ℕ, ◌+◌, ◌<◌, ◌≡◌, refl, sym, ap, ap₂, subst, ◌∙◌, Bool, true, false, not, Bool-cases, inl, inr,
  ◌||◌, Option, none, some, ◌∷◌, mem, remove, mem-remove, remove-AreDistinct, AreDistinct, ◌==◌,
  ==_refl, ==_iff, arith, if◌then◌else◌,
}
use raner.Alarms.{Alarm, EpollTimer, AlarmServer, insert, find, erase}
use raner.Alarms.Order.{
  tokens, has, mem-tokens, find-erase, find-insert, insert-AreDistinct, tokens-erase,
  insert-IsSorted, erase-IsSorted,
}
use raner.Alarms.Invariant.{Inv}

-- `g` is `f` but for `t` at `id`.
abbrev pub Puts : ℕ → EpollTimer → (ℕ → EpollTimer) → (ℕ → EpollTimer) → Type 0
Puts id t f g = (j : ℕ) → g j ≡ (if j == id then t else f j)

-- Whose alarm it is.
abbrev owner : Option Alarm → ℕ
owner none = 0
owner (some a) = a.cb

or_false : (b c : Bool) → (b || c) ≡ false → (b ≡ false) × (c ≡ false)
or_false false false h = (refl, refl)
or_false false true h = cc
or_false true c h = cc

module _ (hidden : ℕ → Bool) (s : AlarmServer) (i : Inv hidden s) (id : ℕ) (t : EpollTimer)
    (T : ℕ → EpollTimer) (p : Puts id t s.timers T) where
  put_same : T id ≡ t
  put_same = p id ∙ ap (λ b. if b then t else s.timers id) (==_refl id)

  put_other : (j : ℕ) → (j == id) ≡ false → T j ≡ s.timers j
  put_other j e = p j ∙ ap (λ b. if b then t else s.timers j) e

  module _ (r : (s.timers id).registered ≡ true) (d : t.deadline ≡ 0)
      (u : t.registered ≡ false) where
    abbrev tok : ℕ
    tok = (s.timers id).token

    abbrev or_tok : ℕ → Bool
    or_tok j = hidden j || j == tok

    tok_low : tok < s.next_token
    tok_low = ground (arith, i.fresh tok, (i.there id r).1)

    -- An alarm at another token is another timer's.
    other_timer :
        (j : ℕ) (a : Alarm)
        → find j s.alarm_map ≡ some a
        → hidden j ≡ false
        → (j == tok) ≡ false
        → (a.cb == id) ≡ false
    other_timer j a e h ne = elim (Bool-cases (a.cb == id)) [
      | inr other ↦ other
      | inl e' ↦
          let same : a.cb ≡ id = (==_iff a.cb id).0 e' in
          let own : tok ≡ j =
            ap (λ c. (s.timers c).token) (sym same) ∙ ap (λ x. x.token) (i.sound j a e h) in
          absurd (ground (arith, own, ne))
    ]

    abbrev Leads : ℕ → EpollTimer → Type 0
    Leads j x =
        (or_tok x.token ≡ false)
        × (find x.token s.alarm_map ≡ some (record { time = x.deadline; cb = j; token = x.token }))

    other_token :
        (j : ℕ)
        → (j == id) ≡ false
        → find (s.timers j).token s.alarm_map
          ≡ some (record { time = (s.timers j).deadline; cb = j; token = (s.timers j).token })
        → ((s.timers j).token == tok) ≡ false
    other_token j e g = elim (Bool-cases ((s.timers j).token == tok)) [
      | inr other ↦ other
      | inl same ↦
          let both =
            sym g
            ∙ ap (λ k. find k s.alarm_map) ((==_iff (s.timers j).token tok).0 same)
            ∙ (i.there id r).1 in
          absurd (ground (arith, ap owner both, e))
    ]

    pub hide : Inv or_tok (record s { all_alarms = remove id s.all_alarms; timers = T })
    hide = record {
      distinct = i.distinct;
      sorted = i.sorted;
      fresh = i.fresh;
      low = λ j h. elim (Bool-cases (hidden j)) [
        | inl e ↦ i.low j e
        | inr e ↦ ground (arith, tok_low, e, h)
      ];
      sound = λ j a e h.
          let (h₁, h₂) = or_false (hidden j) (j == tok) h in
          put_other a.cb (other_timer j a e h₁ h₂) ∙ i.sound j a e h₁;
      there = λ j q. elim (Bool-cases (j == id)) [
        | inl e ↦
            absurd (ground (arith, put_same, ap (λ x. (T x).registered) ((==_iff j id).0 e), u, q))
        | inr e ↦
            let o : T j ≡ s.timers j = put_other j e in
            let (f, g) = i.there j (sym (ap (λ x. x.registered) o) ∙ q) in
            subst (Leads j) (sym o) (ap₂ ◌||◌ f (other_token j e g), g)
      ];
      matches = λ j. elim (Bool-cases (j == id)) [
        | inl e ↦
            let o : T j ≡ t = ap T ((==_iff j id).0 e) ∙ put_same in
            ap (λ x. not (x.deadline == 0)) o
            ∙ ap (λ n. not (n == 0)) d
            ∙ sym (ap (λ x. x.registered) o ∙ u)
        | inr e ↦
            ap (λ x. not (x.deadline == 0)) (put_other j e)
            ∙ i.matches j
            ∙ sym (ap (λ x. x.registered) (put_other j e))
      ];
      all = λ j. elim (Bool-cases (j == id)) [
        | inl e ↦
            let o : T j ≡ t = ap T ((==_iff j id).0 e) ∙ put_same in
            mem-remove id j s.all_alarms
            ∙ ap (λ b. if b then false else mem j s.all_alarms) e
            ∙ sym (ap (λ x. x.registered) o ∙ u)
        | inr e ↦
            mem-remove id j s.all_alarms
            ∙ ap (λ b. if b then false else mem j s.all_alarms) e
            ∙ i.all j
            ∙ sym (ap (λ x. x.registered) (put_other j e))
      ];
    }

  module _ (r : (s.timers id).registered ≡ false) (u : t.registered ≡ true)
      (k : t.token ≡ s.next_token) (d : (t.deadline == 0) ≡ false) where
    abbrev new_alarm : Alarm
    new_alarm = record { time = t.deadline; cb = id; token = s.next_token }

    no_token : find s.next_token s.alarm_map ≡ none
    no_token = i.fresh s.next_token (omega arith)

    find_new :
        (j : ℕ)
        → find j (insert new_alarm s.alarm_map)
          ≡ (if j == s.next_token then some new_alarm else find j s.alarm_map)
    find_new j = find-insert j new_alarm s.alarm_map no_token

    not_hidden : hidden s.next_token ≡ false
    not_hidden = elim (Bool-cases (hidden s.next_token)) [
      | inr e ↦ e
      | inl e ↦ absurd (omega (arith, i.low s.next_token e))
    ]

    put_new : T id ≡ record { deadline = t.deadline; registered = true; token = s.next_token }
    put_new =
        put_same ∙ ap₂ (λ b x. record { deadline = t.deadline; registered = b; token = x }) u k

    old_token : (j : ℕ) (a : Alarm) → find j s.alarm_map ≡ some a → (j == s.next_token) ≡ false
    old_token j a e = elim (Bool-cases (j == s.next_token)) [
      | inr other ↦ other
      | inl same ↦
          let both =
            sym e ∙ ap (λ x. find x s.alarm_map) ((==_iff j s.next_token).0 same) ∙ no_token in
          absurd (ground (arith, ap has both))
    ]

    -- The owner of an alarm that stands in the map is registered.
    unlike_new :
        (j : ℕ) (a : Alarm) → find j s.alarm_map ≡ some a → hidden j ≡ false → (a.cb == id) ≡ false
    unlike_new j a e h = elim (Bool-cases (a.cb == id)) [
      | inr other ↦ other
      | inl same ↦
          let both =
            sym r
            ∙ ap (λ x. (s.timers x).registered) (sym ((==_iff a.cb id).0 same))
            ∙ ap (λ x. x.registered) (i.sound j a e h) in
          cc (both)
    ]

    abbrev Owned : ℕ → Option Alarm → Type 0
    Owned j none = Unit {0}
    Owned j (some a) = T a.cb ≡ record { deadline = a.time; registered = true; token = j }

    abbrev Reaches : ℕ → EpollTimer → Type 0
    Reaches j x =
        (hidden x.token ≡ false)
        × (find x.token (insert new_alarm s.alarm_map)
            ≡ some (record { time = x.deadline; cb = j; token = x.token }))

    pub register : Inv hidden (record s {
      alarm_map = insert new_alarm s.alarm_map;
      all_alarms = id ∷ s.all_alarms;
      timers = T;
      next_token = s.next_token + 1;
    })
    register = record {
      distinct =
          insert-AreDistinct new_alarm s.alarm_map
            (mem-tokens s.next_token s.alarm_map ∙ ap has no_token) i.distinct;
      sorted = insert-IsSorted new_alarm s.alarm_map i.sorted;
      fresh = λ j h. ground (arith, find_new j, i.fresh j);
      low = λ j h. omega (arith, i.low j h);
      sound = λ j a e h. elim (Bool-cases (j == s.next_token)) [
        | inl n ↦
            subst (Owned j)
              (sym (find_new j ∙ ap (λ b. if b then some new_alarm else find j s.alarm_map) n) ∙ e)
              (put_new
                ∙ ap (λ x. record { deadline = t.deadline; registered = true; token = x })
                    (sym ((==_iff j s.next_token).0 n)))
        | inr n ↦
            let there : find j s.alarm_map ≡ some a =
              sym (find_new j ∙ ap (λ b. if b then some new_alarm else find j s.alarm_map) n) ∙ e in
            put_other a.cb (unlike_new j a there h) ∙ i.sound j a there h
      ];
      there = λ j q. elim (Bool-cases (j == id)) [
        | inl e ↦ subst (Reaches j) (sym (ap T ((==_iff j id).0 e) ∙ put_new)) (
          not_hidden,
          find_new s.next_token
              ∙ ap (λ b. if b then some new_alarm else find s.next_token s.alarm_map)
                  (==_refl s.next_token)
              ∙ ap (λ c. some (record { time = t.deadline; cb = c; token = s.next_token }))
                  (sym ((==_iff j id).0 e)),
        )
        | inr e ↦
            let o : T j ≡ s.timers j = put_other j e in
            let (f, g) = i.there j (sym (ap (λ x. x.registered) o) ∙ q) in
            subst (Reaches j) (sym o) (
              f,
              find_new (s.timers j).token
                  ∙ ap (λ b. if b then some new_alarm else find (s.timers j).token s.alarm_map)
                      (old_token (s.timers j).token
                        (record {
                          time = (s.timers j).deadline;
                          cb = j;
                          token = (s.timers j).token;
                        })
                        g)
                  ∙ g,
            )
      ];
      matches = λ j. elim (Bool-cases (j == id)) [
        | inl e ↦
            let o : T j ≡ t = ap T ((==_iff j id).0 e) ∙ put_same in
            ap (λ x. not (x.deadline == 0)) o ∙ ap not d ∙ sym (ap (λ x. x.registered) o ∙ u)
        | inr e ↦
            ap (λ x. not (x.deadline == 0)) (put_other j e)
            ∙ i.matches j
            ∙ sym (ap (λ x. x.registered) (put_other j e))
      ];
      all = λ j. elim (Bool-cases (j == id)) [
        | inl e ↦
            let o : T j ≡ t = ap T ((==_iff j id).0 e) ∙ put_same in
            ap (λ b. b || mem j s.all_alarms) e ∙ sym (ap (λ x. x.registered) o ∙ u)
        | inr e ↦
            ap (λ b. b || mem j s.all_alarms) e
            ∙ i.all j
            ∙ sym (ap (λ x. x.registered) (put_other j e))
      ];
    }

-- The alarm at a hidden token is erased.
pub erase-Inv :
    (hidden : ℕ → Bool) (k : ℕ) (s : AlarmServer)
    → hidden k ≡ false
    → Inv (λ j. hidden j || j == k) s
    → Inv hidden (record s { alarm_map = erase k s.alarm_map })
erase-Inv hidden k s h i = record {
  distinct =
      subst AreDistinct (sym (tokens-erase k s.alarm_map))
        (remove-AreDistinct k (tokens s.alarm_map) i.distinct);
  sorted = erase-IsSorted k s.alarm_map i.sorted;
  fresh = λ j n. ground (arith, find-erase j k s.alarm_map, i.fresh j n);
  low = λ j e. i.low j (ap (λ b. b || j == k) e);
  sound = λ j a e f. elim (Bool-cases (j == k)) [
    | inl n ↦ absurd (ground (arith, sym e ∙ find-erase j k s.alarm_map, n))
    | inr n ↦
        i.sound j a
          (sym (find-erase j k s.alarm_map ∙ ap (λ b. if b then none else find j s.alarm_map) n)
            ∙ e)
          (ap₂ ◌||◌ f n)
  ];
  there = λ id q.
      let k' = (s.timers id).token in
      let (f, g) = i.there id q in
      let (f₁, f₂) = or_false (hidden k') (k' == k) f in
      (f₁, find-erase k' k s.alarm_map ∙ ap (λ b. if b then none else find k' s.alarm_map) f₂ ∙ g);
  matches = i.matches;
  all = i.all;
}
