-- ===== src/Alarms/Order.antt =====
-- The multimap of alarms: what inserting and erasing an element does to it.
use raner.Common.{
  ℕ, ◌+◌, ◌≤◌, ◌<◌, ◌≡◌, refl, sym, ap, ◌∙◌, Bool, true, false, Bool-cases, inl, inr, ◌||◌, Option,
  none, some, List, [], ◌∷◌, mem, remove, AreDistinct, ltb, leb, ◌==◌, ==_refl, arith,
  if◌then◌else◌,
}
use raner.Alarms.{Alarm, insert, find, erase, first, next_after}

abbrev pub tokens : List Alarm → List ℕ
tokens [] = []
tokens (a ∷ rest) = a.token ∷ tokens rest

abbrev pub has {ℓ} : {A : Type ℓ} → Option A → Bool
has none = false
has (some a) = true

pub mem-tokens : (k : ℕ) (l : List Alarm) → mem k (tokens l) ≡ has (find k l)
mem-tokens k [] = refl
mem-tokens k (a ∷ rest) = ground (arith, mem-tokens k rest)

pub find-token : (k : ℕ) (l : List Alarm) (a : Alarm) → find k l ≡ some a → a.token ≡ k
find-token k [] a e = cc
find-token k (b ∷ rest) a e = ground (arith, find-token k rest a)

pub find-erase :
    (j k : ℕ) (l : List Alarm) → find j (erase k l) ≡ (if j == k then none else find j l)
find-erase j k [] = ground arith
find-erase j k (a ∷ rest) = ground (arith, find-erase j k rest)

pub find-insert :
    (j : ℕ) (x : Alarm) (l : List Alarm)
    → find x.token l ≡ none
    → find j (insert x l) ≡ (if j == x.token then some x else find j l)
find-insert j x [] h = ground arith
find-insert j x (a ∷ rest) h = ground (arith, find-insert j x rest)

pub mem-insert :
    (j : ℕ) (x : Alarm) (l : List Alarm)
    → mem j (tokens (insert x l)) ≡ (j == x.token || mem j (tokens l))
mem-insert j x [] = ground arith
mem-insert j x (a ∷ rest) = ground (arith, mem-insert j x rest)

pub insert-AreDistinct :
    (x : Alarm) (l : List Alarm)
    → mem x.token (tokens l) ≡ false
    → AreDistinct (tokens l)
    → AreDistinct (tokens (insert x l))
insert-AreDistinct x [] h d = ground arith
insert-AreDistinct x (a ∷ rest) h d =
    ground (arith, insert-AreDistinct x rest, mem-insert a.token x rest)

pub tokens-erase : (k : ℕ) (l : List Alarm) → tokens (erase k l) ≡ remove k (tokens l)
tokens-erase k [] = refl
tokens-erase k (a ∷ rest) = ground (arith, tokens-erase k rest)

pub erase_absent : (k : ℕ) (l : List Alarm) → mem k (tokens l) ≡ false → erase k l ≡ l
erase_absent k [] h = refl
erase_absent k (a ∷ rest) h = ground (arith, erase_absent k rest)

-- All the times are at least `t`.
abbrev pub StartsAt : ℕ → List Alarm → Type 0
StartsAt t [] = Unit {0}
StartsAt t (a ∷ rest) = (t ≤ a.time) × StartsAt t rest

abbrev pub IsSorted : List Alarm → Type 0
IsSorted [] = Unit {0}
IsSorted (a ∷ rest) = StartsAt a.time rest × IsSorted rest

pub StartsAt-later : (t u : ℕ) (l : List Alarm) → t ≤ u → StartsAt u l → StartsAt t l
StartsAt-later t u [] h s = tt
StartsAt-later t u (a ∷ rest) h s = (omega (arith, s.0), StartsAt-later t u rest h (s.1))

pub insert-StartsAt :
    (t : ℕ) (x : Alarm) (l : List Alarm) → t ≤ x.time → StartsAt t l → StartsAt t (insert x l)
insert-StartsAt t x [] h s = (h, tt)
insert-StartsAt t x (a ∷ rest) h s = elim (Bool-cases (ltb x.time a.time)) [
  | inl e ↦ rw e (h, s)
  | inr e ↦ rw e (s.0, insert-StartsAt t x rest h (s.1))
]

pub insert-IsSorted : (x : Alarm) (l : List Alarm) → IsSorted l → IsSorted (insert x l)
insert-IsSorted x [] s = (tt, tt)
insert-IsSorted x (a ∷ rest) s = elim (Bool-cases (ltb x.time a.time)) [
  | inl e ↦
      let h : x.time ≤ a.time = ground arith in
      rw e ((h, StartsAt-later x.time a.time rest h (s.0)), s)
  | inr e ↦ rw e (insert-StartsAt a.time x rest (ground arith) (s.0), insert-IsSorted x rest (s.1))
]

pub erase-StartsAt : (t k : ℕ) (l : List Alarm) → StartsAt t l → StartsAt t (erase k l)
erase-StartsAt t k [] s = tt
erase-StartsAt t k (a ∷ rest) s = elim (Bool-cases (k == a.token)) [
  | inl e ↦ rw e (erase-StartsAt t k rest (s.1))
  | inr e ↦ rw e (s.0, erase-StartsAt t k rest (s.1))
]

pub erase-IsSorted : (k : ℕ) (l : List Alarm) → IsSorted l → IsSorted (erase k l)
erase-IsSorted k [] s = tt
erase-IsSorted k (a ∷ rest) s = elim (Bool-cases (k == a.token)) [
  | inl e ↦ rw e (erase-IsSorted k rest (s.1))
  | inr e ↦ rw e (erase-StartsAt a.time k rest (s.0), erase-IsSorted k rest (s.1))
]

-- How many alarms are due.
abbrev pub due : ℕ → List Alarm → ℕ
due now [] = 0
due now (a ∷ rest) = if leb a.time now then due now rest + 1 else due now rest

pub due-insert :
    (now : ℕ) (x : Alarm) (l : List Alarm) → now < x.time → due now (insert x l) ≡ due now l
due-insert now x [] h = ground arith
due-insert now x (a ∷ rest) h = ground (arith, due-insert now x rest h)

pub due-erase : (now k : ℕ) (l : List Alarm) → due now (erase k l) ≤ due now l
due-erase now k [] = ground arith
due-erase now k (a ∷ rest) = ground (arith, due-erase now k rest)

pub StartsAt-due : (now t : ℕ) (l : List Alarm) → now < t → StartsAt t l → due now l ≡ 0
StartsAt-due now t [] h s = refl
StartsAt-due now t (a ∷ rest) h s = ground (arith, StartsAt-due now t rest h (s.1))

-- The first element is `k` and due.
abbrev pub IsAt : ℕ → ℕ → List Alarm → Type 0
IsAt now k [] = ⊥
IsAt now k (a ∷ rest) = (k ≡ a.token) × (a.time ≤ now)

pub insert-IsAt :
    (now k : ℕ) (x : Alarm) (l : List Alarm) → now < x.time → IsAt now k l → IsAt now k (insert x l)
insert-IsAt now k x [] h p = absurd p
insert-IsAt now k x (a ∷ rest) h p = elim (Bool-cases (ltb x.time a.time)) [
  | inl e ↦ absurd (ground (arith, p.0, p.1))
  | inr e ↦ rw e p
]

pub erase-IsAt :
    (now k j : ℕ) (l : List Alarm) → (j == k) ≡ false → IsAt now k l → IsAt now k (erase j l)
erase-IsAt now k j [] h p = absurd p
erase-IsAt now k j (a ∷ rest) h p =
    let e : (j == a.token) ≡ false = sym (ap (◌==◌ j) (p.0)) ∙ h in rw e p

-- Taking the first element off.
pub pop :
    (now k : ℕ) (l : List Alarm)
    → AreDistinct (tokens l)
    → IsAt now k l
    → (next_after k l ≡ first (erase k l)) × (due now (erase k l) + 1 ≡ due now l)
pop now k [] d p = absurd p
pop now k (a ∷ rest) d p =
    let here : (k == a.token) ≡ true = ap (◌==◌ k) (sym (p.0)) ∙ ==_refl k in
    let gone : erase k rest ≡ rest =
      erase_absent k rest (ap (λ j. mem j (tokens rest)) (p.0) ∙ d.0) in
    rw (here, gone) (refl, ground (arith, p.1))
