-- ===== src/Chat/Pairs.antt =====
-- Broadcasts beside the deliveries that they stand for, and how many use a list.
use raner.Common.{
  ℕ, zero, suc, ◌+◌, ◌≤◌, ◌≡◌, refl, sym, subst, ap, ◌==◌, ◌&&◌, none, some, List, [], ◌∷◌, ◌++◌,
  if◌then◌else◌, arith,
}
use mathlib.Core.Option.{some-injective, some-ne-none}
use raner.Chat.{Broadcast, nth, replace}

module _ {A B : Type 0} (R : A → B → Type 0) where
  abbrev pub AllPairs : List A → List B → Type 0
  AllPairs [] [] = Unit {0}
  AllPairs [] (y ∷ ys) = ⊥
  AllPairs (x ∷ xs) [] = ⊥
  AllPairs (x ∷ xs) (y ∷ ys) = R x y × AllPairs xs ys

  pub append-AllPairs :
      (xs : List A) (ys : List B) (x : A) (y : B)
      → AllPairs xs ys
      → R x y
      → AllPairs (xs ++ (x ∷ [])) (ys ++ (y ∷ []))
  append-AllPairs [] [] x y h r = (r, tt)
  append-AllPairs [] (y' ∷ ys) x y h r = absurd h
  append-AllPairs (x' ∷ xs) [] x y h r = absurd h
  append-AllPairs (x' ∷ xs) (y' ∷ ys) x y (r', h) r = (r', append-AllPairs xs ys x y h r)

  pub replace-AllPairs :
      (i : ℕ) (xs : List A) (ys : List B) (x : A) (y : B)
      → AllPairs xs ys
      → R x y
      → AllPairs (replace i x xs) (replace i y ys)
  replace-AllPairs i [] [] x y h r = tt
  replace-AllPairs i [] (y' ∷ ys) x y h r = absurd h
  replace-AllPairs i (x' ∷ xs) [] x y h r = absurd h
  replace-AllPairs zero (x' ∷ xs) (y' ∷ ys) x y (r', h) r = (r, h)
  replace-AllPairs (suc i) (x' ∷ xs) (y' ∷ ys) x y (r', h) r =
      (r', replace-AllPairs i xs ys x y h r)

  pub nth-AllPairs :
      (i : ℕ) (xs : List A) (ys : List B) (x : A)
      → AllPairs xs ys
      → nth i xs ≡ some x
      → (y : B) × (nth i ys ≡ some y) × R x y
  nth-AllPairs i [] ys x h e = absurd (some-ne-none _ (sym e))
  nth-AllPairs i (x' ∷ xs) [] x h e = absurd h
  nth-AllPairs zero (x' ∷ xs) (y ∷ ys) x (r, h) e =
      (y, refl, subst (λ q. R q y) (some-injective x' x e) r)
  nth-AllPairs (suc i) (x' ∷ xs) (y ∷ ys) x (r, h) e = nth-AllPairs i xs ys x h e

  pub nth-AllPairs-none :
      (i : ℕ) (xs : List A) (ys : List B) → AllPairs xs ys → nth i xs ≡ none → nth i ys ≡ none
  nth-AllPairs-none i [] [] h e = refl
  nth-AllPairs-none i [] (y ∷ ys) h e = absurd h
  nth-AllPairs-none i (x ∷ xs) [] h e = absurd h
  nth-AllPairs-none zero (x ∷ xs) (y ∷ ys) h e = absurd (some-ne-none _ e)
  nth-AllPairs-none (suc i) (x ∷ xs) (y ∷ ys) (r, h) e = nth-AllPairs-none i xs ys h e

-- How many shared pointers to the list `p` a broadcast has, and all of them.
abbrev pub held : ℕ → Broadcast → ℕ
held p b = if b.running && (p == b.list) then 1 else 0

abbrev pub held_by : ℕ → List Broadcast → ℕ
held_by p [] = 0
held_by p (b ∷ bs) = held p b + held_by p bs

pub held_by-append :
    (p : ℕ) (bs : List Broadcast) (b : Broadcast)
    → held_by p (bs ++ (b ∷ [])) ≡ held_by p bs + held p b
held_by-append p [] b = omega arith
held_by-append p (b' ∷ bs) b = omega (arith, held_by-append p bs b)

pub held_by-replace :
    (p i : ℕ) (bs : List Broadcast) (b b' : Broadcast)
    → nth i bs ≡ some b
    → held_by p (replace i b' bs) + held p b ≡ held_by p bs + held p b'
held_by-replace p i [] b b' e = absurd (some-ne-none _ (sym e))
held_by-replace p zero (x ∷ bs) b b' e =
    let same : held p x ≡ held p b = ap (held p) (some-injective x b e) in omega (arith, same)
held_by-replace p (suc i) (x ∷ bs) b b' e = omega (arith, held_by-replace p i bs b b' e)

pub held_by-nth :
    (p i : ℕ) (bs : List Broadcast) (b : Broadcast) → nth i bs ≡ some b → held p b ≤ held_by p bs
held_by-nth p i [] b e = absurd (some-ne-none _ (sym e))
held_by-nth p zero (x ∷ bs) b e =
    let same : held p x ≡ held p b = ap (held p) (some-injective x b e) in omega (arith, same)
held_by-nth p (suc i) (x ∷ bs) b e = omega (arith, held_by-nth p i bs b e)
