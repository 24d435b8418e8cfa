-- ===== src/Chat/Places.antt =====
-- The place of a broadcast among the others.
use raner.Common.{ℕ, zero, suc, ◌≡◌, ◌≢◌, refl, ap, some, List, [], ◌∷◌, ◌++◌, length}
use mathlib.Core.Option.{none-ne-some}
use raner.Chat.{nth, replace}

module _ {A : Type 0} where
  pub nth-replace :
      (i : ℕ) (xs : List A) (x y : A) → nth i xs ≡ some x → nth i (replace i y xs) ≡ some y
  nth-replace i [] x y e = absurd (none-ne-some x e)
  nth-replace zero (x' ∷ xs) x y e = refl
  nth-replace (suc i) (x' ∷ xs) x y e = nth-replace i xs x y e

  pub nth-replace_other :
      (i j : ℕ) (xs : List A) (y : A) → i ≢ j → nth i (replace j y xs) ≡ nth i xs
  nth-replace_other i j [] y h = refl
  nth-replace_other zero zero (x ∷ xs) y h = absurd (h refl)
  nth-replace_other zero (suc j) (x ∷ xs) y h = refl
  nth-replace_other (suc i) zero (x ∷ xs) y h = refl
  nth-replace_other (suc i) (suc j) (x ∷ xs) y h = nth-replace_other i j xs y (λ e. h (ap suc e))

  pub nth-append_last : (xs : List A) (y : A) → nth (length xs) (xs ++ (y ∷ [])) ≡ some y
  nth-append_last [] y = refl
  nth-append_last (x ∷ xs) y = nth-append_last xs y

  pub nth-append_le :
      (i : ℕ) (xs ys : List A) (x : A) → nth i xs ≡ some x → nth i (xs ++ ys) ≡ some x
  nth-append_le i [] ys x e = absurd (none-ne-some x e)
  nth-append_le zero (x' ∷ xs) ys x e = e
  nth-append_le (suc i) (x' ∷ xs) ys x e = nth-append_le i xs ys x e
