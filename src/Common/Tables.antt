-- ===== src/Common/Tables.antt =====
-- Maps keyed by file descriptors, as functions, and lists of descriptors without repeats.
use Prim.Native.Nat.{ℕ, ◌+◌, ◌≤◌}
use mathlib.Core.Path.{◌≡◌, refl}
use mathlib.Core.Bool.{Bool, true, false, ◌||◌}
use mathlib.Core.List.{List, [], ◌∷◌, ◌++◌}
use mathlib.Core.Option.{Option}
use native.Mathlib.Omega.{arith}
use raner.Common.Tests.{◌==◌, if◌then◌else◌}
use raner.Common.Lists.{length}

abbrev pub Table {ℓ} : Type ℓ → Type ℓ
Table V = ℕ → Option V

-- Sets or erases the entry at `k`.
abbrev pub update {ℓ} : {V : Type ℓ} → Table V → ℕ → Option V → Table V
update t k v j = if j == k then v else t j

abbrev pub mem : ℕ → List ℕ → Bool
mem x [] = false
mem x (y ∷ ys) = x == y || mem x ys

-- Takes the node `x` out of a list, if it is in it.
abbrev pub remove : ℕ → List ℕ → List ℕ
remove x [] = []
remove x (y ∷ ys) = if x == y then remove x ys else y ∷ remove x ys

abbrev pub AreDistinct : List ℕ → Type 0
AreDistinct [] = Unit {0}
AreDistinct (x ∷ xs) = (mem x xs ≡ false) × AreDistinct xs

pub mem-append : (x : ℕ) (xs ys : List ℕ) → mem x (xs ++ ys) ≡ (mem x xs || mem x ys)
mem-append x [] ys = refl
mem-append x (y ∷ xs) ys = ground (arith, mem-append x xs ys)

pub mem-remove :
    (x y : ℕ) (xs : List ℕ) → mem y (remove x xs) ≡ (if y == x then false else mem y xs)
mem-remove x y [] = ground arith
mem-remove x y (z ∷ xs) = ground (arith, mem-remove x y xs)

pub remove_absent : (x : ℕ) (xs : List ℕ) → mem x xs ≡ false → remove x xs ≡ xs
remove_absent x [] h = refl
remove_absent x (y ∷ xs) h = ground (arith, remove_absent x xs)

pub remove-append : (x : ℕ) (xs ys : List ℕ) → remove x (xs ++ ys) ≡ remove x xs ++ remove x ys
remove-append x [] ys = refl
remove-append x (y ∷ xs) ys = ground (arith, remove-append x xs ys)

pub remove-AreDistinct : (x : ℕ) (xs : List ℕ) → AreDistinct xs → AreDistinct (remove x xs)
remove-AreDistinct x [] h = tt
remove-AreDistinct x (y ∷ xs) h = ground (arith, remove-AreDistinct x xs h.1, mem-remove x y xs)

pub length-remove :
    (x : ℕ) (xs : List ℕ) → AreDistinct xs → mem x xs ≡ true → length (remove x xs) + 1 ≡ length xs
length-remove x [] d h = cc
length-remove x (y ∷ xs) d h = ground (arith, length-remove x xs d.1, remove_absent x xs)

pub length-remove_le : (x : ℕ) (xs : List ℕ) → length (remove x xs) ≤ length xs
length-remove_le x [] = omega arith
length-remove_le x (y ∷ xs) = ground (arith, length-remove_le x xs)
