-- ===== src/Common/Bits.antt =====
-- The low bits of event masks: what `&`, `|` and `& ~` do to a single bit.
use Prim.Native.Nat.{
  ℕ, zero, suc, ◌+◌, ◌*◌, ◌/◌, ◌%◌, ◌≤◌, min, max, bit_and, bit_or, digits, bit_and-bitwise,
  bit_or-bitwise,
}
use mathlib.Core.Path.{◌≡◌, refl, sym, ap, ◌∙◌}
use native.Mathlib.Omega.{arith}

-- An operation that is written by digits, with `last` for what is left when the first argument is
-- used up.
module _ (last : ℕ → ℕ) (pick : ℕ → ℕ → ℕ) (op : ℕ → ℕ → ℕ)
    (written : (x y : ℕ) → op x y ≡ digits last pick x x y) where
  spare_fuel :
      (x y fuel more : ℕ)
      → x ≤ fuel
      → fuel ≤ more
      → digits last pick more x y ≡ digits last pick fuel x y
  spare_fuel x y zero zero low up = refl
  spare_fuel x y (suc fuel) zero low up = absurd (omega arith)
  spare_fuel zero y zero (suc more) low up = refl
  spare_fuel zero y (suc fuel) (suc more) low up = refl
  spare_fuel (suc x) y zero (suc more) low up = absurd (omega arith)
  spare_fuel (suc x) y (suc fuel) (suc more) low up =
      ap (λ h. h * 2 + pick (suc x % 2) (y % 2))
        (spare_fuel (suc x / 2) (y / 2) fuel more (omega arith) (omega arith))

  pub halve : (x y : ℕ) → op (suc x) y ≡ op (suc x / 2) (y / 2) * 2 + pick (suc x % 2) (y % 2)
  halve x y =
      written (suc x) y
      ∙ ap (λ h. h * 2 + pick (suc x % 2) (y % 2))
          (spare_fuel (suc x / 2) (y / 2) (suc x / 2) x (omega arith) (omega arith)
            ∙ sym (written (suc x / 2) (y / 2)))

bit_and_step : (x y : ℕ) → bit_and x y ≡ bit_and (x / 2) (y / 2) * 2 + min (x % 2) (y % 2)
bit_and_step zero y = omega (arith, bit_and-bitwise 0 y, bit_and-bitwise 0 (y / 2))
bit_and_step (suc x) y = halve (λ d. zero) min bit_and bit_and-bitwise x y

bit_or_step : (x y : ℕ) → bit_or x y ≡ bit_or (x / 2) (y / 2) * 2 + max (x % 2) (y % 2)
bit_or_step zero y = omega (arith, bit_or-bitwise 0 y, bit_or-bitwise 0 (y / 2))
bit_or_step (suc x) y = halve (λ d. d) max bit_or bit_or-bitwise x y

none_common : (bound x : ℕ) → x ≤ bound → bit_and x 0 ≡ 0
none_common zero zero low = bit_and-bitwise 0 0
none_common zero (suc x) low = absurd (omega arith)
none_common (suc bound) zero low = bit_and-bitwise 0 0
none_common (suc bound) (suc x) low =
    omega (arith, none_common bound (suc x / 2) (omega arith), bit_and_step (suc x) 0)

bit_and-zero : (x : ℕ) → bit_and x 0 ≡ 0
bit_and-zero x = none_common x x (omega arith)

-- The bits of EPOLLIN, EPOLLOUT and EPOLLERR.
abbrev pub bit0 : ℕ → ℕ
bit0 a = a % 2

abbrev pub bit2 : ℕ → ℕ
bit2 a = a / 4 % 2

abbrev pub bit3 : ℕ → ℕ
bit3 a = a / 8 % 2

pub bit_and_one : (x : ℕ) → bit_and x 1 ≡ bit0 x
bit_and_one x = omega (arith, bit_and-zero (x / 2), bit_and_step x 1)

pub bit_and_four : (a : ℕ) → bit_and a 4 ≡ 4 * bit2 a
bit_and_four a = omega (arith, bit_and_step a 4, bit_and_step (a / 2) 2, bit_and_one (a / 2 / 2))

pub bit_and_eight : (a : ℕ) → bit_and a 8 ≡ 8 * bit3 a
bit_and_eight a = omega (arith, bit_and_step a 8, bit_and_four (a / 2))

pub bit_or_bits :
    (a b : ℕ)
    → (bit0 (bit_or a b) ≡ max (bit0 a) (bit0 b))
      × (bit2 (bit_or a b) ≡ max (bit2 a) (bit2 b))
      × (bit3 (bit_or a b) ≡ max (bit3 a) (bit3 b))
bit_or_bits a b = omega (
  arith,
  bit_or_step a b,
  bit_or_step (a / 2) (b / 2),
  bit_or_step (a / 2 / 2) (b / 2 / 2),
  bit_or_step (a / 2 / 2 / 2) (b / 2 / 2 / 2),
)

pub bit_and_bits :
    (a b : ℕ)
    → (bit0 (bit_and a b) ≡ min (bit0 a) (bit0 b))
      × (bit2 (bit_and a b) ≡ min (bit2 a) (bit2 b))
      × (bit3 (bit_and a b) ≡ min (bit3 a) (bit3 b))
bit_and_bits a b = omega (
  arith,
  bit_and_step a b,
  bit_and_step (a / 2) (b / 2),
  bit_and_step (a / 2 / 2) (b / 2 / 2),
  bit_and_step (a / 2 / 2 / 2) (b / 2 / 2 / 2),
)
