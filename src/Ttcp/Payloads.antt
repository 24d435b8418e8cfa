-- ===== src/Ttcp/Payloads.antt =====
-- A stream of equal messages, as the two sides of ttcp send them, and where it may be cut.
use raner.Common.{
  ℕ, zero, suc, ◌+◌, ◌*◌, ◌≤◌, ◌<◌, ◌≡◌, refl, sym, ap, ◌∙◌, List, [], ◌∷◌, ◌++◌, arith, length,
  take, drop, length-append, take-append_le, take_all, take-append-drop, drop-append_le,
  drop-append_self, append_assoc, Bool-cases, inl, inr, ltb,
}
use raner.Endian.Laws.{wire_32}
use raner.Ttcp.{pattern_from}

abbrev pub copies : List ℕ → ℕ → List ℕ
copies p zero = []
copies p (suc n) = p ++ copies p n

-- A message of `len` bytes, and its acknowledgement.
abbrev pub payload : ℕ → List ℕ
payload len = wire_32 len ++ pattern_from 0 len

abbrev pub session_message : ℕ → ℕ → List ℕ
session_message number len = wire_32 number ++ wire_32 len

pub length-pattern_from : (i n : ℕ) → length (pattern_from i n) ≡ n
unfolding pattern_from
length-pattern_from i zero = refl
length-pattern_from i (suc n) = ap suc (length-pattern_from (i + 1) n)

pub length-payload : (len : ℕ) → length (payload len) ≡ len + 4
length-payload len = omega (arith, length-pattern_from 0 len)

pub length-copies : (p : List ℕ) (n : ℕ) → length (copies p n) ≡ n * length p
length-copies p zero = omega arith
length-copies p (suc n) = omega (arith, length-append p (copies p n), length-copies p n)

pub copies_le : (p : List ℕ) (n : ℕ) → 0 < length p → n ≤ length (copies p n)
copies_le p zero h = omega arith
copies_le p (suc n) h = omega (arith, length-append p (copies p n), copies_le p n h)

pub copies_add : (p : List ℕ) (m n : ℕ) → copies p (m + n) ≡ copies p m ++ copies p n
copies_add p zero n = ap (copies p) (omega arith)
copies_add p (suc m) n =
    let e : suc m + n ≡ suc (m + n) = omega arith in
    ap (copies p) e
    ∙ ap (◌++◌ p) (copies_add p m n)
    ∙ sym (append_assoc p (copies p m) (copies p n))

-- A part of a message that is not all of it.
abbrev pub IsPart : List ℕ → List ℕ → Type 0
IsPart p rest = (m : ℕ) × (m < length p) × (rest ≡ take m p)

-- Where a stream of messages is cut: whole ones, and a part of the next.
abbrev pub Cuts : List ℕ → ℕ → List ℕ → List ℕ → Type 0
Cuts p n x y =
    (k : ℕ) × (later : ℕ) × (rest : List ℕ) × (n ≡ k + later)
    × (x ≡ copies p k ++ rest)
    × IsPart p rest
    × (rest ++ y ≡ copies p later)

pub cut : (p : List ℕ) (n : ℕ) (x y : List ℕ) → 0 < length p → x ++ y ≡ copies p n → Cuts p n x y
cut p zero [] y h e = (0, 0, [], omega arith, refl, (0, h, refl), e)
cut p zero (a ∷ x) y h e = absurd (omega (arith, ap length e))
cut p (suc n) x y h e = elim (Bool-cases (ltb (length x) (length p))) [
  | inl less ↦
      let part : x ≡ take (length x) p =
        sym (take_all (length x) x (omega arith))
        ∙ sym (take-append_le (length x) x y (omega arith))
        ∙ ap (take (length x)) e
        ∙ take-append_le (length x) p (copies p n) (ground arith) in
      (0, suc n, x, omega arith, refl, (length x, ground arith, part), e)
  | inr more ↦
      let l : ℕ = length p in
      let long : l ≤ length x = ground arith in
      let whole : x ≡ p ++ drop l x =
        sym (take-append-drop l x)
        ∙ ap (λ q. q ++ drop l x)
            (sym (take-append_le l x y long)
              ∙ ap (take l) e
              ∙ take-append_le l p (copies p n) (omega arith)
              ∙ take_all l p (omega arith)) in
      let left : drop l x ++ y ≡ copies p n =
        sym (drop-append_le l x y long) ∙ ap (drop l) e ∙ drop-append_self p (copies p n) in
      let (k, later, rest, split, begins, part, ends) = cut p n (drop l x) y h left in
      (
        suc k,
        later,
        rest,
        omega (arith, split),
        whole ∙ ap (◌++◌ p) begins ∙ sym (append_assoc p (copies p k) rest),
        part,
        ends,
      )
]
