-- ===== src/LoopPool/Turns.antt =====
-- `GetNextLoop` goes round the loops.
use raner.Common.{
  ℕ, zero, suc, ◌+◌, ◌<◌, ◌≡◌, refl, sym, ap, ap₂, ◌∙◌, true, false, some, List, [], ◌∷◌, length,
  get_elem?, drop, drop_all, le→leb, lt→leb, arith, if◌then◌else◌, List-cases, inl, inr, Outcome,
  ok, ◌>>=◌,
}
use raner.LoopPool.{LoopPool, is_empty, following, get_next_loop}

-- So many calls of `GetNextLoop`, with the loops that they return.
pub turns : ℕ → LoopPool → Outcome (List ℕ × LoopPool)
turns zero p = ok ([], p)
turns (suc k) p = do (l, p') ← get_next_loop p; (ls, p″) ← turns k p'; ok (l ∷ ls, p″)

head-drop :
    (i : ℕ) (ls : List ℕ)
    → i < length ls
    → (l : ℕ) × (get_elem? ls i ≡ some l) × (drop i ls ≡ l ∷ drop (suc i) ls)
head-drop zero [] h = absurd (omega arith)
head-drop (suc i) [] h = absurd (omega arith)
head-drop zero (l ∷ ls) h = (l, refl, refl)
head-drop (suc i) (l ∷ ls) h = head-drop i ls (omega arith)

some_loop : (i : ℕ) (ls : List ℕ) → i < length ls → is_empty ls ≡ false
some_loop i [] h = absurd (omega arith)
some_loop i (l ∷ ls) h = refl

get_next_loop_lem :
    (p : LoopPool) (l : ℕ)
    → p.started ≡ true
    → p.next < length p.loops
    → get_elem? p.loops p.next ≡ some l
    → get_next_loop p ≡ ok (l, record p { next = following p })
unfolding get_next_loop
get_next_loop_lem p l up h at = ground (arith, up, some_loop p.next p.loops h, at)

turns-from :
    (k : ℕ) (p : LoopPool)
    → p.started ≡ true
    → p.next + suc k ≡ length p.loops
    → turns (suc k) p ≡ ok (drop p.next p.loops, record p { next = 0 })
unfolding turns
turns-from zero p up e =
    let (l, at, rest) = head-drop p.next p.loops (omega arith) in
    let last : following p ≡ 0 = ap (λ b. if b then 0 else p.next + 1) (le→leb _ _ (omega arith)) in
    rw (get_next_loop_lem p l up (omega arith) at) (
      ap₂ (λ ls n. ok (ls, record p { next = n }))
        (sym (rest ∙ ap (◌∷◌ l) (drop_all (suc p.next) p.loops (omega arith)))) last)
turns-from (suc k) p up e =
    let (l, at, rest) = head-drop p.next p.loops (omega arith) in
    let on : following p ≡ suc p.next =
      ap (λ b. if b then 0 else p.next + 1) (lt→leb _ _ (omega arith)) ∙ omega arith in
    let later = turns-from k (record p { next = suc p.next }) up (omega arith) in
    rw (get_next_loop_lem p l up (omega arith) at)
      (rw (on, later) (ap (λ ls. ok (ls, record p { next = 0 })) (sym rest)))

-- Of a started pool that stands at its first loop, as many calls of GetNextLoop as there are loops
-- return each loop once, in their order, and leave the pool as it was.
pub turns-round :
    (p : LoopPool) → p.started ≡ true → p.next ≡ 0 → turns (length p.loops) p ≡ ok (p.loops, p)
unfolding turns
turns-round p up first = elim (List-cases p.loops) [
  | inl none_at_all ↦
      ap (λ k. turns k p) (ap length none_at_all) ∙ ap (λ ls. ok (ls, p)) (sym none_at_all)
  | inr (l, ls, e) ↦
      ap (λ k. turns k p) (ap length e)
      ∙ turns-from (length ls) p up (omega (arith, first, ap length e))
      ∙ ap₂ (λ i n. ok (drop i p.loops, record p { next = n })) first (sym first)
]
