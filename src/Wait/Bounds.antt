-- ===== src/Wait/Bounds.antt =====
-- How long the EpollServer waits.
use raner.Common.{
  ℕ, ◌+◌, ◌-◌, ◌*◌, ◌/◌, ◌%◌, ◌^◌, ◌≤◌, ◌<◌, ◌≡◌, refl, ap, ◌∙◌, Bool, not, ◌||◌, ltb, lt→ltb,
  Option, none, some, max, arith, Bool-cases, inl, inr, ◌==◌, if◌then◌else◌,
}
use raner.Wait.{timeout_in_ms, wait_time, int_ms}

int_ms_small : (ms : ℕ) → ms < 2 ^ 31 → int_ms ms ≡ some ms
int_ms_small ms h = let e : ms % 2 ^ 32 ≡ ms = omega arith in rw (e, lt→ltb ms (2 ^ 31) h) refl

-- A time to wait of `t` us.
timeout_lem :
    (t : ℕ) (empty : Bool)
    → t < 2 ^ 31 * 1000
    → (ms : ℕ) × (timeout_in_ms (some t) empty ≡ some ms) × (ms * 1000 ≤ max 1000 t)
unfolding timeout_in_ms
timeout_lem t empty h = elim (Bool-cases (t == 0 || not empty)) [
  | inl e ↦ (0, ap (λ b. if b then some 0 else rounded) e, omega arith)
  | inr e ↦ elim (Bool-cases (ltb t 1000)) [
    | inl short ↦ (
      1,
      ap (λ b. if b then some 0 else rounded) e
          ∙ ap (λ b. int_ms ((if b then 1000 else t) / 1000)) short,
      omega arith,
    )
    | inr long ↦ (
      t / 1000,
      ap (λ b. if b then some 0 else rounded) e
          ∙ ap (λ b. int_ms ((if b then 1000 else t) / 1000)) long
          ∙ int_ms_small (t / 1000) (omega arith),
      omega arith,
    )
  ]
]
  where
    rounded : Option ℕ
    rounded = int_ms ((if ltb t 1000 then 1000 else t) / 1000)

-- No longer than the timeout that is set, if one is.
abbrev pub IsWithin : Option ℕ → ℕ → Type 0
IsWithin none ms = Unit {0}
IsWithin (some t) ms = ms * 1000 ≤ max 1000 t

-- The time in ms that epoll_wait is told where an alarm is registered that is less than 2 ^ 31 *
-- 1000 us away: it is never for ever, and it passes neither the time to that alarm nor the timeout
-- that is set, except that it may be rounded up to one ms.
pub timeout-bounds :
    (timeout : Option ℕ) (next now : ℕ) (empty : Bool)
    → next - now < 2 ^ 31 * 1000
    → (ms : ℕ) × (timeout_in_ms (wait_time timeout next now) empty ≡ some ms)
      × (ms * 1000 ≤ max 1000 (next - now))
      × IsWithin timeout ms
unfolding wait_time
timeout-bounds none next now empty h =
    let (ms, e, b) = timeout_lem (next - now) empty h in (ms, e, b, tt)
timeout-bounds (some t) next now empty h = elim (Bool-cases (ltb next (now + t))) [
  | inl soon ↦
      let (ms, e, b) = timeout_lem (next - now) empty h in
      (
        ms,
        ap (λ c. timeout_in_ms (if c then some (next - now) else some t) empty) soon ∙ e,
        b,
        ground (arith, b, soon),
      )
  | inr late ↦
      let (ms, e, b) = timeout_lem t empty (ground (arith, late)) in
      (
        ms,
        ap (λ c. timeout_in_ms (if c then some (next - now) else some t) empty) late ∙ e,
        ground (arith, b, late),
        b,
      )
]
