-- ===== src/Thread/Handshake.antt =====
-- A loop that only its EventLoopThread makes quit: `StartLoop` returns it, and the destructor joins.
use raner.Common.{ℕ, ◌+◌, ◌≤◌, ◌≡◌, refl, Bool, true, false, ◌⊎◌, inl, inr, arith}
use raner.Thread.{
  Caller, checking, waiting, leaving, joining, gone, terminated, returned, Runner, starting,
  looping, ended, Step, publishes, wakes, waits, finds, returns, destroys, abandons, quits, joins,
  Reach, here, next,
}

-- The states of such a thread, with the counted steps that are left.
data Orderly : Caller → Runner → Bool → Bool → ℕ → Type 0 where
  before : Orderly checking starting false false 6
  asleep : Orderly waiting starting false false 6
  published : Orderly checking looping true false 5
  found : Orderly leaving looping true false 4
  handed : Orderly (returned true) looping true false 3
  asked : Orderly joining looping true true 2
  over : Orderly joining ended false true 1
  joined : Orderly gone ended false true 0

Step-Orderly :
    {c c' : Caller} {r r' : Runner} {l l' q q' : Bool} {k n : ℕ}
    → Step false c r l q c' r' l' q' k
    → Orderly c r l q n
    → (m : ℕ) × Orderly c' r' l' q' m × (k + m ≡ n)
Step-Orderly publishes before = (5, published, refl)
Step-Orderly publishes asleep = (5, published, refl)
Step-Orderly wakes asleep = (6, before, refl)
Step-Orderly waits before = (6, asleep, refl)
Step-Orderly finds published = (4, found, refl)
Step-Orderly returns found = (3, handed, refl)
Step-Orderly destroys handed = (2, asked, refl)
Step-Orderly (quits e) asked = (1, over, refl)
Step-Orderly (quits e) published = absurd (ground (arith, e))
Step-Orderly (quits e) found = absurd (ground (arith, e))
Step-Orderly (quits e) handed = absurd (ground (arith, e))
Step-Orderly abandons o = elim o [ ]
Step-Orderly joins over = (0, joined, refl)

Reach-Orderly :
    {c : Caller} {r : Runner} {l q : Bool} {n : ℕ}
    → Reach false checking starting false false c r l q n
    → (m : ℕ) × Orderly c r l q m × (n + m ≡ 6)
Reach-Orderly here = (6, before, refl)
Reach-Orderly (next reach step) =
    let (m, o, e) = Reach-Orderly reach in
    let (m', o', e') = Step-Orderly step o in (m', o', omega (arith, e, e'))

-- `StartLoop` returned a null pointer, or a std::thread was destroyed that was not joined.
abbrev pub went_wrong : Caller → Bool
went_wrong checking = false
went_wrong waiting = false
went_wrong leaving = false
went_wrong joining = false
went_wrong gone = false
went_wrong terminated = true
went_wrong (returned true) = false
went_wrong (returned false) = true

-- A step that counts can be made.
abbrev pub CanStep : Caller → Runner → Bool → Bool → Type 0
CanStep c r l q =
    (c' : Caller) × (r' : Runner) × (l' : Bool) × (q' : Bool) × Step false c r l q c' r' l' q' 1

Orderly-CanStep :
    {c : Caller} {r : Runner} {l q : Bool} {n : ℕ}
    → Orderly c r l q n
    → (went_wrong c ≡ false) × (((c ≡ gone) × (r ≡ ended)) ⊎ CanStep c r l q)
Orderly-CanStep before = (refl, inr (checking, looping, true, false, publishes))
Orderly-CanStep asleep = (refl, inr (checking, looping, true, false, publishes))
Orderly-CanStep published = (refl, inr (leaving, looping, true, false, finds))
Orderly-CanStep found = (refl, inr (returned true, looping, true, false, returns))
Orderly-CanStep handed = (refl, inr (joining, looping, true, true, destroys))
Orderly-CanStep asked = (refl, inr (joining, ended, false, true, quits refl))
Orderly-CanStep over = (refl, inr (gone, ended, false, true, joins))
Orderly-CanStep joined = (refl, inl (refl, refl))

-- An EventLoopThread whose loop quits only when its destructor asks for it, with its two threads
-- in any interleaving and with waits that end of themselves: StartLoop never returns a null
-- pointer, no std::thread is destroyed that was not joined, there are at most six steps besides
-- those into and out of a wait, and in each state either the loop has ended and the destructor has
-- joined, or one of these steps can be made.
pub handshake_ends :
    {c : Caller} {r : Runner} {l q : Bool} {n : ℕ}
    → Reach false checking starting false false c r l q n
    → (n ≤ 6) × (went_wrong c ≡ false) × (((c ≡ gone) × (r ≡ ended)) ⊎ CanStep c r l q)
handshake_ends reach =
    let (m, o, e) = Reach-Orderly reach in
    let (right, on) = Orderly-CanStep o in (omega (arith, e), right, on)
