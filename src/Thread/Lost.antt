-- ===== src/Thread/Lost.antt =====
-- A loop that quits before `StartLoop` has seen it.
use raner.Common.{ℕ, ◌≡◌, refl, Bool, true, false, arith}
use raner.Thread.{
  Caller, checking, waiting, leaving, joining, gone, terminated, returned, Runner, starting,
  looping, ended, Step, publishes, wakes, waits, finds, returns, destroys, abandons, quits, joins,
  Reach, here, next,
}

-- Within the loop of `StartLoop`.
abbrev pub tests_loop : Caller → Bool
tests_loop checking = true
tests_loop waiting = true
tests_loop leaving = false
tests_loop joining = false
tests_loop gone = false
tests_loop terminated = false
tests_loop (returned b) = false

-- It is in that loop after the end of `run`.
data IsLost : Caller → Runner → Bool → Type 0 where
  tests : IsLost checking ended false
  sleeps : IsLost waiting ended false

Step-IsLost :
    {others : Bool} {c c' : Caller} {r r' : Runner} {l l' q q' : Bool} {k : ℕ}
    → Step others c r l q c' r' l' q' k
    → IsLost c r l
    → IsLost c' r' l'
Step-IsLost publishes o = elim o [ ]
Step-IsLost finds o = elim o [ ]
Step-IsLost returns o = elim o [ ]
Step-IsLost destroys o = elim o [ ]
Step-IsLost abandons o = elim o [ ]
Step-IsLost (quits e) o = elim o [ ]
Step-IsLost joins o = elim o [ ]
Step-IsLost waits tests = sleeps
Step-IsLost wakes sleeps = tests

tests_loop-IsLost : (c : Caller) → tests_loop c ≡ true → IsLost c ended false
tests_loop-IsLost checking e = tests
tests_loop-IsLost waiting e = sleeps
tests_loop-IsLost leaving e = absurd (ground (arith, e))
tests_loop-IsLost joining e = absurd (ground (arith, e))
tests_loop-IsLost gone e = absurd (ground (arith, e))
tests_loop-IsLost terminated e = absurd (ground (arith, e))
tests_loop-IsLost (returned b) e = absurd (ground (arith, e))

IsLost-tests_loop :
    {c : Caller} {r : Runner} {l : Bool} → IsLost c r l → (tests_loop c ≡ true) × (r ≡ ended)
IsLost-tests_loop tests = (refl, refl)
IsLost-tests_loop sleeps = (refl, refl)

Reach-IsLost :
    {others : Bool} {c : Caller} {r : Runner} {l q : Bool} {c' : Caller} {r' : Runner}
    {l' q' : Bool} {n : ℕ}
    → Reach others c r l q c' r' l' q' n
    → IsLost c r l
    → IsLost c' r' l'
Reach-IsLost here o = o
Reach-IsLost (next reach step) o = Step-IsLost step (Reach-IsLost reach o)

-- The pointer to a loop that has ended is null.
data Tells : Runner → Bool → Type 0 where
  not_yet : Tells starting false
  now : Tells looping true
  no_more : Tells ended false

Step-Tells :
    {others : Bool} {c c' : Caller} {r r' : Runner} {l l' q q' : Bool} {k : ℕ}
    → Step others c r l q c' r' l' q' k
    → Tells r l
    → Tells r' l'
Step-Tells publishes t = now
Step-Tells wakes t = t
Step-Tells waits t = t
Step-Tells finds t = t
Step-Tells returns t = t
Step-Tells destroys t = t
Step-Tells abandons t = t
Step-Tells (quits e) t = no_more
Step-Tells joins t = t

Reach-Tells :
    {others : Bool} {c : Caller} {r : Runner} {l q : Bool} {c' : Caller} {r' : Runner}
    {l' q' : Bool} {n : ℕ}
    → Reach others c r l q c' r' l' q' n
    → Tells r l
    → Tells r' l'
Reach-Tells here t = t
Reach-Tells (next reach step) t = Step-Tells step (Reach-Tells reach t)

Tells-IsLost : (c : Caller) {l : Bool} → tests_loop c ≡ true → Tells ended l → IsLost c ended l
Tells-IsLost c e no_more = tests_loop-IsLost c e

-- If in any run from the start of an EventLoopThread its loop ends while StartLoop is still at its
-- test of loop_ or in its wait, StartLoop is there in every state after that: it never returns.
pub start_loop_lost :
    {others : Bool} {c : Caller} {l q : Bool} {c' : Caller} {r' : Runner} {l' q' : Bool} {m n : ℕ}
    → Reach others checking starting false false c ended l q m
    → tests_loop c ≡ true
    → Reach others c ended l q c' r' l' q' n
    → (tests_loop c' ≡ true) × (r' ≡ ended)
start_loop_lost {c = c} before e after =
    IsLost-tests_loop (Reach-IsLost after (Tells-IsLost c e (Reach-Tells before not_yet)))
