-- ===== src/Thread.antt =====
-- raner/event_loop_thread.cc: the thread that calls `StartLoop` and the destructor, and the thread
-- that runs the loop, step by step. `loop_` is whether it is set; the mutex covers one step each.
pub mod Handshake
pub mod Lost
mod Tests
use raner.Common.{ℕ, ◌+◌, Bool, true, false, ◌||◌, ◌≡◌}

-- Where the thread that owns the EventLoopThread is: before the test of `loop_`, in `wait`, past the
-- loop of `StartLoop`, after it with the pointer that it returned (null or not), in `join`, past the
-- destructor, and past one that destroys a std::thread not joined.
pub data Caller : Type 0 where
  checking waiting leaving joining gone terminated : Caller
  returned : Bool → Caller

pub data Runner : Type 0 where
  starting looping ended : Runner

-- `notify_one`
abbrev pub notified : Caller → Caller
notified waiting = checking
notified checking = checking
notified leaving = leaving
notified joining = joining
notified gone = gone
notified terminated = terminated
notified (returned b) = returned b

-- Of the caller, the runner, `loop_`, and whether the destructor has asked the loop to quit; the last
-- index counts the steps but those into and out of a wait. Others may make the loop quit if
-- `others` is true.
pub data Step (others : Bool)
    : Caller → Runner → Bool → Bool → Caller → Runner → Bool → Bool → ℕ → Type 0 where
  publishes : {c : Caller} {l q : Bool} → Step others c starting l q (notified c) looping true q 1
  wakes : {r : Runner} {l q : Bool} → Step others waiting r l q checking r l q 0
  waits : {r : Runner} {q : Bool} → Step others checking r false q waiting r false q 0
  finds : {r : Runner} {q : Bool} → Step others checking r true q leaving r true q 1
  returns : {r : Runner} {l q : Bool} → Step others leaving r l q (returned l) r l q 1
  destroys :
      {b : Bool} {r : Runner} {q : Bool} → Step others (returned b) r true q joining r true true 1
  abandons :
      {b : Bool} {r : Runner} {q : Bool} → Step others (returned b) r false q terminated r false q 1
  quits :
      {c : Caller} {l q : Bool} → q || others ≡ true → Step others c looping l q c ended false q 1
  joins : {l q : Bool} → Step others joining ended l q gone ended l q 1

-- In a number of counted steps.
pub data Reach (others : Bool) (c₀ : Caller) (r₀ : Runner) (l₀ q₀ : Bool)
    : Caller → Runner → Bool → Bool → ℕ → Type 0 where
  here : Reach others c₀ r₀ l₀ q₀ c₀ r₀ l₀ q₀ 0
  next :
      {c c' : Caller} {r r' : Runner} {l l' q q' : Bool} {n k : ℕ}
      → Reach others c₀ r₀ l₀ q₀ c r l q n
      → Step others c r l q c' r' l' q' k
      → Reach others c₀ r₀ l₀ q₀ c' r' l' q' (n + k)
