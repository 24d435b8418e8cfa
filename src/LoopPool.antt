-- ===== src/LoopPool.antt =====
-- raner/event_loop_thread_pool.cc: how the class EventLoopThreadPool hands out its loops. A loop is
-- a number. The loops that the new threads start are given to `start` as a list, one for each.
mod Turns
mod Tests
use raner.Common.{
  ℕ, ◌+◌, ◌%◌, Bool, true, false, not, Option, none, some, List, [], ◌∷◌, length, get_elem?, leb,
  if◌then◌else◌, Outcome, ok, fault, assertion, bad_pointer, require, ◌>>=◌, ◌>>◌,
}

pub record LoopPool : Type 0 where
  pub base_loop : ℕ
  pub started : Bool
  pub loops : List ℕ
  pub next : ℕ

pub make_pool : ℕ → LoopPool
make_pool base_loop = record { base_loop = base_loop; started = false; loops = []; next = 0 }

pub start : List ℕ → LoopPool → Outcome LoopPool
start new_loops p = do
  require (not p.started) assertion
  ok (record p { started = true; loops = new_loops })

-- The element of a vector; past the end it is undefined.
abbrev pub element : List ℕ → ℕ → Outcome ℕ
element loops i = elim (get_elem? loops i) [ none ↦ fault bad_pointer | some l ↦ ok l ]

abbrev pub is_empty : List ℕ → Bool
is_empty [] = true
is_empty (l ∷ ls) = false

abbrev pub following : LoopPool → ℕ
following p = if leb (length p.loops) (p.next + 1) then 0 else p.next + 1

unfoldable pub get_next_loop : LoopPool → Outcome (ℕ × LoopPool)
get_next_loop p =
    require p.started assertion
    >> (if is_empty p.loops
        then ok (p.base_loop, p)
        else (element p.loops p.next >>= λ l. ok (l, record p { next = following p })))

pub get_loop_for_hash : ℕ → LoopPool → Outcome ℕ
get_loop_for_hash hash_code p =
    if is_empty p.loops then ok p.base_loop else element p.loops (hash_code % length p.loops)

pub get_all_loops : LoopPool → Outcome (List ℕ)
get_all_loops p = do
  require p.started assertion
  ok (if is_empty p.loops then p.base_loop ∷ [] else p.loops)
