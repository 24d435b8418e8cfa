-- ===== src/Chat/Refinement/Changes.antt =====
-- `onConnection` under the mutex.
use raner.Common.{
  ℕ, ◌+◌, ◌-◌, ◌<◌, ◌≡◌, ◌≢◌, refl, ap, ◌==◌, ==_refl, false, Bool-cases, inl, inr, Option, none,
  some, List, update, arith,
}
use mathlib.Core.Option.{none-ne-some}
use raner.Chat.{Change, ChatServer, begin_change, end_change, copied, changed}
use raner.Chat.Plain.{Plain}
use raner.Chat.Pairs.{held_by}
use raner.Chat.Refinement.{Refines, Goes, lists_kept}

-- A list that is in use is not the next one.
next_unused : (s : ChatServer) (q : Plain) → Refines s q → held_by s.next_list s.broadcasts ≡ 0
next_unused s q r = omega (arith, r.counted s.next_list, r.fresh s.next_list (omega arith))

-- The entry of another list than `x`, which no broadcast holds.
other_than :
    (s : ChatServer) (x : ℕ) (v : Option (List ℕ)) (p : ℕ)
    → held_by x s.broadcasts ≡ 0
    → 0 < held_by p s.broadcasts
    → update s.lists x v p ≡ s.lists p
other_than s x v p alone some_held = elim (Bool-cases (p == x)) [
  | inl same ↦
      let e : p ≡ x = ground (arith, same) in
      absurd (omega (arith, alone, some_held, ap (λ y. held_by y s.broadcasts) e))
  | inr other ↦ rw other refl
]

copied-Refines :
    (c : Change) (s : ChatServer) (q : Plain)
    → Refines s q
    → s.use_count s.connections ≢ 1
    → Refines (copied q.members (record s { holder = some c })) (record q { holder = some c })
copied-Refines c s q r shared =
    let n : ℕ = s.next_list in
    let p : ℕ = s.connections in
    let t : ChatServer = copied q.members (record s { holder = some c }) in
    let used : s.use_count p ≡ 1 + held_by p s.broadcasts = ground (arith, r.counted p) in
    let other : (n == p) ≡ false = ground (arith, r.fresh p, used) in
    let other' : (p == n) ≡ false = ground (arith, other) in
    let left : (s.use_count p - 1 == 0) ≡ false = ground (arith, used, shared) in
    record {
      same_members = rw (other', left, ==_refl n) refl;
      same_holder = refl;
      same_broadcasts =
          rw (other', left)
            (lists_kept s.lists (update s.lists n (some q.members)) s.broadcasts q.deliveries
              (λ m some_held. other_than s n (some q.members) m (next_unused s q r) some_held)
              r.same_broadcasts);
      counted = λ m. ground (arith, r.counted m, used, next_unused s q r, r.fresh n, other);
      fresh = λ m h. ground (arith, r.fresh m, h, other, used, r.fresh p);
      sole = λ c e. ground (arith, other);
    }

pub begin_change-Goes :
    (c : Change) (s : ChatServer) (q : Plain)
    → Refines s q
    → Goes (begin_change c s) (record q { holder = some c })
unfolding begin_change
begin_change-Goes c s q r = elim (Bool-cases (s.use_count s.connections == 1)) [
  | inl one ↦ (
    record s { holder = some c },
    rw one refl,
    record {
      same_members = r.same_members;
      same_holder = refl;
      same_broadcasts = r.same_broadcasts;
      counted = r.counted;
      fresh = r.fresh;
      sole = λ c e. ground (arith, one);
    },
  )
  | inr shared ↦ (
    copied q.members (record s { holder = some c }),
    rw (shared, r.same_members) refl,
    copied-Refines c s q r (ground (arith, shared)),
  )
]

pub end_change-Goes :
    (c : Change) (s : ChatServer) (q : Plain)
    → Refines s q
    → s.holder ≡ some c
    → Goes (end_change c s) (record q { members = changed c q.members; holder = none })
unfolding end_change
end_change-Goes c s q r e =
    let one : s.use_count s.connections ≡ 1 = r.sole c e in
    let alone : held_by s.connections s.broadcasts ≡ 0 =
      ground (arith, r.counted s.connections, one) in
    (
      record s { lists = update s.lists s.connections (some (changed c q.members)); holder = none },
      rw (one, r.same_members) refl,
      record {
        same_members = rw (==_refl s.connections) refl;
        same_holder = refl;
        same_broadcasts =
            lists_kept s.lists (update s.lists s.connections (some (changed c q.members)))
              s.broadcasts q.deliveries
              (λ p some_held.
                other_than s s.connections (some (changed c q.members)) p alone some_held)
              r.same_broadcasts;
        counted = r.counted;
        fresh = r.fresh;
        sole = λ c e. absurd (none-ne-some c e);
      },
    )
