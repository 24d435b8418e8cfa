-- ===== src/Chat/Refinement.antt =====
-- The shared lists do what copies would do.
pub mod Changes
pub mod Broadcasts
pub mod Runs
use raner.Common.{
  ℕ, zero, suc, ◌+◌, ◌≤◌, ◌<◌, ◌≡◌, refl, ap, ◌∙◌, ◌==◌, Bool, true, false, Option, none, some,
  List, [], ◌∷◌, drop, if◌then◌else◌, Table, Outcome, ok, arith,
}
use raner.Chat.{Broadcast, ChatServer, Change}
use raner.Chat.Plain.{Delivery, Plain}
use raner.Chat.Pairs.{AllPairs, held, held_by}

-- A broadcast that runs has a list from which it sends to those that are left.
pub record Matches (lists : Table (List ℕ)) (b : Broadcast) (d : Delivery) : Type 0 where
  pub same_message : b.message ≡ d.message
  pub same_sent : b.sent ≡ d.sent
  pub same_running : b.running ≡ d.running
  pub same_left :
      b.running ≡ true → (l : List ℕ) × (lists b.list ≡ some l) × (drop b.place l ≡ d.left)

pub record Refines (s : ChatServer) (q : Plain) : Type 0 where
  pub same_members : s.lists s.connections ≡ some q.members
  pub same_holder : s.holder ≡ q.holder
  pub same_broadcasts : AllPairs (Matches s.lists) s.broadcasts q.deliveries
  pub counted :
      (p : ℕ) → s.use_count p ≡ (if p == s.connections then 1 else 0) + held_by p s.broadcasts
  pub fresh : (p : ℕ) → s.next_list ≤ p → s.use_count p ≡ 0
  pub sole : (c : Change) → s.holder ≡ some c → s.use_count s.connections ≡ 1

-- The server goes on as the plain one.
abbrev pub Goes : Outcome ChatServer → Plain → Type 0
Goes m q = (t : ChatServer) × (m ≡ ok t) × Refines t q

-- The broadcasts see only the lists that they hold.
pub lists_kept :
    (lists after : Table (List ℕ)) (bs : List Broadcast) (ds : List Delivery)
    → ((p : ℕ) → 0 < held_by p bs → after p ≡ lists p)
    → AllPairs (Matches lists) bs ds
    → AllPairs (Matches after) bs ds
lists_kept lists after [] [] keeps h = tt
lists_kept lists after [] (d ∷ ds) keeps h = absurd h
lists_kept lists after (b ∷ bs) [] keeps h = absurd h
lists_kept lists after (b ∷ bs) (d ∷ ds) keeps (m, h) = (
  record {
    same_message = m.same_message;
    same_sent = m.same_sent;
    same_running = m.same_running;
    same_left = λ up.
        let (l, here, left) = m.same_left up in (l, keeps b.list (ground (arith, up)) ∙ here, left);
  },
  lists_kept lists after bs ds (λ p some_held. keeps p (omega (arith, some_held))) h,
)
