-- ===== src/Chat.antt =====
-- examples/chat/server_threaded_efficient.cc: the list of connections that the threads of the chat
-- server share. A ConnectionList is an object on the heap with the number of shared pointers to it;
-- a change of the list copies it first if a broadcast still uses it. The mutex makes one step of what
-- a thread does while it holds it, but for `onConnection`, which is cut in two: meanwhile other
-- threads may end their broadcasts. A connection is a number, its place in the order of a std::set.
pub mod Plain
pub mod Pairs
pub mod Places
pub mod Refinement
pub mod Snapshots
mod Tests
use raner.Common.{
  ℕ, zero, suc, ◌+◌, ◌-◌, ◌==◌, Bool, true, false, Option, none, some, List, [], ◌∷◌, ◌++◌, drop,
  ltb, if◌then◌else◌, Table, update, Outcome, ok, fault, bad_pointer, assertion, require, ◌>>=◌,
  ◌>>◌,
}

-- What `onConnection` is called with.
pub record Change : Type 0 where
  pub conn : ℕ
  pub up : Bool

-- A call of `onStringMessage`: its shared pointer, the place of its iterator, and to whom it has sent.
pub record Broadcast : Type 0 where
  pub list : ℕ
  pub message : List ℕ
  pub place : ℕ
  pub sent : List ℕ
  pub running : Bool

pub record ChatServer : Type 0 where
  pub lists : Table (List ℕ)
  pub use_count : ℕ → ℕ
  pub next_list : ℕ
  pub connections : ℕ
  pub holder : Option Change
  pub broadcasts : List Broadcast

abbrev pub set_count : (ℕ → ℕ) → ℕ → ℕ → ℕ → ℕ
set_count count p n q = if q == p then n else count q

abbrev pub make_chat : ChatServer
make_chat = record {
  lists = update (λ p. none) 0 (some []);
  use_count = set_count (λ p. 0) 0 1;
  next_list = 1;
  connections = 0;
  holder = none;
  broadcasts = [];
}

-- std::set::insert and std::set::erase
abbrev pub insert : ℕ → List ℕ → List ℕ
insert c [] = c ∷ []
insert c (d ∷ l) = if ltb c d then c ∷ d ∷ l else (if c == d then d ∷ l else d ∷ insert c l)

abbrev pub erase : ℕ → List ℕ → List ℕ
erase c [] = []
erase c (d ∷ l) = if c == d then l else d ∷ erase c l

abbrev pub changed : Change → List ℕ → List ℕ
changed c l = if c.up then insert c.conn l else erase c.conn l

abbrev dereference : Option (List ℕ) → Outcome (List ℕ)
dereference none = fault bad_pointer
dereference (some l) = ok l

-- A shared pointer goes; the last one takes the list with it.
abbrev pub release : ℕ → ChatServer → ChatServer
release p s =
    let left = s.use_count p - 1 in
    record s {
      use_count = set_count s.use_count p left;
      lists = if left == 0 then update s.lists p none else s.lists;
    }

-- connections_.reset(new ConnectionList(*connections_))
abbrev pub copied : List ℕ → ChatServer → ChatServer
copied l s = release s.connections (record s {
  lists = update s.lists s.next_list (some l);
  use_count = set_count s.use_count s.next_list 1;
  next_list = s.next_list + 1;
  connections = s.next_list;
})

-- `onConnection` up to its assertion.
pub begin_change : Change → ChatServer → Outcome ChatServer
begin_change c s =
    let held = record s { holder = some c } in
    if s.use_count s.connections == 1
    then ok held
    else (dereference (s.lists s.connections) >>= λ l. ok (copied l held))

-- The rest of `onConnection`.
pub end_change : Change → ChatServer → Outcome ChatServer
end_change c s =
    require (s.use_count s.connections == 1) assertion
    >> (dereference (s.lists s.connections) >>= λ l.
        ok (record s { lists = update s.lists s.connections (some (changed c l)); holder = none }))

-- `getConnectionList`, and the iterator at the begin of the list.
abbrev pub start_broadcast : List ℕ → ChatServer → ChatServer
start_broadcast m s = record s {
  use_count = set_count s.use_count s.connections (s.use_count s.connections + 1);
  broadcasts =
      s.broadcasts
      ++ (record { list = s.connections; message = m; place = 0; sent = []; running = true } ∷ []);
}

abbrev pub nth {ℓ} : {A : Type ℓ} → ℕ → List A → Option A
nth i [] = none
nth zero (x ∷ xs) = some x
nth (suc i) (x ∷ xs) = nth i xs

abbrev pub replace {ℓ} : {A : Type ℓ} → ℕ → A → List A → List A
replace i a [] = []
replace zero a (x ∷ xs) = a ∷ xs
replace (suc i) a (x ∷ xs) = x ∷ replace i a xs

-- The list from the iterator on is given: the loop is at its end and the pointer goes, or it sends.
abbrev pub advance : ℕ → Broadcast → List ℕ → ChatServer → ChatServer
advance i b [] s =
    release b.list (record s { broadcasts = replace i (record b { running = false }) s.broadcasts })
advance i b (c ∷ rest) s = record s {
  broadcasts = replace i (record b { place = b.place + 1; sent = b.sent ++ (c ∷ []) }) s.broadcasts;
}

abbrev pub continue_from : Option Broadcast → ℕ → ChatServer → Outcome ChatServer
continue_from none i s = ok s
continue_from (some b) i s =
    if b.running
    then (dereference (s.lists b.list) >>= λ l. ok (advance i b (drop b.place l) s))
    else ok s

-- The loop of the `i`th broadcast goes on.
pub continue_broadcast : ℕ → ChatServer → Outcome ChatServer
continue_broadcast i s = continue_from (nth i s.broadcasts) i s

-- What a thread does next.
pub data Action : Type 0 where
  connection : Change → Action
  finish : Action
  string_message : List ℕ → Action
  go_on : ℕ → Action

-- A thread that needs the mutex waits while another holds it.
abbrev pub act_with : Option Change → Action → ChatServer → Outcome ChatServer
act_with none (connection c) s = begin_change c s
act_with none finish s = ok s
act_with none (string_message m) s = ok (start_broadcast m s)
act_with none (go_on i) s = continue_broadcast i s
act_with (some h) (connection c) s = ok s
act_with (some h) finish s = end_change h s
act_with (some h) (string_message m) s = ok s
act_with (some h) (go_on i) s = continue_broadcast i s

abbrev pub act : Action → ChatServer → Outcome ChatServer
act a s = act_with s.holder a s

pub run : List Action → ChatServer → Outcome ChatServer
run [] s = ok s
run (a ∷ rest) s = act a s >>= run rest
