-- ===== src/Chat/Refinement/Runs.antt =====
-- Any run of the threads.
use raner.Common.{◌≡◌, refl, ap, ◌∙◌, subst, Option, none, some, List, [], ◌∷◌, ok, ◌>>=◌, arith}
use mathlib.Core.Option.{none-ne-some}
use raner.Chat.{
  Action, Change, ChatServer, connection, finish, string_message, go_on, act, act_with, run,
  make_chat, start_broadcast,
}
use raner.Chat.Plain.{Plain, make_plain, plain_act, plain_with, plain_run}
use raner.Chat.Refinement.{Refines, Goes}
use raner.Chat.Refinement.Changes.{begin_change-Goes, end_change-Goes}
use raner.Chat.Refinement.Broadcasts.{start_broadcast-Refines, continue_broadcast-Goes}

make_chat-Refines : Refines make_chat make_plain
make_chat-Refines = record {
  same_members = refl;
  same_holder = refl;
  same_broadcasts = tt;
  counted = λ p. ground arith;
  fresh = λ p h. ground (arith, h);
  sole = λ c e. absurd (none-ne-some c e);
}

act_with-Goes :
    (h : Option Change) (a : Action) (s : ChatServer) (q : Plain)
    → Refines s q
    → s.holder ≡ h
    → Goes (act_with h a s) (plain_with h a q)
act_with-Goes none (connection c) s q r e = begin_change-Goes c s q r
act_with-Goes none finish s q r e = (s, refl, r)
act_with-Goes none (string_message m) s q r e =
    (start_broadcast m s, refl, start_broadcast-Refines m s q r e)
act_with-Goes none (go_on i) s q r e = continue_broadcast-Goes i s q r
act_with-Goes (some h) (connection c) s q r e = (s, refl, r)
act_with-Goes (some h) finish s q r e = end_change-Goes h s q r e
act_with-Goes (some h) (string_message m) s q r e = (s, refl, r)
act_with-Goes (some h) (go_on i) s q r e = continue_broadcast-Goes i s q r

act-Goes : (a : Action) (s : ChatServer) (q : Plain) → Refines s q → Goes (act a s) (plain_act a q)
act-Goes a s q r =
    subst (λ h. Goes (act a s) (plain_with h a q)) r.same_holder
      (act_with-Goes s.holder a s q r refl)

pub run-Goes :
    (actions : List Action) (s : ChatServer) (q : Plain)
    → Refines s q
    → Goes (run actions s) (plain_run actions q)
unfolding run plain_run
run-Goes [] s q r = (s, refl, r)
run-Goes (a ∷ rest) s q r =
    let (s', did, r') = act-Goes a s q r in
    let (t, ran, r'') = run-Goes rest s' (plain_act a q) r' in
    (t, ap (λ m. m >>= run rest) did ∙ ran, r'')

-- The chat server with its copy-on-write list does, whatever its threads do in whatever order,
-- what a server does that has one list and copies it for each broadcast: no assertion fails and no
-- list is used after its end, the list that is current has the same members, and each broadcast
-- has the same message and has sent to the same connections. The number of shared pointers to a
-- list is the number of broadcasts that run on it, and one more for the current one.
pub run_lem :
    (actions : List Action)
    → (t : ChatServer) × (run actions make_chat ≡ ok t) × Refines t (plain_run actions make_plain)
run_lem actions = run-Goes actions make_chat make_plain make_chat-Refines
