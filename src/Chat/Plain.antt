-- ===== src/Chat/Plain.antt =====
-- What the chat server is to do: one list, of which each broadcast takes a copy.
use raner.Common.{ℕ, Bool, true, false, Option, none, some, List, [], ◌∷◌, ◌++◌, if◌then◌else◌}
use raner.Chat.{Change, Action, connection, finish, string_message, go_on, changed, nth, replace}

pub record Delivery : Type 0 where
  pub message : List ℕ
  pub left : List ℕ
  pub sent : List ℕ
  pub running : Bool

pub record Plain : Type 0 where
  pub members : List ℕ
  pub holder : Option Change
  pub deliveries : List Delivery

abbrev pub make_plain : Plain
make_plain = record { members = []; holder = none; deliveries = [] }

abbrev pub deliver : ℕ → Delivery → List ℕ → Plain → Plain
deliver i d [] s = record s { deliveries = replace i (record d { running = false }) s.deliveries }
deliver i d (c ∷ rest) s = record s {
  deliveries = replace i (record d { left = rest; sent = d.sent ++ (c ∷ []) }) s.deliveries;
}

abbrev pub deliver_from : Option Delivery → ℕ → Plain → Plain
deliver_from none i s = s
deliver_from (some d) i s = if d.running then deliver i d d.left s else s

abbrev pub deliver_next : ℕ → Plain → Plain
deliver_next i s = deliver_from (nth i s.deliveries) i s

abbrev pub plain_start : List ℕ → Plain → Plain
plain_start m s = record s {
  deliveries =
      s.deliveries ++ (record { message = m; left = s.members; sent = []; running = true } ∷ []);
}

abbrev pub plain_with : Option Change → Action → Plain → Plain
plain_with none (connection c) s = record s { holder = some c }
plain_with none finish s = s
plain_with none (string_message m) s = plain_start m s
plain_with none (go_on i) s = deliver_next i s
plain_with (some h) (connection c) s = s
plain_with (some h) finish s = record s { members = changed h s.members; holder = none }
plain_with (some h) (string_message m) s = s
plain_with (some h) (go_on i) s = deliver_next i s

abbrev pub plain_act : Action → Plain → Plain
plain_act a s = plain_with s.holder a s

unfoldable pub plain_run : List Action → Plain → Plain
plain_run [] s = s
plain_run (a ∷ rest) s = plain_run rest (plain_act a s)
