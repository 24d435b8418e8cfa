-- ===== src/Chat/Tests.antt =====
-- Two members, and a broadcast while others come and go.
use raner.Common.{ℕ, ◌≡◌, refl, true, false, some, List, [], ◌∷◌, ◌++◌, length, Outcome, ok, fault}
use raner.Chat.{
  Action, Broadcast, ChatServer, connection, finish, string_message, go_on, begin_change,
  end_change, continue_broadcast, run, make_chat, nth,
}
use raner.Chat.Plain.{make_plain, plain_run}
use raner.Chat.Refinement.{Refines}
use raner.Chat.Refinement.Runs.{run_lem}
use raner.Chat.Snapshots.{snapshot_lem}

abbrev two_join : List Action
two_join =
    connection (record { conn = 5; up = true })
    ∷ finish
    ∷ connection (record { conn = 7; up = true })
    ∷ finish
    ∷ []

-- The first member leaves and another joins, while the message is sent to the first two.
abbrev meanwhile : List Action
meanwhile =
    connection (record { conn = 3; up = true })
    ∷ go_on 0
    ∷ finish
    ∷ connection (record { conn = 7; up = false })
    ∷ finish
    ∷ go_on 0
    ∷ go_on 0
    ∷ []

abbrev state_of : Outcome ChatServer → ChatServer
state_of (ok s) = s
state_of (fault e) = make_chat

joined : ChatServer
unfolding run begin_change end_change
joined = state_of (run two_join make_chat)

left : ChatServer
unfolding run begin_change end_change continue_broadcast joined
left = state_of (run (string_message (1 ∷ []) ∷ meanwhile) joined)

run_lem_example :
    (t : ChatServer) × (run (two_join ++ (string_message (1 ∷ []) ∷ meanwhile)) make_chat ≡ ok t)
    × Refines t (plain_run (two_join ++ (string_message (1 ∷ []) ∷ meanwhile)) make_plain)
run_lem_example = run_lem (two_join ++ (string_message (1 ∷ []) ∷ meanwhile))

all_sent :
    nth 0 left.broadcasts
    ≡ some (record { list = 0; message = 1 ∷ []; place = 2; sent = 5 ∷ 7 ∷ []; running = false })
unfolding left joined run begin_change end_change continue_broadcast
all_sent = refl

snapshot_lem_example :
    (b : Broadcast) × (rest : List ℕ) × (nth (length joined.broadcasts) left.broadcasts ≡ some b)
    × (b.message ≡ 1 ∷ [])
    × (b.sent ++ rest ≡ 5 ∷ 7 ∷ [])
    × (b.running ≡ false → rest ≡ [])
unfolding left joined run begin_change end_change continue_broadcast
snapshot_lem_example =
    snapshot_lem two_join meanwhile (1 ∷ []) (5 ∷ 7 ∷ []) joined left refl refl refl refl
