-- ===== src/Ttcp/Tests.antt =====
-- A session of two messages of three bytes.
use raner.Common.{ℕ, ◌+◌, ◌*◌, ◌≤◌, ◌≡◌, refl, sym, ◌⊎◌, List, [], ◌∷◌, ◌++◌, append-nil, arith, ok}
use raner.Endian.{little}
use raner.Ttcp.{Context, Reaction, trans_connected}
use raner.Ttcp.Payloads.{payload, session_message}
use raner.Ttcp.Transmit.{Serves}
use raner.Ttcp.Connected.{trans_connected_lem}
use raner.Ttcp.Session.{System, start, here, next}
use raner.Ttcp.Session.Rest.{Finished}
use raner.Ttcp.Session.Ends.{
  CanStep, can_receive, started_Inv, session_ends, session_never_faults, holding, holding_lem,
  receiver, handler,
}

abbrev message : List ℕ
message = session_message 2 3 ++ payload 3

abbrev begun :
    (c : Context) × (trans_connected little 2 3 ≡ ok (c, message))
    × Serves 2 3 (payload 3) c
    × (c.count ≡ 1)
    × (c.bytes ≡ 3)
begun = trans_connected_lem little 2 3 (omega arith) (omega arith)

abbrev at_start : System
at_start = start begun.0 message

-- The receiver reads a byte of the session message.
abbrev one_byte : CanStep little 2 3 (omega arith) (omega arith) (omega arith) at_start
one_byte =
    can_receive little 2 3 (omega arith) (omega arith) (omega arith) at_start 0
      (0 ∷ 0 ∷ 2 ∷ 0 ∷ 0 ∷ 0 ∷ 3 ∷ payload 3)
      (started_Inv little 2 3 (omega arith) (omega arith) (omega arith) begun.0 message begun.1).0
      refl

session_ends_example :
    (1 ≤ 8 + 2 * (3 + 8))
    × (Finished 2 3 one_byte.0
        ⊎ CanStep little 2 3 (omega arith) (omega arith) (omega arith) one_byte.0)
session_ends_example =
    session_ends little 2 3 (omega arith) (omega arith) (omega arith) begun.0 message 1 one_byte.0
      begun.1 (next here one_byte.1)

session_never_faults_example :
    (r : Reaction) × (handler receiver little at_start (holding message) ≡ ok r)
unfolding raner.Ttcp.pattern_from
session_never_faults_example =
    session_never_faults little 2 3 (omega arith) (omega arith) (omega arith) receiver begun.0
      message 0 at_start message [] (holding message) begun.1 here (omega arith)
      (sym (append-nil message)) (holding_lem message (omega arith)).0
      (holding_lem message (omega arith)).1

trans_connected_lem_example :
    (c : Context) × (trans_connected little 2 3 ≡ ok (c, message))
    × Serves 2 3 (payload 3) c
    × (c.count ≡ 1)
    × (c.bytes ≡ 3)
trans_connected_lem_example = trans_connected_lem little 2 3 (omega arith) (omega arith)
