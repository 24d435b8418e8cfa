-- ===== src/Ttcp/Session/Invariant.antt =====
-- What holds of a session at any time: each stream with what its ends hold is what is still to do.
use raner.Common.{
  ℕ, suc, ◌+◌, ◌-◌, ◌*◌, ◌≤◌, ◌<◌, ◌≡◌, true, false, leb, ◌⊎◌, List, [], ◌++◌, length,
}
use raner.Endian.Laws.{wire_32}
use raner.Ttcp.{make_context}
use raner.Ttcp.Payloads.{copies, payload, session_message, IsPart}
use raner.Ttcp.Transmit.{Serves}
use raner.Ttcp.Session.{System}

module _ (number len : ℕ) where
  -- The messages that are still to be sent, and the acknowledgements.
  abbrev pub unsent : System → List ℕ
  unsent s = copies (payload len) (number - s.tx.count)

  abbrev pub unacknowledged : System → List ℕ
  unacknowledged s = copies (wire_32 len) (number - s.rx.count)

  -- Before the session message is read.
  pub record Waits (s : System) : Type 0 where
    pub unset : s.rx ≡ make_context
    pub few : length s.rx_in < 8
    pub up : s.rx_shut ≡ false
    pub flow :
        s.rx_in ++ (s.to_rx ++ unsent s) ≡ session_message number len ++ copies (payload len) number

  pub record Takes (s : System) : Type 0 where
    pub serves : Serves number len (wire_32 len) s.rx
    pub within : s.rx.count ≤ number
    pub counts : s.rx.bytes ≡ s.rx.count * len
    pub part : IsPart (payload len) s.rx_in
    pub done : s.rx_shut ≡ leb number s.rx.count
    pub flow : s.rx_in ++ (s.to_rx ++ unsent s) ≡ copies (payload len) (number - s.rx.count)

  pub record Sends (s : System) : Type 0 where
    pub up : s.tx_shut ≡ false
    pub part : IsPart (wire_32 len) s.tx_in
    pub flow :
        s.tx_in ++ (s.to_tx ++ unacknowledged s) ≡ copies (wire_32 len) (suc number - s.tx.count)

  pub record Ended (s : System) : Type 0 where
    pub down : s.tx_shut ≡ true
    pub all_sent : s.tx.count ≡ number
    pub empty : s.tx_in ≡ []
    pub flow : s.to_tx ++ unacknowledged s ≡ []

  pub record Inv (s : System) : Type 0 where
    pub serves : Serves number len (payload len) s.tx
    pub started : 1 ≤ s.tx.count
    pub within : s.tx.count ≤ number
    pub counts : s.tx.bytes ≡ s.tx.count * len
    pub receiver : Waits s ⊎ Takes s
    pub sender : Sends s ⊎ Ended s

  -- The bytes that are still to be read by either side.
  abbrev pub outstanding : System → ℕ
  outstanding s = length s.to_rx + length s.to_tx + length (unsent s) + length (unacknowledged s)
