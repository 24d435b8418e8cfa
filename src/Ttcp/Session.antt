-- ===== src/Ttcp/Session.antt =====
-- The two sides of ttcp and the two streams between them. The streams are reliable and ordered, and
-- are cut at will: a step hands some of the bytes on their way to a side, into its input buffer, and
-- runs its `onMessage`.
pub mod Invariant
pub mod Receiving
pub mod Reading
pub mod Sending
pub mod Writing
pub mod Runs
pub mod Rest
pub mod Ends
use raner.Common.{
  ℕ, zero, suc, ◌+◌, ◌-◌, ◌<◌, ◌≡◌, Bool, true, false, ◌||◌, List, [], ◌++◌, length, Outcome, ok,
}
use raner.Endian.{ByteOrder}
use raner.Buffer.{ByteBuffer}
use raner.Buffer.Contents.{contents}
use raner.Buffer.Valid.{IsValid}
use raner.Ttcp.{Context, Reaction, make_context, trans_all, receive_all}

-- Of the buffers of a side, what they hold; the bytes sent and not yet read by the other side.
pub record System : Type 0 where
  pub tx : Context
  pub tx_in : List ℕ
  pub tx_shut : Bool
  pub rx : Context
  pub rx_in : List ℕ
  pub rx_shut : Bool
  pub to_rx : List ℕ
  pub to_tx : List ℕ

-- Both sides are connected, and the transmitter has sent `message`.
abbrev pub start : Context → List ℕ → System
start c message = record {
  tx = c;
  tx_in = [];
  tx_shut = false;
  rx = make_context;
  rx_in = [];
  rx_shut = false;
  to_rx = message;
  to_tx = [];
}

-- A side's input buffer `b` holds what it held and the bytes that came.
pub data Step (o : ByteOrder) (s t : System) : Type 0 where
  receives :
      (chunk later : List ℕ) (b : ByteBuffer) (r : Reaction)
      → 0 < length chunk
      → s.to_rx ≡ chunk ++ later
      → IsValid b
      → contents b ≡ s.rx_in ++ chunk
      → receive_all o s.rx b ≡ ok r
      → t ≡ record s {
        rx = r.context;
        rx_in = contents r.buffer;
        rx_shut = s.rx_shut || r.shut;
        to_rx = later;
        to_tx = s.to_tx ++ r.sent;
      }
      → Step o s t
  transmits :
      (chunk later : List ℕ) (b : ByteBuffer) (r : Reaction)
      → 0 < length chunk
      → s.to_tx ≡ chunk ++ later
      → IsValid b
      → contents b ≡ s.tx_in ++ chunk
      → trans_all o s.tx b ≡ ok r
      → t ≡ record s {
        tx = r.context;
        tx_in = contents r.buffer;
        tx_shut = s.tx_shut || r.shut;
        to_tx = later;
        to_rx = s.to_rx ++ r.sent;
      }
      → Step o s t

-- In a number of steps.
pub data Reach (o : ByteOrder) (s : System) : ℕ → System → Type 0 where
  here : Reach o s 0 s
  next : {n : ℕ} {t u : System} → Reach o s n t → Step o t u → Reach o s (suc n) u
