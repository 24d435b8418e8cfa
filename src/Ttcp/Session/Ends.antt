-- ===== src/Ttcp/Session/Ends.antt =====
-- A session of ttcp goes on until both sides have shut the connection down.
use raner.Common.{
  ℕ, ◌+◌, ◌-◌, ◌*◌, ◌^◌, ◌≤◌, ◌<◌, ◌≡◌, refl, sym, ◌∙◌, subst, ◌⊎◌, inl, inr, List, [], ◌∷◌, ◌++◌,
  length, length-append, take_all, arith, Outcome, ok, ok-injective,
}
use raner.Endian.{ByteOrder}
use raner.Buffer.{ByteBuffer, max_size}
use raner.Buffer.Contents.{contents}
use raner.Buffer.Valid.{IsValid}
use raner.Ttcp.{Context, Reaction, trans_connected, trans_all, receive_all}
use raner.Ttcp.Payloads.{payload, session_message}
use raner.Ttcp.Connected.{trans_connected_lem}
use raner.Ttcp.Session.{System, start, Step, Reach, receives, transmits}
use raner.Ttcp.Session.Invariant.{Inv, outstanding}
use raner.Ttcp.Session.Receiving.{received}
use raner.Ttcp.Session.Sending.{transmitted}
use raner.Ttcp.Session.Reading.{reads}
use raner.Ttcp.Session.Writing.{writes}
use raner.Ttcp.Session.Runs.{start-Inv, start-outstanding, Reach-Inv}
use raner.Ttcp.Session.Rest.{Finished, all_at_rest, no_rest_waiting, rx_in_short, tx_in_short}

-- A buffer that holds given bytes.
abbrev pub holding : List ℕ → ByteBuffer
holding l = record { buffer = l; reader_index = 0; writer_index = length l }

pub holding_lem :
    (l : List ℕ) → length l ≤ max_size → IsValid (holding l) × (contents (holding l) ≡ l)
holding_lem l h = (
  record { ordered = omega arith; inside = omega arith; small = h },
  take_all (length l - 0) l (omega arith),
)

-- The bytes on their way to a side, those in its buffer, and its `onMessage`.
pub data Side : Type 0 where
  transmitter : Side
  receiver : Side

abbrev pub stream : Side → System → List ℕ
stream transmitter s = s.to_tx
stream receiver s = s.to_rx

abbrev pub input : Side → System → List ℕ
input transmitter s = s.tx_in
input receiver s = s.rx_in

abbrev pub handler : Side → ByteOrder → System → ByteBuffer → Outcome Reaction
handler transmitter o s b = trans_all o s.tx b
handler receiver o s b = receive_all o s.rx b

module _ (o : ByteOrder) (number len : ℕ) (some_messages : 0 < number) (few : number < 2 ^ 31)
    (small : len + 4 < 2 ^ 31) where
  abbrev pub CanStep : System → Type 0
  CanStep s = (t : System) × Step o s t

  -- The next byte on its way can be read.
  pub can_receive :
      (s : System) (a : ℕ) (later : List ℕ) → Inv number len s → s.to_rx ≡ a ∷ later → CanStep s
  can_receive s a later i e =
      let held : List ℕ = s.rx_in ++ (a ∷ []) in
      let (v, c) =
        holding_lem held
          (omega (arith, length-append s.rx_in (a ∷ []), rx_in_short number len s i, small)) in
      let (r, run, on) =
        reads o number len some_messages few small s (a ∷ []) later (holding held) i (omega arith) e
          v c in
      (
        received o number len some_messages small s later r,
        receives (a ∷ []) later (holding held) r (omega arith) e v c run refl,
      )

  can_transmit :
      (s : System) (a : ℕ) (later : List ℕ) → Inv number len s → s.to_tx ≡ a ∷ later → CanStep s
  can_transmit s a later i e =
      let held : List ℕ = s.tx_in ++ (a ∷ []) in
      let (v, c) =
        holding_lem held
          (omega (arith, length-append s.tx_in (a ∷ []), tx_in_short number len s i)) in
      let (r, run, on) =
        writes o number len some_messages small s (a ∷ []) later (holding held) i (omega arith) e v
          c in
      (
        transmitted o number len some_messages small s later r,
        transmits (a ∷ []) later (holding held) r (omega arith) e v c run refl,
      )

  goes_on_or_ends : (s : System) → Inv number len s → Finished number len s ⊎ CanStep s
  goes_on_or_ends s i = by s.to_rx s.to_tx refl refl
    where
      by : (x y : List ℕ) → s.to_rx ≡ x → s.to_tx ≡ y → Finished number len s ⊎ CanStep s
      by (a ∷ x) y e f = inr (can_receive s a x i e)
      by [] (a ∷ y) e f = inr (can_transmit s a y i f)
      by [] [] e f = inl (elim i.receiver [
        | inl q ↦ no_rest_waiting number len s i q e
        | inr q ↦ all_at_rest number len s i q e f
      ])

  pub started_Inv :
      (c : Context) (message : List ℕ)
      → trans_connected o number len ≡ ok (c, message)
      → Inv number len (start c message)
        × (outstanding number len (start c message) ≡ 8 + number * (len + 8))
  started_Inv c message begins =
      let (c', made, serves, one, bytes) = trans_connected_lem o number len few small in
      let same : (c', session_message number len ++ payload len) ≡ (c, message) =
        ok-injective (c', session_message number len ++ payload len) (c, message)
          (sym made ∙ begins) in
      subst
        (λ q.
          Inv number len (start q.0 q.1)
          × (outstanding number len (start q.0 q.1) ≡ 8 + number * (len + 8)))
        same
        (
          start-Inv o number len some_messages few small c' serves one bytes,
          start-outstanding o number len some_messages few small c' one,
        )

  -- A session of ttcp of at least one message, from the connection on, with both streams handed
  -- over in pieces of any sizes in any order, and with fewer than 2 ^ 31 messages and 2 ^ 31 bytes
  -- in each: it makes at most 8 + number * (length + 8) steps, and in every state that it reaches
  -- either it is over, with both sides shut down and all messages with all their bytes sent and
  -- received, or a step can be made.
  pub session_ends :
      (c : Context) (message : List ℕ) (n : ℕ) (s : System)
      → trans_connected o number len ≡ ok (c, message)
      → Reach o (start c message) n s
      → (n ≤ 8 + number * (len + 8)) × (Finished number len s ⊎ CanStep s)
  session_ends c message n s begins reach =
      let (i, all) = started_Inv c message begins in
      let (j, less) = Reach-Inv o number len some_messages few small reach i in
      (omega (arith, less, all), goes_on_or_ends s j)

  -- In every state that such a session of ttcp reaches, onMessage of either side, of a valid
  -- buffer that holds what was left in it and any beginning of the bytes on their way, returns: no
  -- assertion of the buffer fails and the loop ends.
  pub session_never_faults :
      (side : Side) (c : Context) (message : List ℕ) (n : ℕ) (s : System) (chunk later : List ℕ)
      (b : ByteBuffer)
      → trans_connected o number len ≡ ok (c, message)
      → Reach o (start c message) n s
      → 0 < length chunk
      → stream side s ≡ chunk ++ later
      → IsValid b
      → contents b ≡ input side s ++ chunk
      → (r : Reaction) × (handler side o s b ≡ ok r)
  session_never_faults receiver c message n s chunk later b begins reach some e v held =
      let (i, all) = started_Inv c message begins in
      let (j, less) = Reach-Inv o number len some_messages few small reach i in
      let (r, run, on) =
        reads o number len some_messages few small s chunk later b j some e v held in
      (r, run)
  session_never_faults transmitter c message n s chunk later b begins reach some e v held =
      let (i, all) = started_Inv c message begins in
      let (j, less) = Reach-Inv o number len some_messages few small reach i in
      let (r, run, on) = writes o number len some_messages small s chunk later b j some e v held in
      (r, run)
