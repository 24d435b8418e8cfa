-- ===== src/Ttcp/Session/Writing.antt =====
-- The transmitter can read what has come, in any pieces.
use raner.Common.{
  ℕ, zero, suc, ◌+◌, ◌-◌, ◌^◌, ◌≤◌, ◌<◌, ◌≡◌, refl, sym, ap, ◌∙◌, subst, Bool, true, false, ◌||◌,
  inl, inr, List, [], ◌++◌, length, length-append, append-nil, arith,
}
use raner.Endian.{ByteOrder}
use raner.Endian.Laws.{wire_32}
use raner.Buffer.{ByteBuffer, readable_bytes}
use raner.Buffer.Contents.{contents}
use raner.Buffer.Valid.{IsValid, readable-eq-length}
use raner.Ttcp.{Context, Reaction}
use raner.Ttcp.Payloads.{copies, copies_le, payload, IsPart, cut}
use raner.Ttcp.Transmit.{advanced, advanced_lem, trans_message_lem, trans_message_last}
use raner.Ttcp.Session.{System}
use raner.Ttcp.Session.Invariant.{unacknowledged, Sends, Inv}
use raner.Ttcp.Session.Receiving.{no_front}
use raner.Ttcp.Session.Reading.{joined}
use raner.Ttcp.Session.Sending.{Writes, goes_on}

module _ (o : ByteOrder) (number len : ℕ) (some_messages : 0 < number)
    (small : len + 4 < 2 ^ 31) where
  abbrev ack : List ℕ
  ack = wire_32 len

  abbrev reaction : Context → ℕ → ByteBuffer → Bool → Reaction
  reaction c k b d = record {
    context = advanced len k c;
    buffer = b;
    sent = copies (payload len) k;
    shut = d;
  }

  -- While the transmitter waits for acknowledgements.
  messages_are_written :
      (s : System) (chunk later : List ℕ) (b : ByteBuffer)
      → Inv number len s
      → Sends number len s
      → 0 < length chunk
      → s.to_tx ≡ chunk ++ later
      → IsValid b
      → contents b ≡ s.tx_in ++ chunk
      → Writes o number len some_messages small s later b
  messages_are_written s chunk later b i q some e v held =
      let flow : contents b ++ (later ++ unacknowledged number len s)
          ≡ copies ack (suc number - s.tx.count) =
        ap (λ l. l ++ (later ++ unacknowledged number len s)) held
        ∙ joined s.tx_in chunk later (unacknowledged number len s) s.to_tx
            (copies ack (suc number - s.tx.count)) e q.flow in
      let (k, left, rest, split, begins, part, ends) =
        cut ack (suc number - s.tx.count) (contents b) (later ++ unacknowledged number len s)
          (omega arith) flow in
      let few : k ≤ readable_bytes b = omega (
        arith,
        copies_le ack k (omega arith),
        ap length begins,
        length-append (copies ack k) rest,
        readable-eq-length v,
      ) in
      by k left rest split begins part ends few
    where
      by :
          (k left : ℕ) (rest : List ℕ)
          → suc number - s.tx.count ≡ k + left
          → contents b ≡ copies ack k ++ rest
          → IsPart ack rest
          → rest ++ (later ++ unacknowledged number len s) ≡ copies ack left
          → k ≤ readable_bytes b
          → Writes o number len some_messages small s later b
      by zero zero rest split begins part ends few = absurd (omega (arith, split, i.within))
      by (suc k) zero rest split begins part ends few =
          let none_left : rest ≡ [] = no_front rest (later ++ unacknowledged number len s) ends in
          let one : suc k ≡ k + 1 = omega arith in
          let all : s.tx.count + k ≡ number = omega (arith, split, i.within) in
          let (b', run, v', c') =
            trans_message_last o number len (omega arith) k (readable_bytes b + 1) s.tx b i.serves v
              (begins
                ∙ ap (λ l. copies ack (suc k) ++ l) none_left
                ∙ append-nil (copies ack (suc k))
                ∙ ap (copies ack) one)
              all (omega (arith, few)) in
          let (serves, n, bytes) = advanced_lem len k s.tx i.serves in
          let r : Reaction = reaction s.tx k b' true in
          (
            r,
            run,
            goes_on o number len some_messages small s chunk later r k i some e refl
                (omega (arith, all)) refl
                (inr (record {
                  down = ap (λ d. d || true) q.up;
                  all_sent = n ∙ all;
                  empty = c';
                  flow =
                      ap (λ l. l ++ (later ++ unacknowledged number len s)) (sym none_left) ∙ ends;
                })),
          )
      by k (suc left) rest split begins part ends few =
          let (b', run, v', c') =
            trans_message_lem o number len (omega arith) k (readable_bytes b + 1) rest s.tx b
              i.serves v part begins (omega (arith, split)) (omega (arith, few)) in
          let (serves, n, bytes) = advanced_lem len k s.tx i.serves in
          let over : suc left ≡ suc number - (advanced len k s.tx).count =
            omega (arith, split, n) in
          let r : Reaction = reaction s.tx k b' false in
          (
            r,
            run,
            goes_on o number len some_messages small s chunk later r k i some e refl
                (omega (arith, split)) refl
                (inl (record {
                  up = ap (λ d. d || false) q.up;
                  part = subst (IsPart ack) (sym c') part;
                  flow =
                      ap (λ l. l ++ (later ++ unacknowledged number len s)) c'
                      ∙ ends
                      ∙ ap (copies ack) over;
                })),
          )

  pub writes :
      (s : System) (chunk later : List ℕ) (b : ByteBuffer)
      → Inv number len s
      → 0 < length chunk
      → s.to_tx ≡ chunk ++ later
      → IsValid b
      → contents b ≡ s.tx_in ++ chunk
      → Writes o number len some_messages small s later b
  writes s chunk later b i some e v held = elim i.sender [
    | inl q ↦ messages_are_written s chunk later b i q some e v held
    | inr q ↦
        let none : s.to_tx ≡ [] = no_front s.to_tx (unacknowledged number len s) q.flow in
        absurd (omega (arith, some, ap length e, ap length none, length-append chunk later))
  ]
