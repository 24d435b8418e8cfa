-- ===== src/Ttcp/Session/Sending.antt =====
-- A step of the transmitter keeps the session's invariant.
use raner.Common.{
  ℕ, ◌+◌, ◌-◌, ◌*◌, ◌^◌, ◌≤◌, ◌<◌, ◌≡◌, sym, ap, ap₂, ◌∙◌, subst, ◌||◌, ◌⊎◌, inl, inr, List, ◌++◌,
  length, length-append, append_assoc, arith, ok,
}
use raner.Endian.{ByteOrder}
use raner.Endian.Laws.{wire_32}
use raner.Buffer.{ByteBuffer}
use raner.Buffer.Contents.{contents}
use raner.Ttcp.{Reaction, trans_all}
use raner.Ttcp.Payloads.{copies, copies_add, payload}
use raner.Ttcp.Transmit.{Serves, advanced, advanced_lem}
use raner.Ttcp.Session.{System}
use raner.Ttcp.Session.Invariant.{unsent, Sends, Ended, Inv}
use raner.Ttcp.Session.Receiving.{Continues}
use raner.Ttcp.Session.Reading.{times}

module _ (o : ByteOrder) (number len : ℕ) (some_messages : 0 < number)
    (small : len + 4 < 2 ^ 31) where
  abbrev ack : List ℕ
  ack = wire_32 len

  -- The session after the transmitter has read.
  abbrev pub transmitted : System → List ℕ → Reaction → System
  transmitted s later r = record s {
    tx = r.context;
    tx_in = contents r.buffer;
    tx_shut = s.tx_shut || r.shut;
    to_tx = later;
    to_rx = s.to_rx ++ r.sent;
  }

  abbrev pub Writes : System → List ℕ → ByteBuffer → Type 0
  Writes s later b =
      (r : Reaction) × (trans_all o s.tx b ≡ ok r)
      × Continues o number len some_messages small s (transmitted s later r)

  -- The messages that are sent are off those that are still to be sent.
  on_their_way :
      (k n : ℕ) (l : List ℕ)
      → n + k ≤ number
      → (l ++ copies (payload len) k) ++ copies (payload len) (number - (n + k))
        ≡ l ++ copies (payload len) (number - n)
  on_their_way k n l h =
      let whole : k + (number - (n + k)) ≡ number - n = omega arith in
      append_assoc l (copies (payload len) k) (copies (payload len) (number - (n + k)))
      ∙ ap (◌++◌ l)
          (sym (copies_add (payload len) k (number - (n + k))) ∙ ap (copies (payload len)) whole)

  -- From what the transmitter's side has become.
  pub goes_on :
      (s : System) (chunk later : List ℕ) (r : Reaction) (k : ℕ)
      → Inv number len s
      → 0 < length chunk
      → s.to_tx ≡ chunk ++ later
      → r.context ≡ advanced len k s.tx
      → s.tx.count + k ≤ number
      → r.sent ≡ copies (payload len) k
      → Sends number len (transmitted s later r) ⊎ Ended number len (transmitted s later r)
      → Continues o number len some_messages small s (transmitted s later r)
  goes_on s chunk later r k i some e c within sent side =
      let t : System = transmitted s later r in
      let (serves, n₀, bytes₀) = advanced_lem len k s.tx i.serves in
      let n : r.context.count ≡ s.tx.count + k = ap (λ x. x.count) c ∙ n₀ in
      let same : t.to_rx ++ unsent number len t ≡ s.to_rx ++ unsent number len s =
        ap₂ (λ q m. (s.to_rx ++ q) ++ copies (payload len) (number - m)) sent n
        ∙ on_their_way k s.tx.count s.to_rx within in
      (
        record {
          serves = subst (Serves number len (payload len)) (sym c) serves;
          started = omega (arith, n, i.started);
          within = omega (arith, n, within);
          counts =
              ap (λ x. x.bytes) c
              ∙ bytes₀
              ∙ ap (λ m. m + k * len) i.counts
              ∙ times s.tx.count k len
              ∙ ap (λ m. m * len) (sym n);
          receiver = elim i.receiver [
            | inl q ↦ inl (record {
              unset = q.unset;
              few = q.few;
              up = q.up;
              flow = ap (◌++◌ s.rx_in) same ∙ q.flow;
            })
            | inr q ↦ inr (record {
              serves = q.serves;
              within = q.within;
              counts = q.counts;
              part = q.part;
              done = q.done;
              flow = ap (◌++◌ s.rx_in) same ∙ q.flow;
            })
          ];
          sender = side;
        },
        omega (
          arith,
          ap length e,
          length-append chunk later,
          ap length same,
          length-append t.to_rx (unsent number len t),
          length-append s.to_rx (unsent number len s),
          some,
        ),
      )
