-- ===== src/Ttcp/Session/Rest.antt =====
-- A session of ttcp with no byte on its way is over.
use raner.Common.{
  ℕ, zero, suc, ◌+◌, ◌-◌, ◌*◌, ◌≤◌, ◌<◌, ◌≡◌, refl, sym, ap, ap₂, ◌∙◌, true, le→leb, inl, inr, List,
  [], ◌∷◌, ◌++◌, length, length-append, length-take, arith,
}
use native.Mathlib.Nat.{mul-le-mul_right}
use raner.Endian.Laws.{wire_32}
use raner.Ttcp.Payloads.{copies, payload, session_message, length-copies, length-payload, IsPart}
use raner.Ttcp.Session.{System}
use raner.Ttcp.Session.Invariant.{unsent, unacknowledged, Waits, Takes, Inv}

quotient : (m r a b : ℕ) → r < m → r + a * m ≡ b * m → a ≡ b
quotient m r zero zero h e = refl
quotient m r zero (suc b) h e = absurd (omega (arith, e, h))
quotient m r (suc a) zero h e = absurd (omega (arith, e, h))
quotient m r (suc a) (suc b) h e = ap suc (quotient m r a b h (omega (arith, e)))

empty_of_length : (l : List ℕ) → length l ≡ 0 → l ≡ []
empty_of_length [] e = refl
empty_of_length (a ∷ l) e = absurd (omega (arith, e))

-- What is left of a stream of whole messages when none of it is on its way.
at_rest :
    (p held : List ℕ) (n m : ℕ)
    → IsPart p held
    → held ++ copies p n ≡ copies p m
    → (n ≡ m) × (held ≡ [])
at_rest p held n m (k, short, part) flow =
    let whole : length held + n * length p ≡ m * length p = omega (
      arith,
      ap length flow,
      length-append held (copies p n),
      length-copies p n,
      length-copies p m,
    ) in
    let same : n ≡ m =
      quotient (length p) (length held) n m (omega (arith, ap length part, length-take k p, short))
        whole in
    (same, empty_of_length held (omega (arith, whole, ap (λ q. q * length p) same)))

module _ (number len : ℕ) where
  -- All messages are sent, received and acknowledged, and each side has shut its direction down.
  pub record Finished (s : System) : Type 0 where
    pub tx_down : s.tx_shut ≡ true
    pub rx_down : s.rx_shut ≡ true
    pub sent_all : s.tx.count ≡ number
    pub received_all : s.rx.count ≡ number
    pub sent_bytes : s.tx.bytes ≡ number * len
    pub received_bytes : s.rx.bytes ≡ number * len
    pub nothing_left : s.rx_in ++ s.tx_in ≡ []

  pub all_at_rest :
      (s : System)
      → Inv number len s
      → Takes number len s
      → s.to_rx ≡ []
      → s.to_tx ≡ []
      → Finished s
  all_at_rest s i q no_rx no_tx =
      let (ahead, none_held) =
        at_rest (payload len) s.rx_in (number - s.tx.count) (number - s.rx.count) q.part
          (ap (λ l. s.rx_in ++ (l ++ unsent number len s)) (sym no_rx) ∙ q.flow) in
      elim i.sender [
        | inl w ↦
            let (behind, none_left) =
              at_rest (wire_32 len) s.tx_in (number - s.rx.count) (suc number - s.tx.count) w.part
                (ap (λ l. s.tx_in ++ (l ++ unacknowledged number len s)) (sym no_tx) ∙ w.flow) in
            absurd (omega (arith, ahead, behind, i.within, q.within, i.started))
        | inr w ↦
            let all : s.rx.count ≡ number = omega (arith, ahead, w.all_sent, q.within) in
            record {
              tx_down = w.down;
              rx_down = q.done ∙ le→leb number s.rx.count (omega (arith, all));
              sent_all = w.all_sent;
              received_all = all;
              sent_bytes = i.counts ∙ ap (λ m. m * len) w.all_sent;
              received_bytes = q.counts ∙ ap (λ m. m * len) all;
              nothing_left = ap₂ ◌++◌ none_held w.empty;
            }
      ]

  -- The session message cannot be what is missing.
  pub no_rest_waiting :
      (s : System) → Inv number len s → Waits number len s → s.to_rx ≡ [] → Finished s
  no_rest_waiting s i q no_rx =
      let rest : ℕ = number - s.tx.count in
      let fewer : rest ≤ number = omega arith in
      absurd (
        omega (
          arith,
          ap length (ap (λ l. s.rx_in ++ (l ++ unsent number len s)) (sym no_rx) ∙ q.flow),
          length-append s.rx_in (unsent number len s),
          length-append (session_message number len) (copies (payload len) number),
          length-copies (payload len) rest,
          length-copies (payload len) number,
          mul-le-mul_right (length (payload len)) fewer,
          q.few,
        ))

  pub rx_in_short : (s : System) → Inv number len s → length s.rx_in ≤ len + 11
  rx_in_short s i = elim i.receiver [
    | inl q ↦ omega (arith, q.few)
    | inr q ↦
        let (m, short, part) = q.part in
        omega (arith, ap length part, length-take m (payload len), length-payload len, short)
  ]

  pub tx_in_short : (s : System) → Inv number len s → length s.tx_in ≤ 3
  tx_in_short s i = elim i.sender [
    | inl q ↦
        let (m, short, part) = q.part in
        omega (arith, ap length part, length-take m (wire_32 len), short)
    | inr q ↦ omega (arith, ap length q.empty)
  ]
