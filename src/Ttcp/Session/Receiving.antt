-- ===== src/Ttcp/Session/Receiving.antt =====
-- A step of the receiver keeps the session's invariant.
use raner.Common.{
  ℕ, zero, suc, ◌+◌, ◌-◌, ◌^◌, ◌≤◌, ◌<◌, ◌≡◌, refl, sym, ap, ap₂, ◌∙◌, subst, ◌||◌, leb, le→leb,
  lt→leb, ◌⊎◌, inl, inr, List, [], ◌∷◌, ◌++◌, length, length-append, take, drop, take-append-drop,
  drop-append_le, drop-append_self, take-append_le, take_all, append_assoc, append-nil, arith,
  Outcome, ok,
}
use raner.Endian.{ByteOrder}
use raner.Endian.Laws.{wire_32}
use raner.Buffer.{ByteBuffer}
use raner.Buffer.Contents.{contents}
use raner.Buffer.Valid.{IsValid}
use raner.Ttcp.{Context, Reaction, receive_message}
use raner.Ttcp.Payloads.{copies, copies_le, copies_add, length-payload, payload, IsPart, cut}
use raner.Ttcp.Transmit.{Serves, advanced}
use raner.Ttcp.Received.{receive_message_lem, receive_message_last}
use raner.Ttcp.Session.{System}
use raner.Ttcp.Session.Invariant.{unacknowledged, Waits, Takes, Inv, outstanding}

pub no_front : (x y : List ℕ) → x ++ y ≡ [] → x ≡ []
no_front [] y e = refl
no_front (a ∷ x) y e = absurd (omega (arith, ap length e))

-- The front of a list that begins with `p`.
pub split_front :
    (p x y z : List ℕ)
    → length p ≤ length x
    → x ++ y ≡ p ++ z
    → (x ≡ p ++ drop (length p) x) × (drop (length p) x ++ y ≡ z)
split_front p x y z long e = (
  sym (take-append-drop (length p) x)
      ∙ ap (λ q. q ++ drop (length p) x)
          (sym (take-append_le (length p) x y long)
            ∙ ap (take (length p)) e
            ∙ take-append_le (length p) p z (omega arith)
            ∙ take_all (length p) p (omega arith)),
  sym (drop-append_le (length p) x y long) ∙ ap (drop (length p)) e ∙ drop-append_self p z,
)

module _ (o : ByteOrder) (number len : ℕ) (some_messages : 0 < number)
    (small : len + 4 < 2 ^ 31) where
  abbrev p : List ℕ
  p = payload len

  abbrev pub reaction : ℕ → Context → ByteBuffer → Reaction
  reaction k c b = record {
    context = advanced len k c;
    buffer = b;
    sent = copies (wire_32 len) k;
    shut = leb number (c.count + k);
  }

  -- What `onMessage` does in a session, with bytes in the buffer of which `y` are the next.
  abbrev pub Reacts : Outcome Reaction → Context → List ℕ → Type 0
  Reacts m c y =
      (k : ℕ) × (b : ByteBuffer) × (m ≡ ok (reaction k c b))
      × (c.count + k ≤ number)
      × IsPart p (contents b)
      × (contents b ++ y ≡ copies p (number - (c.count + k)))

  pub reacts :
      (fuel : ℕ) (c : Context) (b : ByteBuffer) (y : List ℕ)
      → Serves number len (wire_32 len) c
      → c.count < number
      → IsValid b
      → length (contents b) < fuel
      → contents b ++ y ≡ copies p (number - c.count)
      → Reacts (receive_message fuel o c b) c y
  reacts fuel c b y s more v enough e =
      let (k, later, rest, split, begins, part, ends) =
        cut p (number - c.count) (contents b) y (omega (arith, length-payload len)) e in
      let few : k ≤ length (contents b) = omega (
        arith,
        copies_le p k (omega (arith, length-payload len)),
        ap length begins,
        length-append (copies p k) rest,
      ) in
      by k later rest split begins part ends few
    where
      by :
          (k later : ℕ) (rest : List ℕ)
          → number - c.count ≡ k + later
          → contents b ≡ copies p k ++ rest
          → IsPart p rest
          → rest ++ y ≡ copies p later
          → k ≤ length (contents b)
          → Reacts (receive_message fuel o c b) c y
      by zero zero rest split begins part ends few = absurd (omega (arith, split, more))
      by (suc k) zero rest split begins part ends few =
          let none_left : rest ≡ [] = no_front rest y ends in
          let over : 0 ≡ number - (c.count + suc k) = omega (arith, split, more) in
          let (b', run, v', c') =
            receive_message_last o number len some_messages small k fuel c b s v
              (begins ∙ ap (λ l. copies p (suc k) ++ l) none_left ∙ append-nil (copies p (suc k)))
              (omega (arith, split, more)) (omega (arith, few, enough)) in
          (
            suc k,
            b',
            run
                ∙ ap
                    (λ d. ok (record {
                      context = advanced len (suc k) c;
                      buffer = b';
                      sent = copies (wire_32 len) (suc k);
                      shut = d;
                    }))
                    (sym (le→leb number (c.count + suc k) (omega (arith, split, more)))),
            omega (arith, split, more),
            (0, omega (arith, length-payload len), c'),
            ap (λ l. l ++ y) (c' ∙ sym none_left) ∙ ends ∙ ap (copies p) over,
          )
      by k (suc later) rest split begins part ends few =
          let over : suc later ≡ number - (c.count + k) = omega (arith, split) in
          let (b', run, v', c') =
            receive_message_lem o number len some_messages small k fuel rest c b s v part begins
              (omega (arith, split)) (omega (arith, few, enough)) in
          (
            k,
            b',
            run
                ∙ ap
                    (λ d. ok (record {
                      context = advanced len k c;
                      buffer = b';
                      sent = copies (wire_32 len) k;
                      shut = d;
                    }))
                    (sym (lt→leb number (c.count + k) (omega (arith, split)))),
            omega (arith, split),
            subst (IsPart p) (sym c') part,
            ap (λ l. l ++ y) c' ∙ ends ∙ ap (copies p) over,
          )

  -- The acknowledgements that are sent are off those that are still to be sent.
  acknowledged :
      (k n : ℕ) (l : List ℕ)
      → n + k ≤ number
      → (l ++ copies (wire_32 len) k) ++ copies (wire_32 len) (number - (n + k))
        ≡ l ++ copies (wire_32 len) (number - n)
  acknowledged k n l h =
      let whole : k + (number - (n + k)) ≡ number - n = omega arith in
      append_assoc l (copies (wire_32 len) k) (copies (wire_32 len) (number - (n + k)))
      ∙ ap (◌++◌ l)
          (sym (copies_add (wire_32 len) k (number - (n + k))) ∙ ap (copies (wire_32 len)) whole)

  -- The session after the receiver has read.
  abbrev pub received : System → List ℕ → Reaction → System
  received s later r = record s {
    rx = r.context;
    rx_in = contents r.buffer;
    rx_shut = s.rx_shut || r.shut;
    to_rx = later;
    to_tx = s.to_tx ++ r.sent;
  }

  -- It keeps the invariant, and a byte is no longer outstanding.
  abbrev pub Continues : System → System → Type 0
  Continues s t = Inv number len t × (suc (outstanding number len t) ≤ outstanding number len s)

  -- From what the receiver's side has become.
  pub continues :
      (s : System) (chunk later : List ℕ) (r : Reaction) (k : ℕ)
      → Inv number len s
      → 0 < length chunk
      → s.to_rx ≡ chunk ++ later
      → r.context.count ≡ s.rx.count + k
      → r.context.count ≤ number
      → r.sent ≡ copies (wire_32 len) k
      → Waits number len (received s later r) ⊎ Takes number len (received s later r)
      → Continues s (received s later r)
  continues s chunk later r k i some e n within sent side =
      let t : System = received s later r in
      let same : t.to_tx ++ unacknowledged number len t ≡ s.to_tx ++ unacknowledged number len s =
        ap₂ (λ q m. (s.to_tx ++ q) ++ copies (wire_32 len) (number - m)) sent n
        ∙ acknowledged k s.rx.count s.to_tx (omega (arith, n, within)) in
      (
        record {
          serves = i.serves;
          started = i.started;
          within = i.within;
          counts = i.counts;
          receiver = side;
          sender = elim i.sender [
            | inl q ↦
                inl (record { up = q.up; part = q.part; flow = ap (◌++◌ s.tx_in) same ∙ q.flow })
            | inr q ↦ inr (record {
              down = q.down;
              all_sent = q.all_sent;
              empty = q.empty;
              flow = same ∙ q.flow;
            })
          ];
        },
        omega (
          arith,
          ap length e,
          length-append chunk later,
          ap length same,
          length-append t.to_tx (unacknowledged number len t),
          length-append s.to_tx (unacknowledged number len s),
        ),
      )
