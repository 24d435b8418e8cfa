-- ===== src/Ttcp/Session/Runs.antt =====
-- The session's invariant holds of every state, and each step takes a byte off what is outstanding.
use raner.Common.{
  ℕ, suc, ◌+◌, ◌-◌, ◌*◌, ◌^◌, ◌≤◌, ◌<◌, ◌≡◌, refl, sym, ap, ◌∙◌, subst, inl, List, ◌++◌, length,
  length-append, append_assoc, arith, ok-injective,
}
use raner.Endian.{ByteOrder}
use raner.Endian.Laws.{wire_32}
use raner.Ttcp.{Context, make_context}
use raner.Ttcp.Payloads.{copies, payload, session_message, length-copies, length-payload}
use raner.Ttcp.Transmit.{Serves}
use raner.Ttcp.Session.{System, start, Step, Reach, receives, transmits, here, next}
use raner.Ttcp.Session.Invariant.{Inv, outstanding}
use raner.Ttcp.Session.Receiving.{Continues, received}
use raner.Ttcp.Session.Reading.{make_context-count, reads}
use raner.Ttcp.Session.Sending.{transmitted}
use raner.Ttcp.Session.Writing.{writes}

module _ (o : ByteOrder) (number len : ℕ) (some_messages : 0 < number) (few : number < 2 ^ 31)
    (small : len + 4 < 2 ^ 31) where
  abbrev first : List ℕ
  first = session_message number len ++ payload len

  pub start-Inv :
      (c : Context)
      → Serves number len (payload len) c
      → c.count ≡ 1
      → c.bytes ≡ len
      → Inv number len (start c first)
  start-Inv c serves one bytes =
      let all : suc (number - c.count) ≡ number = omega (arith, one) in
      let acks : number - make_context.count ≡ suc number - c.count =
        omega (arith, one, make_context-count) in
      let once : len ≡ 1 * len = omega arith in
      record {
        serves = serves;
        started = omega (arith, one);
        within = omega (arith, one);
        counts = bytes ∙ once ∙ ap (λ m. m * len) (sym one);
        receiver = inl (record {
          unset = refl;
          few = omega arith;
          up = refl;
          flow =
              append_assoc (session_message number len) (payload len)
                (copies (payload len) (number - c.count))
              ∙ ap (λ m. session_message number len ++ copies (payload len) m) all;
        });
        sender = inl (record {
          up = refl;
          part = (0, omega arith, refl);
          flow = ap (copies (wire_32 len)) acks;
        });
      }

  pub start-outstanding :
      (c : Context) → c.count ≡ 1 → outstanding number len (start c first) ≡ 8 + number * (len + 8)
  start-outstanding c one =
      let rest : ℕ = number - c.count in
      let all : suc rest ≡ number = omega (arith, one) in
      let whole : number - make_context.count ≡ number = omega (arith, make_context-count) in
      let bytes : length (copies (payload len) rest) ≡ rest * (len + 4) =
        length-copies (payload len) rest ∙ ap (λ n. rest * n) (length-payload len) in
      let acks : length (copies (wire_32 len) (number - make_context.count)) ≡ number * 4 =
        length-copies (wire_32 len) (number - make_context.count) ∙ ap (λ m. m * 4) whole in
      let header : length first ≡ 8 + (len + 4) =
        omega
          (arith, length-append (session_message number len) (payload len), length-payload len) in
      omega (arith, header, bytes, acks, ap (λ n. n * (len + 4)) all)

  pub Step-Inv :
      {s t : System}
      → Step o s t
      → Inv number len s
      → Continues o number len some_messages small s t
  Step-Inv {s} {t} (receives chunk later b r some e v held run moved) i =
      let (r', run', on) =
        reads o number len some_messages few small s chunk later b i some e v held in
      let same : r' ≡ r = ok-injective r' r (sym run' ∙ run) in
      subst (Continues o number len some_messages small s)
        (ap (received o number len some_messages small s later) same ∙ sym moved) on
  Step-Inv {s} {t} (transmits chunk later b r some e v held run moved) i =
      let (r', run', on) =
        writes o number len some_messages small s chunk later b i some e v held in
      let same : r' ≡ r = ok-injective r' r (sym run' ∙ run) in
      subst (Continues o number len some_messages small s)
        (ap (transmitted o number len some_messages small s later) same ∙ sym moved) on

  pub Reach-Inv :
      {s t : System} {n : ℕ}
      → Reach o s n t
      → Inv number len s
      → Inv number len t × (n + outstanding number len t ≤ outstanding number len s)
  Reach-Inv here i = (i, omega arith)
  Reach-Inv (next before step) i =
      let (i₁, less₁) = Reach-Inv before i in
      let (i₂, less₂) = Step-Inv step i₁ in (i₂, omega (arith, less₁, less₂))
