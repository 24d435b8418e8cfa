-- ===== src/Ttcp/Transmit.antt =====
-- `trans::onMessage` answers each acknowledgement by the next message, until all are sent.
use raner.Common.{
  ℕ, zero, suc, ◌+◌, ◌*◌, ◌^◌, ◌≤◌, ◌<◌, ◌≡◌, refl, sym, ap, ◌∙◌, subst, true, false, List, [],
  ◌++◌, append_assoc, length, length-take, arith, le→leb, lt→leb, lt→ltb, le→ltb, ==_refl, ok,
  ◌>>=◌,
}
use raner.Endian.{ByteOrder}
use raner.Endian.Laws.{wire_32}
use raner.Buffer.{ByteBuffer, readable_bytes, to_string_view}
use raner.Buffer.Contents.{contents}
use raner.Buffer.Valid.{IsValid, readable-eq-length}
use raner.Buffer.Reads.{to_string_view_lem}
use raner.Buffer.Integers.{read_int32}
use raner.Buffer.Integers.Int32.{read_int32_lem}
use raner.Ttcp.{Context, shut_down, after_send, counted, trans_message}
use raner.Ttcp.Payloads.{copies, payload, IsPart}

-- The context of a session of `number` messages of `len` bytes, whose output is `held`.
pub record Serves (number len : ℕ) (held : List ℕ) (c : Context) : Type 0 where
  pub same_number : c.number ≡ number
  pub same_length : c.length ≡ len
  pub output_valid : IsValid c.output
  pub output_held : contents c.output ≡ held
  pub small : length held < 2 ^ 31
  pub few : number < 2 ^ 31

pub view_lem :
    {number len : ℕ} {held : List ℕ} {c : Context}
    → Serves number len held c
    → to_string_view c.output ≡ ok held
view_lem {c = c} s =
    to_string_view_lem c.output s.output_valid
      (subst (λ l. length l < 2 ^ 31) (sym s.output_held) s.small)
    ∙ ap ok s.output_held

pub counted-Serves :
    {number len : ℕ} {held : List ℕ} {c : Context} (n : ℕ)
    → Serves number len held c
    → Serves number len held (counted n c)
counted-Serves n s = record {
  same_number = s.same_number;
  same_length = s.same_length;
  output_valid = s.output_valid;
  output_held = s.output_held;
  small = s.small;
  few = s.few;
}

-- `k` messages more are counted.
abbrev pub advanced : ℕ → ℕ → Context → Context
advanced len zero c = c
advanced len (suc k) c = advanced len k (counted len c)

-- What the context of `k` messages more is.
pub advanced_lem :
    {number : ℕ} {held : List ℕ} (len k : ℕ) (c : Context)
    → Serves number len held c
    → Serves number len held (advanced len k c)
      × ((advanced len k c).count ≡ c.count + k)
      × ((advanced len k c).bytes ≡ c.bytes + k * len)
advanced_lem len zero c s = (s, omega arith, omega arith)
advanced_lem len (suc k) c s =
    let (s', n, b) = advanced_lem len k (counted len c) (counted-Serves len s) in
    (s', omega (arith, n), omega (arith, b))

module _ (o : ByteOrder) (number len : ℕ) (small : len < 2 ^ 32) where
  abbrev ack : List ℕ
  ack = wire_32 len

  -- A round of the loop with a whole acknowledgement.
  answers :
      (fuel : ℕ) (c : Context) (b b' : ByteBuffer)
      → Serves number len (payload len) c
      → 4 ≤ readable_bytes b
      → read_int32 o b ≡ ok (len, b')
      → c.count < number
      → trans_message (suc fuel) o c b
        ≡ (trans_message fuel o (counted len c) b' >>= λ q. ok (after_send (payload len) q))
  unfolding trans_message
  answers fuel c b b' s four read more =
      rw
        (
          le→leb 4 (readable_bytes b) four,
          read,
          s.same_length,
          ==_refl len,
          s.same_number,
          lt→ltb c.count number more,
          view_lem s,
        )
        refl

  last_answer :
      (fuel : ℕ) (c : Context) (b b' : ByteBuffer)
      → Serves number len (payload len) c
      → 4 ≤ readable_bytes b
      → read_int32 o b ≡ ok (len, b')
      → number ≤ c.count
      → trans_message (suc fuel) o c b ≡ ok (shut_down c b')
  unfolding trans_message
  last_answer fuel c b b' s four read enough =
      rw
        (
          le→leb 4 (readable_bytes b) four,
          read,
          s.same_length,
          ==_refl len,
          s.same_number,
          le→ltb c.count number enough,
        )
        refl

  -- What is done with `k` acknowledgements and a part of the next: there are messages left for them.
  pub trans_message_lem :
      (k fuel : ℕ) (rest : List ℕ) (c : Context) (b : ByteBuffer)
      → Serves number len (payload len) c
      → IsValid b
      → IsPart ack rest
      → contents b ≡ copies ack k ++ rest
      → c.count + k ≤ number
      → k < fuel
      → (b' : ByteBuffer) × (trans_message fuel o c b
          ≡ ok (record {
            context = advanced len k c;
            buffer = b';
            sent = copies (payload len) k;
            shut = false;
          }))
        × IsValid b'
        × (contents b' ≡ rest)
  unfolding trans_message
  trans_message_lem k zero rest c b s v part e left enough = absurd (omega arith)
  trans_message_lem zero (suc fuel) rest c b s v (m, short, cut) e left enough =
      let few : readable_bytes b < 4 =
        omega (arith, readable-eq-length v, ap length e, ap length cut, length-take m ack) in
      (b, rw (lt→leb 4 (readable_bytes b) few) refl, v, e)
  trans_message_lem (suc k) (suc fuel) rest c b s v part e left enough =
      let head : contents b ≡ ack ++ (copies ack k ++ rest) =
        e ∙ append_assoc ack (copies ack k) rest in
      let (b₁, read, v₁, c₁) = read_int32_lem o len small (copies ack k ++ rest) b v head in
      let (b₂, run, v₂, c₂) =
        trans_message_lem k fuel rest (counted len c) b₁ (counted-Serves len s) v₁ part c₁
          (omega (arith, left)) (omega (arith, enough)) in
      (
        b₂,
        answers fuel c b b₁ s (omega (arith, readable-eq-length v, ap length head)) read
              (omega (arith, left))
            ∙ ap (λ m. m >>= λ q. ok (after_send (payload len) q)) run,
        v₂,
        c₂,
      )

  -- The last acknowledgement shuts the connection down.
  pub trans_message_last :
      (k fuel : ℕ) (c : Context) (b : ByteBuffer)
      → Serves number len (payload len) c
      → IsValid b
      → contents b ≡ copies ack (k + 1)
      → c.count + k ≡ number
      → k < fuel
      → (b' : ByteBuffer) × (trans_message fuel o c b
          ≡ ok (record {
            context = advanced len k c;
            buffer = b';
            sent = copies (payload len) k;
            shut = true;
          }))
        × IsValid b'
        × (contents b' ≡ [])
  trans_message_last k zero c b s v e left enough = absurd (omega arith)
  trans_message_last zero (suc fuel) c b s v e left enough =
      let (b₁, read, v₁, c₁) = read_int32_lem o len small [] b v e in
      (
        b₁,
        last_answer fuel c b b₁ s (omega (arith, readable-eq-length v, ap length e)) read
            (omega (arith, left)),
        v₁,
        c₁,
      )
  trans_message_last (suc k) (suc fuel) c b s v e left enough =
      let one : suc k + 1 ≡ suc (k + 1) = omega arith in
      let head : contents b ≡ ack ++ copies ack (k + 1) = e ∙ ap (copies ack) one in
      let (b₁, read, v₁, c₁) = read_int32_lem o len small (copies ack (k + 1)) b v head in
      let (b₂, run, v₂, c₂) =
        trans_message_last k fuel (counted len c) b₁ (counted-Serves len s) v₁ c₁
          (omega (arith, left)) (omega (arith, enough)) in
      (
        b₂,
        answers fuel c b b₁ s (omega (arith, readable-eq-length v, ap length head)) read
              (omega (arith, left))
            ∙ ap (λ m. m >>= λ q. ok (after_send (payload len) q)) run,
        v₂,
        c₂,
      )
