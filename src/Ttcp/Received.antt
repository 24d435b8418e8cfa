-- ===== src/Ttcp/Received.antt =====
-- What `receiving::onMessage` makes of the messages that stand in the buffer.
use raner.Common.{
  ℕ, zero, suc, ◌+◌, ◌^◌, ◌≤◌, ◌<◌, ◌≡◌, refl, ap, ◌∙◌, true, false, List, [], ◌++◌, append_assoc,
  length, arith, leb, le→leb, lt→leb, Bool-cases, inl, inr, if◌then◌else◌, ok, ◌>>=◌,
}
use raner.Endian.{ByteOrder, byte}
use raner.Endian.Laws.{wire_32}
use raner.Buffer.{ByteBuffer, readable_bytes, make_buffer, initial_size}
use raner.Buffer.Contents.{contents}
use raner.Buffer.Valid.{IsValid, readable-eq-length}
use raner.Buffer.Writes.{first_write}
use raner.Buffer.Integers.RoundTrip.{int32, write_int_lem}
use raner.Buffer.Integers.Int32.{read_int32_lem}
use raner.Ttcp.{
  Context, make_context, idle, shut_down, after_send, counted, read_session, receive_message,
}
use raner.Ttcp.Payloads.{copies, payload, session_message, IsPart}
use raner.Ttcp.Transmit.{Serves, counted-Serves, advanced}
use raner.Ttcp.Receive.{signed_leb_lem, not_signed_leb, waits, takes, taken}

module _ (o : ByteOrder) (number len : ℕ) (some_messages : 0 < number)
    (small : len + 4 < 2 ^ 31) where
  abbrev ack : List ℕ
  ack = wire_32 len

  pub receive_message_lem :
      (k fuel : ℕ) (rest : List ℕ) (c : Context) (b : ByteBuffer)
      → Serves number len ack c
      → IsValid b
      → IsPart (payload len) rest
      → contents b ≡ copies (payload len) k ++ rest
      → c.count + k < number
      → k < fuel
      → (b' : ByteBuffer) × (receive_message fuel o c b
          ≡ ok (record {
            context = advanced len k c;
            buffer = b';
            sent = copies ack k;
            shut = false;
          }))
        × IsValid b'
        × (contents b' ≡ rest)
  receive_message_lem k zero rest c b s v part e left enough = absurd (omega arith)
  receive_message_lem zero (suc fuel) rest c b s v (m, short, cut) e left enough =
      (b, waits o number len some_messages small fuel m c b s v short (e ∙ cut), v, e)
  receive_message_lem (suc k) (suc fuel) rest c b s v part e left enough =
      let (whole, peek, (b₁, skip, v₁, c₁)) =
        taken o number len some_messages small (copies (payload len) k ++ rest) b v
          (e ∙ append_assoc (payload len) (copies (payload len) k) rest) in
      let (b₂, run, v₂, c₂) =
        receive_message_lem k fuel rest (counted len c) b₁ (counted-Serves len s) v₁ part c₁
          (omega (arith, left)) (omega (arith, enough)) in
      (
        b₂,
        takes o number len some_messages small fuel c b b₁ s whole peek skip
            ∙ ap
                (λ d.
                  if d
                  then ok (after_send ack (shut_down (counted len c) b₁))
                  else (receive_message fuel o (counted len c) b₁ >>= λ q. ok (after_send ack q)))
                (not_signed_leb number (c.count + 1) s.few (omega (arith, left)))
            ∙ ap (λ m. m >>= λ q. ok (after_send ack q)) run,
        v₂,
        c₂,
      )

  -- The last message of the session.
  pub receive_message_last :
      (k fuel : ℕ) (c : Context) (b : ByteBuffer)
      → Serves number len ack c
      → IsValid b
      → contents b ≡ copies (payload len) (suc k)
      → c.count + suc k ≡ number
      → k < fuel
      → (b' : ByteBuffer) × (receive_message fuel o c b
          ≡ ok (record {
            context = advanced len (suc k) c;
            buffer = b';
            sent = copies ack (suc k);
            shut = true;
          }))
        × IsValid b'
        × (contents b' ≡ [])
  receive_message_last k zero c b s v e left enough = absurd (omega arith)
  receive_message_last zero (suc fuel) c b s v e left enough =
      let (whole, peek, (b₁, skip, v₁, c₁)) = taken o number len some_messages small [] b v e in
      (
        b₁,
        takes o number len some_messages small fuel c b b₁ s whole peek skip
            ∙ ap
                (λ d.
                  if d
                  then ok (after_send ack (shut_down (counted len c) b₁))
                  else (receive_message fuel o (counted len c) b₁ >>= λ q. ok (after_send ack q)))
                (signed_leb_lem number (c.count + 1) s.few (omega (arith, left))),
        v₁,
        c₁,
      )
  receive_message_last (suc k) (suc fuel) c b s v e left enough =
      let (whole, peek, (b₁, skip, v₁, c₁)) =
        taken o number len some_messages small (copies (payload len) (suc k)) b v e in
      let (b₂, run, v₂, c₂) =
        receive_message_last k fuel (counted len c) b₁ (counted-Serves len s) v₁ c₁
          (omega (arith, left)) (omega (arith, enough)) in
      (
        b₂,
        takes o number len some_messages small fuel c b b₁ s whole peek skip
            ∙ ap
                (λ d.
                  if d
                  then ok (after_send ack (shut_down (counted len c) b₁))
                  else (receive_message fuel o (counted len c) b₁ >>= λ q. ok (after_send ack q)))
                (not_signed_leb number (c.count + 1) s.few (omega (arith, left)))
            ∙ ap (λ m. m >>= λ q. ok (after_send ack q)) run,
        v₂,
        c₂,
      )

  -- Less than the session message.
  pub receive_nothing :
      (fuel : ℕ) (b : ByteBuffer)
      → IsValid b
      → length (contents b) < 8
      → receive_message (suc fuel) o make_context b ≡ ok (idle make_context b)
  unfolding receive_message make_context
  receive_nothing fuel b v short = elim (Bool-cases (leb 4 (readable_bytes b))) [
    | inr few ↦ rw few refl
    | inl four ↦ rw (four, lt→leb 8 (readable_bytes b) (omega (arith, readable-eq-length v))) refl
  ]

  -- The session message is there.
  pub receive_session :
      (fuel : ℕ) (tail : List ℕ) (b : ByteBuffer)
      → number < 2 ^ 31
      → IsValid b
      → contents b ≡ session_message number len ++ tail
      → (c : Context) × (b' : ByteBuffer) × (receive_message (suc fuel) o make_context b
          ≡ receive_message fuel o c b')
        × Serves number len ack c
        × (c.count ≡ 0)
        × (c.bytes ≡ 0)
        × IsValid b'
        × (contents b' ≡ tail)
  unfolding receive_message make_context read_session
  receive_session fuel tail b few v e =
      let head : contents b ≡ wire_32 number ++ (wire_32 len ++ tail) =
        e ∙ append_assoc (wire_32 number) (wire_32 len) tail in
      let (b₁, read₁, v₁, c₁) =
        read_int32_lem o number (omega arith) (wire_32 len ++ tail) b v head in
      let (b₂, read₂, v₂, c₂) = read_int32_lem o len (omega arith) tail b₁ v₁ c₁ in
      let (out, wrote, vo, co, at) =
        first_write (byte 3 len) (byte 2 len) (byte 1 len) (byte 0 len) in
      let size : 8 ≤ readable_bytes b = omega (arith, readable-eq-length v, ap length head) in
      (
        record { count = 0; bytes = 0; number = number; length = len; output = out },
        b₂,
        rw
            (
              le→leb 4 (readable_bytes b) (omega arith),
              le→leb 8 (readable_bytes b) size,
              read₁,
              read₂,
              write_int_lem int32 o len (make_buffer initial_size) (omega arith),
              wrote,
            )
            refl,
        record {
          same_number = refl;
          same_length = refl;
          output_valid = vo;
          output_held = co;
          small = omega arith;
          few = few;
        },
        refl,
        refl,
        v₂,
        c₂,
      )
