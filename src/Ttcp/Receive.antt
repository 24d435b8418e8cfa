-- ===== src/Ttcp/Receive.antt =====
-- `receiving::onMessage` takes the session message, acknowledges each message of the session, and
-- shuts the connection down after the last.
use raner.Common.{
  ℕ, suc, ◌+◌, ◌-◌, ◌%◌, ◌^◌, ◌≤◌, ◌<◌, ◌≡◌, refl, sym, ap, ◌∙◌, true, false, Bool-cases, inl, inr,
  List, ◌++◌, append_assoc, length, take, drop, length-take, take-append_add, length-append,
  drop-append_self, arith, leb, le→leb, lt→leb, ◌==◌, ◌&&◌, ==_refl, if◌then◌else◌, ok, ◌>>=◌,
}
use raner.Endian.{ByteOrder}
use raner.Endian.Laws.{wire_32}
use raner.Buffer.{ByteBuffer, readable_bytes, skip_read_bytes}
use raner.Buffer.Contents.{contents}
use raner.Buffer.Valid.{IsValid, readable-eq-length}
use raner.Buffer.Reads.{skip_read_bytes-Leaves}
use raner.Buffer.Integers.{peek_int32}
use raner.Buffer.Integers.Int32.{peek_int32_lem}
use raner.Ttcp.{
  Context, idle, shut_down, after_send, counted, signed_leb, receive_message, pattern_from,
}
use raner.Ttcp.Payloads.{payload, length-payload}
use raner.Ttcp.Transmit.{Serves, view_lem}

pub signed_leb_lem : (m n : ℕ) → m < 2 ^ 31 → n ≡ m → signed_leb m n ≡ true
signed_leb_lem m n h k = ground (arith, h, k)

pub not_signed_leb : (m n : ℕ) → m < 2 ^ 31 → n < m → signed_leb m n ≡ false
not_signed_leb m n h k = ground (arith, h, k)

not_unset : (number len : ℕ) → 0 < number → (number == 0 && len == 0) ≡ false
not_unset number len h = ground arith

module _ (o : ByteOrder) (number len : ℕ) (some_messages : 0 < number)
    (small : len + 4 < 2 ^ 31) where
  abbrev ack : List ℕ
  ack = wire_32 len

  -- A round of the loop with a whole message.
  pub takes :
      (fuel : ℕ) (c : Context) (b b' : ByteBuffer)
      → Serves number len ack c
      → len + 4 ≤ readable_bytes b
      → peek_int32 o b ≡ ok len
      → skip_read_bytes (len + 4) b ≡ ok b'
      → receive_message (suc fuel) o c b ≡ (
          if signed_leb number (c.count + 1)
          then ok (after_send ack (shut_down (counted len c) b'))
          else (receive_message fuel o (counted len c) b' >>= λ q. ok (after_send ack q)))
  unfolding receive_message
  takes fuel c b b' s whole peek skip =
      rw
        (
          le→leb 4 (readable_bytes b) (omega arith),
          s.same_number,
          s.same_length,
          not_unset number len some_messages,
          peek,
          ==_refl len,
          unwrapped,
          le→leb (len + 4) (readable_bytes b) whole,
          skip,
          view_lem s,
        )
        refl
    where
      unwrapped : (len + 4) % 2 ^ 32 ≡ len + 4
      unwrapped = omega arith

  -- Less than a message is left alone.
  pub waits :
      (fuel m : ℕ) (c : Context) (b : ByteBuffer)
      → Serves number len ack c
      → IsValid b
      → m < length (payload len)
      → contents b ≡ take m (payload len)
      → receive_message (suc fuel) o c b ≡ ok (idle c b)
  unfolding receive_message
  waits fuel m c b s v short e =
      let size : readable_bytes b ≡ m =
        omega (arith, readable-eq-length v, ap length e, length-take m (payload len)) in
      elim (Bool-cases (leb 4 (readable_bytes b))) [
        | inr few ↦ rw few refl
        | inl four ↦
            let head : contents b ≡ ack ++ take (m - 4) (pattern_from 0 len) =
              e
              ∙ ap (λ j. take j (payload len)) (ground (arith, four, size))
              ∙ take-append_add (m - 4) ack (pattern_from 0 len) in
            rw
              (
                four,
                s.same_number,
                s.same_length,
                not_unset number len some_messages,
                peek_int32_lem o len (omega arith) (take (m - 4) (pattern_from 0 len)) b v head,
                ==_refl len,
                unwrapped,
                lt→leb (len + 4) (readable_bytes b) (omega (arith, size, length-payload len)),
              )
              refl
      ]
    where
      unwrapped : (len + 4) % 2 ^ 32 ≡ len + 4
      unwrapped = omega arith

  -- A message is taken off the buffer.
  pub taken :
      (tail : List ℕ) (b : ByteBuffer)
      → IsValid b
      → contents b ≡ payload len ++ tail
      → (len + 4 ≤ readable_bytes b)
        × (peek_int32 o b ≡ ok len)
        × ((b' : ByteBuffer) × (skip_read_bytes (len + 4) b ≡ ok b')
            × IsValid b'
            × (contents b' ≡ tail))
  taken tail b v e =
      let size : readable_bytes b ≡ len + 4 + length tail = omega (
        arith,
        readable-eq-length v,
        ap length e,
        length-append (payload len) tail,
        length-payload len,
      ) in
      let (b', run, v', c) =
        skip_read_bytes-Leaves (len + 4) b v (omega (arith, size, readable-eq-length v)) in
      (
        omega (arith, size),
        peek_int32_lem o len (omega arith) (pattern_from 0 len ++ tail) b v
            (e ∙ append_assoc ack (pattern_from 0 len) tail),
        (
          b',
          run,
          v',
          c
              ∙ ap (drop (len + 4)) e
              ∙ ap (λ n. drop n (payload len ++ tail)) (sym (length-payload len))
              ∙ drop-append_self (payload len) tail,
        ),
      )
