-- ===== src/Ttcp/Connected.antt =====
-- What `trans::onConnection` prepares and sends.
use raner.Common.{ℕ, ◌+◌, ◌^◌, ◌<◌, ◌≡◌, refl, sym, ap, ap₂, ◌∙◌, ◌++◌, arith, ok, ◌>>=◌}
use raner.Endian.{ByteOrder, byte, ghtonl, to_memory}
use raner.Endian.Laws.{wire_32_lem}
use raner.Buffer
use raner.Buffer.{
  ByteBuffer, make_buffer, initial_size, to_string_view, ensure_writable_bytes, skip_write_bytes,
  copy_to,
}
use raner.Buffer.Writes.{first_write, write-Leaves, write_lem}
use raner.Buffer.Integers.RoundTrip.{int32, write_int_lem}
use raner.Ttcp.{Context, fill, pattern_from, trans_connected}
use raner.Ttcp.Payloads.{payload, session_message, length-pattern_from}
use raner.Ttcp.Transmit.{Serves, view_lem}

fill_lem : (len : ℕ) (b : ByteBuffer) → fill len b ≡ Buffer.write (pattern_from 0 len) b
unfolding fill
fill_lem len b =
    ap
      (λ n. ensure_writable_bytes n b >>= λ roomy.
        skip_write_bytes n
          (record roomy { buffer = copy_to roomy.buffer roomy.writer_index (pattern_from 0 len) }))
      (sym (length-pattern_from 0 len))
    ∙ sym (write_lem (pattern_from 0 len) b)

-- The session message and the first message go out, and the context counts the one.
pub trans_connected_lem :
    (o : ByteOrder) (number len : ℕ)
    → number < 2 ^ 31
    → len + 4 < 2 ^ 31
    → (c : Context) × (trans_connected o number len
        ≡ ok (c, session_message number len ++ payload len))
      × Serves number len (payload len) c
      × (c.count ≡ 1)
      × (c.bytes ≡ len)
unfolding trans_connected
trans_connected_lem o number len few small =
    let (b₁, e₁, v₁, c₁, at) = first_write (byte 3 len) (byte 2 len) (byte 1 len) (byte 0 len) in
    let (b₂, e₂, v₂, c₂) =
      write-Leaves (pattern_from 0 len) b₁ v₁ (omega (arith, at, length-pattern_from 0 len)) in
    let c : Context = record {
      count = 1;
      bytes = len;
      number = number;
      length = len;
      output = b₂;
    } in
    let s : Serves number len (payload len) c = record {
      same_number = refl;
      same_length = refl;
      output_valid = v₂;
      output_held = c₂ ∙ ap (λ l. l ++ pattern_from 0 len) c₁;
      small = omega (arith, length-pattern_from 0 len);
      few = few;
    } in
    let header : to_memory o 4 (ghtonl o number) ++ to_memory o 4 (ghtonl o len)
        ≡ session_message number len =
      ap₂ ◌++◌ (wire_32_lem o number (omega arith)).0 (wire_32_lem o len (omega arith)).0 in
    (
      c,
      rw
          (
            write_int_lem int32 o len (make_buffer initial_size) (omega arith),
            e₁,
            fill_lem len b₁,
            e₂,
            view_lem s,
          )
          (ap (λ l. ok (c, l ++ payload len)) header),
      s,
      refl,
      refl,
    )
