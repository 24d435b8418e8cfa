-- ===== src/Buffer/Integers/Int32.antt =====
-- ReadInt32, PeekInt32 and WriteInt32 of raner/byte_buffer.h, by what the buffer holds.
use raner.Common.{
  ℕ, ◌+◌, ◌^◌, ◌≤◌, ◌<◌, ◌≡◌, refl, sym, ap, ◌∙◌, subst, List, ◌++◌, drop, length, arith, le→leb,
  ok, ◌>>=◌,
}
use raner.Endian.{ByteOrder}
use raner.Endian.Laws.{wire_32, wire_32_lem}
use raner.Buffer.{ByteBuffer, max_size}
use raner.Buffer.Contents.{contents}
use raner.Buffer.Valid.{IsValid, Leaves}
use raner.Buffer.Writes.{write-Leaves}
use raner.Buffer.Reads.{skip_read_bytes-Leaves}
use raner.Buffer.Integers.{write_int32, read_int32, peek_int32}
use raner.Buffer.Integers.RoundTrip.{int32, read_int_lem, write_int_lem, at_read}

module _ (o : ByteOrder) (x : ℕ) (small : x < 2 ^ 32) where
  pub read_int32_lem :
      (rest : List ℕ) (b : ByteBuffer)
      → IsValid b
      → contents b ≡ wire_32 x ++ rest
      → (b' : ByteBuffer) × (read_int32 o b ≡ ok (x, b')) × IsValid b' × (contents b' ≡ rest)
  read_int32_lem rest b v e =
      let (b', run, v', c) = skip_read_bytes-Leaves 4 b v (omega (arith, ap length e)) in
      (
        b',
        read_int_lem int32 o x rest b v small e ∙ ap (λ m. m >>= λ q. ok (x, q)) run,
        v',
        c ∙ ap (drop 4) e,
      )

  pub peek_int32_lem :
      (rest : List ℕ) (b : ByteBuffer)
      → IsValid b
      → contents b ≡ wire_32 x ++ rest
      → peek_int32 o b ≡ ok x
  unfolding peek_int32
  peek_int32_lem rest b v e =
      let (enough, front) = at_read 4 (wire_32 x) rest b v refl e in
      rw (le→leb _ _ enough, front, (wire_32_lem o x small).1) refl

  pub write_int32-Leaves :
      (b : ByteBuffer)
      → IsValid b
      → b.writer_index + 4 ≤ max_size
      → Leaves (contents b ++ wire_32 x) (write_int32 o x b)
  write_int32-Leaves b v fits =
      subst (Leaves (contents b ++ wire_32 x)) (sym (write_int_lem int32 o x b small))
        (write-Leaves (wire_32 x) b v fits)
