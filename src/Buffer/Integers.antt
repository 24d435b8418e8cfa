-- ===== src/Buffer/Integers.antt =====
-- The integer methods of ByteBuffer. An `intN_t` is its bit pattern, a number below 2 ^ N.
pub mod RoundTrip
pub mod Int32
use raner.Common.{
  ℕ, ◌%◌, ◌^◌, List, [], ◌∷◌, ◌++◌, leb, Outcome, ok, assertion, require, ◌>>=◌, ◌>>◌,
}
use raner.Endian.{
  ByteOrder, ghtons, ghtonl, ghtonll, gntohs, gntohl, gntohll, to_memory, from_memory,
}
use raner.Buffer.{ByteBuffer, write, readable_bytes, bytes_at_read, skip_read_bytes}

pub write_int64 : ByteOrder → ℕ → ByteBuffer → Outcome ByteBuffer
write_int64 o x b = write (to_memory o 8 (ghtonll o x)) b

pub write_int32 : ByteOrder → ℕ → ByteBuffer → Outcome ByteBuffer
write_int32 o x b = write (to_memory o 4 (ghtonl o x)) b

-- The argument is an `int32_t`, cut to its low 16 bits.
pub write_int16 : ByteOrder → ℕ → ByteBuffer → Outcome ByteBuffer
write_int16 o x b = write (to_memory o 2 (ghtons o (x % 2 ^ 16))) b

pub write_int8 : ByteOrder → ℕ → ByteBuffer → Outcome ByteBuffer
write_int8 o x b = write (to_memory o 1 x) b

pub peek_int8 : ByteOrder → ByteBuffer → Outcome ℕ
peek_int8 o b = do
  require (leb 1 (readable_bytes b)) assertion
  ok (from_memory o (bytes_at_read 1 b))

pub peek_int16 : ByteOrder → ByteBuffer → Outcome ℕ
peek_int16 o b = do
  require (leb 2 (readable_bytes b)) assertion
  ok (gntohs o (from_memory o (bytes_at_read 2 b)))

pub peek_int32 : ByteOrder → ByteBuffer → Outcome ℕ
peek_int32 o b = do
  require (leb 4 (readable_bytes b)) assertion
  ok (gntohl o (from_memory o (bytes_at_read 4 b)))

pub peek_int64 : ByteOrder → ByteBuffer → Outcome ℕ
peek_int64 o b = do
  require (leb 8 (readable_bytes b)) assertion
  ok (gntohll o (from_memory o (bytes_at_read 8 b)))

pub read_int8 : ByteOrder → ByteBuffer → Outcome (ℕ × ByteBuffer)
unfolding peek_int8
read_int8 o b = do x ← peek_int8 o b; rest ← skip_read_bytes 1 b; ok (x, rest)

pub read_int16 : ByteOrder → ByteBuffer → Outcome (ℕ × ByteBuffer)
unfolding peek_int16
read_int16 o b = do x ← peek_int16 o b; rest ← skip_read_bytes 2 b; ok (x, rest)

pub read_int32 : ByteOrder → ByteBuffer → Outcome (ℕ × ByteBuffer)
unfolding peek_int32
read_int32 o b = do x ← peek_int32 o b; rest ← skip_read_bytes 4 b; ok (x, rest)

pub read_int64 : ByteOrder → ByteBuffer → Outcome (ℕ × ByteBuffer)
unfolding peek_int64
read_int64 o b = do x ← peek_int64 o b; rest ← skip_read_bytes 8 b; ok (x, rest)
