-- ===== src/Codec.antt =====
-- examples/chat/codec.h: the class LengthHeaderCodec. A message stands behind its length, which has
-- four bytes, high byte first. The calls of the message callback are recorded, and so is `Shutdown`.
pub mod Frames
pub mod Stream
mod Tests
use raner.Common.{
  ℕ, zero, suc, ◌+◌, ◌%◌, ◌^◌, Bool, true, false, List, [], ◌∷◌, length, ltb, leb, if◌then◌else◌,
  Outcome, ok, fault, assertion, ◌>>=◌,
}
use raner.Endian.{ByteOrder, ghtonl, gntohl, to_memory, from_memory}
use raner.Buffer
use raner.Buffer.{
  ByteBuffer, make_buffer, initial_size, readable_bytes, bytes_at_read, skip_read_bytes,
}

abbrev pub header_len : ℕ
header_len = 4

-- The messages handed to the callback in order, the buffer left, and whether an invalid length shut
-- the connection down.
pub record Handled : Type 0 where
  pub messages : List (List ℕ)
  pub buffer : ByteBuffer
  pub refused : Bool

abbrev pub before : List ℕ → Handled → Handled
before message h = record h { messages = message ∷ h.messages }

abbrev pub read_len : ByteOrder → ByteBuffer → ℕ
read_len o b = gntohl o (from_memory o (bytes_at_read header_len b))

-- A whole message is taken off the buffer and handed on.
pub take_message : ℕ → ByteBuffer → Outcome (List ℕ × ByteBuffer)
take_message len b = skip_read_bytes header_len b >>= λ b₁.
    skip_read_bytes len b₁ >>= λ b₂. ok (bytes_at_read len b₁, b₂)

-- Out of fuel it fails.
pub on_message : ℕ → ByteOrder → ByteBuffer → Outcome Handled
unfolding take_message
on_message zero o b = fault assertion
on_message (suc fuel) o b =
    let rest = on_message fuel o in
    let len = read_len o b in
    let stop : Handled = record { messages = []; buffer = b; refused = false } in
    if leb header_len (readable_bytes b)
    then (if ltb 65536 len
        then ok (record stop { refused = true })
        else (if leb (len + header_len) (readable_bytes b)
            then (take_message len b >>= λ r. rest r.1 >>= λ h. ok (before r.0 h))
            else ok stop))
    else ok stop

-- The buffer that is handed to `conn->Send`.
pub send : ByteOrder → List ℕ → Outcome ByteBuffer
send o message =
    Buffer.write (to_memory o 4 (ghtonl o (length message % 2 ^ 32))) (make_buffer initial_size)
    >>= Buffer.write message
