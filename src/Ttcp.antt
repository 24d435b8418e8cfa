-- ===== src/Ttcp.antt =====
-- examples/ttcp/ttcp.cc: the two sides of the throughput test. The flags are numbers in the range of
-- a non-negative int32_t. What a handler gives to `Send` is collected in `sent`; `shut` says whether
-- it called `Shutdown`. `htonl` is the conversion to network order that raner/endian.h defines too.
pub mod Payloads
pub mod Transmit
pub mod Receive
pub mod Received
pub mod Connected
pub mod Session
mod Tests
use raner.Common.{
  ℕ, zero, suc, ◌+◌, ◌%◌, ◌^◌, ◌==◌, ◌&&◌, Bool, true, false, List, [], ◌∷◌, ◌++◌, length, ltb, leb,
  if◌then◌else◌, Outcome, ok, fault, assertion, ◌>>=◌,
}
use raner.Endian.{ByteOrder, ghtonl, to_memory}
use raner.Buffer.{
  ByteBuffer, make_buffer, initial_size, readable_bytes, copy_to, skip_read_bytes, skip_write_bytes,
  ensure_writable_bytes, to_string_view,
}
use raner.Buffer.Integers.{write_int32, read_int32, peek_int32}

-- With the `session` that it holds.
pub record Context : Type 0 where
  pub count : ℕ
  pub bytes : ℕ
  pub number : ℕ
  pub length : ℕ
  pub output : ByteBuffer

unfoldable pub make_context : Context
make_context = record {
  count = 0;
  bytes = 0;
  number = 0;
  length = 0;
  output = make_buffer initial_size;
}

-- What a handler did.
pub record Reaction : Type 0 where
  pub context : Context
  pub buffer : ByteBuffer
  pub sent : List ℕ
  pub shut : Bool

abbrev pub idle : Context → ByteBuffer → Reaction
idle c b = record { context = c; buffer = b; sent = []; shut = false }

abbrev pub shut_down : Context → ByteBuffer → Reaction
shut_down c b = record { context = c; buffer = b; sent = []; shut = true }

abbrev pub after_send : List ℕ → Reaction → Reaction
after_send message r = record r { sent = message ++ r.sent }

-- "0123456789ABCDEF"[i % 16]
abbrev pub digit : ℕ → ℕ
digit i = if ltb (i % 16) 10 then 48 + i % 16 else 55 + i % 16

-- The characters from place `i` on.
pub pattern_from : ℕ → ℕ → List ℕ
pattern_from i zero = []
pattern_from i (suc n) = digit i ∷ pattern_from (i + 1) n

pub fill : ℕ → ByteBuffer → Outcome ByteBuffer
fill len b = do
  roomy ← ensure_writable_bytes len b
  skip_write_bytes len
      (record roomy { buffer = copy_to roomy.buffer roomy.writer_index (pattern_from 0 len) })

-- `trans::onConnection` of a connection that is up: the context, and what is sent.
pub trans_connected : ByteOrder → ℕ → ℕ → Outcome (Context × List ℕ)
unfolding fill
trans_connected o number len = do
  headed ← write_int32 o len (make_buffer initial_size)
  output ← fill len headed
  view ← to_string_view output
  ok (
    record { count = 1; bytes = len; number = number; length = len; output = output },
    (to_memory o 4 (ghtonl o number) ++ to_memory o 4 (ghtonl o len)) ++ view,
  )

-- One more message was sent or received.
abbrev pub counted : ℕ → Context → Context
counted len c = record c { count = c.count + 1; bytes = c.bytes + len }

-- `trans::onMessage`. Out of fuel it fails.
pub trans_message : ℕ → ByteOrder → Context → ByteBuffer → Outcome Reaction
trans_message zero o c b = fault assertion
trans_message (suc fuel) o c b =
    let rest = trans_message fuel o in
    if leb 4 (readable_bytes b)
    then (read_int32 o b >>= λ r.
        if r.0 == c.length
        then (if ltb c.count c.number
            then (to_string_view c.output >>= λ view.
                rest (counted r.0 c) r.1 >>= λ q. ok (after_send view q))
            else ok (shut_down c r.1))
        else ok (shut_down c r.1))
    else ok (idle c b)

-- The session message is read, and the answer made.
pub read_session : ByteOrder → Context → ByteBuffer → Outcome (Context × ByteBuffer)
read_session o c b = do
  (number, b₁) ← read_int32 o b
  (len, b₂) ← read_int32 o b₁
  output ← write_int32 o len c.output
  ok (record c { number = number; length = len; output = output }, b₂)

abbrev pub total_len : Context → ℕ
total_len c = (c.length + 4) % 2 ^ 32

-- `m <= n` of two int32_t, which are negative from 2 ^ 31 on.
abbrev pub signed_leb : ℕ → ℕ → Bool
signed_leb m n = leb ((m + 2 ^ 31) % 2 ^ 32) ((n + 2 ^ 31) % 2 ^ 32)

-- `receiving::onMessage`. Out of fuel it fails.
pub receive_message : ℕ → ByteOrder → Context → ByteBuffer → Outcome Reaction
unfolding read_session
receive_message zero o c b = fault assertion
receive_message (suc fuel) o c b =
    let rest = receive_message fuel o in
    if leb 4 (readable_bytes b)
    then (if c.number == 0 && c.length == 0
        then (if leb 8 (readable_bytes b)
            then (read_session o c b >>= λ r. rest r.0 r.1)
            else ok (idle c b))
        else (peek_int32 o b >>= λ len.
            if len == c.length
            then (if leb (total_len c) (readable_bytes b)
                then (skip_read_bytes (total_len c) b >>= λ b'. to_string_view c.output >>= λ view.
                    let c' = counted len c in
                    if signed_leb c'.number c'.count
                    then ok (after_send view (shut_down c' b'))
                    else (rest c' b' >>= λ q. ok (after_send view q)))
                else ok (idle c b))
            else ok (shut_down c b)))
    else ok (idle c b)

-- A round of the loop takes at least a byte off the buffer.
abbrev pub trans_all : ByteOrder → Context → ByteBuffer → Outcome Reaction
trans_all o c b = trans_message (readable_bytes b + 1) o c b

abbrev pub receive_all : ByteOrder → Context → ByteBuffer → Outcome Reaction
receive_all o c b = receive_message (readable_bytes b + 1) o c b
