-- ===== src/Buffer.antt =====
-- raner/byte_buffer.h and raner/byte_buffer.cc: the class ByteBuffer.
-- A byte is a number; `size_t` sums and differences wrap at 2 ^ 64; a failed `assert` and the
-- `std::length_error` of `std::vector::resize` are faults. A method that changes the buffer
-- returns the new one.
pub mod Valid
pub mod Contents
pub mod Writes
pub mod Reads
pub mod Integers
mod Tests
use raner.Common.{
  ℕ, ◌+◌, ◌-◌, ◌%◌, ◌^◌, Option, none, some, List, [], ◌∷◌, ◌++◌, length, take, drop, replicate,
  ltb, leb, ◌==◌, ◌&&◌, if◌then◌else◌, Outcome, ok, fault, assertion, length_error, bad_pointer,
  require, ◌>>=◌, ◌>>◌,
}

pub record ByteBuffer : Type 0 where
  pub buffer : List ℕ
  pub reader_index : ℕ
  pub writer_index : ℕ

abbrev pub initial_size : ℕ
initial_size = 1024

-- `std::vector<char>::max_size()` where `size_t` has 64 bits.
abbrev pub max_size : ℕ
max_size = 2 ^ 63 - 1

abbrev pub add_size : ℕ → ℕ → ℕ
add_size a b = (a + b) % 2 ^ 64

abbrev pub sub_size : ℕ → ℕ → ℕ
sub_size a b = (a + 2 ^ 64 - b) % 2 ^ 64

-- `static_cast<int>`, converted back to `size_t` by the constructor of `std::string_view`.
abbrev pub int_size : ℕ → ℕ
int_size n = if ltb (n % 2 ^ 32) (2 ^ 31) then n % 2 ^ 32 else n % 2 ^ 32 + (2 ^ 64 - 2 ^ 32)

-- `std::copy` of `bytes` to the place `i` of the vector.
abbrev pub copy_to : List ℕ → ℕ → List ℕ → List ℕ
copy_to v i bytes = take i v ++ (bytes ++ drop (i + length bytes) v)

pub make_buffer : ℕ → ByteBuffer
make_buffer n = record { buffer = replicate n 0; reader_index = 0; writer_index = 0 }

pub swap : ByteBuffer → ByteBuffer → ByteBuffer × ByteBuffer
swap b rhs = (rhs, b)

abbrev pub discardable_bytes : ByteBuffer → ℕ
discardable_bytes b = b.reader_index

abbrev pub readable_bytes : ByteBuffer → ℕ
readable_bytes b = sub_size b.writer_index b.reader_index

abbrev pub writable_bytes : ByteBuffer → ℕ
writable_bytes b = sub_size (length b.buffer) b.writer_index

-- `len` bytes from `BeginRead()` on.
abbrev pub bytes_at_read : ℕ → ByteBuffer → List ℕ
bytes_at_read len b = take len (drop b.reader_index b.buffer)

pub skip_all : ByteBuffer → ByteBuffer
skip_all b = record b { reader_index = 0; writer_index = 0 }

unfoldable pub skip_read_bytes : ℕ → ByteBuffer → Outcome ByteBuffer
unfolding skip_all
skip_read_bytes len b = do
  require (leb len (readable_bytes b)) assertion
  ok (
      if ltb len (readable_bytes b)
      then record b { reader_index = add_size b.reader_index len }
      else skip_all b)

-- `ToString(len)` has the same body.
pub skip_as_string : ℕ → ByteBuffer → Outcome (List ℕ × ByteBuffer)
skip_as_string len b = do
  require (leb len (readable_bytes b)) assertion
  rest ← skip_read_bytes len b
  ok (bytes_at_read len b, rest)

pub skip_all_as_string : ByteBuffer → Outcome (List ℕ × ByteBuffer)
skip_all_as_string b = skip_as_string (readable_bytes b) b

pub skip_write_bytes : ℕ → ByteBuffer → Outcome ByteBuffer
skip_write_bytes len b = do
  require (leb len (writable_bytes b)) assertion
  ok (record b { writer_index = add_size b.writer_index len })

-- `buffer_.resize(n)`.
pub resize : ℕ → ByteBuffer → Outcome ByteBuffer
resize n b = do
  require (leb n max_size) length_error
  ok (record b { buffer = take n b.buffer ++ replicate (n - length b.buffer) 0 })

-- Moves the readable bytes to the front of the vector.
pub compact : ByteBuffer → Outcome ByteBuffer
compact b = do
  require (ltb 0 b.reader_index) assertion
  ok (record {
    buffer = copy_to b.buffer 0 (bytes_at_read (readable_bytes b) b);
    reader_index = 0;
    writer_index = readable_bytes b;
  })

pub expand_capacity : ℕ → ByteBuffer → Outcome ByteBuffer
expand_capacity len b =
    if ltb (add_size (writable_bytes b) (discardable_bytes b)) len
    then resize (add_size b.writer_index len) b
    else compact b

pub ensure_writable_bytes : ℕ → ByteBuffer → Outcome ByteBuffer
ensure_writable_bytes len b = do
  roomy ← if ltb (writable_bytes b) len then expand_capacity len b else ok b
  require (leb len (writable_bytes roomy)) assertion
  ok roomy

pub write : List ℕ → ByteBuffer → Outcome ByteBuffer
write bytes b = do
  roomy ← ensure_writable_bytes (length bytes) b
  skip_write_bytes (length bytes)
      (record roomy { buffer = copy_to roomy.buffer roomy.writer_index bytes })

-- Reading the view past the readable bytes is out of bounds.
pub to_string_view : ByteBuffer → Outcome (List ℕ)
to_string_view b = do
  require (leb (int_size (readable_bytes b)) (readable_bytes b)) bad_pointer
  ok (bytes_at_read (int_size (readable_bytes b)) b)

pub shrink : ByteBuffer → Outcome ByteBuffer
shrink b = do
  other ← ensure_writable_bytes (readable_bytes b) (make_buffer initial_size)
  view ← to_string_view b
  written ← write view other
  ok (swap b written).0

-- What `readv` did: it failed with an errno, or it filled the areas in order with these bytes.
pub data ReadResult : Type 0 where
  failed : ℕ → ReadResult
  bytes_read : List ℕ → ReadResult

-- The bytes that a read brought in.
abbrev pub received : ReadResult → List ℕ
received (failed errno) = []
received (bytes_read bytes) = bytes

abbrev pub extra_size : ℕ
extra_size = 65536

-- The bytes that the one or two areas handed to `readv` have room for.
abbrev pub read_room : ByteBuffer → ℕ
read_room b =
    if ltb (writable_bytes b) extra_size then writable_bytes b + extra_size else writable_bytes b

-- `bytes` stand in the writable part, and from there on in `extrabuf`.
pub take_in : List ℕ → ByteBuffer → Outcome ByteBuffer
take_in bytes b =
    let room = writable_bytes b in
    if leb (length bytes) room
    then ok (record b {
      buffer = copy_to b.buffer b.writer_index bytes;
      writer_index = add_size b.writer_index (length bytes);
    })
    else write (drop room bytes) (record b {
      buffer = copy_to b.buffer b.writer_index (take room bytes);
      writer_index = length b.buffer;
    })

-- The system call is the argument `readv`, which is told the room; its result is returned.
pub read_fd : (ℕ → ReadResult) → ByteBuffer → Outcome (ByteBuffer × ReadResult)
read_fd readv b = elim (readv (read_room b)) [
  | failed errno ↦ ok (b, failed errno)
  | bytes_read bytes ↦ take_in bytes b >>= λ b'. ok (b', bytes_read bytes)
]

-- `std::search` for CR LF: how far from the start it is.
pub search_crlf : List ℕ → Option ℕ
search_crlf [] = none
search_crlf (x ∷ xs) = crlf_at x xs (search_crlf xs)
  where
    later : Option ℕ → Option ℕ
    later none = none
    later (some i) = some (i + 1)

    crlf_at : ℕ → List ℕ → Option ℕ → Option ℕ
    crlf_at x [] r = none
    crlf_at x (y ∷ ys) r = if x == 13 && y == 10 then some 0 else later r

-- The index in the vector; `none` is the null pointer.
pub find_crlf : ByteBuffer → Option ℕ
find_crlf b = elim (search_crlf (bytes_at_read (readable_bytes b) b)) [
  | none ↦ none
  | some i ↦ some (b.reader_index + i)
]
