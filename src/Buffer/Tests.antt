-- ===== src/Buffer/Tests.antt =====
-- ByteBuffer on concrete buffers.
use raner.Common.{
  ℕ, ◌≤◌, ◌≡◌, refl, ap, subst, take, length-take, List, [], ◌∷◌, ◌++◌, length, arith, ok, ◌>>=◌,
}
use raner.Endian.{little}
use raner.Buffer.{
  ByteBuffer, ReadResult, bytes_read, received, read_room, write, skip_as_string, read_fd, shrink,
}
use raner.Buffer.Contents.{contents}
use raner.Buffer.Valid.{IsValid, Leaves}
use raner.Buffer.Writes.{write-Leaves}
use raner.Buffer.Reads.{skip_as_string_lem, read_fd_lem, shrink-Leaves}
use raner.Buffer.Integers.RoundTrip.{
  int8, int16, int32, Ints, write_ints, read_ints, read_ints-write_ints,
}

abbrev part_read : ByteBuffer
part_read = record {
  buffer = 1 ∷ 2 ∷ 3 ∷ 4 ∷ 5 ∷ 6 ∷ 7 ∷ 8 ∷ [];
  reader_index = 2;
  writer_index = 5;
}

part_read-IsValid : IsValid part_read
part_read-IsValid = record { ordered = omega arith; inside = omega arith; small = omega arith }

abbrev empty_buffer : ByteBuffer
empty_buffer = record { buffer = 0 ∷ 0 ∷ []; reader_index = 0; writer_index = 0 }

empty_buffer-IsValid : IsValid empty_buffer
empty_buffer-IsValid = record { ordered = omega arith; inside = omega arith; small = omega arith }

write-Leaves_example :
    Leaves (3 ∷ 4 ∷ 5 ∷ 9 ∷ 10 ∷ 11 ∷ 12 ∷ []) (write (9 ∷ 10 ∷ 11 ∷ 12 ∷ []) part_read)
write-Leaves_example =
    write-Leaves (9 ∷ 10 ∷ 11 ∷ 12 ∷ []) part_read part_read-IsValid (omega arith)

skip_as_string_example :
    (b' : ByteBuffer) × (skip_as_string 2 part_read ≡ ok (3 ∷ 4 ∷ [], b'))
    × IsValid b'
    × (contents b' ≡ 5 ∷ [])
skip_as_string_example = skip_as_string_lem 2 part_read part_read-IsValid (omega arith)

abbrev readv_three : ℕ → ReadResult
readv_three room = bytes_read (take room (7 ∷ 7 ∷ 7 ∷ []))

readv_three-fits :
    (room : ℕ) (bytes : List ℕ) → readv_three room ≡ bytes_read bytes → length bytes ≤ room
readv_three-fits room bytes e =
    subst (λ l. length l ≤ room) (ap received e)
      (omega (arith, length-take {A = ℕ} room (7 ∷ 7 ∷ 7 ∷ [])))

read_fd_example :
    (b' : ByteBuffer) × (read_fd readv_three part_read ≡ ok (b', readv_three (read_room part_read)))
    × IsValid b'
    × (contents b' ≡ contents part_read ++ received (readv_three (read_room part_read)))
read_fd_example = read_fd_lem readv_three part_read part_read-IsValid readv_three-fits (omega arith)

shrink-Leaves_example : Leaves (3 ∷ 4 ∷ 5 ∷ []) (shrink part_read)
shrink-Leaves_example = shrink-Leaves part_read part_read-IsValid (omega arith)

abbrev three_ints : Ints
three_ints = (int16, 258) ∷ (int8, 255) ∷ (int32, 70000) ∷ []

read_ints_example :
    (b' : ByteBuffer) × ((write_ints little three_ints empty_buffer >>= read_ints little three_ints)
      ≡ ok (three_ints, b'))
    × IsValid b'
    × (contents b' ≡ [])
read_ints_example =
    read_ints-write_ints little three_ints empty_buffer empty_buffer-IsValid
      (omega arith, (omega arith, (omega arith, tt))) refl (omega arith)
