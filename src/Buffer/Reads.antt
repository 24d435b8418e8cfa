-- ===== src/Buffer/Reads.antt =====
-- The reading methods of ByteBuffer, `ReadFD` and `Shrink`: what they return and what they leave.
use raner.Common.{
  ℕ, ◌+◌, ◌-◌, ◌^◌, ◌≤◌, ◌<◌, ◌≡◌, refl, sym, ap, ◌∙◌, inl, inr, List, [], ◌++◌, arith, length,
  take, drop, take_all, drop-drop, drop-take, ltb, Bool-cases, le→leb, lt→leb, ok, fault, assertion,
  drop_all, take-take, append-nil,
}
use raner.Buffer.{
  ByteBuffer, max_size, initial_size, make_buffer, readable_bytes, bytes_at_read, skip_all,
  skip_read_bytes, skip_as_string, skip_all_as_string, to_string_view, shrink, swap, ReadResult,
  failed, bytes_read, read_room, read_fd, received, int_size, extra_size,
}
use raner.Buffer.Contents.{contents}
use raner.Buffer.Valid.{
  IsValid, Leaves, readable-eq-length, make_buffer-IsValid, ensure_writable_bytes_lem,
}
use raner.Buffer.Writes.{write-Leaves, take_in-Leaves}

-- SkipReadBytes of no more bytes than a valid buffer holds drops the first ones and leaves a valid
-- buffer with the others.
pub skip_read_bytes-Leaves :
    (n : ℕ) (b : ByteBuffer)
    → IsValid b
    → n ≤ length (contents b)
    → Leaves (drop n (contents b)) (skip_read_bytes n b)
unfolding skip_read_bytes
skip_read_bytes-Leaves n b v h = elim (Bool-cases (ltb n (readable_bytes b))) [
  | inl part ↦ (
    record b { reader_index = b.reader_index + n },
    ground (arith, size),
    record { ordered = ground (arith, size); inside = v.inside; small = v.small },
    rest,
  )
  | inr all ↦ (
    skip_all b,
    ground (arith, size),
    record { ordered = omega arith; inside = omega arith; small = v.small },
    sym (drop_all n (contents b) (ground (arith, size))),
  )
]
  where
    size : readable_bytes b ≡ length (contents b)
    size = readable-eq-length v

    rest : contents (record b { reader_index = b.reader_index + n }) ≡ drop n (contents b)
    rest =
        ap (take (b.writer_index - (b.reader_index + n)))
          (sym (drop-drop n b.reader_index b.buffer))
        ∙ ap (λ k. take k (drop n (drop b.reader_index b.buffer))) (omega arith)
        ∙ sym (drop-take n (b.writer_index - b.reader_index) (drop b.reader_index b.buffer))

pub skip_read_bytes_past :
    (n : ℕ) (b : ByteBuffer)
    → IsValid b
    → length (contents b) < n
    → skip_read_bytes n b ≡ fault assertion
unfolding skip_read_bytes
skip_read_bytes_past n b v h = ground (arith, readable-eq-length v)

-- What stands at the reader index, as far as bytes are held.
pub bytes_at_read_lem :
    (n : ℕ) (b : ByteBuffer)
    → IsValid b
    → n ≤ length (contents b)
    → bytes_at_read n b ≡ take n (contents b)
bytes_at_read_lem n b v h = sym (
    take-take n (b.writer_index - b.reader_index) (drop b.reader_index b.buffer)
      (omega (arith, readable-eq-length v)))

-- SkipAsString of no more bytes than a valid buffer holds returns the first ones and leaves the
-- others.
pub skip_as_string_lem :
    (n : ℕ) (b : ByteBuffer)
    → IsValid b
    → n ≤ length (contents b)
    → (b' : ByteBuffer) × (skip_as_string n b ≡ ok (take n (contents b), b'))
      × IsValid b'
      × (contents b' ≡ drop n (contents b))
unfolding skip_as_string
skip_as_string_lem n b v h =
    let (b', e, w, held) = skip_read_bytes-Leaves n b v h in
    (
      b',
      rw (le→leb n (readable_bytes b) (omega (arith, size)), e, bytes_at_read_lem n b v h),
      w,
      held,
    )
  where
    size : readable_bytes b ≡ length (contents b)
    size = readable-eq-length v

pub skip_as_string_past :
    (n : ℕ) (b : ByteBuffer)
    → IsValid b
    → length (contents b) < n
    → skip_as_string n b ≡ fault assertion
unfolding skip_as_string
skip_as_string_past n b v h = rw (lt→leb n (readable_bytes b) (omega (arith, readable-eq-length v)))

-- SkipAllAsString returns all the bytes that a valid buffer holds and leaves none.
pub skip_all_as_string_lem :
    (b : ByteBuffer)
    → IsValid b
    → (b' : ByteBuffer) × (skip_all_as_string b ≡ ok (contents b, b'))
      × IsValid b'
      × (contents b' ≡ [])
unfolding skip_all_as_string
skip_all_as_string_lem b v =
    let (b', e, w, held) = skip_as_string_lem (readable_bytes b) b v (omega (arith, size)) in
    (
      b',
      e ∙ ap (λ l. ok (l, b')) (take_all (readable_bytes b) (contents b) (omega (arith, size))),
      w,
      held ∙ drop_all (readable_bytes b) (contents b) (omega (arith, size)),
    )
  where
    size : readable_bytes b ≡ length (contents b)
    size = readable-eq-length v

-- ReadFD on a valid buffer returns what readv returned and appends to the bytes held exactly those
-- that it read, none on an error, where readv fills no more than the room it is handed and the
-- vector may double and take the 65536 bytes of the second area.
pub read_fd_lem :
    (readv : ℕ → ReadResult) (b : ByteBuffer)
    → IsValid b
    → ((room : ℕ) (bytes : List ℕ) → readv room ≡ bytes_read bytes → length bytes ≤ room)
    → length b.buffer + length b.buffer + extra_size ≤ max_size
    → (b' : ByteBuffer) × (read_fd readv b ≡ ok (b', readv (read_room b)))
      × IsValid b'
      × (contents b' ≡ contents b ++ received (readv (read_room b)))
unfolding read_fd
read_fd_lem readv b v fills fits = split (readv (read_room b)) refl
  where
    split :
        (r : ReadResult)
        → readv (read_room b) ≡ r
        → (b' : ByteBuffer) × (read_fd readv b ≡ ok (b', readv (read_room b)))
          × IsValid b'
          × (contents b' ≡ contents b ++ received (readv (read_room b)))
    split (failed errno) e = (b, rw (e, read_fd), v, rw e (sym (append-nil (contents b))))
    split (bytes_read bytes) e =
        let (b', e', w, held) =
          take_in-Leaves bytes b v (ground (arith, fills (read_room b) bytes)) in
        (b', rw (e, read_fd, e'), w, rw e held)

pub to_string_view_lem :
    (b : ByteBuffer) → IsValid b → length (contents b) < 2 ^ 31 → to_string_view b ≡ ok (contents b)
unfolding to_string_view
to_string_view_lem b v small =
    rw (cast, le→leb k k (omega arith)) (ap (λ j. ok (take j (drop b.reader_index b.buffer))) same)
  where
    k : ℕ
    k = readable_bytes b

    same : k ≡ b.writer_index - b.reader_index
    same = omega arith

    cast : int_size k ≡ k
    cast = ground (arith, readable-eq-length v)

make_buffer-index : (n : ℕ) → (make_buffer n).writer_index ≡ 0
unfolding make_buffer
make_buffer-index n = refl

-- Shrink of a valid buffer leaves a valid buffer that holds the same bytes, if they are fewer than
-- 2 ^ 31.
pub shrink-Leaves :
    (b : ByteBuffer) → IsValid b → length (contents b) < 2 ^ 31 → Leaves (contents b) (shrink b)
unfolding shrink swap
shrink-Leaves b v small =
    let (other, e, w, held, room) =
      ensure_writable_bytes_lem (readable_bytes b) (make_buffer initial_size) fresh.0
        (omega (arith, size, make_buffer-index initial_size)) in
    let (b', e', w', held') =
      write-Leaves (contents b) other w (omega (arith, size, room, w.small)) in
    (
      b',
      rw (e, to_string_view_lem b v small, e'),
      w',
      held' ∙ ap (λ l. l ++ contents b) (held ∙ fresh.1),
    )
  where
    size : readable_bytes b ≡ length (contents b)
    size = readable-eq-length v

    fresh : IsValid (make_buffer initial_size) × (contents (make_buffer initial_size) ≡ [])
    fresh = make_buffer-IsValid initial_size (omega arith)
