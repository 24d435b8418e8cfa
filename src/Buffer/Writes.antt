-- ===== src/Buffer/Writes.antt =====
-- `Write` and the part of `ReadFD` that takes bytes in: both append to the bytes held.
use raner.Common.{
  ℕ, ◌+◌, ◌-◌, ◌≤◌, ◌<◌, ◌≡◌, refl, sym, ap, ◌∙◌, inl, inr, List, ◌++◌, arith, length, take, drop,
  length-take, length-drop, take-append-drop, append_assoc, leb, Bool-cases, le→leb, ok, fault,
  Outcome, ◌>>=◌, [], ◌∷◌,
}
use raner.Buffer.{
  ByteBuffer, add_size, max_size, writable_bytes, copy_to, skip_write_bytes, resize, compact,
  expand_capacity, ensure_writable_bytes, write, take_in, make_buffer, initial_size,
}
use raner.Buffer.Contents.{contents, window, window-copy_to, length-copy_to}
use raner.Buffer.Valid.{IsValid, Leaves, make_buffer-IsValid, ensure_writable_bytes_lem}

copy_at_end :
    (bytes : List ℕ) (b : ByteBuffer)
    → IsValid b
    → b.writer_index + length bytes ≤ length b.buffer
    → let b' = record b {
      buffer = copy_to b.buffer b.writer_index bytes;
      writer_index = add_size b.writer_index (length bytes);
    } in
      IsValid b' × (contents b' ≡ contents b ++ bytes)
copy_at_end bytes b v room = (
  record {
    ordered = omega (arith, sum);
    inside = omega (arith, sum, count);
    small = omega (arith, count, v.small);
  },
  rw sum (window-copy_to b.reader_index b.writer_index b.buffer bytes v.ordered v.inside),
)
  where
    sum : add_size b.writer_index (length bytes) ≡ b.writer_index + length bytes
    sum = omega arith

    count : length (copy_to b.buffer b.writer_index bytes) ≡ length b.buffer
    count = length-copy_to b.buffer b.writer_index bytes room

-- Write to a valid buffer appends the bytes to those held and leaves a valid buffer, provided the
-- vector may grow that far.
pub write-Leaves :
    (bytes : List ℕ) (b : ByteBuffer)
    → IsValid b
    → b.writer_index + length bytes ≤ max_size
    → Leaves (contents b ++ bytes) (write bytes b)
unfolding write skip_write_bytes
write-Leaves bytes b v fits =
    let (c, e, w, held, room) = ensure_writable_bytes_lem (length bytes) b v fits in
    let (valid, more) = copy_at_end bytes c w room in
    (
      record c {
        buffer = copy_to c.buffer c.writer_index bytes;
        writer_index = add_size c.writer_index (length bytes);
      },
      rw e (
          rw (
            le→leb (length bytes)
              (writable_bytes (record c { buffer = copy_to c.buffer c.writer_index bytes }))
              (omega (arith, length-copy_to c.buffer c.writer_index bytes room)))),
      valid,
      more ∙ ap (λ l. l ++ bytes) held,
    )

-- What `readv` delivered is appended, whether or not it ran over into `extrabuf`.
pub take_in-Leaves :
    (bytes : List ℕ) (b : ByteBuffer)
    → IsValid b
    → length b.buffer + length bytes ≤ max_size
    → Leaves (contents b ++ bytes) (take_in bytes b)
unfolding take_in
take_in-Leaves bytes b v fits = elim (Bool-cases (leb (length bytes) (writable_bytes b))) [
  | inl short ↦
      let (valid, more) = copy_at_end bytes b v (ground arith) in
      (
        record b {
          buffer = copy_to b.buffer b.writer_index bytes;
          writer_index = add_size b.writer_index (length bytes);
        },
        rw short,
        valid,
        more,
      )
  | inr long ↦
      let spill =
        write-Leaves (drop room bytes) full (full-IsValid (ground arith))
          (omega (arith, length-drop room bytes)) in
      (spill.0, rw long spill.1, spill.2, spill.3 ∙ whole (ground arith))
]
  where
    room : ℕ
    room = writable_bytes b

    full : ByteBuffer
    full = record b {
      buffer = copy_to b.buffer b.writer_index (take room bytes);
      writer_index = length b.buffer;
    }

    room_is : room ≡ length b.buffer - b.writer_index
    room_is = omega arith

    end : room < length bytes → b.writer_index + length (take room bytes) ≡ length b.buffer
    end h = omega (arith, room_is, length-take room bytes)

    count : room < length bytes → length full.buffer ≡ length b.buffer
    count h = length-copy_to b.buffer b.writer_index (take room bytes) (omega (arith, end h))

    full-IsValid : room < length bytes → IsValid full
    full-IsValid h = record {
      ordered = omega arith;
      inside = omega (arith, count h);
      small = omega (arith, count h, v.small);
    }

    whole : room < length bytes → contents full ++ drop room bytes ≡ contents b ++ bytes
    whole h =
        ap (λ e. window b.reader_index e full.buffer ++ drop room bytes) (sym (end h))
        ∙ ap (λ l. l ++ drop room bytes)
            (window-copy_to b.reader_index b.writer_index b.buffer (take room bytes) v.ordered
              v.inside)
        ∙ append_assoc (contents b) (take room bytes) (drop room bytes)
        ∙ ap (◌++◌ (contents b)) (take-append-drop room bytes)

writer-ensure-le :
    (n : ℕ) (b : ByteBuffer) {b' : ByteBuffer}
    → IsValid b
    → ensure_writable_bytes n b ≡ ok b'
    → b'.writer_index ≤ b.writer_index
unfolding ensure_writable_bytes expand_capacity resize compact
writer-ensure-le n b v e = ground arith

-- A write moves the write index by at most the bytes written.
pub writer-write-le :
    (bytes : List ℕ) (b : ByteBuffer) {b' : ByteBuffer}
    → IsValid b
    → b.writer_index + length bytes ≤ max_size
    → write bytes b ≡ ok b'
    → b'.writer_index ≤ b.writer_index + length bytes
unfolding write skip_write_bytes
writer-write-le bytes b {b'} v fits e =
    let (c, e', w, held, room) = ensure_writable_bytes_lem (length bytes) b v fits in
    ground (arith, writer-ensure-le (length bytes) b v e')

-- Four bytes fit into a fresh buffer as it is.
pub first_write :
    (a₀ a₁ a₂ a₃ : ℕ)
    → (b : ByteBuffer) × (write (a₀ ∷ a₁ ∷ a₂ ∷ a₃ ∷ []) (make_buffer initial_size) ≡ ok b)
      × IsValid b
      × (contents b ≡ a₀ ∷ a₁ ∷ a₂ ∷ a₃ ∷ [])
      × (b.writer_index ≡ 4)
unfolding write ensure_writable_bytes skip_write_bytes make_buffer
first_write a₀ a₁ a₂ a₃ =
    let (v, fresh) = make_buffer-IsValid initial_size (omega arith) in
    let (b, e, w, c) =
      write-Leaves (a₀ ∷ a₁ ∷ a₂ ∷ a₃ ∷ []) (make_buffer initial_size) v (omega arith) in
    (b, e, w, c ∙ ap (λ l. l ++ a₀ ∷ a₁ ∷ a₂ ∷ a₃ ∷ []) fresh, ap end_of (sym e))
  where
    end_of : Outcome ByteBuffer → ℕ
    end_of (ok c) = c.writer_index
    end_of (fault f) = 4

-- Making room, filling it, and moving the writer index on.
pub write_lem :
    (bytes : List ℕ) (b : ByteBuffer)
    → write bytes b ≡ (
        ensure_writable_bytes (length bytes) b >>= λ roomy.
        skip_write_bytes
          (length bytes)
          (record roomy { buffer = copy_to roomy.buffer roomy.writer_index bytes }))
unfolding write
write_lem bytes b = refl
