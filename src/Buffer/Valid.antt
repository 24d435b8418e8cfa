-- ===== src/Buffer/Valid.antt =====
-- The class invariant of ByteBuffer, and how the methods of byte_buffer.h make room.
use raner.Common.{
  ℕ, ◌+◌, ◌-◌, ◌≤◌, ◌<◌, ◌≡◌, refl, ap, ◌∙◌, inl, inr, List, [], ◌++◌, arith, length, take, drop,
  replicate, length-append, length-take, length-drop, length-replicate, take_all, ltb, Bool-cases,
  le→leb, lt→ltb, Outcome, ok,
}
use raner.Buffer.{
  ByteBuffer, add_size, discardable_bytes, max_size, make_buffer, readable_bytes, writable_bytes,
  bytes_at_read, copy_to, resize, compact, expand_capacity, ensure_writable_bytes,
}
use raner.Buffer.Contents.{
  contents, window, window-append, window-copy_to, length-window, length-copy_to,
}

pub record IsValid (b : ByteBuffer) : Type 0 where
  pub ordered : b.reader_index ≤ b.writer_index
  pub inside : b.writer_index ≤ length b.buffer
  pub small : length b.buffer ≤ max_size

pub make_buffer-IsValid :
    (n : ℕ) → n ≤ max_size → IsValid (make_buffer n) × (contents (make_buffer n) ≡ [])
unfolding make_buffer
make_buffer-IsValid n h = (
  record {
    ordered = omega arith;
    inside = omega arith;
    small = omega (arith, length-replicate {A = ℕ} n 0);
  },
  refl,
)

pub readable-eq-length : {b : ByteBuffer} → IsValid b → readable_bytes b ≡ length (contents b)
readable-eq-length {b} v =
    omega (arith, length-window b.reader_index b.writer_index b.buffer v.inside)

-- The call leaves a valid buffer that holds `held`.
abbrev pub Leaves : List ℕ → Outcome ByteBuffer → Type 0
Leaves held r = (b : ByteBuffer) × (r ≡ ok b) × IsValid b × (contents b ≡ held)

-- As `Leaves`, with room for `n` bytes more.
abbrev pub LeavesRoom : ℕ → List ℕ → Outcome ByteBuffer → Type 0
LeavesRoom n held r =
    (b : ByteBuffer) × (r ≡ ok b)
    × IsValid b
    × (contents b ≡ held)
    × (b.writer_index + n ≤ length b.buffer)

resize_lem :
    (n : ℕ) (b : ByteBuffer)
    → IsValid b
    → length b.buffer < b.writer_index + n
    → b.writer_index + n ≤ max_size
    → LeavesRoom n (contents b) (resize (b.writer_index + n) b)
unfolding resize
resize_lem n b v long fits = (
  record b { buffer = take m v₀ ++ zeros },
  rw (le→leb m max_size fits),
  record { ordered = v.ordered; inside = omega (arith, count); small = omega (arith, count) },
  held,
  omega (arith, count),
)
  where
    m : ℕ
    m = b.writer_index + n

    v₀ : List ℕ
    v₀ = b.buffer

    zeros : List ℕ
    zeros = replicate (m - length v₀) 0

    count : length (take m v₀ ++ zeros) ≡ m
    count = omega (
      arith,
      length-append (take m v₀) zeros,
      length-take m v₀,
      length-replicate {A = ℕ} (m - length v₀) 0,
    )

    held : window b.reader_index b.writer_index (take m v₀ ++ zeros) ≡ contents b
    held =
        rw (take_all m v₀ (omega arith))
          (window-append b.reader_index b.writer_index v₀ zeros v.ordered v.inside)

compact_lem :
    (n : ℕ) (b : ByteBuffer)
    → IsValid b
    → length b.buffer < b.writer_index + n
    → b.writer_index + n ≤ length b.buffer + b.reader_index
    → LeavesRoom n (contents b) (compact b)
unfolding compact
compact_lem n b v long fits = (
  record { buffer = copy_to v₀ 0 c; reader_index = 0; writer_index = k },
  rw (lt→ltb 0 b.reader_index (omega arith)),
  record {
    ordered = omega arith;
    inside = omega (arith, count, short);
    small = omega (arith, count, v.small);
  },
  held,
  omega (arith, count, short),
)
  where
    k : ℕ
    k = readable_bytes b

    v₀ : List ℕ
    v₀ = b.buffer

    c : List ℕ
    c = bytes_at_read k b

    same : k ≡ b.writer_index - b.reader_index
    same = omega arith

    short : length c ≡ k
    short =
        omega (arith, same, length-take k (drop b.reader_index v₀), length-drop b.reader_index v₀)

    count : length (copy_to v₀ 0 c) ≡ length v₀
    count = length-copy_to v₀ 0 c (omega (arith, short))

    held : window 0 k (copy_to v₀ 0 c) ≡ contents b
    held =
        ap (λ j. window 0 j (copy_to v₀ 0 c)) (omega (arith, short))
        ∙ window-copy_to 0 0 v₀ c (omega arith) (omega arith)
        ∙ ap (λ j. take j (drop b.reader_index v₀)) same

expand_capacity_lem :
    (n : ℕ) (b : ByteBuffer)
    → IsValid b
    → length b.buffer < b.writer_index + n
    → b.writer_index + n ≤ max_size
    → LeavesRoom n (contents b) (expand_capacity n b)
unfolding expand_capacity
expand_capacity_lem n b v long fits =
    elim (Bool-cases (ltb (add_size (writable_bytes b) (discardable_bytes b)) n)) [
      | inl grow ↦ rw (grow, sum) (resize_lem n b v long fits)
      | inr keep ↦ rw keep (compact_lem n b v long (ground arith))
    ]
  where
    sum : add_size b.writer_index n ≡ b.writer_index + n
    sum = omega arith

-- Room is made whenever the vector may grow that far, and no byte is lost.
pub ensure_writable_bytes_lem :
    (n : ℕ) (b : ByteBuffer)
    → IsValid b
    → b.writer_index + n ≤ max_size
    → LeavesRoom n (contents b) (ensure_writable_bytes n b)
unfolding ensure_writable_bytes
ensure_writable_bytes_lem n b v fits = elim (Bool-cases (ltb (writable_bytes b) n)) [
  | inl tight ↦
      let (c, e, w, held, room) = expand_capacity_lem n b v (ground arith) fits in
      (c, rw (tight, e) (rw (le→leb n (writable_bytes c) (omega arith))), w, held, room)
  | inr roomy ↦ (b, rw (roomy, le→leb n (writable_bytes b) (ground arith)), v, refl, ground arith)
]
