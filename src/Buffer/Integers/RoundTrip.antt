-- ===== src/Buffer/Integers/RoundTrip.antt =====
-- What is written with the integer methods is read back, in order, on either kind of host.
use raner.Common.{
  ℕ, ◌+◌, ◌*◌, ◌-◌, ◌%◌, ◌^◌, ◌≤◌, ◌<◌, ◌≡◌, refl, sym, ap, ◌∙◌, List, [], ◌∷◌, ◌++◌, append-nil,
  append_assoc, arith, length, length-append, take, drop, take-take, take-append_le, take_all,
  le→leb, Outcome, ok, ◌>>=◌,
}
use raner.Endian.{ByteOrder, little, big, to_memory, from_memory}
use raner.Endian.Laws.{wire_16, wire_32, wire_64, wire_16_lem, wire_32_lem, wire_64_lem}
use raner.Buffer.{ByteBuffer, write, max_size, readable_bytes, bytes_at_read, skip_read_bytes}
use raner.Buffer.Contents.{contents}
use raner.Buffer.Valid.{IsValid, Leaves, readable-eq-length}
use raner.Buffer.Writes.{write-Leaves, writer-write-le}
use raner.Buffer.Reads.{skip_read_bytes-Leaves}
use raner.Buffer.Integers.{
  write_int8, write_int16, write_int32, write_int64, read_int8, read_int16, read_int32, read_int64,
}

pub data Width : Type 0 where
  int8 int16 int32 int64 : Width

abbrev pub size : Width → ℕ
size int8 = 1
size int16 = 2
size int32 = 4
size int64 = 8

-- The method of that width.
abbrev pub write_int : Width → ByteOrder → ℕ → ByteBuffer → Outcome ByteBuffer
write_int int8 = write_int8
write_int int16 = write_int16
write_int int32 = write_int32
write_int int64 = write_int64

abbrev pub read_int : Width → ByteOrder → ByteBuffer → Outcome (ℕ × ByteBuffer)
read_int int8 = read_int8
read_int int16 = read_int16
read_int int32 = read_int32
read_int int64 = read_int64

abbrev pub wire : Width → ℕ → List ℕ
wire int8 x = x ∷ []
wire int16 x = wire_16 x
wire int32 x = wire_32 x
wire int64 x = wire_64 x

length-wire : (w : Width) (x : ℕ) → length (wire w x) ≡ size w
length-wire int8 x = refl
length-wire int16 x = refl
length-wire int32 x = refl
length-wire int64 x = refl

-- On either host the method writes the wire format.
pub write_int_lem :
    (w : Width) (o : ByteOrder) (x : ℕ) (b : ByteBuffer)
    → x < 2 ^ (8 * size w)
    → write_int w o x b ≡ write (wire w x) b
unfolding write_int8 write_int16 write_int32 write_int64 to_memory
write_int_lem int8 little x b h = ap (λ k. write (k ∷ []) b) (omega arith)
write_int_lem int8 big x b h = ap (λ k. write (k ∷ []) b) (omega arith)
write_int_lem int16 o x b h =
    let e : x % 2 ^ 16 ≡ x = omega arith in rw e (ap (λ l. write l b) (wire_16_lem o x h).0)
write_int_lem int32 o x b h = ap (λ l. write l b) (wire_32_lem o x h).0
write_int_lem int64 o x b h = ap (λ l. write l b) (wire_64_lem o x h).0

-- The first bytes held are those of the wire format, which stand first.
pub at_read :
    (n : ℕ) (front rest : List ℕ) (b : ByteBuffer)
    → IsValid b
    → length front ≡ n
    → contents b ≡ front ++ rest
    → (n ≤ readable_bytes b) × (bytes_at_read n b ≡ front)
at_read n front rest b v len e = (omega (arith, count), cut)
  where
    count : readable_bytes b ≡ length front + length rest
    count = readable-eq-length v ∙ ap length e ∙ length-append front rest

    cut : bytes_at_read n b ≡ front
    cut =
        sym (
          take-take n (b.writer_index - b.reader_index) (drop b.reader_index b.buffer)
            (omega (arith, count)))
        ∙ ap (take n) e
        ∙ take-append_le n front rest (omega arith)
        ∙ take_all n front (omega arith)

pub read_int_lem :
    (w : Width) (o : ByteOrder) (x : ℕ) (rest : List ℕ) (b : ByteBuffer)
    → IsValid b
    → x < 2 ^ (8 * size w)
    → contents b ≡ wire w x ++ rest
    → read_int w o b ≡ (skip_read_bytes (size w) b >>= λ b'. ok (x, b'))
unfolding read_int8 read_int16 read_int32 read_int64 from_memory
read_int_lem int8 little x rest b v h e =
    let (enough, front) = at_read 1 (x ∷ []) rest b v refl e in
    rw (le→leb _ _ enough, front) (ground arith)
read_int_lem int8 big x rest b v h e =
    let (enough, front) = at_read 1 (x ∷ []) rest b v refl e in
    rw (le→leb _ _ enough, front) (ground arith)
read_int_lem int16 o x rest b v h e =
    let (enough, front) = at_read 2 (wire_16 x) rest b v refl e in
    rw (le→leb _ _ enough, front, (wire_16_lem o x h).1)
read_int_lem int32 o x rest b v h e =
    let (enough, front) = at_read 4 (wire_32 x) rest b v refl e in
    rw (le→leb _ _ enough, front, (wire_32_lem o x h).1)
read_int_lem int64 o x rest b v h e =
    let (enough, front) = at_read 8 (wire_64 x) rest b v refl e in
    rw (le→leb _ _ enough, front, (wire_64_lem o x h).1)

abbrev pub Ints : Type 0
Ints = List (Width × ℕ)

pub write_ints : ByteOrder → Ints → ByteBuffer → Outcome ByteBuffer
write_ints o [] b = ok b
write_ints o ((w, x) ∷ l) b = write_int w o x b >>= write_ints o l

-- Reads integers of the widths listed.
pub read_ints : ByteOrder → Ints → ByteBuffer → Outcome (Ints × ByteBuffer)
read_ints o [] b = ok ([], b)
read_ints o ((w, _) ∷ l) b = do
  (x, b') ← read_int w o b
  (xs, rest) ← read_ints o l b'
  ok ((w, x) ∷ xs, rest)

abbrev pub AreInRange : Ints → Type 0
AreInRange [] = Unit {0}
AreInRange ((w, x) ∷ l) = (x < 2 ^ (8 * size w)) × AreInRange l

abbrev pub total_size : Ints → ℕ
total_size [] = 0
total_size ((w, x) ∷ l) = size w + total_size l

abbrev pub wires : Ints → List ℕ
wires [] = []
wires ((w, x) ∷ l) = wire w x ++ wires l

-- The integers are appended to the bytes held, high byte first, whatever the byte order of the host.
pub write_ints-Leaves :
    (o : ByteOrder) (l : Ints) (b : ByteBuffer)
    → IsValid b
    → AreInRange l
    → b.writer_index + total_size l ≤ max_size
    → Leaves (contents b ++ wires l) (write_ints o l b)
unfolding write_ints
write_ints-Leaves o [] b v h fits = (b, refl, v, sym (append-nil (contents b)))
write_ints-Leaves o ((w, x) ∷ l) b v h fits =
    let (c, e, v', held) = write-Leaves (wire w x) b v (omega (arith, length-wire w x)) in
    let (d, e', v″, held') = write_ints-Leaves o l c v' h.1 (
      omega (
        arith,
        length-wire w x,
        writer-write-le (wire w x) b v (omega (arith, length-wire w x)) e,
      )) in
    (
      d,
      rw (write_int_lem w o x b h.0, e) e',
      v″,
      held' ∙ ap (λ k. k ++ wires l) held ∙ append_assoc (contents b) (wire w x) (wires l),
    )

-- Integers that stand first are read back, and the bytes behind them are left.
pub read_ints_lem :
    (o : ByteOrder) (l : Ints) (rest : List ℕ) (b : ByteBuffer)
    → IsValid b
    → AreInRange l
    → contents b ≡ wires l ++ rest
    → (b' : ByteBuffer) × (read_ints o l b ≡ ok (l, b')) × IsValid b' × (contents b' ≡ rest)
unfolding read_ints
read_ints_lem o [] rest b v h e = (b, refl, v, e)
read_ints_lem o ((w, x) ∷ l) rest b v h e =
    let front : contents b ≡ wire w x ++ (wires l ++ rest) =
      e ∙ append_assoc (wire w x) (wires l) rest in
    let (c, e', v', held) = skip_read_bytes-Leaves (size w) b v (
      omega
        (arith, ap length front, length-append (wire w x) (wires l ++ rest), length-wire w x)) in
    let (d, e″, v″, held') =
      read_ints_lem o l rest c v' h.1 (held ∙ ap (drop (size w)) front ∙ skipped w) in
    (d, rw (read_int_lem w o x (wires l ++ rest) b v h.0 front, e', e″), v″, held')
  where
    skipped : (w : Width) → drop (size w) (wire w x ++ (wires l ++ rest)) ≡ wires l ++ rest
    skipped int8 = refl
    skipped int16 = refl
    skipped int32 = refl
    skipped int64 = refl

-- Integers of any widths, written to a valid buffer that holds nothing, are read back in order by
-- the methods of the same widths, on either kind of host, and nothing is left.
pub read_ints-write_ints :
    (o : ByteOrder) (l : Ints) (b : ByteBuffer)
    → IsValid b
    → AreInRange l
    → contents b ≡ []
    → b.writer_index + total_size l ≤ max_size
    → (b' : ByteBuffer) × ((write_ints o l b >>= read_ints o l) ≡ ok (l, b'))
      × IsValid b'
      × (contents b' ≡ [])
read_ints-write_ints o l b v h e fits =
    let (c, e', w, held) = write_ints-Leaves o l b v h fits in
    let (d, e″, w', held') =
      read_ints_lem o l [] c w h (held ∙ ap (λ k. k ++ wires l) e ∙ sym (append-nil (wires l))) in
    (d, rw e' e″, w', held')
