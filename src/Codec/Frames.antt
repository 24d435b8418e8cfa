-- ===== src/Codec/Frames.antt =====
-- What LengthHeaderCodec sends it takes apart again, wherever the stream is cut.
use raner.Common.{
  ℕ, zero, suc, ◌+◌, ◌-◌, ◌≤◌, ◌<◌, ◌≡◌, refl, sym, ap, ◌∙◌, subst, false, List, [], ◌∷◌, ◌++◌,
  arith, length, take, drop, length-append, length-take, take-append_le, take_all, take-append_add,
  drop-append_self, append_assoc, Bool-cases, inl, inr, leb, le→leb, lt→leb, le→ltb, ok, ◌>>=◌,
}
use raner.Endian.{ByteOrder, gntohl, from_memory}
use raner.Endian.Laws.{wire_32, wire_32_lem}
use raner.Buffer.{ByteBuffer, readable_bytes}
use raner.Buffer.Contents.{contents}
use raner.Buffer.Valid.{IsValid, readable-eq-length}
use raner.Buffer.Reads.{skip_read_bytes-Leaves, bytes_at_read_lem}
use raner.Codec.{before, read_len, take_message, on_message}

-- A message on the wire.
abbrev pub frame : List ℕ → List ℕ
frame message = wire_32 (length message) ++ message

abbrev pub frames : List (List ℕ) → List ℕ
frames [] = []
frames (message ∷ messages) = frame message ++ frames messages

-- Each message is short enough for the receiver.
abbrev pub AreShort : List (List ℕ) → Type 0
AreShort [] = Unit {0}
AreShort (message ∷ messages) = (length message ≤ 65536) × AreShort messages

-- The buffer holds the head of a frame and has its length.
read_len_lem :
    (o : ByteOrder) (message tail : List ℕ) (b : ByteBuffer)
    → IsValid b
    → length message ≤ 65536
    → contents b ≡ wire_32 (length message) ++ tail
    → read_len o b ≡ length message
read_len_lem o message tail b v short e =
    ap (λ l. gntohl o (from_memory o l))
      (bytes_at_read_lem 4 b v (omega (arith, ap length e)) ∙ ap (take 4) e)
    ∙ (wire_32_lem o (length message) (omega arith)).1

take_message_lem :
    (message tail : List ℕ) (b : ByteBuffer)
    → IsValid b
    → contents b ≡ frame message ++ tail
    → (b' : ByteBuffer) × (take_message (length message) b ≡ ok (message, b'))
      × IsValid b'
      × (contents b' ≡ tail)
unfolding take_message
take_message_lem message tail b v e =
    let (b₁, e₁, v₁, c₁) = skip_read_bytes-Leaves 4 b v (omega (arith, ap length e)) in
    let held : contents b₁ ≡ message ++ tail = c₁ ∙ ap (drop 4) e in
    let fits : length message ≤ length (contents b₁) =
      omega (arith, ap length held, length-append message tail) in
    let (b₂, e₂, v₂, c₂) = skip_read_bytes-Leaves (length message) b₁ v₁ fits in
    (
      b₂,
      rw (e₁, e₂)
          (ap (λ l. ok (l, b₂))
            (bytes_at_read_lem (length message) b₁ v₁ fits
              ∙ ap (take (length message)) held
              ∙ take-append_le (length message) message tail (omega arith)
              ∙ take_all (length message) message (omega arith))),
      v₂,
      c₂ ∙ ap (drop (length message)) held ∙ drop-append_self message tail,
    )

-- One round of the loop, on a buffer with a whole message.
on_message_round :
    (fuel : ℕ) (o : ByteOrder) (message tail : List ℕ) (b : ByteBuffer)
    → IsValid b
    → length message ≤ 65536
    → contents b ≡ frame message ++ tail
    → (b' : ByteBuffer) × (on_message (suc fuel) o b
        ≡ (on_message fuel o b' >>= λ h. ok (before message h)))
      × IsValid b'
      × (contents b' ≡ tail)
unfolding on_message
on_message_round fuel o message tail b v short e =
    let (b', taken, v', c') = take_message_lem message tail b v e in
    let whole : readable_bytes b ≡ length message + 4 + length tail =
      omega (arith, readable-eq-length v, ap length e, length-append message tail) in
    (
      b',
      rw
          (
            le→leb 4 (readable_bytes b) (omega arith),
            read_len_lem o message (message ++ tail) b v short e,
            le→ltb 65536 (length message) short,
            le→leb (length message + 4) (readable_bytes b) (omega arith),
            taken,
          )
          refl,
      v',
      c',
    )

-- The bytes are the beginning of a frame, and not all of it.
abbrev pub IsPartial : List ℕ → Type 0
IsPartial bytes =
    (message : List ℕ) × (n : ℕ) × (length message ≤ 65536)
    × (n < length (frame message))
    × (bytes ≡ take n (frame message))

-- Less than a message is left alone.
on_message_partial :
    (fuel : ℕ) (o : ByteOrder) (b : ByteBuffer)
    → IsValid b
    → IsPartial (contents b)
    → on_message (suc fuel) o b ≡ ok (record { messages = []; buffer = b; refused = false })
unfolding on_message
on_message_partial fuel o b v (message, n, short, less, e) =
    let size : readable_bytes b ≡ n =
      omega (arith, readable-eq-length v, ap length e, length-take n (frame message)) in
    elim (Bool-cases (leb 4 (readable_bytes b))) [
      | inr fewer ↦ rw fewer refl
      | inl four ↦
          let long : 4 ≤ n = ground (arith, size) in
          let len : read_len o b ≡ length message =
            read_len_lem o message (take (n - 4) message) b v short (
              e
              ∙ ap (λ j. take j (frame message)) (omega arith)
              ∙ take-append_add (n - 4) (wire_32 (length message)) message) in
          rw
            (
              four,
              len,
              le→ltb 65536 (length message) short,
              lt→leb (length message + 4) (readable_bytes b) (omega arith),
            )
            refl
    ]

-- On a valid buffer that holds messages and then less than one.
pub on_message-frames :
    (messages : List (List ℕ)) (fuel : ℕ) (o : ByteOrder) (b : ByteBuffer) (rest : List ℕ)
    → IsValid b
    → AreShort messages
    → IsPartial rest
    → length messages < fuel
    → contents b ≡ frames messages ++ rest
    → (b' : ByteBuffer) × (on_message fuel o b
        ≡ ok (record { messages = messages; buffer = b'; refused = false }))
      × IsValid b'
      × (contents b' ≡ rest)
on_message-frames messages zero o b rest v short p enough e = absurd (omega arith)
on_message-frames [] (suc fuel) o b rest v short p enough e =
    (b, on_message_partial fuel o b v (subst IsPartial (sym e) p), v, e)
on_message-frames (message ∷ messages) (suc fuel) o b rest v short p enough e =
    let (b₁, e₁, v₁, c₁) =
      on_message_round fuel o message (frames messages ++ rest) b v (short.0)
        (e ∙ append_assoc (frame message) (frames messages) rest) in
    let (b₂, e₂, v₂, c₂) =
      on_message-frames messages fuel o b₁ rest v₁ (short.1) p (omega arith) c₁ in
    (b₂, e₁ ∙ ap (λ m. m >>= λ h. ok (before message h)) e₂, v₂, c₂)
