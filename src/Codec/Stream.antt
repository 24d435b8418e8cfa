-- ===== src/Codec/Stream.antt =====
-- LengthHeaderCodec on a stream of messages, wherever it is cut, and what `Send` puts on it.
use raner.Common.{
  ℕ, ◌%◌, ◌^◌, ◌≤◌, ◌<◌, ◌≡◌, refl, sym, ap, ◌∙◌, subst, false, List, [], ◌∷◌, ◌++◌, arith, length,
  take, drop, length-append, take-append_le, take_all, take-append-drop, drop-append_le,
  drop-append_self, append_assoc, Bool-cases, inl, inr, ltb, ok,
}
use raner.Endian.{ByteOrder, byte, to_memory, ghtonl}
use raner.Endian.Laws.{wire_32, wire_32_lem}
use raner.Buffer.{ByteBuffer}
use raner.Buffer.Contents.{contents}
use raner.Buffer.Valid.{IsValid, Leaves}
use raner.Buffer.Writes.{write-Leaves, first_write}
use raner.Codec.{on_message, send}
use raner.Codec.Frames.{frame, frames, AreShort, IsPartial, on_message-frames}

-- The beginning of a stream of frames is whole frames and a part of the next.
abbrev Cuts : List (List ℕ) → List ℕ → List ℕ → Type 0
Cuts messages x y =
    (first : List (List ℕ)) × (later : List (List ℕ)) × (rest : List ℕ) × (messages
      ≡ first ++ later)
    × AreShort first
    × AreShort later
    × IsPartial rest
    × (x ≡ frames first ++ rest)
    × (rest ++ y ≡ frames later)

cut :
    (messages : List (List ℕ)) (x y : List ℕ)
    → AreShort messages
    → x ++ y ≡ frames messages
    → Cuts messages x y
cut [] [] y short e = ([], [], [], refl, tt, tt, ([], 0, omega arith, omega arith, refl), refl, e)
cut [] (a ∷ x) y short e = absurd (omega (arith, ap length e))
cut (message ∷ messages) x y short e = elim (Bool-cases (ltb (length x) (length (frame message)))) [
  | inl less ↦
      let part : x ≡ take (length x) (frame message) =
        sym (take_all (length x) x (omega arith))
        ∙ sym (take-append_le (length x) x y (omega arith))
        ∙ ap (take (length x)) e
        ∙ take-append_le (length x) (frame message) (frames messages) (ground arith) in
      (
        [],
        message ∷ messages,
        x,
        refl,
        tt,
        short,
        (message, length x, short.0, ground arith, part),
        refl,
        e,
      )
  | inr more ↦
      let n : ℕ = length (frame message) in
      let long : n ≤ length x = ground arith in
      let whole : x ≡ frame message ++ drop n x =
        sym (take-append-drop n x)
        ∙ ap (λ l. l ++ drop n x)
            (sym (take-append_le n x y long)
              ∙ ap (take n) e
              ∙ take-append_le n (frame message) (frames messages) (omega arith)
              ∙ take_all n (frame message) (omega arith)) in
      let left : drop n x ++ y ≡ frames messages =
        sym (drop-append_le n x y long)
        ∙ ap (drop n) e
        ∙ drop-append_self (frame message) (frames messages) in
      let (first, later, rest, split, short₁, short₂, p, begins, ends) =
        cut messages (drop n x) y (short.1) left in
      (
        message ∷ first,
        later,
        rest,
        ap (◌∷◌ message) split,
        (short.0, short₁),
        short₂,
        p,
        whole
            ∙ ap (◌++◌ (frame message)) begins
            ∙ sym (append_assoc (frame message) (frames first) rest),
        ends,
      )
]

-- Of a stream of messages of at most 65536 bytes each, of which a valid buffer holds the
-- beginning, wherever it is cut, OnMessage hands on the first messages in order, those that are
-- there as a whole, and leaves a valid buffer with a part of the next one, which with the bytes
-- still to come is the stream of the other messages. A fuel above the number of messages suffices.
pub on_message-stream :
    (messages : List (List ℕ)) (fuel : ℕ) (o : ByteOrder) (b : ByteBuffer) (upcoming : List ℕ)
    → IsValid b
    → AreShort messages
    → length messages < fuel
    → contents b ++ upcoming ≡ frames messages
    → (first : List (List ℕ)) × (later : List (List ℕ)) × (b' : ByteBuffer) × (messages
        ≡ first ++ later)
      × (on_message fuel o b ≡ ok (record { messages = first; buffer = b'; refused = false }))
      × IsValid b'
      × IsPartial (contents b')
      × AreShort later
      × (contents b' ++ upcoming ≡ frames later)
on_message-stream messages fuel o b upcoming v short enough e =
    let (first, later, rest, split, short₁, short₂, p, begins, ends) =
      cut messages (contents b) upcoming short e in
    let (b', run, v', c) =
      on_message-frames first fuel o b rest v short₁ p
        (omega (arith, ap length split, length-append first later)) begins in
    (
      first,
      later,
      b',
      split,
      run,
      v',
      subst IsPartial (sym c) p,
      short₂,
      ap (λ l. l ++ upcoming) c ∙ ends,
    )

-- Send makes of a message of at most 65536 bytes a valid buffer that holds the four bytes of its
-- length, high byte first, and the message.
pub send-frame :
    (o : ByteOrder) (message : List ℕ)
    → length message ≤ 65536
    → Leaves (frame message) (send o message)
unfolding send
send-frame o message short =
    let n : ℕ = length message in
    let (b₁, e₁, v₁, c₁, at) = first_write (byte 3 n) (byte 2 n) (byte 1 n) (byte 0 n) in
    let (b₂, e₂, v₂, c₂) = write-Leaves message b₁ v₁ (omega arith) in
    let small : n % 2 ^ 32 ≡ n = omega arith in
    let header : to_memory o 4 (ghtonl o (n % 2 ^ 32)) ≡ wire_32 n =
      ap (λ k. to_memory o 4 (ghtonl o k)) small ∙ (wire_32_lem o n (omega arith)).0 in
    (b₂, rw (header, e₁) e₂, v₂, c₂ ∙ ap (λ l. l ++ message) c₁)
