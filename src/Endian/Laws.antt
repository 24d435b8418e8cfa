-- ===== src/Endian/Laws.antt =====
-- On either kind of host the conversions put an integer on the wire high byte first, and back.
use raner.Common.{ℕ, ◌+◌, ◌*◌, ◌/◌, ◌^◌, ◌<◌, ◌≡◌, refl, ap, ap₂, ◌∙◌, List, [], ◌∷◌, arith, length}
use raner.Endian.{
  ByteOrder, little, big, byte, ghtons, ghtonl, ghtonll, gntohs, gntohl, gntohll, low_first,
  to_memory, low_first_value, from_memory,
}

abbrev AreBytes : List ℕ → Type 0
AreBytes [] = Unit {0}
AreBytes (b ∷ bs) = (b < 256) × AreBytes bs

low_first-value : (bs : List ℕ) → AreBytes bs → low_first (length bs) (low_first_value bs) ≡ bs
low_first-value [] h = refl
low_first-value (b ∷ bs) h =
    let e : (b + 256 * low_first_value bs) / 256 ≡ low_first_value bs = omega arith in
    ap₂ ◌∷◌ (omega arith) (rw e (low_first-value bs h.1))

-- The big-endian wire format.
abbrev pub wire_16 : ℕ → List ℕ
wire_16 x = byte 1 x ∷ byte 0 x ∷ []

abbrev pub wire_32 : ℕ → List ℕ
wire_32 x = byte 3 x ∷ byte 2 x ∷ wire_16 x

abbrev pub wire_64 : ℕ → List ℕ
wire_64 x = byte 7 x ∷ byte 6 x ∷ byte 5 x ∷ byte 4 x ∷ wire_32 x

-- On either kind of host a 16-bit integer converted by ghtons stands in memory high byte first,
-- and gntohs of those bytes is the integer.
pub wire_16_lem :
    (o : ByteOrder) (x : ℕ)
    → x < 2 ^ 16
    → (to_memory o 2 (ghtons o x) ≡ wire_16 x) × (gntohs o (from_memory o (wire_16 x)) ≡ x)
unfolding to_memory ghtons gntohs from_memory
wire_16_lem little x h =
    (ap (low_first 2) (omega arith) ∙ low_first-value (wire_16 x) (omega arith), omega arith)
wire_16_lem big x h = (ground arith, omega arith)

-- On either kind of host a 32-bit integer converted by ghtonl stands in memory high byte first,
-- and gntohl of those bytes is the integer.
pub wire_32_lem :
    (o : ByteOrder) (x : ℕ)
    → x < 2 ^ 32
    → (to_memory o 4 (ghtonl o x) ≡ wire_32 x) × (gntohl o (from_memory o (wire_32 x)) ≡ x)
unfolding to_memory ghtonl gntohl from_memory
wire_32_lem little x h =
    (ap (low_first 4) (omega arith) ∙ low_first-value (wire_32 x) (omega arith), omega arith)
wire_32_lem big x h = (ground arith, omega arith)

-- On either kind of host a 64-bit integer converted by ghtonll stands in memory high byte first,
-- and gntohll of those bytes is the integer.
pub wire_64_lem :
    (o : ByteOrder) (x : ℕ)
    → x < 2 ^ 64
    → (to_memory o 8 (ghtonll o x) ≡ wire_64 x) × (gntohll o (from_memory o (wire_64 x)) ≡ x)
unfolding to_memory ghtonll gntohll from_memory
wire_64_lem little x h =
    (ap (low_first 8) (omega arith) ∙ low_first-value (wire_64 x) (omega arith), omega arith)
wire_64_lem big x h = (ground arith, omega arith)

-- On either kind of host, a 16-bit, a 32-bit and a 64-bit integer converted by ghtons, ghtonl and
-- ghtonll stand in memory high byte first, and gntohs, gntohl and gntohll of those bytes are the
-- integers.
pub wires_lem :
    (o : ByteOrder) (x y z : ℕ)
    → x < 2 ^ 16
    → y < 2 ^ 32
    → z < 2 ^ 64
    → ((to_memory o 2 (ghtons o x) ≡ wire_16 x) × (gntohs o (from_memory o (wire_16 x)) ≡ x))
      × ((to_memory o 4 (ghtonl o y) ≡ wire_32 y) × (gntohl o (from_memory o (wire_32 y)) ≡ y))
      × (to_memory o 8 (ghtonll o z) ≡ wire_64 z)
      × (gntohll o (from_memory o (wire_64 z)) ≡ z)
wires_lem o x y z hx hy hz =
    let (out, back) = wire_64_lem o z hz in (wire_16_lem o x hx, wire_32_lem o y hy, out, back)
