-- ===== src/Endian.antt =====
-- raner/endian.h: byte order of the host and of the network. A `uintN_t` is a number below 2 ^ N.
pub mod Laws
mod Tests
use raner.Common.{ℕ, zero, suc, ◌+◌, ◌*◌, ◌/◌, ◌%◌, ◌^◌, List, [], ◌∷◌, ◌++◌}

-- RANER_IS_LITTLE_ENDIAN or RANER_IS_BIG_ENDIAN.
pub data ByteOrder : Type 0 where
  little big : ByteOrder

-- The byte of `x` that starts at bit `8 * i`.
abbrev pub byte : ℕ → ℕ → ℕ
byte i x = x / 2 ^ (8 * i) % 256

-- The masks of the swaps pick out distinct bytes, so `|` is `+`.
unfoldable pub gbswap_16 : ℕ → ℕ
gbswap_16 x = byte 0 x * 2 ^ 8 + byte 1 x

unfoldable pub gbswap_32 : ℕ → ℕ
gbswap_32 x = byte 0 x * 2 ^ 24 + byte 1 x * 2 ^ 16 + byte 2 x * 2 ^ 8 + byte 3 x

unfoldable pub gbswap_64 : ℕ → ℕ
gbswap_64 x =
    byte 0 x * 2 ^ 56
    + byte 1 x * 2 ^ 48
    + byte 2 x * 2 ^ 40
    + byte 3 x * 2 ^ 32
    + byte 4 x * 2 ^ 24
    + byte 5 x * 2 ^ 16
    + byte 6 x * 2 ^ 8
    + byte 7 x

unfoldable pub ghtons : ByteOrder → ℕ → ℕ
unfolding gbswap_16
ghtons little x = gbswap_16 x
ghtons big x = x

unfoldable pub ghtonl : ByteOrder → ℕ → ℕ
unfolding gbswap_32
ghtonl little x = gbswap_32 x
ghtonl big x = x

unfoldable pub ghtonll : ByteOrder → ℕ → ℕ
unfolding gbswap_64
ghtonll little x = gbswap_64 x
ghtonll big x = x

unfoldable pub gntohs : ByteOrder → ℕ → ℕ
unfolding ghtons
gntohs o x = ghtons o x

unfoldable pub gntohl : ByteOrder → ℕ → ℕ
unfolding ghtonl
gntohl o x = ghtonl o x

unfoldable pub gntohll : ByteOrder → ℕ → ℕ
unfolding ghtonll
gntohll o x = ghtonll o x

-- The `n` bytes of an integer in the memory of a host, lowest address first.
abbrev pub low_first : ℕ → ℕ → List ℕ
low_first zero x = []
low_first (suc n) x = x % 256 ∷ low_first n (x / 256)

abbrev pub high_first : ℕ → ℕ → List ℕ
high_first zero x = []
high_first (suc n) x = high_first n (x / 256) ++ x % 256 ∷ []

unfoldable pub to_memory : ByteOrder → ℕ → ℕ → List ℕ
to_memory little n x = low_first n x
to_memory big n x = high_first n x

-- The integer that the bytes of the memory stand for, as `memcpy` into it makes it.
abbrev pub low_first_value : List ℕ → ℕ
low_first_value [] = 0
low_first_value (b ∷ bs) = b + 256 * low_first_value bs

abbrev pub high_first_value : ℕ → List ℕ → ℕ
high_first_value acc [] = acc
high_first_value acc (b ∷ bs) = high_first_value (256 * acc + b) bs

unfoldable pub from_memory : ByteOrder → List ℕ → ℕ
from_memory little bs = low_first_value bs
from_memory big bs = high_first_value 0 bs
