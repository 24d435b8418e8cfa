-- ===== src/Buffer/Contents.antt =====
-- What a ByteBuffer holds, as lists: the facts behind the moves of byte_buffer.h.
use raner.Common.{
  ℕ, ◌+◌, ◌-◌, ◌≤◌, ◌≡◌, ap, ◌∙◌, List, ◌++◌, arith, length, take, drop, length-take, length-drop,
  length-append, take_all, take-append_le, take-append_add, drop-append_le, drop-take,
}
use raner.Buffer.{ByteBuffer, copy_to}

-- The bytes between the two indices.
abbrev pub window : ℕ → ℕ → List ℕ → List ℕ
window r w v = take (w - r) (drop r v)

abbrev pub contents : ByteBuffer → List ℕ
contents b = window b.reader_index b.writer_index b.buffer

pub length-window : (r w : ℕ) (v : List ℕ) → w ≤ length v → length (window r w v) ≡ w - r
length-window r w v h = omega (arith, length-take (w - r) (drop r v), length-drop r v)

-- The window does not see what stands from its end on.
pub window-append :
    (r w : ℕ) (v x : List ℕ) → r ≤ w → w ≤ length v → window r w (v ++ x) ≡ window r w v
window-append r w v x h k =
    rw (drop-append_le r v x (omega arith))
      (take-append_le (w - r) (drop r v) x (omega (arith, length-drop r v)))

-- Bytes copied to the end of a window extend it.
pub window-copy_to :
    (r w : ℕ) (v bytes : List ℕ)
    → r ≤ w
    → w ≤ length v
    → window r (w + length bytes) (copy_to v w bytes) ≡ window r w v ++ bytes
window-copy_to r w v bytes h k =
    rw (moved, count)
      (take-append_add n (window r w v) (bytes ++ rest) ∙ ap (◌++◌ (window r w v)) own)
  where
    n : ℕ
    n = length bytes

    rest : List ℕ
    rest = drop (w + n) v

    moved : drop r (copy_to v w bytes) ≡ window r w v ++ (bytes ++ rest)
    moved =
        drop-append_le r (take w v) (bytes ++ rest) (omega (arith, length-take w v))
        ∙ ap (λ l. l ++ (bytes ++ rest)) (drop-take r w v)

    count : w + n - r ≡ length (window r w v) + n
    count = omega (arith, length-window r w v k)

    own : take n (bytes ++ rest) ≡ bytes
    own = take-append_le n bytes rest (omega arith) ∙ take_all n bytes (omega arith)

pub length-copy_to :
    (v : List ℕ) (i : ℕ) (bytes : List ℕ)
    → i + length bytes ≤ length v
    → length (copy_to v i bytes) ≡ length v
length-copy_to v i bytes h = omega (
  arith,
  length-append (take i v) (bytes ++ drop (i + length bytes) v),
  length-append bytes (drop (i + length bytes) v),
  length-take i v,
  length-drop (i + length bytes) v,
)
