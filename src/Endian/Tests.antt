-- ===== src/Endian/Tests.antt =====
-- The conversions at concrete integers.
use raner.Common.{◌≡◌, [], ◌∷◌, arith}
use raner.Endian.{little, to_memory, from_memory, ghtons, gntohs, ghtonl, gntohl, ghtonll, gntohll}
use raner.Endian.Laws.{wires_lem}

wires_example :
    ((to_memory little 2 (ghtons little 258) ≡ 1 ∷ 2 ∷ [])
      × (gntohs little (from_memory little (1 ∷ 2 ∷ [])) ≡ 258))
    × ((to_memory little 4 (ghtonl little 16909060) ≡ 1 ∷ 2 ∷ 3 ∷ 4 ∷ [])
        × (gntohl little (from_memory little (1 ∷ 2 ∷ 3 ∷ 4 ∷ [])) ≡ 16909060))
    × (to_memory little 8 (ghtonll little 258) ≡ 0 ∷ 0 ∷ 0 ∷ 0 ∷ 0 ∷ 0 ∷ 1 ∷ 2 ∷ [])
    × (gntohll little (from_memory little (0 ∷ 0 ∷ 0 ∷ 0 ∷ 0 ∷ 0 ∷ 1 ∷ 2 ∷ [])) ≡ 258)
wires_example = wires_lem little 258 16909060 258 (omega arith) (omega arith) (omega arith)
