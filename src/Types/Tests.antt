-- ===== src/Types/Tests.antt =====
-- The theorems on `Value` at a memory of six bytes.
use cxx_unlzx.Base.{ℕ, ◌+◌, ◌<◌, ◌≡◌, ◌⊎◌, arith, List, [], ◌∷◌, get_or}
use cxx_unlzx.Types.{Endian, value, assign}
use cxx_unlzx.Types.Stored.{value-assign}

abbrev memory : List ℕ
memory = 0x12 ∷ 0x34 ∷ 0x56 ∷ 0x78 ∷ 0x9A ∷ 0xBC ∷ []

value-assign_example :
    (value Endian.big (assign Endian.big 0xDEADBEEF memory 1) 1 ≡ 0xDEADBEEF)
    × ((j : ℕ)
        → (j < 1) ⊎ (1 + 3 < j)
        → get_or (assign Endian.big 0xDEADBEEF memory 1) j 0 ≡ get_or memory j 0)
value-assign_example = value-assign Endian.big 0xDEADBEEF memory 1 (omega arith) (omega arith)
