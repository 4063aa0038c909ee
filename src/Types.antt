-- ===== src/Types.antt =====
-- `Value` of src/types.hh: a `uint32_t` kept in a given byte order, on a little-endian host.
pub mod Stored
mod Tests
use cxx_unlzx.Base.{ℕ, ◌+◌, ◌*◌, ◌/◌, ◌%◌, ◌^◌, ◌<◌, ◌≡◌, refl, List, get_or, set, arith, u8, ◌>>>◌}

-- std::endian
pub data Endian : Type 0 where
  little big : Endian

-- std::byteswap of a uint32_t
unfoldable pub byteswap : ℕ → ℕ
byteswap x =
    x % 2 ^ 8 * 2 ^ 24
    + x / 2 ^ 8 % 2 ^ 8 * 2 ^ 16
    + x / 2 ^ 16 % 2 ^ 8 * 2 ^ 8
    + x / 2 ^ 24 % 2 ^ 8

-- transform<SOURCE, TARGET>
unfoldable pub transform : Endian → Endian → ℕ → ℕ
transform Endian.little Endian.little input = input
transform Endian.big Endian.big input = input
transform Endian.little Endian.big input = byteswap input
transform Endian.big Endian.little input = byteswap input

-- `value_` of a `Value` that stands at `i` of the memory `xs`, as the host loads it.
abbrev pub load : List ℕ → ℕ → ℕ
load xs i =
    get_or xs i 0
    + get_or xs (i + 1) 0 * 2 ^ 8
    + get_or xs (i + 2) 0 * 2 ^ 16
    + get_or xs (i + 3) 0 * 2 ^ 24

abbrev pub store : ℕ → List ℕ → ℕ → List ℕ
store v xs i =
    set (set (set (set xs i (u8 v)) (i + 1) (u8 (v >>> 8))) (i + 2) (u8 (v >>> 16))) (i + 3)
      (u8 (v >>> 24))

-- value()
abbrev pub value : Endian → List ℕ → ℕ → ℕ
value e xs i = transform e Endian.little (load xs i)

-- operator=
abbrev pub assign : Endian → ℕ → List ℕ → ℕ → List ℕ
assign e v xs i = store (transform Endian.little e v) xs i
