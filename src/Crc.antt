-- ===== src/Crc.antt =====
-- `crc::Crc32` of src/crc.hh and src/crc.cc.
pub mod Steps
pub mod Bitwise
pub mod Detects
pub mod Chunks
mod Tests
use cxx_unlzx.Base.{
  ℕ, zero, suc, ◌+◌, ◌-◌, ◌*◌, ◌/◌, ◌%◌, ◌^◌, bit_and, bit_or, bit_xor, not, List, [], ◌∷◌, ◌==◌,
  if◌then◌else◌, length, get_or, u32, ◌<<◌, ◌>>>◌, not32,
}

-- The loop of `bit_reverse<uint32_t>`, with the rounds left.
pub bit_reverse_rounds : ℕ → ℕ → ℕ → ℕ
bit_reverse_rounds zero value result = result
bit_reverse_rounds (suc left) value result =
    bit_reverse_rounds left (value >>> 1) (bit_or (u32 (result << 1)) (bit_and value 1))

pub bit_reverse : ℕ → ℕ
unfolding bit_reverse_rounds
bit_reverse value = bit_reverse_rounds 32 value 0

-- kCrc32Polynomial
abbrev polynomial : ℕ
polynomial = 0x04C11DB7

-- kCrc32ReversedPolynomial; the source asserts the value, and so does `Tests`.
pub reversed_polynomial : ℕ
unfolding bit_reverse
reversed_polynomial = bit_reverse polynomial

-- One round of the loop over `j`.
pub table_step : ℕ → ℕ
table_step crc =
    if not (bit_and crc 1 == 0) then bit_xor (crc >>> 1) reversed_polynomial else crc >>> 1

pub table_steps : ℕ → ℕ → ℕ
table_steps zero crc = crc
table_steps (suc left) crc = table_steps left (table_step crc)

-- The entries from `index` on.
pub lookup_table_from : ℕ → ℕ → List ℕ
lookup_table_from zero index = []
lookup_table_from (suc left) index = table_steps 8 index ∷ lookup_table_from left (index + 1)

-- crc_table
pub crc_table : List ℕ
unfolding lookup_table_from table_steps table_step reversed_polynomial
crc_table = lookup_table_from 256 0

pub record Crc32 : Type 0 where
  pub sum : ℕ

abbrev pub fresh : Crc32
fresh = record { sum = 0 }

-- temp = crc_table[(memory[i] ^ temp) & 255] ^ (temp >> 8)
pub update : ℕ → ℕ → ℕ
update temp byte = bit_xor (get_or crc_table (bit_and (bit_xor byte temp) 255) 0) (temp >>> 8)

pub update_all : ℕ → List ℕ → ℕ
update_all temp [] = temp
update_all temp (byte ∷ rest) = update_all (update temp byte) rest

-- `memory` holds `length` bytes. The sum comes back beside the object, which holds it too.
unfoldable pub calc : List ℕ → Crc32 → ℕ × Crc32
unfolding update_all update crc_table
calc memory c =
    if length memory == 0
    then (c.sum, c)
    else let sum = not32 (update_all (not32 c.sum) memory) in (sum, record c { sum = sum })
