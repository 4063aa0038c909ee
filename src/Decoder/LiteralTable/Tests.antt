-- ===== src/Decoder/LiteralTable/Tests.antt =====
-- `read_literal_table` on a fresh decoder.
use cxx_unlzx.Base.{ℕ, ◌≡◌, refl, arith, List, [], ◌∷◌, length-replicate}
use cxx_unlzx.Base.Octets.{AllBytes-check}
use cxx_unlzx.Exec.{Outcome, done}
use cxx_unlzx.Input.{over, read_bits, peek_bits, refill, read_word}
use cxx_unlzx.Input.Stream.{IsValid, over-IsValid}
use cxx_unlzx.Table.{new_table}
use cxx_unlzx.Decoder.{Session, new_decoder}
use cxx_unlzx.Decoder.LiteralTable.{read_literal_table}
use cxx_unlzx.Decoder.LiteralTable.Loads.{HasSymbols}
use cxx_unlzx.Decoder.LiteralTable.Total.{Spent, read_literal_table_lem}

-- Method 1, so that the tables stay, and a length of 2: three bits, then three bytes, the highest
-- first, from the lowest bit of the word 0x0001 on to the word 0x0010.
abbrev packed : List ℕ
packed = 0x00 ∷ 0x01 ∷ 0x00 ∷ 0x10 ∷ []

abbrev session : Session
session = record { source = over packed; decoder = new_decoder }

abbrev shown : Outcome Session (Unit {0}) → List ℕ
shown (done a s) = s.decoder.decrunch_method ∷ s.decoder.decrunch_length ∷ []
shown _ = []

old_tables : shown (read_literal_table session) ≡ 1 ∷ 2 ∷ []
unfolding read_literal_table read_bits peek_bits refill read_word new_decoder
old_tables = refl

valid : IsValid (over packed)
valid = over-IsValid packed (AllBytes-check packed refl) (omega arith)

new_symbols : HasSymbols new_decoder
unfolding new_decoder new_table
new_symbols = record {
  offsets = rw length-replicate (omega arith);
  huffman20 = rw length-replicate (omega arith);
  literals = rw length-replicate (omega arith);
}

read_literal_table_lem_example : Spent session (read_literal_table session)
read_literal_table_lem_example = read_literal_table_lem session valid new_symbols
