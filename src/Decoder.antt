-- ===== src/Decoder.antt =====
-- `huffman::HuffmanDecoder` of src/huffman_decoder.hh: its state, its constants, and the two things
-- that `read_literal_table` and `decrunch` have in common. The methods are in the children
-- `LiteralTable` and `Decrunch`.
pub mod Symbol
pub mod LiteralTable
pub mod Decrunch
use cxx_unlzx.Base.{
  ℕ, zero, suc, ◌+◌, ◌-◌, ◌*◌, ◌^◌, ◌%◌, bit_or, Bool, List, [], ◌∷◌, ltb, if◌then◌else◌, length,
  get_elem?, u32, ◌<<◌,
}
use cxx_unlzx.Exec.{Outcome, Exec, done, fail, fault, give_up, ◌>>=◌, ◌>>◌, pure, or_fault, focus}
use cxx_unlzx.Input.{InputBuffer, filesize, read_bits, peek_bits}
use cxx_unlzx.Table.{HuffmanTable, new_table}

pub record HuffmanDecoder : Type 0 where
  pub offsets : HuffmanTable
  pub huffman20 : HuffmanTable
  pub literals : HuffmanTable
  pub decrunch_method : ℕ
  pub decrunch_length : ℕ
  pub last_offset : ℕ

-- HuffmanDecoder()
unfoldable pub new_decoder : HuffmanDecoder
unfolding new_table
new_decoder = record {
  offsets = new_table 7 8 128;
  huffman20 = new_table 6 20 96;
  literals = new_table 12 768 5120;
  decrunch_method = 0;
  decrunch_length = 0;
  last_offset = 1;
}

-- The two objects that the methods change.
pub record Session : Type 0 where
  pub source : InputBuffer
  pub decoder : HuffmanDecoder

abbrev pub on_source {ℓ} : {A : Type ℓ} → Exec InputBuffer A → Exec Session A
on_source = focus (λ s. s.source) (λ s b. record s { source = b })

-- kSymbolBitLengths
abbrev pub symbol_bit_lengths : List ℕ
symbol_bit_lengths =
    0 ∷ 0 ∷ 0 ∷ 0 ∷ 1 ∷ 1 ∷ 2 ∷ 2 ∷ 3 ∷ 3 ∷ 4 ∷ 4 ∷ 5 ∷ 5 ∷ 6 ∷ 6 ∷ 7 ∷ 7 ∷ 8 ∷ 8 ∷ 9 ∷ 9 ∷ 10 ∷ 10
    ∷ 11 ∷ 11 ∷ 12 ∷ 12 ∷ 13 ∷ 13 ∷ 14 ∷ 14 ∷ []

-- kBaseOffsets
abbrev pub base_offsets : List ℕ
base_offsets =
    0 ∷ 1 ∷ 2 ∷ 3 ∷ 4 ∷ 6 ∷ 8 ∷ 12 ∷ 16 ∷ 24 ∷ 32 ∷ 48 ∷ 64 ∷ 96 ∷ 128 ∷ 192 ∷ 256 ∷ 384 ∷ 512 ∷ 768
    ∷ 1024 ∷ 1536 ∷ 2048 ∷ 3072 ∷ 4096 ∷ 6144 ∷ 8192 ∷ 12288 ∷ 16384 ∷ 24576 ∷ 32768 ∷ 49152 ∷ []

-- kBaseValues
abbrev pub base_values : List ℕ
base_values =
    0 ∷ 1 ∷ 2 ∷ 3 ∷ 4 ∷ 5 ∷ 6 ∷ 7 ∷ 8 ∷ 9 ∷ 10 ∷ 11 ∷ 12 ∷ 13 ∷ 14 ∷ 15 ∷ 16 ∷ 0 ∷ 1 ∷ 2 ∷ 3 ∷ 4 ∷ 5
    ∷ 6 ∷ 7 ∷ 8 ∷ 9 ∷ 10 ∷ 11 ∷ 12 ∷ 13 ∷ 14 ∷ 15 ∷ 16 ∷ []

-- do { read a bit; symbol = table_[symbol << 1 | bit]; } while (symbol >= limit), with fuel.
unfoldable pub follow : List ℕ → ℕ → ℕ → ℕ → Exec InputBuffer ℕ
follow table limit zero symbol = give_up
follow table limit (suc fuel) symbol = do
  bit ← read_bits 1
  next ← or_fault (get_elem? table (bit_or (u32 (symbol << 1)) bit))
  let rest = follow table limit fuel next
  if ltb next limit then pure next else rest

-- More than the bits that are left: each round of `follow` takes one.
abbrev pub bit_fuel : InputBuffer → ℕ
bit_fuel b = 8 * filesize b + 32

-- The table knows the symbol: take its bits.
unfoldable pub short_symbol : HuffmanTable → ℕ → Exec InputBuffer ℕ
short_symbol t symbol = do
  len ← or_fault (get_elem? t.bit_length symbol)
  read_bits len
  pure symbol

-- The table names a node: `before` is what the source does ahead of a long symbol.
unfoldable pub long_symbol :
    HuffmanTable → ℕ → ℕ → Exec InputBuffer (Unit {0}) → ℕ → Exec InputBuffer ℕ
long_symbol t width limit before symbol = do
  before
  read_bits width
  λ b. follow t.table limit (bit_fuel b) symbol b

-- One symbol by the table, whose entries from `limit` on are nodes.
unfoldable pub read_symbol : HuffmanTable → ℕ → ℕ → Exec InputBuffer (Unit {0}) → Exec InputBuffer ℕ
read_symbol t width limit before = do
  peeked ← peek_bits width
  symbol ← or_fault (get_elem? t.table peeked)
  if ltb symbol limit then short_symbol t symbol else long_symbol t width limit before symbol
