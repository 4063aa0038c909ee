-- ===== src/Table.antt =====
-- `huffman::HuffmanTable` of src/huffman_table.hh and src/huffman_table.cc.
pub mod Reverse
pub mod Slots
pub mod Fill
pub mod Codes
pub mod Short
pub mod Pass
pub mod Reset
pub mod Kraft
pub mod Sons
pub mod Keeps
pub mod Rebuilds
pub mod Honest
mod Tests
use cxx_unlzx.Base.{
  ℕ, zero, suc, ◌+◌, ◌-◌, ◌*◌, ◌/◌, ◌%◌, ◌^◌, bit_and, bit_or, List, [], ◌∷◌, ltb, ◌==◌,
  if◌then◌else◌, length, get_elem?, replicate, u16, u32, ◌<<◌, ◌>>>◌,
}
use cxx_unlzx.Status.{huffman_table_error}
use cxx_unlzx.Exec.{
  Outcome, Exec, done, ◌>>=◌, ◌>>◌, pure, raise, or_fault, gets, modify, embed, focus, write,
}

pub record HuffmanTable : Type 0 where
  pub table_bits : ℕ
  pub bit_length : List ℕ
  pub table : List ℕ

-- HuffmanTable(table_bits, num_symbols, num_decode_entries): `resize` fills with zeros.
unfoldable pub new_table : ℕ → ℕ → ℕ → HuffmanTable
new_table bits symbols entries = record {
  table_bits = bits;
  bit_length = replicate symbols 0;
  table = replicate entries 0;
}

-- The variables of `reset_table` that outlive a round, and the array that it fills.
pub record Build : Type 0 where
  pub table : List ℕ
  pub position : ℕ
  pub next_symbol : ℕ

abbrev pub put_table : Build → List ℕ → Build
put_table b xs = record b { table = xs }

abbrev pub on_table {ℓ} : {A : Type ℓ} → Exec (List ℕ) A → Exec Build A
on_table = focus (λ b. b.table) put_table

-- The loop of `reverse_bits`, with the rounds left.
pub reverse_bits_rounds : ℕ → ℕ → ℕ → ℕ → ℕ
reverse_bits_rounds zero value i leaf = leaf
reverse_bits_rounds (suc left) value i leaf =
    reverse_bits_rounds left value (i + 1) (bit_or (u32 (leaf << 1)) (bit_and (value >>> i) 1))

unfoldable pub reverse_bits : ℕ → ℕ → ℕ
unfolding reverse_bits_rounds
reverse_bits bits value = reverse_bits_rounds bits value 0 0

-- while (fill > 0) { fill--; table_[leaf] = symbol; leaf += next_symbol; }
unfoldable pub fill_entries : ℕ → ℕ → ℕ → ℕ → Exec (List ℕ) (Unit {0})
fill_entries zero leaf step symbol = pure tt
fill_entries (suc fill) leaf step symbol = do
  write leaf (u16 symbol)
  fill_entries fill (u32 (leaf + step)) step symbol

abbrev pub advance : ℕ → Build → Build
advance n b = record b { position = u32 (b.position + n) }

-- The body of the first pass for a symbol of the current length.
unfoldable pub assign_short : ℕ → ℕ → ℕ → ℕ → Exec Build (Unit {0})
assign_short bits len bit_mask symbol = do
  leaf ← gets (λ b. reverse_bits bits b.position)
  modify (advance bit_mask)
  position ← gets (λ b. b.position)
  if ltb (2 ^ bits) position
      then raise huffman_table_error
      else on_table (fill_entries bit_mask leaf (2 ^ len) symbol)

-- for (symbol = 0; symbol < bit_length_.size(); symbol++), over the lengths that are left.
unfoldable pub short_symbols : ℕ → ℕ → ℕ → List ℕ → ℕ → Exec Build (Unit {0})
short_symbols bits len bit_mask [] symbol = pure tt
short_symbols bits len bit_mask (l ∷ rest) symbol = do
  if l == len then assign_short bits len bit_mask symbol else pure tt
  short_symbols bits len bit_mask rest (symbol + 1)

-- while (current_bit_length <= table_bits_), from `len`, with the rounds left.
unfoldable pub short_lengths : ℕ → List ℕ → ℕ → ℕ → ℕ → Exec Build (Unit {0})
short_lengths bits lens zero len bit_mask = pure tt
short_lengths bits lens (suc left) len bit_mask = do
  short_symbols bits len bit_mask lens 0
  short_lengths bits lens left (len + 1) (bit_mask >>> 1)

-- for (symbol = position; symbol < table_mask; symbol++) table_[reverse_bits(symbol)] = 0
unfoldable pub clear_rest : ℕ → ℕ → ℕ → Exec (List ℕ) (Unit {0})
clear_rest bits zero symbol = pure tt
clear_rest bits (suc left) symbol = do
  write (reverse_bits bits symbol) 0
  clear_rest bits left (symbol + 1)

abbrev pub read_entry : ℕ → Exec Build ℕ
read_entry i b = or_fault (get_elem? b.table i) b

-- if (table_[leaf] == 0) { … }: a fresh inner node, with two empty sons.
unfoldable pub grow_node : ℕ → Exec Build (Unit {0})
grow_node leaf = do
  entry ← read_entry leaf
  if entry == 0
      then (do
        node ← gets (λ b. b.next_symbol)
        on_table (write (u32 (node << 1)) 0)
        on_table (write (u32 (u32 (node << 1) + 1)) 0)
        on_table (write leaf (u16 node))
        modify (λ b. record b { next_symbol = u32 (node + 1) }))
      else pure tt

-- for (fill = 0; fill < current_bit_length - table_bits_; fill++): the walk down to the leaf.
unfoldable pub walk_down : ℕ → ℕ → ℕ → Exec Build ℕ
walk_down zero fill leaf = pure leaf
walk_down (suc left) fill leaf = do
  grow_node leaf
  entry ← read_entry leaf
  position ← gets (λ b. b.position)
  walk_down left (fill + 1) (bit_or (u32 (entry << 1)) (bit_and (position >>> (15 - fill)) 1))

-- The body of the second pass for a symbol of the current length.
unfoldable pub assign_long : ℕ → ℕ → ℕ → ℕ → Exec Build (Unit {0})
assign_long bits len bit_mask symbol = do
  top ← gets (λ b. reverse_bits bits (b.position >>> 16))
  leaf ← walk_down (len - bits) 0 top
  on_table (write leaf (u16 symbol))
  modify (advance bit_mask)
  position ← gets (λ b. b.position)
  if ltb (u32 (2 ^ bits << 16)) position then raise huffman_table_error else pure tt

unfoldable pub long_symbols : ℕ → ℕ → ℕ → List ℕ → ℕ → Exec Build (Unit {0})
long_symbols bits len bit_mask [] symbol = pure tt
long_symbols bits len bit_mask (l ∷ rest) symbol = do
  if l == len then assign_long bits len bit_mask symbol else pure tt
  long_symbols bits len bit_mask rest (symbol + 1)

-- while (current_bit_length <= 16), from `len`, with the rounds left.
unfoldable pub long_lengths : ℕ → List ℕ → ℕ → ℕ → ℕ → Exec Build (Unit {0})
long_lengths bits lens zero len bit_mask = pure tt
long_lengths bits lens (suc left) len bit_mask = do
  long_symbols bits len bit_mask lens 0
  long_lengths bits lens left (len + 1) (bit_mask >>> 1)

unfoldable pub check_full : ℕ → Exec Build (Unit {0})
check_full table_mask = do
  position ← gets (λ b. b.position)
  if position == table_mask then pure tt else raise huffman_table_error

-- The second pass, entered where the first left room.
unfoldable pub second_pass : ℕ → List ℕ → Exec Build (Unit {0})
second_pass bits lens = do
  from ← gets (λ b. b.position)
  on_table (clear_rest bits (2 ^ bits - from) from)
  modify (λ b. record b { position = u32 (b.position << 16); next_symbol = 2 ^ bits >>> 1 })
  long_lengths bits lens (16 - bits) (bits + 1) 32768
  check_full (u32 (2 ^ bits << 16))

-- What follows the first pass.
unfoldable pub after_first : ℕ → List ℕ → Exec Build (Unit {0})
after_first bits lens = do
  position ← gets (λ b. b.position)
  if position == 2 ^ bits then check_full (2 ^ bits) else second_pass bits lens

unfoldable pub build : ℕ → List ℕ → Exec Build (Unit {0})
build bits lens = do short_lengths bits lens bits 1 (2 ^ bits >>> 1); after_first bits lens

-- `1 << table_bits_` is taken for an int, so a table has at most 30 bits; those of the decoder
-- have 6, 7 and 12.
unfoldable pub reset_table : Exec HuffmanTable (Unit {0})
reset_table t =
    embed (λ t b. record t { table = b.table }) t
      (build t.table_bits t.bit_length (record { table = t.table; position = 0; next_symbol = 0 }))
