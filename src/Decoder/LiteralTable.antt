-- ===== src/Decoder/LiteralTable.antt =====
-- `HuffmanDecoder::read_literal_table` of src/huffman_decoder.cc.
pub mod Loads
pub mod Rounds
pub mod Total
pub mod Honest
mod Tests
use cxx_unlzx.Base.{
  ℕ, zero, suc, ◌+◌, ◌-◌, ◌^◌, bit_or, List, ltb, ◌==◌, if◌then◌else◌, length, get_elem?, take,
  drop, ◌++◌, replicate, u8, u32, ◌<<◌, min,
}
use cxx_unlzx.Exec.{
  Exec, done, fail, fault, exhausted, give_up, ◌>>=◌, ◌>>◌, pure, or_fault, focus, modify, write,
}
use cxx_unlzx.Input.{InputBuffer, read_bits, skip}
use cxx_unlzx.Table.{HuffmanTable, reset_table}
use cxx_unlzx.Decoder.{Session, on_source, base_values, read_symbol}

-- The status of the call is dropped.
abbrev pub ignoring {ℓ κ} : {S : Type ℓ} {A : Type κ} → Exec S A → Exec S (Unit {0})
ignoring m s = elim (m s) [
  | done a t ↦ done tt t
  | fail e t ↦ done tt t
  | fault ↦ fault
  | exhausted ↦ exhausted
]

abbrev pub put_offsets : Session → HuffmanTable → Session
put_offsets s t = record s { decoder = record s.decoder { offsets = t } }

abbrev pub put_huffman20 : Session → HuffmanTable → Session
put_huffman20 s t = record s { decoder = record s.decoder { huffman20 = t } }

abbrev pub put_literals : Session → HuffmanTable → Session
put_literals s t = record s { decoder = record s.decoder { literals = t } }

-- A table whose bit lengths are read from the source.
pub record Loading : Type 0 where
  pub source : InputBuffer
  pub lengths : List ℕ

-- for (auto& bit_length : bit_length_), from `i`, with the rounds left.
unfoldable pub read_lengths : ℕ → ℕ → ℕ → Exec Loading (Unit {0})
read_lengths width zero i = pure tt
read_lengths width (suc left) i = do
  val ← focus (λ s. s.source) (λ s b. record s { source = b }) (read_bits width)
  focus (λ s. s.lengths) (λ s xs. record s { lengths = xs }) (write i (u8 val))
  read_lengths width left (i + 1)

abbrev pub load :
    (Session → HuffmanTable) → (Session → HuffmanTable → Session) → ℕ → Exec Session (Unit {0})
load get put width s =
    focus (λ s. record { source = s.source; lengths = (get s).bit_length })
      (λ s l. put (record s { source = l.source }) (record (get s) { bit_length = l.lengths }))
      (read_lengths width (length (get s).bit_length) 0) s

unfoldable pub read_offsets : Exec Session (Unit {0})
read_offsets = do
  load (λ s. s.decoder.offsets) put_offsets 3
  focus (λ s. s.decoder.offsets) put_offsets reset_table

unfoldable pub read_huffman20 : Exec Session (Unit {0})
read_huffman20 = do
  load (λ s. s.decoder.huffman20) put_huffman20 4
  focus (λ s. s.decoder.huffman20) put_huffman20 reset_table

-- std::fill_n
abbrev pub fill_n : ℕ → ℕ → ℕ → List ℕ → List ℕ
fill_n pos count value xs = take pos xs ++ replicate count value ++ drop (pos + count) xs

-- fill_literals_bit_lengths: how many lengths were set.
unfoldable pub fill_lengths : ℕ → ℕ → ℕ → ℕ → Exec Session ℕ
fill_lengths max_symbol pos byte_count value s =
    let t = s.decoder.literals in
    let count = min byte_count (u32 (max_symbol + 2 ^ 32 - pos)) in
    if ltb (length t.bit_length) (pos + count)
    then fault
    else done count
        (put_literals s (record t { bit_length = fill_n pos count (u8 value) t.bit_length }))

unfoldable pub read_symbol20 : Exec InputBuffer (Unit {0}) → Exec Session ℕ
read_symbol20 before s = on_source (read_symbol s.decoder.huffman20 6 20 before) s

-- kBaseValues[literals_.bit_length_[pos] + 17 - symbol], the index a uint32_t.
unfoldable pub base_value : ℕ → ℕ → Exec Session ℕ
base_value pos symbol = do
  old ← λ s. or_fault (get_elem? s.decoder.literals.bit_length pos) s
  or_fault (get_elem? base_values (u32 (old + 17 + 2 ^ 32 - symbol)))

-- literals_.bit_length_[pos] = value
unfoldable pub set_length : ℕ → ℕ → Exec Session (Unit {0})
set_length pos value =
    focus (λ s. s.decoder.literals.bit_length)
      (λ s xs. put_literals s (record s.decoder.literals { bit_length = xs })) (write pos value)

unfoldable pub zero_fill : ℕ → ℕ → ℕ → Exec Session ℕ
zero_fill fix max_symbol pos = do
  bits ← on_source (read_bits 4)
  filled ← fill_lengths max_symbol pos (3 + bits + fix) 0
  pure (pos + filled)

unfoldable pub repeat_zero : ℕ → ℕ → ℕ → Exec Session ℕ
repeat_zero fix max_symbol pos = do
  bits ← on_source (read_bits (6 - fix))
  filled ← fill_lengths max_symbol pos (19 + bits + fix) 0
  pure (pos + filled)

unfoldable pub repeat_previous : ℕ → ℕ → ℕ → Exec Session ℕ
repeat_previous fix max_symbol pos = do
  bits ← on_source (read_bits 1)
  symbol ← read_symbol20 (pure tt)
  value ← base_value pos symbol
  filled ← fill_lengths max_symbol pos (3 + bits + fix) value
  pure (pos + filled)

unfoldable pub one_length : ℕ → ℕ → Exec Session ℕ
one_length pos symbol = do value ← base_value pos symbol; set_length pos value; pure (pos + 1)

-- The `switch`: where the lengths go on after a symbol.
unfoldable pub apply_symbol : ℕ → ℕ → ℕ → ℕ → Exec Session ℕ
apply_symbol fix max_symbol pos symbol =
    if symbol == 17
    then zero_fill fix max_symbol pos
    else if symbol == 18
    then repeat_zero fix max_symbol pos
    else if symbol == 19
    then repeat_previous fix max_symbol pos
    else one_length pos symbol

-- do { … } while (pos < max_symbol), with fuel.
unfoldable pub lengths_loop : ℕ → ℕ → ℕ → ℕ → Exec Session ℕ
lengths_loop zero fix max_symbol pos = give_up
lengths_loop (suc fuel) fix max_symbol pos = do
  symbol ← read_symbol20 (ignoring (skip 0))
  pos' ← apply_symbol fix max_symbol pos symbol
  let rest = lengths_loop fuel fix max_symbol pos'
  if ltb pos' max_symbol then rest else pure pos'

-- Fuel for a round per length, and one more.
unfoldable pub length_block : ℕ → ℕ → ℕ → Exec Session ℕ
length_block fix max_symbol pos = do
  read_huffman20
  lengths_loop (suc max_symbol) fix max_symbol pos

-- `max_symbol` is 256, then 768, and at 1280 the outer loop ends.
unfoldable pub read_literals : Exec Session (Unit {0})
read_literals = do
  pos ← length_block 1 256 0
  length_block 0 768 pos
  focus (λ s. s.decoder.literals) put_literals reset_table

abbrev pub set_method : ℕ → Session → Session
set_method method s = record s { decoder = record s.decoder { decrunch_method = method } }

abbrev pub set_decrunch_length : ℕ → Session → Session
set_decrunch_length len s = record s { decoder = record s.decoder { decrunch_length = len } }

unfoldable pub read_literal_table : Exec Session (Unit {0})
read_literal_table = do
  method ← on_source (read_bits 3)
  modify (set_method method)
  if method == 3 then read_offsets else pure tt
  hi_byte ← on_source (read_bits 8)
  mid_byte ← on_source (read_bits 8)
  lo_byte ← on_source (read_bits 8)
  modify (set_decrunch_length (u32 (bit_or (bit_or (hi_byte << 16) (mid_byte << 8)) lo_byte)))
  if method == 1 then pure tt else read_literals
