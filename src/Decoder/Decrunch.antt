-- ===== src/Decoder/Decrunch.antt =====
-- `HuffmanDecoder::decrunch` of src/huffman_decoder.cc.
pub mod Copy
pub mod Ready
pub mod Reads
pub mod Grows
pub mod Total
pub mod Honest
mod Tests
use cxx_unlzx.Base.{
  ℕ, zero, suc, ◌+◌, ◌-◌, ◌*◌, ◌/◌, ◌^◌, ◌%◌, bit_and, Bool, ◌&&◌, not, List, [], ◌∷◌, ltb, leb,
  ◌==◌, if◌then◌else◌, length, get_elem?, set, u8, u32, ◌<<◌, ◌>>>◌,
}
use cxx_unlzx.Status.{buffer_overflow, out_of_range}
use cxx_unlzx.Exec.{
  Outcome, Exec, done, fail, fault, exhausted, ◌>>=◌, ◌>>◌, pure, raise, or_fault, focus, gets,
  modify, write,
}
use cxx_unlzx.Input.{InputBuffer, is_eof, read_bits, peek_bits}
use cxx_unlzx.Decoder.{
  HuffmanDecoder, Session, on_source, base_offsets, symbol_bit_lengths, read_symbol,
}

-- The source, the decoder, and the caller's `target` and `pos`.
pub record Window : Type 0 where
  pub source : InputBuffer
  pub decoder : HuffmanDecoder
  pub target : List ℕ
  pub pos : ℕ

abbrev pub from_source {ℓ} : {A : Type ℓ} → Exec InputBuffer A → Exec Window A
from_source = focus (λ w. w.source) (λ w b. record w { source = b })

-- target[pos++] = value
unfoldable pub put_byte : ℕ → Exec Window (Unit {0})
put_byte value = do
  pos ← gets (λ w. w.pos)
  focus (λ w. w.target) (λ w xs. record w { target = xs }) (write pos value)
  modify (λ w. record w { pos = w.pos + 1 })

-- A byte to put as it is.
unfoldable pub put_literal : ℕ → Exec Window (Unit {0})
put_literal symbol w =
    if leb (length w.target) w.pos then fail buffer_overflow w else put_byte (u8 symbol) w

-- for (size_t i = 0; i < count; ++i) target[pos++] = target[start_idx + i], from `i` on.
unfoldable pub copy_bytes : ℕ → ℕ → ℕ → Exec Window (Unit {0})
copy_bytes zero start_idx i = pure tt
copy_bytes (suc left) start_idx i = do
  byte ← λ w. or_fault (get_elem? w.target (start_idx + i)) w
  put_byte byte
  copy_bytes left start_idx (i + 1)

-- The offset of a match, and how many of the bits that it was read from are still to be taken.
unfoldable pub long_offset : ℕ → ℕ → Exec Window (ℕ × ℕ)
long_offset base width = do
  high ← from_source (read_bits (width - 3))
  index ← from_source (peek_bits 7)
  low ← λ w. or_fault (get_elem? w.decoder.offsets.table index) w
  len ← λ w. or_fault (get_elem? w.decoder.offsets.bit_length low) w
  pure (u32 (base + (high << 3) + low), len)

-- An offset of 0 is the last one again.
unfoldable pub short_offset : ℕ → ℕ → Exec Window (ℕ × ℕ)
short_offset base width = do
  bits ← from_source (peek_bits width)
  last ← gets (λ w. w.decoder.last_offset)
  let count = u32 (base + bits)
  pure (if count == 0 then last else count, width)

unfoldable pub choose_offset : ℕ → ℕ → Exec Window (ℕ × ℕ)
choose_offset base width = do
  method ← gets (λ w. w.decoder.decrunch_method)
  if leb 3 width && method == 3 then long_offset base width else short_offset base width

abbrev pub set_last_offset : ℕ → Window → Window
set_last_offset offset w = record w { decoder = record w.decoder { last_offset = offset } }

unfoldable pub read_offset : ℕ → Exec Window (Unit {0})
read_offset symbol = do
  let temp = bit_and symbol 31
  base ← or_fault (get_elem? base_offsets temp)
  width ← or_fault (get_elem? symbol_bit_lengths temp)
  (offset, rest) ← choose_offset base width
  from_source (read_bits rest)
  modify (set_last_offset offset)

unfoldable pub read_count : ℕ → Exec Window ℕ
read_count symbol = do
  let temp = bit_and (symbol >>> 5) 15
  base ← or_fault (get_elem? base_offsets temp)
  width ← or_fault (get_elem? symbol_bit_lengths temp)
  bits ← from_source (read_bits width)
  pure (u32 (base + 3 + bits))

-- The checks on a match and the copy.
unfoldable pub copy_match : ℕ → Exec Window (Unit {0})
copy_match count w =
    if ltb w.pos w.decoder.last_offset
    then fail out_of_range w
    else if ltb (length w.target) (w.pos + count)
    then fail buffer_overflow w
    else copy_bytes count (w.pos - w.decoder.last_offset) 0 w

unfoldable pub put_match : ℕ → Exec Window (Unit {0})
put_match symbol = do read_offset symbol; count ← read_count symbol; copy_match count

unfoldable pub next_symbol : Exec Window ℕ
next_symbol w = from_source (read_symbol w.decoder.literals 12 768 (pure tt)) w

unfoldable pub put_symbol : ℕ → Exec Window (Unit {0})
put_symbol symbol = if ltb symbol 256 then put_literal symbol else put_match (symbol - 256)

unfoldable pub decrunch_once : Exec Window (Unit {0})
decrunch_once = do symbol ← next_symbol; put_symbol symbol

-- while (pos < threshold && (!source->is_eof())), with fuel.
unfoldable pub decrunch_loop : ℕ → ℕ → Exec Window (Unit {0})
decrunch_loop zero threshold w = exhausted
decrunch_loop (suc fuel) threshold w =
    let rest = (decrunch_once >> decrunch_loop fuel threshold) w in
    if ltb w.pos threshold && not (is_eof w.source) then rest else done tt w

-- Fuel for a round per byte below the threshold, and one more.
unfoldable pub decrunch : ℕ → Exec Window (Unit {0})
decrunch threshold = decrunch_loop (suc threshold) threshold
