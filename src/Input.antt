-- ===== src/Input.antt =====
-- `InputBuffer` of src/mmap_buffer.hh and src/mmap_buffer.cc: bytes read in order, either whole or
-- as bits of 16-bit words, the first byte of a word the high one.
pub mod Stream
mod Refill
pub mod Bits
pub mod Bytes
pub mod Sequence
pub mod Honest
mod Tests
use cxx_unlzx.Base.{
  ℕ, ◌+◌, ◌-◌, ◌^◌, ◌*◌, ◌/◌, ◌%◌, bit_and, bit_or, Bool, List, [], ltb, ◌==◌, if◌then◌else◌,
  length, get_or, take, drop, u16, u32, u64, ◌<<◌, ◌>>>◌,
}
use cxx_unlzx.Status.{out_of_range, misaligned_data, unexpected_eof}
use cxx_unlzx.Exec.{done, fail, fault, Exec, ◌>>=◌, ◌>>◌, pure, raise, gets, modify}

-- `data` is what `data_` points to: `filesize_` bytes.
pub record InputBuffer : Type 0 where
  pub bytes : List ℕ
  pub current_position : ℕ
  pub data_bits : ℕ
  pub data_bits_available : ℕ

-- InputBuffer(data, size)
abbrev pub over : List ℕ → InputBuffer
over xs = record { bytes = xs; current_position = 0; data_bits = 0; data_bits_available = 0 }

abbrev pub filesize : InputBuffer → ℕ
filesize b = length b.bytes

unfoldable pub available : InputBuffer → ℕ
available b = u64 (filesize b + 2 ^ 64 - b.current_position)

unfoldable pub is_eof : InputBuffer → Bool
is_eof b = b.current_position == filesize b

-- data_[i], below filesize_
abbrev byte_at : InputBuffer → ℕ → ℕ
byte_at b i = get_or b.bytes i 0

unfoldable pub read_word : Exec InputBuffer ℕ
read_word b =
    let p = b.current_position in
    if ltb (filesize b) (u64 (p + 2))
    then fail out_of_range b
    else done (u16 (bit_or (byte_at b p << 8) (byte_at b (p + 1))))
        (record b { current_position = u64 (p + 2) })

-- data_bits_ |= word << data_bits_available_; data_bits_available_ += 16
abbrev pub add_word : ℕ → InputBuffer → InputBuffer
add_word word b = record b {
  data_bits = u32 (bit_or b.data_bits (word << b.data_bits_available));
  data_bits_available = u64 (b.data_bits_available + 16);
}

unfoldable pub refill : Exec InputBuffer (Unit {0})
refill = do word ← read_word; modify (add_word word)

abbrev pub low_bits : ℕ → InputBuffer → ℕ
low_bits n b = u16 (bit_and b.data_bits (2 ^ n - 1))

unfoldable pub peek_bits : ℕ → Exec InputBuffer ℕ
peek_bits n b =
    if ltb 16 n
    then fail out_of_range b
    else if ltb b.data_bits_available n
    then (refill >> gets (low_bits n)) b
    else done (low_bits n b) b

abbrev pub consume : ℕ → InputBuffer → InputBuffer
consume n b = record b {
  data_bits = b.data_bits >>> n;
  data_bits_available = b.data_bits_available - n;
}

unfoldable pub read_bits : ℕ → Exec InputBuffer ℕ
read_bits n = do out ← peek_bits n; modify (consume n); pure out

-- skip(length, out_position)
unfoldable pub skip : ℕ → Exec InputBuffer ℕ
skip len b =
    if ltb 0 b.data_bits_available
    then fail misaligned_data b
    else if ltb (filesize b) (u64 (b.current_position + len))
    then fail unexpected_eof b
    else done b.current_position (record b { current_position = u64 (b.current_position + len) })

-- The `len` bytes at `&data_[p]`.
unfoldable pub bytes_from : ℕ → ℕ → Exec InputBuffer (List ℕ)
bytes_from p len b =
    if ltb (filesize b) (p + len) then fault else done (take len (drop p b.bytes)) b

-- read_into, read_string_view and read_span differ in the type that the bytes come back as.
unfoldable pub read_into : ℕ → Exec InputBuffer (List ℕ)
read_into len = do p ← skip len; xs ← bytes_from p len; pure xs

unfoldable pub read_string_view : ℕ → Exec InputBuffer (List ℕ)
read_string_view len = do p ← skip len; xs ← bytes_from p len; pure xs

unfoldable pub read_span : ℕ → Exec InputBuffer (List ℕ)
read_span len = do p ← skip len; xs ← bytes_from p len; pure xs

unfoldable pub read_buffer : ℕ → Exec InputBuffer InputBuffer
read_buffer len = do p ← skip len; xs ← bytes_from p len; pure (over xs)
