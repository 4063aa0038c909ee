-- ===== src/Input/Stream.antt =====
-- What a reader of bits sees of an `InputBuffer`: one number whose lowest bits come first, and how
-- many bits there are. The words not yet taken follow those in the bit buffer.
use cxx_unlzx.Base.{
  ℕ, zero, suc, ◌+◌, ◌-◌, ◌*◌, ◌/◌, ◌^◌, ◌≤◌, ◌<◌, ◌≡◌, refl, List, [], ◌∷◌, arith, length, get_or,
  drop,
}
use cxx_unlzx.Base.Octets.{AllBytes, get_or-AllBytes}
use cxx_unlzx.Input.{InputBuffer, over, filesize}

-- Big-endian words, the first one lowest. An odd last byte is never read.
unfoldable pub word_stream : List ℕ → ℕ
word_stream [] = 0
word_stream (hi ∷ []) = 0
word_stream (hi ∷ lo ∷ rest) = hi * 256 + lo + 2 ^ 16 * word_stream rest

unfoldable pub words_left : InputBuffer → ℕ
words_left b = (filesize b - b.current_position) / 2

-- The bits to come, as a number.
unfoldable pub bit_stream : InputBuffer → ℕ
bit_stream b =
    b.data_bits + 2 ^ b.data_bits_available * word_stream (drop b.current_position b.bytes)

-- How many bits are left.
unfoldable pub bits_left : InputBuffer → ℕ
bits_left b = b.data_bits_available + 16 * words_left b

-- A buffer between calls. No C++ object is larger than 2^63 - 1 bytes.
pub record IsValid (b : InputBuffer) : Type 0 where
  pub octets : (i : ℕ) → get_or b.bytes i 0 < 256
  pub fits : filesize b < 2 ^ 63
  pub inside : b.current_position ≤ filesize b
  pub window : b.data_bits_available ≤ 31
  pub pending : b.data_bits < 2 ^ b.data_bits_available

-- A new buffer over bytes.
pub over-IsValid : (xs : List ℕ) → AllBytes xs → length xs < 2 ^ 63 → IsValid (over xs)
over-IsValid xs h k = record {
  octets = λ i. get_or-AllBytes xs i h;
  fits = k;
  inside = omega arith;
  window = omega arith;
  pending = omega arith;
}

drop-eq-cons : (xs : List ℕ) (p : ℕ) → p < length xs → drop p xs ≡ get_or xs p 0 ∷ drop (suc p) xs
drop-eq-cons [] p h = elim h [ ]
drop-eq-cons (x ∷ xs) zero h = refl
drop-eq-cons (x ∷ xs) (suc p) h = drop-eq-cons xs p (omega arith)

pub word_stream-drop :
    (xs : List ℕ) (p : ℕ)
    → suc p < length xs
    → word_stream (drop p xs)
      ≡ get_or xs p 0 * 256 + get_or xs (suc p) 0 + 2 ^ 16 * word_stream (drop (suc (suc p)) xs)
unfolding word_stream
word_stream-drop xs p h =
    rw (drop-eq-cons xs p (omega arith), drop-eq-cons xs (suc p) (omega arith)) refl
