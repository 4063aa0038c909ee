-- ===== src/Input/Refill.antt =====
-- The steps of `peek_bits`: fetching a word, masking, and dropping bits, as steps of the stream.
use native.Mathlib.Nat.{
  pow-le-pow_right, mul-le-mul_left, add-mul-mod_self_left, add-mul-div_left, mod-lt,
  div-lt_iff_lt-mul,
}
use native.Mathlib.Nat.{mul_assoc}
use cxx_unlzx.Base.{
  ℕ, suc, ◌+◌, ◌-◌, ◌*◌, ◌/◌, ◌%◌, ◌^◌, ◌≤◌, ◌<◌, ◌≡◌, refl, ap, sym, ◌∙◌, arith, get_or, drop,
  lt→ltb, le→ltb,
}
use cxx_unlzx.Base.Bits.{or_comm, or_shifted, and_mask}
use cxx_unlzx.Base.Pow.{two-pow-pos, two-pow-add, two-pow-split}
use cxx_unlzx.Status.{out_of_range}
use cxx_unlzx.Exec.{done, fail}
use cxx_unlzx.Input.{InputBuffer, read_word, refill, peek_bits, low_bits, consume}
use cxx_unlzx.Input.Stream.{word_stream, word_stream-drop, words_left, bit_stream, IsValid}

pub word_value : InputBuffer → ℕ
word_value b = get_or b.bytes b.current_position 0 * 256 + get_or b.bytes (suc b.current_position) 0

word_value-lt : {b : InputBuffer} → IsValid b → word_value b < 2 ^ 16
unfolding word_value
word_value-lt {b} v = omega (arith, v.octets b.current_position, v.octets (suc b.current_position))

-- The buffer after a word has been taken.
abbrev pub filled : InputBuffer → InputBuffer
filled b = record b {
  current_position = suc (suc b.current_position);
  data_bits = b.data_bits + 2 ^ b.data_bits_available * word_value b;
  data_bits_available = b.data_bits_available + 16;
}

regroup : (x p q v w z : ℕ) → q ≡ p * 2 ^ 16 → z ≡ v + 2 ^ 16 * w → x + p * v + q * w ≡ x + p * z
regroup x p q v w z e f = rw (e, f) (omega arith)

module _ {b : InputBuffer} (v : IsValid b) where
  pub read_word_lem :
      1 ≤ words_left b
      → read_word b
        ≡ done (word_value b) (record b { current_position = suc (suc b.current_position) })
  unfolding read_word words_left word_value
  read_word_lem h = ground (
    arith,
    v.fits,
    v.inside,
    v.octets b.current_position,
    v.octets (suc b.current_position),
    or_shifted 8 (get_or b.bytes b.current_position 0) (get_or b.bytes (suc b.current_position) 0),
  )

  read_word_empty : words_left b ≡ 0 → read_word b ≡ fail out_of_range b
  unfolding read_word words_left
  read_word_empty h = ground (arith, v.fits, v.inside)

  filled_fits :
      b.data_bits_available ≤ 15
      → b.data_bits + 2 ^ b.data_bits_available * word_value b < 2 ^ (b.data_bits_available + 16)
  filled_fits h =
      let P : ℕ = 2 ^ b.data_bits_available in
      omega (
        arith,
        v.pending,
        word_value-lt v,
        two-pow-add b.data_bits_available 16,
        mul-le-mul_left P (word_value-lt v),
      )

  pub refill_lem : 1 ≤ words_left b → b.data_bits_available ≤ 15 → refill b ≡ done tt (filled b)
  unfolding refill
  refill_lem h k = rw (read_word_lem h) (
      ground (
        arith,
        v.pending,
        filled_fits k,
        or_comm b.data_bits (word_value b * 2 ^ b.data_bits_available),
        or_shifted b.data_bits_available (word_value b) b.data_bits,
        pow-le-pow_right {n = 2} (omega arith) {i = b.data_bits_available + 16} {j = 31}
            (omega arith),
      ))

  pub filled-IsValid : 1 ≤ words_left b → b.data_bits_available ≤ 15 → IsValid (filled b)
  unfolding words_left
  filled-IsValid h k = record {
    octets = v.octets;
    fits = v.fits;
    inside = omega (arith, v.inside);
    window = omega arith;
    pending = filled_fits k;
  }

  pub bit_stream-filled : 1 ≤ words_left b → bit_stream (filled b) ≡ bit_stream b
  unfolding bit_stream words_left word_value
  bit_stream-filled h =
      regroup b.data_bits (2 ^ b.data_bits_available) (2 ^ (b.data_bits_available + 16))
        (word_value b) (word_stream (drop (suc (suc b.current_position)) b.bytes))
        (word_stream (drop b.current_position b.bytes)) (two-pow-add b.data_bits_available 16)
        (word_stream-drop b.bytes b.current_position (omega arith))

-- The mask keeps the low bits of the stream, once the bit buffer holds `n` of them.
module _ (n : ℕ) {b : InputBuffer} (v : IsValid b) (fits : n ≤ 16)
    (held : n ≤ b.data_bits_available) where
  split_stream :
      bit_stream b
      ≡ b.data_bits
        + 2 ^ n * (2 ^ (b.data_bits_available - n) * word_stream (drop b.current_position b.bytes))
  unfolding bit_stream
  split_stream = rw (two-pow-split n b.data_bits_available held) (rw mul_assoc refl)

  pub low_bits_lem : low_bits n b ≡ bit_stream b % 2 ^ n
  low_bits_lem =
      rw (split_stream, add-mul-mod_self_left, and_mask)
        (omega (
          arith,
          mod-lt b.data_bits (two-pow-pos n),
          pow-le-pow_right {n = 2} (omega arith) {i = n} {j = 16} fits,
        ))

  pub bit_stream-consume : bit_stream (consume n b) ≡ bit_stream b / 2 ^ n
  unfolding bit_stream
  bit_stream-consume = sym (
      ap (λ t. t / 2 ^ n) split_stream
      ∙ add-mul-div_left b.data_bits
          (2 ^ (b.data_bits_available - n) * word_stream (drop b.current_position b.bytes))
          (two-pow-pos n))

  pub consume-IsValid : IsValid (consume n b)
  consume-IsValid = record {
    octets = v.octets;
    fits = v.fits;
    inside = v.inside;
    window = omega (arith, v.window);
    pending =
        (div-lt_iff_lt-mul (two-pow-pos n)).1
          (omega (arith, v.pending, two-pow-split n b.data_bits_available held));
  }

-- The two ways to have `n` bits at hand: they are there, or a word is fetched.
module _ (n : ℕ) {b : InputBuffer} (v : IsValid b) (fits : n ≤ 16) where
  pub peek_held : n ≤ b.data_bits_available → peek_bits n b ≡ done (low_bits n b) b
  unfolding peek_bits
  peek_held h = ground arith

  pub peek_fetched :
      b.data_bits_available < n
      → 1 ≤ words_left b
      → peek_bits n b ≡ done (low_bits n (filled b)) (filled b)
  unfolding peek_bits
  peek_fetched h k =
      rw (le→ltb 16 n fits, lt→ltb b.data_bits_available n h, refill_lem v k (omega arith)) refl

  pub peek_empty :
      b.data_bits_available < n → words_left b ≡ 0 → peek_bits n b ≡ fail out_of_range b
  unfolding peek_bits refill
  peek_empty h k = rw (le→ltb 16 n fits, lt→ltb b.data_bits_available n h, read_word_empty v k) refl

pub peek_too_wide : (n : ℕ) (b : InputBuffer) → 16 < n → peek_bits n b ≡ fail out_of_range b
unfolding peek_bits
peek_too_wide n b h = ground arith
