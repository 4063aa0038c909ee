-- ===== src/Input/Bits.antt =====
-- Reading bits takes them from the front of the stream that `Stream` describes.
use native.Mathlib.Decide.{dec_lt}
use cxx_unlzx.Base.{ℕ, ◌+◌, ◌/◌, ◌%◌, ◌^◌, ◌≤◌, ◌<◌, ◌≡◌, ◌⊎◌, inl, inr, refl, ap, ◌∙◌, arith}
use cxx_unlzx.Status.{out_of_range}
use cxx_unlzx.Exec.{Outcome, done, fail, bind_outcome, ◌>>◌, pure, modify}
use cxx_unlzx.Input.{InputBuffer, peek_bits, consume, read_bits}
use cxx_unlzx.Input.Stream.{words_left, bit_stream, bits_left, IsValid}
use cxx_unlzx.Input.Refill.{
  filled, filled-IsValid, bit_stream-filled, low_bits_lem, bit_stream-consume, consume-IsValid,
  peek_held, peek_fetched, peek_empty, peek_too_wide,
}

-- Whether a request for `n` bits can be met: it is no wider than a word, and the bits are there.
abbrev pub Readable : ℕ → InputBuffer → Type 0
Readable n b = (n ≤ 16) × (n ≤ bits_left b)

-- What a peek leaves: the same stream, with the `n` bits in the bit buffer.
pub record Peeked (n : ℕ) (b b' : InputBuffer) (out : ℕ) : Type 0 where
  pub valid : IsValid b'
  pub same_bytes : b'.bytes ≡ b.bytes
  pub held : n ≤ b'.data_bits_available
  pub value : out ≡ bit_stream b % 2 ^ n
  pub stream : bit_stream b' ≡ bit_stream b
  pub left : bits_left b' ≡ bits_left b

pub data PeekResult (n : ℕ) (b : InputBuffer) : Outcome InputBuffer ℕ → Type 0 where
  peeked :
      {out : ℕ} {b' : InputBuffer} → Readable n b → Peeked n b b' out → PeekResult n b (done out b')
  refused : (16 < n) ⊎ (bits_left b < n) → PeekResult n b (fail out_of_range b)

module _ (n : ℕ) {b : InputBuffer} (v : IsValid b) (fits : n ≤ 16) where
  peeks_held : n ≤ b.data_bits_available → PeekResult n b (peek_bits n b)
  unfolding bits_left
  peeks_held held = rw (peek_held n v fits held) (
      peeked (fits, omega arith)
        (record {
          valid = v;
          same_bytes = refl;
          held = held;
          value = low_bits_lem n v fits held;
          stream = refl;
          left = refl;
        }))

  peeks_fetched : b.data_bits_available < n → 1 ≤ words_left b → PeekResult n b (peek_bits n b)
  unfolding bits_left words_left
  peeks_fetched short more =
      let v' : IsValid (filled b) = filled-IsValid v more (omega arith) in
      let held : n ≤ b.data_bits_available + 16 = omega arith in
      let same : bit_stream (filled b) ≡ bit_stream b = bit_stream-filled v more in
      rw (peek_fetched n v fits short more) (
        peeked (fits, omega arith)
          (record {
            valid = v';
            same_bytes = refl;
            held = held;
            value = low_bits_lem n v' fits held ∙ ap (λ t. t % 2 ^ n) same;
            stream = same;
            left = omega (arith, v.inside);
          }))

  peeks_empty : b.data_bits_available < n → words_left b ≡ 0 → PeekResult n b (peek_bits n b)
  unfolding bits_left
  peeks_empty short empty = rw (peek_empty n v fits short empty) (refused (inr (omega arith)))

  peeks : PeekResult n b (peek_bits n b)
  peeks = elim (dec_lt b.data_bits_available n) [
    | no held ↦ peeks_held (omega arith)
    | yes short ↦ elim (dec_lt 0 (words_left b)) [
      | yes more ↦ peeks_fetched short more
      | no empty ↦ peeks_empty short (omega arith)
    ]
  ]

-- On a valid buffer `peek_bits n` succeeds exactly where n is at most 16 and n bits are left: it
-- returns the n lowest bits of the bit stream and leaves a valid buffer with the same stream and
-- as many bits left, n of them in the bit buffer. Otherwise it fails with OutOfRange and the
-- buffer is unchanged.
pub peek_bits_lem : (n : ℕ) (b : InputBuffer) → IsValid b → PeekResult n b (peek_bits n b)
peek_bits_lem n b v = elim (dec_lt 16 n) [
  | yes wide ↦ rw (peek_too_wide n b wide) (refused (inl wide))
  | no fits ↦ peeks n v (omega arith)
]

-- What a read leaves: the stream without its first `n` bits.
pub record Took (n : ℕ) (b b' : InputBuffer) (out : ℕ) : Type 0 where
  pub valid : IsValid b'
  pub same_bytes : b'.bytes ≡ b.bytes
  pub value : out ≡ bit_stream b % 2 ^ n
  pub stream : bit_stream b' ≡ bit_stream b / 2 ^ n
  pub left : bits_left b' + n ≡ bits_left b

pub data ReadResult (n : ℕ) (b : InputBuffer) : Outcome InputBuffer ℕ → Type 0 where
  took :
      {out : ℕ} {b' : InputBuffer} → Readable n b → Took n b b' out → ReadResult n b (done out b')
  refused : (16 < n) ⊎ (bits_left b < n) → ReadResult n b (fail out_of_range b)

Took-consume :
    (n : ℕ) {b b' : InputBuffer} {out : ℕ}
    → n ≤ 16
    → Peeked n b b' out
    → Took n b (consume n b') out
unfolding bits_left words_left
Took-consume n {b} {b'} fits p = record {
  valid = consume-IsValid n p.valid fits p.held;
  same_bytes = p.same_bytes;
  value = p.value;
  stream = bit_stream-consume n p.valid fits p.held ∙ ap (λ t. t / 2 ^ n) p.stream;
  left = omega (arith, p.left, p.held);
}

-- On a valid buffer `read_bits n` succeeds exactly where n is at most 16 and n bits are left: it
-- returns the n lowest bits of the bit stream and leaves a valid buffer over the same bytes whose
-- stream is the rest. Otherwise it fails with OutOfRange and the buffer is unchanged.
pub read_bits_lem : (n : ℕ) (b : InputBuffer) → IsValid b → ReadResult n b (read_bits n b)
unfolding read_bits
read_bits_lem n b v = go (peek_bits n b) (peek_bits_lem n b v)
  where
    go :
        (o : Outcome InputBuffer ℕ)
        → PeekResult n b o
        → ReadResult n b (bind_outcome o (λ out. modify (consume n) >> pure out))
    go o (peeked ok p) = took ok (Took-consume n ok.0 p)
    go o (refused why) = refused why
