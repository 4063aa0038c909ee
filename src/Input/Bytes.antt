-- ===== src/Input/Bytes.antt =====
-- Reading whole bytes: `skip`, `read_into`, `read_string_view`, `read_span`, `read_buffer`.
use native.Mathlib.Decide.{dec_lt}
use native.Mathlib.Nat.{add_assoc}
use cxx_unlzx.Base.{
  ℕ, ◌+◌, ◌^◌, ◌≤◌, ◌<◌, ◌≡◌, refl, arith, List, take, drop, ◌++◌, ap, sym, ◌∙◌, take-add,
  drop-drop,
}
use cxx_unlzx.Status.{misaligned_data, unexpected_eof}
use cxx_unlzx.Exec.{Outcome, done, fail, bind_outcome, ◌>>=◌, pure}
use cxx_unlzx.Input.{
  InputBuffer, over, filesize, skip, bytes_from, read_into, read_string_view, read_span,
  read_buffer,
}
use cxx_unlzx.Input.Stream.{IsValid}

-- The buffer after `len` bytes.
abbrev pub past : ℕ → InputBuffer → InputBuffer
past len b = record b { current_position = b.current_position + len }

abbrev pub next_bytes : ℕ → InputBuffer → List ℕ
next_bytes len b = take len (drop b.current_position b.bytes)

pub next_bytes-add :
    (m n : ℕ) (b : InputBuffer) → next_bytes (m + n) b ≡ next_bytes m b ++ next_bytes n (past m b)
next_bytes-add m n b =
    take-add m n (drop b.current_position b.bytes)
    ∙ ap (λ t. next_bytes m b ++ take n t) (drop-drop m b.current_position b.bytes)

pub past-add : (m n : ℕ) (b : InputBuffer) → past (m + n) b ≡ past n (past m b)
past-add m n b =
    ap (λ p. record b { current_position = p }) (sym (add_assoc b.current_position m n))

-- The outcomes of a method that reads `len` bytes and makes `of xs` of them.
pub data SpanResult {A : Type 0} (of : List ℕ → A) (len : ℕ) (b : InputBuffer)
    : Outcome InputBuffer A → Type 0 where
  got :
      {a : A} {b' : InputBuffer}
      → b.data_bits_available ≡ 0
      → b.current_position + len ≤ filesize b
      → a ≡ of (next_bytes len b)
      → b' ≡ past len b
      → IsValid b'
      → SpanResult of len b (done a b')
  misaligned : 0 < b.data_bits_available → SpanResult of len b (fail misaligned_data b)
  short :
      b.data_bits_available ≡ 0
      → filesize b < b.current_position + len
      → SpanResult of len b (fail unexpected_eof b)

pub skip_misaligned :
    (len : ℕ) (b : InputBuffer) → 0 < b.data_bits_available → skip len b ≡ fail misaligned_data b
unfolding skip
skip_misaligned len b used = ground arith

module _ {len : ℕ} {b : InputBuffer} (v : IsValid b) (small : len < 2 ^ 63)
    (aligned : b.data_bits_available ≡ 0) where
  pub skip_short : filesize b < b.current_position + len → skip len b ≡ fail unexpected_eof b
  unfolding skip
  skip_short beyond = ground (arith, v.fits, v.inside)

  pub skip_lem :
      b.current_position + len ≤ filesize b → skip len b ≡ done b.current_position (past len b)
  unfolding skip
  skip_lem there = ground (arith, v.fits)

bytes_from_lem :
    (len p : ℕ) (b : InputBuffer)
    → p + len ≤ filesize b
    → bytes_from p len b ≡ done (take len (drop p b.bytes)) b
unfolding bytes_from
bytes_from_lem len p b there = ground arith

pub past-IsValid :
    (len : ℕ) {b : InputBuffer}
    → IsValid b
    → b.current_position + len ≤ filesize b
    → IsValid (past len b)
past-IsValid len v there = record {
  octets = v.octets;
  fits = v.fits;
  inside = there;
  window = v.window;
  pending = v.pending;
}

module _ {A : Type 0} (of : List ℕ → A) (len : ℕ) (b : InputBuffer) (v : IsValid b)
    (small : len < 2 ^ 63) where
  -- The shape that the four methods share.
  spans :
      SpanResult of len b (bind_outcome (skip len b) (λ p. bytes_from p len >>= λ xs. pure (of xs)))
  spans = elim (dec_lt 0 b.data_bits_available) [
    | yes used ↦ rw (skip_misaligned len b used) (misaligned used)
    | no free ↦
        let aligned : b.data_bits_available ≡ 0 = omega arith in
        elim (dec_lt (filesize b) (b.current_position + len)) [
          | yes beyond ↦ rw (skip_short v small aligned beyond) (short aligned beyond)
          | no there' ↦
              let there : b.current_position + len ≤ filesize b = omega arith in
              rw
                (
                  skip_lem v small aligned there,
                  bytes_from_lem len b.current_position (past len b) there,
                )
                (got aligned there refl refl (past-IsValid len v there))
        ]
  ]

module _ (len : ℕ) (b : InputBuffer) (v : IsValid b) (small : len < 2 ^ 63) where
  -- On a valid buffer and for a length below 2 ^ 63, `read_into` returns the next bytes in order
  -- and moves past them, exactly where no bits are pending and the bytes are there; otherwise it
  -- fails with MisalignedData or UnexpectedEof and the buffer is unchanged. It makes no access
  -- outside the data.
  pub read_into_lem : SpanResult (λ xs. xs) len b (read_into len b)
  unfolding read_into
  read_into_lem = spans (λ xs. xs) len b v small

  pub read_string_view_lem : SpanResult (λ xs. xs) len b (read_string_view len b)
  unfolding read_string_view
  read_string_view_lem = spans (λ xs. xs) len b v small

  pub read_span_lem : SpanResult (λ xs. xs) len b (read_span len b)
  unfolding read_span
  read_span_lem = spans (λ xs. xs) len b v small

  -- On a valid buffer and for a length below 2 ^ 63, `read_buffer` returns a fresh buffer over the
  -- next bytes and moves past them, exactly where no bits are pending and the bytes are there;
  -- otherwise it fails with MisalignedData or UnexpectedEof and the buffer is unchanged.
  pub read_buffer_lem : SpanResult over len b (read_buffer len b)
  unfolding read_buffer
  read_buffer_lem = spans over len b v small

pub read_into-past :
    {len : ℕ} {b : InputBuffer}
    → IsValid b
    → len < 2 ^ 63
    → b.data_bits_available ≡ 0
    → b.current_position + len ≤ filesize b
    → read_into len b ≡ done (next_bytes len b) (past len b)
unfolding read_into
read_into-past {len} {b} v small aligned there =
    rw (skip_lem v small aligned there, bytes_from_lem len b.current_position (past len b) there)
      refl
