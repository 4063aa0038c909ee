-- ===== src/Input/Sequence.antt =====
-- Reads of an `InputBuffer` that follow one another, against one wider read.
use native.Mathlib.Nat.{div-div-eq-div-mul}
use cxx_unlzx.Base.{
  ℕ, ◌+◌, ◌*◌, ◌/◌, ◌%◌, ◌^◌, ◌≤◌, ◌<◌, ◌≡◌, inl, inr, ap, ap₂, sym, ◌∙◌, arith, List, ◌++◌,
}
use mathlib.Core.Path.{subst₂}
use cxx_unlzx.Base.Pow.{two-pow-add, mod-mul}
use cxx_unlzx.Exec.{Outcome, done}
use cxx_unlzx.Exec.Ensures.{done_injective}
use cxx_unlzx.Input.{InputBuffer, filesize, read_bits, read_into}
use cxx_unlzx.Input.Stream.{bit_stream, bits_left, IsValid}
use cxx_unlzx.Input.Bits.{Readable, ReadResult, took, refused, Took, read_bits_lem}
use cxx_unlzx.Input.Bytes.{
  SpanResult, got, misaligned, short, past, next_bytes, next_bytes-add, past-add, past-IsValid,
  read_into_lem, read_into-past,
}

-- What a read that succeeded did.
pub Took-of :
    {n : ℕ} {b b' : InputBuffer} {out : ℕ} (o : Outcome InputBuffer ℕ)
    → ReadResult n b o
    → o ≡ done out b'
    → Readable n b × Took n b b' out
Took-of {n} {b} o (took r t) e =
    let (p, q) = done_injective e in (r, subst₂ (λ x c. Took n b c x) p q t)
Took-of o (refused why) e = cc

split_mod : (s m n : ℕ) → s % 2 ^ (m + n) ≡ s % 2 ^ m + 2 ^ m * (s / 2 ^ m % 2 ^ n)
split_mod s m n = rw two-pow-add (mod-mul s (2 ^ m) (2 ^ n))

split_div : (s m n : ℕ) → s / 2 ^ (m + n) ≡ s / 2 ^ m / 2 ^ n
split_div s m n = rw two-pow-add (sym (div-div-eq-div-mul s (2 ^ m) (2 ^ n)))

-- A wide read that succeeded where two narrow ones did.
pub record Joined (m n : ℕ) (b b₂ : InputBuffer) (x y : ℕ) (o : Outcome InputBuffer ℕ)
    : Type 0 where
  pub rest : InputBuffer
  pub returns : o ≡ done (x + 2 ^ m * y) rest
  pub same_stream : bit_stream rest ≡ bit_stream b₂
  pub same_left : bits_left rest ≡ bits_left b₂

joins :
    (m n : ℕ) {b b₁ b₂ : InputBuffer} {x y : ℕ} (o : Outcome InputBuffer ℕ)
    → m + n ≤ 16
    → Took m b b₁ x
    → Readable n b₁
    → Took n b₁ b₂ y
    → ReadResult (m + n) b o
    → Joined m n b b₂ x y o
joins m n {b} {b₁} o fits t r u (took {b' = c} r' w) = record {
  rest = c;
  returns =
      ap (λ z. done z c)
        (w.value
          ∙ split_mod (bit_stream b) m n
          ∙ ap₂ (λ p q. p + 2 ^ m * q) (sym t.value)
              (ap (λ z. z % 2 ^ n) (sym t.stream) ∙ sym u.value));
  same_stream =
      w.stream ∙ split_div (bit_stream b) m n ∙ ap (λ z. z / 2 ^ n) (sym t.stream) ∙ sym u.stream;
  same_left = omega (arith, t.left, u.left, w.left);
}
joins m n o fits t r u (refused (inl wide)) = absurd (omega arith)
joins m n o fits t r u (refused (inr few)) = absurd (omega (arith, t.left, r.1))

-- On a valid buffer, where a read of m bits and then one of n bits succeed and m + n is at most
-- 16, one read of m + n bits succeeds: it returns the first value plus 2 ^ m times the second, and
-- leaves the same stream and as many bits.
pub read_bits_compose :
    (m n : ℕ) (b : InputBuffer) {b₁ b₂ : InputBuffer} {x y : ℕ}
    → IsValid b
    → m + n ≤ 16
    → read_bits m b ≡ done x b₁
    → read_bits n b₁ ≡ done y b₂
    → Joined m n b b₂ x y (read_bits (m + n) b)
read_bits_compose m n b {b₁} v fits first second =
    let (r, t) = Took-of (read_bits m b) (read_bits_lem m b v) first in
    let (r', u) = Took-of (read_bits n b₁) (read_bits_lem n b₁ t.valid) second in
    joins m n (read_bits (m + n) b) fits t r' u (read_bits_lem (m + n) b v)

pub got_of :
    {len : ℕ} {b b' : InputBuffer} {xs : List ℕ} (o : Outcome InputBuffer (List ℕ))
    → SpanResult (λ ys. ys) len b o
    → o ≡ done xs b'
    → (b.data_bits_available ≡ 0)
      × (b.current_position + len ≤ filesize b)
      × (xs ≡ next_bytes len b)
      × (b' ≡ past len b)
got_of o (got aligned there a s v) e =
    let (p, q) = done_injective e in (aligned, there, sym p ∙ a, sym q ∙ s)
got_of o (misaligned h) e = cc
got_of o (short h k) e = cc

append_at :
    (m n : ℕ) (b : InputBuffer) {b₂ : InputBuffer} {ys : List ℕ}
    → IsValid b
    → m + n < 2 ^ 63
    → b.data_bits_available ≡ 0
    → b.current_position + m ≤ filesize b
    → read_into n (past m b) ≡ done ys b₂
    → read_into (m + n) b ≡ done (next_bytes m b ++ ys) b₂
append_at m n b {b₂} {ys} v small aligned there second =
    let w = past-IsValid m v there in
    let (a, t, e, f) =
      got_of (read_into n (past m b)) (read_into_lem n (past m b) w (omega arith)) second in
    read_into-past v small aligned (omega arith)
    ∙ ap₂ done (next_bytes-add m n b ∙ ap (λ zs. next_bytes m b ++ zs) (sym e))
        (past-add m n b ∙ sym f)

-- On a valid buffer, where reads of m and then of n bytes succeed and m + n is below 2 ^ 63, one
-- read of m + n bytes returns the two results joined and leaves the same buffer.
pub read_into-append :
    (m n : ℕ) (b : InputBuffer) {b₁ b₂ : InputBuffer} {xs ys : List ℕ}
    → IsValid b
    → m + n < 2 ^ 63
    → read_into m b ≡ done xs b₁
    → read_into n b₁ ≡ done ys b₂
    → read_into (m + n) b ≡ done (xs ++ ys) b₂
read_into-append m n b v small first second =
    let (a, t, e, f) = got_of (read_into m b) (read_into_lem m b v (omega arith)) first in
    rw e (append_at m n b v small a t (rw f at second))
