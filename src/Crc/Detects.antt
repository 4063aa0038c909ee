-- ===== src/Crc/Detects.antt =====
-- What the sum of `Crc32::calc` tells of a changed byte.
use cxx_unlzx.Base.{
  ℕ, zero, suc, ◌/◌, ◌^◌, ◌≤◌, ◌<◌, ◌≡◌, ◌≢◌, inl, inr, sym, ap, ◌∙◌, bit_xor, arith, List, [], ◌∷◌,
  ◌++◌, not32,
}
use cxx_unlzx.Base.Bits.{xor_comm, xor_cancel, xor-lt}
use cxx_unlzx.Crc.{Crc32, reversed_polynomial, table_step, table_steps, calc}
use cxx_unlzx.Crc.Steps.{parity, table_step_odd, table_step_even, step-lt}
use cxx_unlzx.Base.Octets.{AllBytes, AllBytes-append}
use cxx_unlzx.Crc.Bitwise.{register, register-lt, steps-lt, crc_of, calc-eq-crc_of}

xor_right_injective : (a b c : ℕ) → bit_xor a c ≡ bit_xor b c → a ≡ b
xor_right_injective a b c e = sym (xor_cancel a c) ∙ ap (λ t. bit_xor t c) e ∙ xor_cancel b c

xor_left_injective : (a b c : ℕ) → bit_xor c a ≡ bit_xor c b → a ≡ b
xor_left_injective a b c e = xor_right_injective a b c (xor_comm a c ∙ e ∙ xor_comm c b)

polynomial_top : 2 ^ 31 ≤ reversed_polynomial
unfolding reversed_polynomial
polynomial_top = omega arith

-- An odd word's step has the top bit, an even word's has not.
steps_apart : (c d : ℕ) → c < 2 ^ 32 → d < 2 ^ 32 → bit_xor (c / 2) reversed_polynomial ≢ d / 2
steps_apart c d h k e =
    let same : reversed_polynomial ≡ bit_xor (c / 2) (d / 2) =
      sym (xor_cancel reversed_polynomial (c / 2))
      ∙ ap (λ t. bit_xor t (c / 2)) (xor_comm reversed_polynomial (c / 2) ∙ e)
      ∙ xor_comm (d / 2) (c / 2) in
    omega (arith, polynomial_top, xor-lt 31 (c / 2) (d / 2) (omega arith) (omega arith))

pub step_injective : (c d : ℕ) → c < 2 ^ 32 → d < 2 ^ 32 → table_step c ≡ table_step d → c ≡ d
step_injective c d h k e = elim (parity c) [
  | inl p ↦ elim (parity d) [
    | inl q ↦ omega (arith, table_step_even c p, table_step_even d q)
    | inr q ↦ absurd (steps_apart d c k h (sym (table_step_odd d q) ∙ sym e ∙ table_step_even c p))
  ]
  | inr p ↦ elim (parity d) [
    | inl q ↦ absurd (steps_apart c d h k (sym (table_step_odd c p) ∙ e ∙ table_step_even d q))
    | inr q ↦ omega (
      arith,
      xor_right_injective (c / 2) (d / 2) reversed_polynomial
          (sym (table_step_odd c p) ∙ e ∙ table_step_odd d q),
    )
  ]
]

steps_injective : (n c d : ℕ) → c < 2 ^ 32 → d < 2 ^ 32 → table_steps n c ≡ table_steps n d → c ≡ d
unfolding table_steps
steps_injective zero c d h k e = e
steps_injective (suc n) c d h k e =
    step_injective c d h k
      (steps_injective n (table_step c) (table_step d) (step-lt c h) (step-lt d k) e)

register_injective :
    (xs : List ℕ) (r s : ℕ)
    → AllBytes xs
    → r < 2 ^ 32
    → s < 2 ^ 32
    → register r xs ≡ register s xs
    → r ≡ s
unfolding register
register_injective [] r s a h k e = e
register_injective (x ∷ xs) r s a h k e =
    let bx : x < 2 ^ 32 = omega (arith, a.0) in
    let hr = xor-lt 32 r x h bx in
    let hs = xor-lt 32 s x k bx in
    xor_right_injective r s x (
      steps_injective 8 (bit_xor r x) (bit_xor s x) hr hs (
        register_injective xs (table_steps 8 (bit_xor r x)) (table_steps 8 (bit_xor s x)) a.1
          (steps-lt 8 (bit_xor r x) hr) (steps-lt 8 (bit_xor s x) hs) e))

not32_injective : (a b : ℕ) → a < 2 ^ 32 → b < 2 ^ 32 → not32 a ≡ not32 b → a ≡ b
not32_injective a b h k e = omega arith

-- The register tells apart two texts that differ in one byte.
register_detects :
    (xs : List ℕ) (a b : ℕ) (ys : List ℕ) (r : ℕ)
    → r < 2 ^ 32
    → AllBytes xs
    → a < 256
    → b < 256
    → AllBytes ys
    → register r (xs ++ a ∷ ys) ≡ register r (xs ++ b ∷ ys)
    → a ≡ b
unfolding register
register_detects [] a b ys r h k ha hb l e =
    let fa : a < 2 ^ 32 = omega arith in
    let fb : b < 2 ^ 32 = omega arith in
    xor_left_injective a b r (
      steps_injective 8 (bit_xor r a) (bit_xor r b) (xor-lt 32 r a h fa) (xor-lt 32 r b h fb) (
        register_injective ys (table_steps 8 (bit_xor r a)) (table_steps 8 (bit_xor r b)) l
          (steps-lt 8 (bit_xor r a) (xor-lt 32 r a h fa))
          (steps-lt 8 (bit_xor r b) (xor-lt 32 r b h fb)) e))
register_detects (x ∷ xs) a b ys r h k ha hb l e =
    let fx : x < 2 ^ 32 = omega (arith, k.0) in
    register_detects xs a b ys (table_steps 8 (bit_xor r x))
      (steps-lt 8 (bit_xor r x) (xor-lt 32 r x h fx)) k.1 ha hb l e

-- From one 32-bit sum, `calc` gives different sums to two texts of bytes that differ in exactly
-- one byte.
pub calc_detects :
    (c : Crc32) (xs : List ℕ) (a b : ℕ) (ys : List ℕ)
    → c.sum < 2 ^ 32
    → AllBytes xs
    → a < 256
    → b < 256
    → AllBytes ys
    → a ≢ b
    → (calc (xs ++ a ∷ ys) c).0 ≢ (calc (xs ++ b ∷ ys) c).0
unfolding crc_of
calc_detects c xs a b ys h k ha hb l differ e =
    let wa = AllBytes-append xs (a ∷ ys) k (ha, l) in
    let wb = AllBytes-append xs (b ∷ ys) k (hb, l) in
    let start : not32 c.sum < 2 ^ 32 = omega arith in
    differ (
      register_detects xs a b ys (not32 c.sum) start k ha hb l (
        not32_injective (register (not32 c.sum) (xs ++ a ∷ ys))
          (register (not32 c.sum) (xs ++ b ∷ ys))
          (register-lt (not32 c.sum) (xs ++ a ∷ ys) start wa)
          (register-lt (not32 c.sum) (xs ++ b ∷ ys) start wb)
          (sym (ap (λ t. t.0) (calc-eq-crc_of c (xs ++ a ∷ ys) h wa))
            ∙ e
            ∙ ap (λ t. t.0) (calc-eq-crc_of c (xs ++ b ∷ ys) h wb))))
