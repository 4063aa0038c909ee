-- ===== src/Crc/Steps.antt =====
-- The steps of `generate_lookup_table` and exclusive or.
use native.Mathlib.Nat.{pow-suc, mod-lt, div-add-mod'}
use cxx_unlzx.Base.{
  ℕ, zero, suc, ◌*◌, ◌/◌, ◌%◌, ◌^◌, ◌<◌, ◌≡◌, ◌⊎◌, inl, inr, refl, sym, ap, ap₂, ◌∙◌, bit_xor,
  arith, Bool-cases, ◌==◌,
}
use cxx_unlzx.Base.Bits.{
  xor_comm, xor_assoc, xor-half, xor_parity, and_mask, xor_cancel, xor_right_comm, xor_shifted,
  xor-lt,
}
use cxx_unlzx.Base.Pow.{two-pow-pos}
use cxx_unlzx.Crc.{reversed_polynomial, table_step, table_steps}

pub table_step_odd : (c : ℕ) → c % 2 ≡ 1 → table_step c ≡ bit_xor (c / 2) reversed_polynomial
unfolding table_step
table_step_odd c odd = ground (arith, and_mask 1 c)

pub table_step_even : (c : ℕ) → c % 2 ≡ 0 → table_step c ≡ c / 2
unfolding table_step
table_step_even c even = ground (arith, and_mask 1 c)

pub parity : (c : ℕ) → (c % 2 ≡ 0) ⊎ (c % 2 ≡ 1)
parity c = elim (Bool-cases (c % 2 == 0)) [
  | inl e ↦ inl (ground arith)
  | inr e ↦ inr (ground arith)
]

step_xor_even : (a b : ℕ) → b % 2 ≡ 0 → table_step (bit_xor a b) ≡ bit_xor (table_step a) (b / 2)
step_xor_even a b even = elim (parity a) [
  | inl e ↦
      table_step_even (bit_xor a b) (omega (arith, xor_parity a b))
      ∙ xor-half a b
      ∙ ap (λ t. bit_xor t (b / 2)) (sym (table_step_even a e))
  | inr o ↦
      table_step_odd (bit_xor a b) (omega (arith, xor_parity a b))
      ∙ ap (λ t. bit_xor t reversed_polynomial) (xor-half a b)
      ∙ xor_right_comm (a / 2) (b / 2) reversed_polynomial
      ∙ ap (λ t. bit_xor t (b / 2)) (sym (table_step_odd a o))
]

step_xor_odd :
    (a b : ℕ)
    → a % 2 ≡ 1
    → b % 2 ≡ 1
    → table_step (bit_xor a b) ≡ bit_xor (table_step a) (table_step b)
step_xor_odd a b o o' =
    table_step_even (bit_xor a b) (omega (arith, xor_parity a b))
    ∙ xor-half a b
    ∙ ap (λ t. bit_xor t (b / 2)) (sym (xor_cancel (a / 2) reversed_polynomial))
    ∙ xor_assoc (bit_xor (a / 2) reversed_polynomial) reversed_polynomial (b / 2)
    ∙ ap₂ bit_xor (sym (table_step_odd a o))
        (xor_comm reversed_polynomial (b / 2) ∙ sym (table_step_odd b o'))

pub step-xor : (a b : ℕ) → table_step (bit_xor a b) ≡ bit_xor (table_step a) (table_step b)
step-xor a b = elim (parity b) [
  | inl e ↦ step_xor_even a b e ∙ ap (λ t. bit_xor (table_step a) t) (sym (table_step_even b e))
  | inr o ↦ elim (parity a) [
    | inl e ↦
        ap table_step (xor_comm a b)
        ∙ step_xor_even b a e
        ∙ xor_comm (table_step b) (a / 2)
        ∙ ap (λ t. bit_xor t (table_step b)) (sym (table_step_even a e))
    | inr o' ↦ step_xor_odd a b o' o
  ]
]

-- The rounds of the loop are linear.
pub steps-xor :
    (n a b : ℕ) → table_steps n (bit_xor a b) ≡ bit_xor (table_steps n a) (table_steps n b)
unfolding table_steps
steps-xor zero a b = refl
steps-xor (suc n) a b =
    ap (table_steps n) (step-xor a b) ∙ steps-xor n (table_step a) (table_step b)

-- Zero bits are shifted out.
pub steps_shifted : (n h : ℕ) → table_steps n (h * 2 ^ n) ≡ h
unfolding table_steps
steps_shifted zero h = omega arith
steps_shifted (suc n) h =
    let e : h * 2 ^ suc n ≡ 2 * (h * 2 ^ n) = omega (arith, ap (λ (t : ℕ). h * t) (pow-suc 2 n)) in
    ap (table_steps n) (
      table_step_even (h * 2 ^ suc n) (omega arith)
      ∙ (let half : h * 2 ^ suc n / 2 ≡ h * 2 ^ n = omega arith in half))
    ∙ steps_shifted n h

-- `n` rounds on a word: the word without its low `n` bits, and what these add.
pub steps_split : (n v : ℕ) → table_steps n v ≡ bit_xor (table_steps n (v % 2 ^ n)) (v / 2 ^ n)
steps_split n v =
    let low : v % 2 ^ n < 2 ^ n = mod-lt v (two-pow-pos n) in
    ap (table_steps n) (sym (xor_shifted n (v / 2 ^ n) (v % 2 ^ n) low ∙ div-add-mod' v (2 ^ n)))
    ∙ steps-xor n (v / 2 ^ n * 2 ^ n) (v % 2 ^ n)
    ∙ ap (λ t. bit_xor t (table_steps n (v % 2 ^ n))) (steps_shifted n (v / 2 ^ n))
    ∙ xor_comm (v / 2 ^ n) (table_steps n (v % 2 ^ n))

pub polynomial-lt : reversed_polynomial < 2 ^ 32
unfolding reversed_polynomial
polynomial-lt = omega arith

pub step-lt : (c : ℕ) → c < 2 ^ 32 → table_step c < 2 ^ 32
step-lt c h = elim (parity c) [
  | inl e ↦ omega (arith, table_step_even c e)
  | inr o ↦
      rw (table_step_odd c o) (xor-lt 32 (c / 2) reversed_polynomial (omega arith) polynomial-lt)
]
