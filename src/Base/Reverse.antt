-- ===== src/Base/Reverse.antt =====
-- The `k` low bits of a number in the opposite order.
use native.Mathlib.Nat.{
  pow-suc, pow-zero, pow-succ', div-div-eq-div-mul, add-zero, add-suc, div-one, mod-eq_of_lt,
}
use Prim.Native.Nat.{ℕ, zero, suc, ◌+◌, ◌*◌, ◌/◌, ◌%◌, ◌^◌, ◌<◌}
use mathlib.Core.Path.{◌≡◌, refl, ap, ap₂, sym, ◌∙◌}
use native.Mathlib.Omega.{arith}
use cxx_unlzx.Base.Pow.{two-pow-add, mod-mul}

unfoldable pub reversed : ℕ → ℕ → ℕ
reversed zero v = 0
reversed (suc k) v = reversed k v * 2 + v / 2 ^ k % 2

div_two_pow-suc : (v k : ℕ) → v / 2 / 2 ^ k ≡ v / 2 ^ suc k
div_two_pow-suc v k = div-div-eq-div-mul v 2 (2 ^ k) ∙ ap (λ t. v / t) (sym (pow-succ' 2 k))

-- The lowest bit comes out on top.
pub reversed-suc : (k v : ℕ) → reversed (suc k) v ≡ v % 2 * 2 ^ k + reversed k (v / 2)
unfolding reversed
reversed-suc zero v = omega (arith, pow-zero 2, div-one v)
reversed-suc (suc k) v = omega (
  arith,
  reversed-suc k v,
  ap (λ t. t % 2) (div_two_pow-suc v k),
  ap (λ (t : ℕ). v % 2 * t) (pow-suc 2 k),
)

pub reversed-lt : (k v : ℕ) → reversed k v < 2 ^ k
unfolding reversed
reversed-lt zero v = omega (arith, pow-zero 2)
reversed-lt (suc k) v = omega (arith, pow-suc 2 k, reversed-lt k v)

-- The high bits of the number are the low bits of the result.
pub reversed-add : (b a v : ℕ) → reversed (b + a) v ≡ reversed b v * 2 ^ a + reversed a (v / 2 ^ b)
unfolding reversed
reversed-add b zero v = rw (add-zero) (omega (arith, pow-zero 2))
reversed-add b (suc a) v = rw add-suc (
    omega (
      arith,
      reversed-add b a v,
      ap (λ (t : ℕ). reversed b v * t) (pow-suc 2 a),
      ap (λ t. t % 2)
          (div-div-eq-div-mul v (2 ^ b) (2 ^ a) ∙ ap (λ t. v / t) (sym (two-pow-add b a))),
    ))

low_digit : (k v : ℕ) → reversed (suc k) v % 2 ≡ v / 2 ^ k % 2
unfolding reversed
low_digit k v = omega arith

high_digits : (k v : ℕ) → reversed (suc k) v / 2 ≡ reversed k v
unfolding reversed
high_digits k v = omega arith

pub reversed-reversed : (k v : ℕ) → reversed k (reversed k v) ≡ v % 2 ^ k
reversed-reversed zero v = unfold reversed in omega (arith, pow-zero 2)
reversed-reversed (suc k) v =
    let w = reversed (suc k) v in
    omega (
      arith,
      reversed-suc k w,
      ap (λ (t : ℕ). t * 2 ^ k) (low_digit k v),
      ap (reversed k) (high_digits k v),
      reversed-reversed k v,
      mod-mul v (2 ^ k) 2,
      ap (λ t. v % t) (pow-suc 2 k),
    )

-- No low bits, nothing to reverse.
pub reversed_shifted : (k q : ℕ) → reversed k (q * 2 ^ k) ≡ 0
reversed_shifted zero q = unfold reversed in refl
reversed_shifted (suc k) q =
    let e : q * 2 ^ suc k ≡ 2 * (q * 2 ^ k) = omega (arith, ap (λ (t : ℕ). q * t) (pow-suc 2 k)) in
    let even : q * 2 ^ suc k % 2 ≡ 0 = omega arith in
    let half : q * 2 ^ suc k / 2 ≡ q * 2 ^ k = omega arith in
    reversed-suc k (q * 2 ^ suc k)
    ∙ ap₂ (λ x y. x * 2 ^ k + reversed k y) even half
    ∙ omega (arith, reversed_shifted k q)

-- Reversal tells numbers of `k` bits apart.
pub reversed_injective : (k v w : ℕ) → v < 2 ^ k → w < 2 ^ k → reversed k v ≡ reversed k w → v ≡ w
reversed_injective k v w h l e =
    sym (mod-eq_of_lt h)
    ∙ sym (reversed-reversed k v)
    ∙ ap (reversed k) e
    ∙ reversed-reversed k w
    ∙ mod-eq_of_lt l
