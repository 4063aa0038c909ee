-- ===== src/Base/Pow.antt =====
-- Powers of two, and division and remainder by them at a variable exponent.
use Prim.Native.Nat.{ℕ, zero, suc, ◌+◌, ◌-◌, ◌*◌, ◌/◌, ◌%◌, ◌^◌, ◌≤◌}
use mathlib.Core.Path.{◌≡◌, ap}
use native.Mathlib.Nat.{pow-suc, pow-zero, one-le-pow, add-zero, add-suc}
use native.Mathlib.Nat.{div-div-eq-div-mul, div-add-mod}
use native.Mathlib.Omega.{arith}

pub two-pow-pos : (k : ℕ) → 1 ≤ 2 ^ k
two-pow-pos k = one-le-pow k 2 (omega arith)

pub two-pow-suc : (k : ℕ) → 2 ^ suc k ≡ 2 * 2 ^ k
two-pow-suc k = omega (arith, pow-suc 2 k)

pub two-pow-add : (m n : ℕ) → 2 ^ (m + n) ≡ 2 ^ m * 2 ^ n
two-pow-add m zero = rw (add-zero, pow-zero) (omega arith)
two-pow-add m (suc n) =
    rw add-suc
      (omega (arith, pow-suc 2 (m + n), two-pow-add m n, ap (λ (t : ℕ). 2 ^ m * t) (pow-suc 2 n)))

-- `2 ^ n` splits at any `m ≤ n`.
pub two-pow-split : (m n : ℕ) → m ≤ n → 2 ^ n ≡ 2 ^ m * 2 ^ (n - m)
two-pow-split m n h =
    let e : n ≡ m + (n - m) = omega arith in rw (← two-pow-add m (n - m)) (ap (λ t. 2 ^ t) e)

-- The remainder by a product, digit by digit.
pub mod-mul : (s p q : ℕ) → s % (p * q) ≡ s % p + p * (s / p % q)
mod-mul s p q = omega (
  arith,
  div-div-eq-div-mul s p q,
  div-add-mod s (p * q),
  div-add-mod s p,
  ap (λ (t : ℕ). p * t) (div-add-mod (s / p) q),
  ap (λ (t : ℕ). p * q * t) (div-div-eq-div-mul s p q),
)
