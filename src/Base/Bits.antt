-- ===== src/Base/Bits.antt =====
-- `bit_and`, `bit_or` and `bit_xor` at variables, from their lowest digit.
use Prim.Native.Nat.{ℕ, zero, suc, ◌+◌, ◌-◌, ◌*◌, ◌/◌, ◌%◌, ◌^◌, ◌≤◌, ◌<◌, min, max}
use Prim.Native.Nat.{bit_and, bit_or, bit_xor, digits, differ}
use Prim.Native.Nat.{bit_and-bitwise, bit_or-bitwise, bit_xor-bitwise}
use mathlib.Core.Path.{◌≡◌, refl, ap, ap₂, sym, ◌∙◌}
use native.Mathlib.Nat.{pow-suc, one-le-pow, pow-zero, mul-one}
use native.Mathlib.Nat.{div-div-eq-div-mul, div-add-mod, div-one, pow-succ'}
use native.Mathlib.Omega.{arith}

-- The digit count that `digits` recurs on does not matter, once it is large enough.
module _ (z : ℕ → ℕ) (f : ℕ → ℕ → ℕ) where
  digits_enough : (n m a b : ℕ) → a ≤ n → a ≤ m → digits z f n a b ≡ digits z f m a b
  digits_enough zero zero a b p q = refl
  digits_enough zero (suc m) zero b p q = refl
  digits_enough zero (suc m) (suc a) b p q = elim p [ ]
  digits_enough (suc n) zero zero b p q = refl
  digits_enough (suc n) zero (suc a) b p q = elim q [ ]
  digits_enough (suc n) (suc m) zero b p q = refl
  digits_enough (suc n) (suc m) (suc a) b p q =
      ap (λ t. t * 2 + f (suc a % 2) (b % 2))
        (digits_enough n m (suc a / 2) (b / 2) (omega arith) (omega arith))

  pub digits-suc :
      (a b : ℕ)
      → digits z f (suc a) (suc a) b
        ≡ digits z f (suc a / 2) (suc a / 2) (b / 2) * 2 + f (suc a % 2) (b % 2)
  digits-suc a b =
      ap (λ t. t * 2 + f (suc a % 2) (b % 2))
        (digits_enough a (suc a / 2) (suc a / 2) (b / 2) (omega arith) (omega arith))

differ_bits : (x y : ℕ) → x < 2 → y < 2 → differ x y ≡ (x + y) % 2
differ_bits zero y h k = omega arith
differ_bits (suc zero) zero h k = refl
differ_bits (suc zero) (suc zero) h k = refl
differ_bits (suc zero) (suc (suc y)) h k = absurd (omega arith)
differ_bits (suc (suc x)) y h k = absurd (omega arith)

pub xor_digit : (a b : ℕ) → bit_xor a b ≡ bit_xor (a / 2) (b / 2) * 2 + (a % 2 + b % 2) % 2
xor_digit zero b = simp bit_xor-bitwise (omega arith)
xor_digit (suc a) b =
    simp bit_xor-bitwise
      (omega (arith, digits-suc (λ y. y) differ a b, differ_bits (suc a % 2) (b % 2)))

pub or_digit : (a b : ℕ) → bit_or a b ≡ bit_or (a / 2) (b / 2) * 2 + max (a % 2) (b % 2)
or_digit zero b = simp bit_or-bitwise (omega arith)
or_digit (suc a) b = simp bit_or-bitwise (digits-suc (λ y. y) max a b)

pub and_digit : (a b : ℕ) → bit_and a b ≡ bit_and (a / 2) (b / 2) * 2 + min (a % 2) (b % 2)
and_digit zero b = simp bit_and-bitwise (omega arith)
and_digit (suc a) b = simp bit_and-bitwise (digits-suc (λ y. 0) min a b)

-- Exclusive or is a group of exponent two on the numbers.
pub zero-xor : (b : ℕ) → bit_xor 0 b ≡ b
zero-xor b = simp bit_xor-bitwise

xor_comm_below : (n a b : ℕ) → a ≤ n → b ≤ n → bit_xor a b ≡ bit_xor b a
xor_comm_below zero zero zero p q = refl
xor_comm_below zero zero (suc b) p q = elim q [ ]
xor_comm_below zero (suc a) b p q = elim p [ ]
xor_comm_below (suc n) a b p q =
    omega (arith, xor_digit a b, xor_digit b a, xor_comm_below n (a / 2) (b / 2))

pub xor_comm : (a b : ℕ) → bit_xor a b ≡ bit_xor b a
xor_comm a b = xor_comm_below (a + b) a b (omega arith) (omega arith)

pub xor-zero : (a : ℕ) → bit_xor a 0 ≡ a
xor-zero a = xor_comm a 0 ∙ zero-xor a

pub xor-half : (a b : ℕ) → bit_xor a b / 2 ≡ bit_xor (a / 2) (b / 2)
xor-half a b = omega (arith, xor_digit a b)

pub xor_parity : (a b : ℕ) → bit_xor a b % 2 ≡ (a % 2 + b % 2) % 2
xor_parity a b = omega (arith, xor_digit a b)

xor_assoc_below :
    (n a b c : ℕ) → a ≤ n → b ≤ n → c ≤ n → bit_xor (bit_xor a b) c ≡ bit_xor a (bit_xor b c)
xor_assoc_below zero zero zero zero p q r = refl
xor_assoc_below zero zero zero (suc c) p q r = elim r [ ]
xor_assoc_below zero zero (suc b) c p q r = elim q [ ]
xor_assoc_below zero (suc a) b c p q r = elim p [ ]
xor_assoc_below (suc n) a b c p q r = omega (
  arith,
  xor_digit (bit_xor a b) c,
  xor_digit a (bit_xor b c),
  ap (λ t. bit_xor t (c / 2)) (xor-half a b),
  ap (λ t. bit_xor (a / 2) t) (xor-half b c),
  xor_parity a b,
  xor_parity b c,
  xor_assoc_below n (a / 2) (b / 2) (c / 2) (omega arith) (omega arith) (omega arith),
)

pub xor_assoc : (a b c : ℕ) → bit_xor (bit_xor a b) c ≡ bit_xor a (bit_xor b c)
xor_assoc a b c = xor_assoc_below (a + b + c) a b c (omega arith) (omega arith) (omega arith)

xor_self_below : (n a : ℕ) → a ≤ n → bit_xor a a ≡ 0
xor_self_below zero zero h = refl
xor_self_below zero (suc a) h = elim h [ ]
xor_self_below (suc n) a h = omega (arith, xor_digit a a, xor_self_below n (a / 2))

pub xor_self : (a : ℕ) → bit_xor a a ≡ 0
xor_self a = xor_self_below a a (omega arith)

-- What is added twice goes.
pub xor_cancel : (a b : ℕ) → bit_xor (bit_xor a b) b ≡ a
xor_cancel a b = xor_assoc a b b ∙ ap (λ t. bit_xor a t) (xor_self b) ∙ xor-zero a

pub xor_right_comm : (a b c : ℕ) → bit_xor (bit_xor a b) c ≡ bit_xor (bit_xor a c) b
xor_right_comm a b c =
    xor_assoc a b c ∙ ap (λ t. bit_xor a t) (xor_comm b c) ∙ sym (xor_assoc a c b)

pub xor-div_pow : (k a b : ℕ) → bit_xor a b / 2 ^ k ≡ bit_xor (a / 2 ^ k) (b / 2 ^ k)
xor-div_pow zero a b = simp (pow-zero, div-one)
xor-div_pow (suc k) a b =
    let e : (c : ℕ) → c / 2 ^ suc k ≡ c / 2 / 2 ^ k =
      λ c. ap (λ t. c / t) (pow-succ' 2 k) ∙ sym (div-div-eq-div-mul c 2 (2 ^ k)) in
    e (bit_xor a b)
    ∙ ap (λ t. t / 2 ^ k) (xor-half a b)
    ∙ xor-div_pow k (a / 2) (b / 2)
    ∙ ap₂ bit_xor (sym (e a)) (sym (e b))

pub xor-lt : (k a b : ℕ) → a < 2 ^ k → b < 2 ^ k → bit_xor a b < 2 ^ k
xor-lt zero zero zero h k = h
xor-lt zero (suc a) b h k = absurd (omega (arith, pow-zero 2))
xor-lt zero zero (suc b) h k = absurd (omega (arith, pow-zero 2))
xor-lt (suc k) a b h l = omega (
  arith,
  pow-suc 2 k,
  xor_digit a b,
  xor-lt k (a / 2) (b / 2) (omega (arith, pow-suc 2 k)) (omega (arith, pow-suc 2 k)),
)

-- A value shifted past `r` is added to it by an exclusive or.
pub xor_shifted : (k q r : ℕ) → r < 2 ^ k → bit_xor (q * 2 ^ k) r ≡ q * 2 ^ k + r
xor_shifted zero q r h =
    let e : r ≡ 0 = omega (arith, pow-zero 2) in rw (e, mul-one) (omega (arith, xor-zero q))
xor_shifted (suc k) q r h =
    let e : q * 2 ^ suc k ≡ 2 * (q * 2 ^ k) = omega (arith, ap (λ (t : ℕ). q * t) (pow-suc 2 k)) in
    let half : q * 2 ^ suc k / 2 ≡ q * 2 ^ k = omega arith in
    omega (
      arith,
      pow-suc 2 k,
      xor_digit (q * 2 ^ suc k) r,
      ap (λ t. bit_xor t (r / 2)) half,
      xor_shifted k q (r / 2),
    )

or-zero_below : (n a : ℕ) → a ≤ n → bit_or a 0 ≡ a
or-zero_below zero zero h = refl
or-zero_below zero (suc a) h = elim h [ ]
or-zero_below (suc n) a h = omega (arith, or_digit a 0, or-zero_below n (a / 2))

-- A value shifted past `r` is joined with it by a sum.
pub or_shifted : (k q r : ℕ) → r < 2 ^ k → bit_or (q * 2 ^ k) r ≡ q * 2 ^ k + r
or_shifted zero q r h =
    let e : r ≡ 0 = omega (arith, pow-zero 2) in
    rw (e, mul-one) (omega (arith, or-zero_below q q (omega arith)))
or_shifted (suc k) q r h =
    let e : q * 2 ^ suc k ≡ 2 * (q * 2 ^ k) = omega (arith, ap (λ (t : ℕ). q * t) (pow-suc 2 k)) in
    omega (
      arith,
      pow-suc 2 k,
      or_digit (q * 2 ^ suc k) r,
      ap (λ t. bit_or t (r / 2)) (let e' : q * 2 ^ suc k / 2 ≡ q * 2 ^ k = omega arith in e'),
      or_shifted k q (r / 2),
    )

or_comm_below : (n a b : ℕ) → a ≤ n → b ≤ n → bit_or a b ≡ bit_or b a
or_comm_below zero zero zero p q = refl
or_comm_below zero zero (suc b) p q = elim q [ ]
or_comm_below zero (suc a) b p q = elim p [ ]
or_comm_below (suc n) a b p q =
    omega (arith, or_digit a b, or_digit b a, or_comm_below n (a / 2) (b / 2))

pub or_comm : (a b : ℕ) → bit_or a b ≡ bit_or b a
or_comm a b = or_comm_below (a + b) a b (omega arith) (omega arith)

and-zero_below : (n a : ℕ) → a ≤ n → bit_and a 0 ≡ 0
and-zero_below zero zero h = refl
and-zero_below zero (suc a) h = elim h [ ]
and-zero_below (suc n) a h = omega (arith, and_digit a 0, and-zero_below n (a / 2))

pub mod_double : (m a : ℕ) → a % (2 * m) ≡ a % 2 + 2 * (a / 2 % m)
mod_double m a = omega (
  arith,
  div-div-eq-div-mul a 2 m,
  div-add-mod a (2 * m),
  div-add-mod (a / 2) m,
  ap (λ (t : ℕ). m * t) (div-div-eq-div-mul a 2 m),
)

-- The mask of `k` ones takes the remainder.
pub and_mask : (k a : ℕ) → bit_and a (2 ^ k - 1) ≡ a % 2 ^ k
and_mask zero a = omega (arith, and-zero_below a a)
and_mask (suc k) a =
    let h : 1 ≤ 2 ^ k = one-le-pow k 2 (omega arith) in
    let e : (2 ^ suc k - 1) / 2 ≡ 2 ^ k - 1 = omega (arith, pow-suc 2 k) in
    let d : 2 ^ suc k ≡ 2 * 2 ^ k = omega (arith, pow-suc 2 k) in
    omega (
      arith,
      and_digit a (2 ^ suc k - 1),
      ap (λ t. bit_and (a / 2) t) e,
      and_mask k (a / 2),
      mod_double (2 ^ k) a,
      ap (λ t. a % t) d,
    )
