-- ===== src/Base/Names.antt =====
-- `std::string` as a key: `std::less`, which compares byte by byte, the bytes unsigned.
use Prim.Native.Nat.{ℕ}
use mathlib.Core.Path.{◌≡◌, refl, ap₂}
use mathlib.Core.Logic.{◌⊎◌, inl, inr}
use mathlib.Core.Bool.{Bool, true, false, not, ◌&&◌}
use mathlib.Core.List.{List, [], ◌∷◌}
use native.Mathlib.Omega.{arith}
use cxx_unlzx.Base.Tests.{ltb, Bool-cases, if◌then◌else◌}

-- operator<
unfoldable pub less : List ℕ → List ℕ → Bool
less [] [] = false
less [] (b ∷ ys) = true
less (a ∷ xs) [] = false
less (a ∷ xs) (b ∷ ys) =
    let rest = less xs ys in if ltb a b then true else if ltb b a then false else rest

-- What the map takes for the same key.
unfoldable pub same : List ℕ → List ℕ → Bool
same a b = not (less a b) && not (less b a)

pub less_irrefl : (a : List ℕ) → less a a ≡ false
unfolding less
less_irrefl [] = refl
less_irrefl (a ∷ xs) = ground (arith, less_irrefl xs)

pub less_trans : (a b c : List ℕ) → less a b ≡ true → less b c ≡ true → less a c ≡ true
unfolding less
less_trans [] [] c h k = cc
less_trans [] (b ∷ ys) [] h k = cc
less_trans [] (b ∷ ys) (c ∷ zs) h k = refl
less_trans (a ∷ xs) [] c h k = cc
less_trans (a ∷ xs) (b ∷ ys) [] h k = cc
less_trans (a ∷ xs) (b ∷ ys) (c ∷ zs) h k = ground (arith, less_trans xs ys zs)

less_antisymm : (a b : List ℕ) → less a b ≡ false → less b a ≡ false → a ≡ b
unfolding less
less_antisymm [] [] h k = refl
less_antisymm [] (b ∷ ys) h k = cc
less_antisymm (a ∷ xs) [] h k = cc
less_antisymm (a ∷ xs) (b ∷ ys) h k =
    let heads : a ≡ b = ground arith in
    let l : less xs ys ≡ false = ground arith in
    let r : less ys xs ≡ false = ground arith in
    ap₂ (λ z zs. z ∷ zs) heads (less_antisymm xs ys l r)

pub same_refl : (a : List ℕ) → same a a ≡ true
unfolding same
same_refl a = rw less_irrefl refl

pub same→≡ : (a b : List ℕ) → same a b ≡ true → a ≡ b
unfolding same
same→≡ a b h =
    less_antisymm a b (let l : less a b ≡ false = ground arith in l)
      (let r : less b a ≡ false = ground arith in r)

pub less_asymm : (a b : List ℕ) → less a b ≡ true → less b a ≡ false
less_asymm a b h = elim (Bool-cases (less b a)) [
  | inl back ↦ absurd (ground (arith, less_trans a b a h back, less_irrefl a))
  | inr no_way ↦ no_way
]

pub less→differs : (a b : List ℕ) → less a b ≡ true → (same a b ≡ false) × (same b a ≡ false)
unfolding same
less→differs a b h = rw (h, less_asymm a b h) (refl, refl)

pub compare_names : (a b : List ℕ) → (less a b ≡ true) ⊎ ((less b a ≡ true) ⊎ (a ≡ b))
compare_names a b = elim (Bool-cases (less a b)) [
  | inl below ↦ inl below
  | inr not_below ↦ elim (Bool-cases (less b a)) [
    | inl above ↦ inr (inl above)
    | inr not_above ↦ inr (inr (less_antisymm a b not_below not_above))
  ]
]
