-- ===== src/Base/Octets.antt =====
-- Lists of octets.
use Prim.Native.Nat.{ℕ, zero, suc, ◌<◌}
use mathlib.Core.List.{List, [], ◌∷◌, ◌++◌}
use mathlib.Core.Path.{◌≡◌}
use mathlib.Core.Bool.{Bool, true, ◌&&◌}
use cxx_unlzx.Base.Tests.{ltb}
use native.Mathlib.Omega.{arith}
use cxx_unlzx.Base.Lists.{get_or, set, take, drop}

abbrev pub AllBytes : List ℕ → Type 0
AllBytes [] = Unit
AllBytes (x ∷ xs) = (x < 256) × AllBytes xs

pub AllBytes-append : (xs ys : List ℕ) → AllBytes xs → AllBytes ys → AllBytes (xs ++ ys)
AllBytes-append [] ys h k = k
AllBytes-append (x ∷ xs) ys h k = (h.0, AllBytes-append xs ys h.1 k)

pub AllBytes-intro : (xs : List ℕ) → ((i : ℕ) → get_or xs i 0 < 256) → AllBytes xs
AllBytes-intro [] h = tt
AllBytes-intro (x ∷ xs) h = (h 0, AllBytes-intro xs (λ i. h (suc i)))

pub AllBytes-take : (n : ℕ) (xs : List ℕ) → AllBytes xs → AllBytes (take n xs)
AllBytes-take zero xs h = tt
AllBytes-take (suc n) [] h = tt
AllBytes-take (suc n) (x ∷ xs) h = (h.0, AllBytes-take n xs h.1)

pub AllBytes-drop : (n : ℕ) (xs : List ℕ) → AllBytes xs → AllBytes (drop n xs)
AllBytes-drop zero xs h = h
AllBytes-drop (suc n) [] h = tt
AllBytes-drop (suc n) (x ∷ xs) h = AllBytes-drop n xs h.1

pub AllBytes-set : (xs : List ℕ) (i v : ℕ) → v < 256 → AllBytes xs → AllBytes (set xs i v)
AllBytes-set [] i v k h = tt
AllBytes-set (x ∷ xs) zero v k h = (k, h.1)
AllBytes-set (x ∷ xs) (suc i) v k h = (h.0, AllBytes-set xs i v k h.1)

pub get_or-AllBytes : (xs : List ℕ) (i : ℕ) → AllBytes xs → get_or xs i 0 < 256
get_or-AllBytes [] i h = omega arith
get_or-AllBytes (x ∷ xs) zero h = h.0
get_or-AllBytes (x ∷ xs) (suc i) h = get_or-AllBytes xs i h.1

-- The test, for lists that are written out.
abbrev pub all_octets : List ℕ → Bool
all_octets [] = true
all_octets (x ∷ xs) = ltb x 256 && all_octets xs

pub AllBytes-check : (xs : List ℕ) → all_octets xs ≡ true → AllBytes xs
AllBytes-check [] h = tt
AllBytes-check (x ∷ xs) h = (
  let l : x < 256 = ground (arith, h) in l,
  AllBytes-check xs (let k : all_octets xs ≡ true = ground (arith, h) in k),
)
