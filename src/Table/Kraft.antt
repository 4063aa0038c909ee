-- ===== src/Table/Kraft.antt =====
-- How many codes the lengths ask for: the sum of Kraft's inequality, symbol by symbol.
use mathlib.Core.List.{append-nil}
use native.Mathlib.Nat.{pow-suc}
use cxx_unlzx.Base.{
  ℕ, zero, suc, ◌+◌, ◌-◌, ◌/◌, ◌^◌, ◌≤◌, ◌≡◌, refl, ap, ap₂, ◌∙◌, arith, List, [], ◌∷◌, length,
  length-append, length-replicate, ◌&&◌, leb, ◌==◌, if◌then◌else◌, Bool-cases, inl, inr,
}
use cxx_unlzx.Table.Slots.{symbol_slots, slots_from, slots}

-- The share of a symbol of `l` bits among codes of `len + w` bits, if `l` is from `len` on.
abbrev share : ℕ → ℕ → ℕ → ℕ
share w len l = if leb len l && leb l (len + w) then 2 ^ (len + w - l) else 0

shares : ℕ → ℕ → List ℕ → ℕ
shares w len [] = 0
shares w len (l ∷ rest) = share w len l + shares w len rest

-- A symbol of `l` bits, 1 ≤ l ≤ bits, takes `2 ^ (bits - l)` of the `2 ^ bits` codes.
unfoldable pub kraft : ℕ → List ℕ → ℕ
kraft bits [] = 0
kraft bits (l ∷ rest) = (if leb 1 l && leb l bits then 2 ^ (bits - l) else 0) + kraft bits rest

own : ℕ → ℕ → ℕ → ℕ
own len width l = if l == len then width else 0

owns : ℕ → ℕ → List ℕ → ℕ
owns len width [] = 0
owns len width (l ∷ rest) = own len width l + owns len width rest

length-symbol_slots-owns :
    (len width : ℕ) (lens : List ℕ) (symbol : ℕ)
    → length (symbol_slots len width lens symbol) ≡ owns len width lens
unfolding symbol_slots owns own
length-symbol_slots-owns len width [] symbol = refl
length-symbol_slots-owns len width (l ∷ rest) symbol =
    let ih = length-symbol_slots-owns len width rest (symbol + 1) in
    elim (Bool-cases (l == len)) [
      | inl same ↦ rw (same, length-append, length-replicate, ih) refl
      | inr other ↦ rw (other, ih) (omega arith)
    ]

pow_cong : (a b : ℕ) → a ≡ b → 2 ^ a ≡ 2 ^ b
pow_cong a b e = ap (λ t. 2 ^ t) e

share-zero : (len l : ℕ) → own len 1 l ≡ share 0 len l
unfolding own
share-zero len l = ground (arith, pow_cong (len + 0 - l) 0)

share-suc : (w len l : ℕ) → own len (2 ^ suc w) l + share w (len + 1) l ≡ share (suc w) len l
unfolding own
share-suc w len l =
    ground (arith, pow_cong (len + suc w - l) (suc w), pow_cong (len + suc w - l) (len + 1 + w - l))

shares-zero : (len : ℕ) (lens : List ℕ) → owns len 1 lens ≡ shares 0 len lens
unfolding owns shares
shares-zero len [] = refl
shares-zero len (l ∷ rest) = ap₂ ◌+◌ (share-zero len l) (shares-zero len rest)

shares-suc :
    (w len : ℕ) (lens : List ℕ)
    → owns len (2 ^ suc w) lens + shares w (len + 1) lens ≡ shares (suc w) len lens
unfolding owns shares
shares-suc w len [] = refl
shares-suc w len (l ∷ rest) = omega (arith, share-suc w len l, shares-suc w len rest)

length-slots_from :
    (w len : ℕ) (lens : List ℕ) → length (slots_from lens (suc w) len (2 ^ w)) ≡ shares w len lens
unfolding slots_from
length-slots_from zero len lens = rw (append-nil, length-symbol_slots-owns) (shares-zero len lens)
length-slots_from (suc w) len lens =
    let half : 2 ^ suc w / 2 ≡ 2 ^ w = omega (arith, pow-suc 2 w) in
    rw (half, length-append, length-symbol_slots-owns)
      (omega (arith, length-slots_from w (len + 1) lens, shares-suc w len lens))

kraft-shares : (w : ℕ) (lens : List ℕ) → shares w 1 lens ≡ kraft (suc w) lens
unfolding shares kraft
kraft-shares w [] = refl
kraft-shares w (l ∷ rest) =
    ap₂ ◌+◌ (ground (arith, pow_cong (1 + w - l) (suc w - l))) (kraft-shares w rest)

-- The canonical code has as many codes as Kraft's sum.
pub length-slots :
    (bits : ℕ) (lens : List ℕ) → 1 ≤ bits → length (slots bits lens) ≡ kraft bits lens
unfolding slots
length-slots zero lens one = elim one [ ]
length-slots (suc w) lens one =
    let half : 2 ^ suc w / 2 ≡ 2 ^ w = omega (arith, pow-suc 2 w) in
    rw half (length-slots_from w 1 lens ∙ kraft-shares w lens)
