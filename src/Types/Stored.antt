-- ===== src/Types/Stored.antt =====
-- `Value` and the bytes of the memory that it stands in.
use cxx_unlzx.Base.{
  ℕ, ◌+◌, ◌*◌, ◌^◌, ◌<◌, ◌≡◌, ◌⊎◌, refl, ap, ◌∙◌, List, get_or, set, length, arith, u8, ◌>>>◌,
  length-set, get_or-set_self, get_or-set_ne,
}
use cxx_unlzx.Types.{Endian, byteswap, transform, load, store, value, assign}

byteswap_twice : (x : ℕ) → x < 2 ^ 32 → byteswap (byteswap x) ≡ x
unfolding byteswap
byteswap_twice x h = omega arith

byteswap-lt : (x : ℕ) → byteswap x < 2 ^ 32
unfolding byteswap
byteswap-lt x = omega arith

module _ (v : ℕ) (xs : List ℕ) (i : ℕ) (inside : i + 3 < length xs) where
  abbrev one : List ℕ
  one = set xs i (u8 v)

  abbrev two : List ℕ
  two = set one (i + 1) (u8 (v >>> 8))

  abbrev three : List ℕ
  three = set two (i + 2) (u8 (v >>> 16))

  stored_0 : get_or (store v xs i) i 0 ≡ u8 v
  stored_0 =
      get_or-set_ne three (i + 3) i _ 0 (omega arith)
      ∙ get_or-set_ne two (i + 2) i _ 0 (omega arith)
      ∙ get_or-set_ne one (i + 1) i _ 0 (omega arith)
      ∙ get_or-set_self xs i _ 0 (omega arith)

  stored_1 : get_or (store v xs i) (i + 1) 0 ≡ u8 (v >>> 8)
  stored_1 =
      get_or-set_ne three (i + 3) (i + 1) _ 0 (omega arith)
      ∙ get_or-set_ne two (i + 2) (i + 1) _ 0 (omega arith)
      ∙ get_or-set_self one (i + 1) _ 0 (rw length-set (omega arith))

  stored_2 : get_or (store v xs i) (i + 2) 0 ≡ u8 (v >>> 16)
  stored_2 =
      get_or-set_ne three (i + 3) (i + 2) _ 0 (omega arith)
      ∙ get_or-set_self two (i + 2) _ 0 (rw (length-set, length-set) (omega arith))

  stored_3 : get_or (store v xs i) (i + 3) 0 ≡ u8 (v >>> 24)
  stored_3 =
      get_or-set_self three (i + 3) _ 0 (rw (length-set, length-set, length-set) (omega arith))

  load-store : v < 2 ^ 32 → load (store v xs i) i ≡ v
  load-store h = rw (stored_0, stored_1, stored_2, stored_3) (omega arith)

transform_back :
    (e : Endian) (v : ℕ) → v < 2 ^ 32 → transform e Endian.little (transform Endian.little e v) ≡ v
unfolding transform
transform_back Endian.little v h = refl
transform_back Endian.big v h = byteswap_twice v h

transform-lt : (e : Endian) (v : ℕ) → v < 2 ^ 32 → transform Endian.little e v < 2 ^ 32
unfolding transform
transform-lt Endian.little v h = h
transform-lt Endian.big v h = byteswap-lt v

-- A number below 2 ^ 32 that is assigned to a `Value` whose four bytes lie inside the memory is
-- read back, in either byte order, and the bytes of the memory outside those four stay.
pub value-assign :
    (e : Endian) (v : ℕ) (xs : List ℕ) (i : ℕ)
    → v < 2 ^ 32
    → i + 3 < length xs
    → (value e (assign e v xs i) i ≡ v)
      × ((j : ℕ) → (j < i) ⊎ (i + 3 < j) → get_or (assign e v xs i) j 0 ≡ get_or xs j 0)
value-assign e v xs i h inside =
    let w = transform Endian.little e v in
    (
      ap (transform e Endian.little) (load-store w xs i inside (transform-lt e v h))
          ∙ transform_back e v h,
      λ j away.
          get_or-set_ne (three w xs i inside) (i + 3) j _ 0 (omega (arith, away))
          ∙ get_or-set_ne (two w xs i inside) (i + 2) j _ 0 (omega (arith, away))
          ∙ get_or-set_ne (one w xs i inside) (i + 1) j _ 0 (omega (arith, away))
          ∙ get_or-set_ne xs i j _ 0 (omega (arith, away)),
    )

-- In a memory of bytes, a big-endian `Value` is the number whose first byte is the highest, and a
-- little-endian one the number whose first byte is the lowest.
pub value-order :
    (xs : List ℕ) (i : ℕ)
    → ((k : ℕ) → get_or xs k 0 < 256)
    → (value Endian.big xs i
        ≡ get_or xs i 0 * 2 ^ 24
          + get_or xs (i + 1) 0 * 2 ^ 16
          + get_or xs (i + 2) 0 * 2 ^ 8
          + get_or xs (i + 3) 0)
      × (value Endian.little xs i
          ≡ get_or xs i 0
            + get_or xs (i + 1) 0 * 2 ^ 8
            + get_or xs (i + 2) 0 * 2 ^ 16
            + get_or xs (i + 3) 0 * 2 ^ 24)
unfolding transform byteswap
value-order xs i h = (omega (arith, h i, h (i + 1), h (i + 2), h (i + 3)), refl)
