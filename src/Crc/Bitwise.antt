-- ===== src/Crc/Bitwise.antt =====
-- `Crc32::calc` against a definition that takes the bits one by one.
use native.Mathlib.Nat.{add-zero, zero-add}
use cxx_unlzx.Base.Octets.{AllBytes, AllBytes-append}
use cxx_unlzx.Base.{
  ℕ, zero, suc, ◌+◌, ◌/◌, ◌%◌, ◌^◌, ◌<◌, ◌≡◌, refl, sym, ap, ap₂, ◌∙◌, bit_xor, arith, List, [],
  ◌∷◌, ◌++◌, get_or, not32,
}
use cxx_unlzx.Base.Bits.{xor_comm, zero-xor, xor-div_pow, and_mask, xor-lt}
use cxx_unlzx.Crc.{
  Crc32, table_step, table_steps, lookup_table_from, crc_table, update, update_all, calc,
}
use cxx_unlzx.Crc.Steps.{steps_split, step-lt}

-- The reflected CRC by shifts alone: each byte is added to the register, which then takes eight
-- steps; the register is complemented before and after.
unfoldable pub register : ℕ → List ℕ → ℕ
register r [] = r
register r (byte ∷ rest) = register (table_steps 8 (bit_xor r byte)) rest

get_or-lookup_table_from :
    (n start i : ℕ) → i < n → get_or (lookup_table_from n start) i 0 ≡ table_steps 8 (start + i)
unfolding lookup_table_from
get_or-lookup_table_from zero start i h = elim h [ ]
get_or-lookup_table_from (suc n) start zero h = rw add-zero
get_or-lookup_table_from (suc n) start (suc i) h =
    get_or-lookup_table_from n (start + 1) i (omega arith)
    ∙ ap (table_steps 8) (let e : start + 1 + i ≡ start + suc i = omega arith in e)

get_or-crc_table : (i : ℕ) → i < 256 → get_or crc_table i 0 ≡ table_steps 8 i
get_or-crc_table i h =
    unfold crc_table in (get_or-lookup_table_from 256 0 i h ∙ ap (table_steps 8) (zero-add i))

-- For a byte, one table look-up of the loop of `calc` is eight steps of the register with the byte
-- added.
pub update-eq-steps :
    (temp byte : ℕ) → byte < 256 → update temp byte ≡ table_steps 8 (bit_xor temp byte)
unfolding update
update-eq-steps temp byte h =
    let v = bit_xor byte temp in
    let high : v / 2 ^ 8 ≡ temp / 2 ^ 8 =
      xor-div_pow 8 byte temp
      ∙ ap (λ t. bit_xor t (temp / 2 ^ 8)) (let z : byte / 2 ^ 8 ≡ 0 = omega arith in z)
      ∙ zero-xor (temp / 2 ^ 8) in
    ap (λ t. bit_xor (get_or crc_table t 0) (temp / 2 ^ 8)) (and_mask 8 v)
    ∙ ap₂ bit_xor (get_or-crc_table (v % 2 ^ 8) (omega arith)) (sym high)
    ∙ sym (steps_split 8 v)
    ∙ ap (table_steps 8) (xor_comm byte temp)

update_all-eq-register :
    (temp : ℕ) (xs : List ℕ) → AllBytes xs → update_all temp xs ≡ register temp xs
unfolding update_all register
update_all-eq-register temp [] h = refl
update_all-eq-register temp (x ∷ xs) h =
    ap (λ t. update_all t xs) (update-eq-steps temp x h.0)
    ∙ update_all-eq-register (table_steps 8 (bit_xor temp x)) xs h.1

pub register-append : (r : ℕ) (xs ys : List ℕ) → register r (xs ++ ys) ≡ register (register r xs) ys
unfolding register
register-append r [] ys = refl
register-append r (x ∷ xs) ys = register-append (table_steps 8 (bit_xor r x)) xs ys

pub steps-lt : (n c : ℕ) → c < 2 ^ 32 → table_steps n c < 2 ^ 32
unfolding table_steps
steps-lt zero c h = h
steps-lt (suc n) c h = steps-lt n (table_step c) (step-lt c h)

pub register-lt : (r : ℕ) (xs : List ℕ) → r < 2 ^ 32 → AllBytes xs → register r xs < 2 ^ 32
unfolding register
register-lt r [] h k = h
register-lt r (x ∷ xs) h k =
    register-lt (table_steps 8 (bit_xor r x)) xs
      (steps-lt 8 (bit_xor r x) (xor-lt 32 r x h (omega (arith, k.0)))) k.1

-- What `calc` makes of the sum.
unfoldable pub crc_of : ℕ → List ℕ → ℕ
crc_of sum xs = not32 (register (not32 sum) xs)

unchanged : (s : ℕ) → s < 2 ^ 32 → s ≡ not32 (register (not32 s) [])
unfolding register
unchanged s h = omega arith

calc-cons :
    (c : Crc32) (x : ℕ) (xs : List ℕ)
    → calc (x ∷ xs) c
      ≡ (let sum = not32 (update_all (not32 c.sum) (x ∷ xs)) in (sum, record { sum = sum }))
unfolding calc
calc-cons c x xs = ground arith

-- For a 32-bit sum and a text of bytes, `calc` by its table of 256 entries returns the sum of the
-- definition that takes eight steps per byte, and stores it, also for no bytes.
pub calc-eq-crc_of :
    (c : Crc32) (xs : List ℕ)
    → c.sum < 2 ^ 32
    → AllBytes xs
    → calc xs c ≡ (crc_of c.sum xs, record { sum = crc_of c.sum xs })
unfolding calc crc_of
calc-eq-crc_of c [] h k = ap (λ s. (s, record { sum = s })) (unchanged c.sum h)
calc-eq-crc_of c (x ∷ xs) h k =
    calc-cons c x xs
    ∙ ap (λ r. (not32 r, record { sum = not32 r }))
        (update_all-eq-register (not32 c.sum) (x ∷ xs) k)

pub crc_of-lt : (s : ℕ) (xs : List ℕ) → crc_of s xs < 2 ^ 32
unfolding crc_of
crc_of-lt s xs = omega arith

crc_of-append :
    (s : ℕ) (xs ys : List ℕ) → AllBytes xs → crc_of (crc_of s xs) ys ≡ crc_of s (xs ++ ys)
unfolding crc_of
crc_of-append s xs ys k =
    let bound = register-lt (not32 s) xs (omega arith) k in
    ap (λ r. not32 (register r ys))
      (let e : not32 (not32 (register (not32 s) xs)) ≡ register (not32 s) xs = omega arith in e)
    ∙ ap not32 (sym (register-append (not32 s) xs ys))

-- For a 32-bit sum and two texts of bytes, summing the one and then the other gives what summing
-- them joined gives, and that sum is below 2 ^ 32.
pub calc-append :
    (c : Crc32) (xs ys : List ℕ)
    → c.sum < 2 ^ 32
    → AllBytes xs
    → AllBytes ys
    → (calc ys (calc xs c).1 ≡ calc (xs ++ ys) c) × ((calc (xs ++ ys) c).0 < 2 ^ 32)
calc-append c xs ys h k l =
    let both = AllBytes-append xs ys k l in
    let s = crc_of c.sum xs in
    let joined = calc-eq-crc_of c (xs ++ ys) h both in
    (
      ap (λ t. calc ys t.1) (calc-eq-crc_of c xs h k)
          ∙ calc-eq-crc_of (record { sum = s }) ys (crc_of-lt c.sum xs) l
          ∙ ap (λ t. (t, record { sum = t })) (crc_of-append c.sum xs ys k)
          ∙ sym joined,
      rw joined (crc_of-lt c.sum (xs ++ ys)),
    )
