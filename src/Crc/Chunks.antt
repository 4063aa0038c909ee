-- ===== src/Crc/Chunks.antt =====
-- Summing a text chunk by chunk, whatever the numbers in it.
use mathlib.Core.List.{append-nil}
use cxx_unlzx.Base.{
  ℕ, zero, suc, ◌+◌, ◌/◌, ◌^◌, ◌≤◌, ◌<◌, ◌≡◌, refl, sym, ap, ◌∙◌, arith, List, [], ◌∷◌, ◌++◌,
  get_or, length, not32, bit_xor, bit_and, ◌==◌, false,
}
use cxx_unlzx.Base.Bits.{xor-lt}
use cxx_unlzx.Crc.{Crc32, lookup_table_from, crc_table, update, update_all, calc}
use cxx_unlzx.Crc.Bitwise.{steps-lt}

table_from-lt : (n k i : ℕ) → n + k ≤ 2 ^ 32 → get_or (lookup_table_from n k) i 0 < 2 ^ 32
unfolding lookup_table_from
table_from-lt zero k i h = omega arith
table_from-lt (suc n) k zero h = steps-lt 8 k (omega arith)
table_from-lt (suc n) k (suc i) h = table_from-lt n (k + 1) i (omega arith)

table-lt : (i : ℕ) → get_or crc_table i 0 < 2 ^ 32
unfolding crc_table
table-lt i = table_from-lt 256 0 i (omega arith)

update-lt : (temp byte : ℕ) → temp < 2 ^ 32 → update temp byte < 2 ^ 32
unfolding update
update-lt temp byte h =
    xor-lt 32 _ (temp / 2 ^ 8) (table-lt (bit_and (bit_xor byte temp) 255)) (omega (arith, h))

update_all-lt : (temp : ℕ) (xs : List ℕ) → temp < 2 ^ 32 → update_all temp xs < 2 ^ 32
unfolding update_all
update_all-lt temp [] h = h
update_all-lt temp (x ∷ xs) h = update_all-lt (update temp x) xs (update-lt temp x h)

update_all-append :
    (temp : ℕ) (xs ys : List ℕ) → update_all temp (xs ++ ys) ≡ update_all (update_all temp xs) ys
unfolding update_all
update_all-append temp [] ys = refl
update_all-append temp (x ∷ xs) ys = update_all-append (update temp x) xs ys

calc-cons :
    (c : Crc32) (x : ℕ) (xs : List ℕ)
    → (calc (x ∷ xs) c).1 ≡ record { sum = not32 (update_all (not32 c.sum) (x ∷ xs)) }
unfolding calc
calc-cons c x xs =
    let not_empty : (suc (length xs) == 0) ≡ false = ground arith in rw not_empty refl

pub calc_nil : (c : Crc32) → (calc [] c).1 ≡ c
unfolding calc
calc_nil c = refl

-- For a 32-bit sum, summing one chunk and then another is summing the two joined; so no bound on
-- the numbers of the chunks is asked.
pub calc-chunks :
    (c : Crc32) (xs ys : List ℕ)
    → c.sum < 2 ^ 32
    → (calc ys (calc xs c).1).1 ≡ (calc (xs ++ ys) c).1
calc-chunks c [] ys h = ap (λ d. (calc ys d).1) (calc_nil c)
calc-chunks c (x ∷ xs) [] h =
    calc_nil (calc (x ∷ xs) c).1 ∙ ap (λ zs. (calc zs c).1) (sym (append-nil (x ∷ xs)))
calc-chunks c (x ∷ xs) (y ∷ ys) h =
    let t = update_all (not32 c.sum) (x ∷ xs) in
    let bound : t < 2 ^ 32 = update_all-lt (not32 c.sum) (x ∷ xs) (omega arith) in
    ap (λ d. (calc (y ∷ ys) d).1) (calc-cons c x xs)
    ∙ calc-cons (record { sum = not32 t }) y ys
    ∙ ap (λ r. record { sum = not32 (update_all r (y ∷ ys)) })
        (let e : not32 (not32 t) ≡ t = omega (arith, bound) in e)
    ∙ ap (λ r. record { sum = not32 r }) (sym (update_all-append (not32 c.sum) (x ∷ xs) (y ∷ ys)))
    ∙ sym (calc-cons c x (xs ++ (y ∷ ys)))

pub calc_sum-lt : (c : Crc32) (xs : List ℕ) → c.sum < 2 ^ 32 → (calc xs c).1.sum < 2 ^ 32
calc_sum-lt c [] h = rw calc_nil h
calc_sum-lt c (x ∷ xs) h = rw calc-cons (omega arith)
