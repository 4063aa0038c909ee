-- ===== src/Table/Reverse.antt =====
-- `reverse_bits` of `reset_table` against the reversal of `Base.Reverse`.
use cxx_unlzx.Base.{
  ℕ, zero, suc, ◌+◌, ◌*◌, ◌/◌, ◌%◌, ◌^◌, ◌≤◌, ◌<◌, ◌≡◌, refl, ap, ap₂, ◌∙◌, bit_and, bit_or, arith,
  u32,
}
use native.Mathlib.Nat.{pow-le-pow_right, add-zero, add-suc}
use cxx_unlzx.Base.Bits.{and_mask, or_shifted}
use cxx_unlzx.Base.Reverse.{reversed, reversed-lt}
use cxx_unlzx.Table.{reverse_bits, reverse_bits_rounds}

-- A round moves the next bit in from below.
round :
    (v i : ℕ)
    → i < 32
    → bit_or (u32 (reversed i v * 2)) (bit_and (v / 2 ^ i) 1) ≡ reversed (i + 1) v
unfolding reversed
round v i h =
    let small : reversed i v * 2 < 2 ^ 32 = omega (
      arith,
      reversed-lt i v,
      pow-le-pow_right {n = 2} (omega arith) {i = i} {j = 31} (omega arith),
    ) in
    let wrapped : u32 (reversed i v * 2) ≡ reversed i v * 2 = omega arith in
    ap₂ bit_or wrapped (and_mask 1 (v / 2 ^ i))
    ∙ or_shifted 1 (reversed i v) (v / 2 ^ i % 2) (omega arith)
    ∙ rw (add-suc, add-zero) refl

rounds_lem :
    (left v i k : ℕ)
    → i + left ≡ k
    → k ≤ 32
    → reverse_bits_rounds left v i (reversed i v) ≡ reversed k v
unfolding reverse_bits_rounds
rounds_lem zero v i k e h = ap (λ t. reversed t v) (let e' : i ≡ k = omega arith in e')
rounds_lem (suc left) v i k e h =
    ap (reverse_bits_rounds left v (i + 1)) (round v i (omega arith))
    ∙ rounds_lem left v (i + 1) k (omega arith) h

-- For at most 32 bits, the loop of `reverse_bits` computes the reversal that the recursive
-- definition `reversed` describes.
pub reverse_bits-eq-reversed : (bits v : ℕ) → bits ≤ 32 → reverse_bits bits v ≡ reversed bits v
unfolding reverse_bits reversed
reverse_bits-eq-reversed bits v h = rounds_lem bits v 0 bits (omega arith) h
