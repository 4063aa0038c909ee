-- ===== src/Decoder/Decrunch/Ready.antt =====
-- The tables that `decrunch` needs to stay inside its arrays, and the bounds of its constants.
use mathlib.Core.Path.{subst}
use cxx_unlzx.Base.{
  sym, ℕ, zero, suc, ◌+◌, ◌^◌, ◌≤◌, ◌<◌, ◌≡◌, refl, arith, List, [], ◌∷◌, length, length-replicate,
  replicate, get_elem?, Bool, true, ◌&&◌, ltb, bit_and, u32, some,
}
use cxx_unlzx.Base.Bits.{and_mask}
use cxx_unlzx.Table.{HuffmanTable, new_table}
use cxx_unlzx.Decoder.{HuffmanDecoder, base_offsets, symbol_bit_lengths, new_decoder}
use cxx_unlzx.Decoder.Symbol.{IsClosed}

-- A table that names a symbol with a length for any `width` bits of the source.
pub record IsDirect (t : HuffmanTable) (width : ℕ) : Type 0 where
  pub entries : 2 ^ width ≤ length t.table
  pub symbols : (i e : ℕ) → i < 2 ^ width → get_elem? t.table i ≡ some e → e < length t.bit_length

-- The tables that `decrunch` reads lead nowhere outside their arrays.
abbrev pub IsReady : HuffmanDecoder → Type 0
IsReady d = IsClosed d.literals 12 768 × IsDirect d.offsets 7

-- The decoder but for its last offset.
abbrev pub tables : HuffmanDecoder → HuffmanDecoder
tables d = record d { last_offset = 0 }

pub IsReady-carry : (d d' : HuffmanDecoder) → tables d' ≡ tables d → IsReady d → IsReady d'
IsReady-carry d d' e r = subst {A = HuffmanDecoder} IsReady (sym e) r

get_elem?-replicate : (n v i : ℕ) {e : ℕ} → get_elem? (replicate n v) i ≡ some e → e ≡ v
get_elem?-replicate zero v i h = cc
get_elem?-replicate (suc n) v zero {e} h = let q : some v ≡ some e = h in (let r : e ≡ v = cc in r)
get_elem?-replicate (suc n) v (suc i) h = get_elem?-replicate n v i h

-- The tables of a fresh decoder are good.
pub new_decoder-IsReady : IsReady new_decoder
unfolding new_decoder new_table
new_decoder-IsReady = (
  record {
    entries = rw length-replicate (omega arith);
    symbols = rw length-replicate (omega arith);
    sons = λ i e h l. absurd (omega (arith, get_elem?-replicate 5120 0 i h));
  },
  record {
    entries = rw length-replicate (omega arith);
    symbols = λ i e l h. rw length-replicate (omega (arith, get_elem?-replicate 128 0 i h));
  },
)

-- Every entry of the table is below `n`.
all_below : ℕ → List ℕ → Bool
all_below n [] = true
all_below n (x ∷ xs) = ltb x n && all_below n xs

get_elem?-below :
    (n : ℕ) (xs : List ℕ) (i : ℕ) {x : ℕ} → all_below n xs ≡ true → get_elem? xs i ≡ some x → x < n
unfolding all_below
get_elem?-below n [] i h e = cc
get_elem?-below n (y ∷ xs) zero {x} h e = let q : some y ≡ some x = e in ground arith
get_elem?-below n (y ∷ xs) (suc i) h e =
    get_elem?-below n xs i (let k : all_below n xs ≡ true = ground arith in k) e

pub base-below : (i : ℕ) {base : ℕ} → get_elem? base_offsets i ≡ some base → base < 2 ^ 16
unfolding all_below
base-below i e = get_elem?-below (2 ^ 16) base_offsets i refl e

pub width-le : (i : ℕ) {width : ℕ} → get_elem? symbol_bit_lengths i ≡ some width → width < 17
unfolding all_below
width-le i e = get_elem?-below 17 symbol_bit_lengths i refl e

pub count-le : (base bits : ℕ) → base < 2 ^ 16 → bits < 2 ^ 16 → 3 ≤ u32 (base + 3 + bits)
count-le base bits h k = omega arith

-- The masks of the two indices.
pub low_five : (symbol : ℕ) → bit_and symbol 31 < 32
low_five symbol = rw (and_mask 5 symbol) (omega arith)

pub low_four : (symbol : ℕ) → bit_and symbol 15 < 32
low_four symbol = rw (and_mask 4 symbol) (omega arith)
