-- ===== src/Table/Slots.antt =====
-- The canonical code that `reset_table` means: the codes of `bits` bits in order, each with the
-- symbol that owns it. Shorter lengths come first, and symbols of one length in their order.
use cxx_unlzx.Base.{
  ℕ, zero, suc, ◌+◌, ◌*◌, ◌/◌, ◌^◌, ◌≤◌, ◌<◌, ◌≡◌, inl, inr, arith, List, [], ◌∷◌, ◌++◌, length,
  get_or, replicate, length-append, length-replicate, Bool-cases, ◌==◌, if◌then◌else◌,
}
use cxx_unlzx.Base.Reverse.{reversed}
use cxx_unlzx.Table.{Build}

-- A symbol of `len` bits owns `2 ^ (bits - len)` codes in a row, here `width` many.
unfoldable pub symbol_slots : ℕ → ℕ → List ℕ → ℕ → List ℕ
symbol_slots len width [] symbol = []
symbol_slots len width (l ∷ rest) symbol =
    (if l == len then replicate width symbol else []) ++ symbol_slots len width rest (symbol + 1)

unfoldable pub slots_from : List ℕ → ℕ → ℕ → ℕ → List ℕ
slots_from lens zero len width = []
slots_from lens (suc left) len width =
    symbol_slots len width lens 0 ++ slots_from lens left (len + 1) (width / 2)

-- All codes of at most `bits` bits.
unfoldable pub slots : ℕ → List ℕ → List ℕ
slots bits lens = slots_from lens bits 1 (2 ^ bits / 2)

-- The build has given the first codes to `owners`: the code whose bits, read from the low end, are
-- `k` has the `k`-th of them in its entry, and `position` is the next free code.
pub record Owned (bits : ℕ) (owners : List ℕ) (b : Build) : Type 0 where
  pub position : b.position ≡ length owners
  pub fits : length owners ≤ 2 ^ bits
  pub room : 2 ^ bits ≤ length b.table
  pub entry : (k : ℕ) → k < length owners → get_or b.table (reversed bits k) 0 ≡ get_or owners k 0

-- The slots of one length are a number of whole symbols.
pub length-symbol_slots :
    (len width : ℕ) (lens : List ℕ) (symbol : ℕ)
    → (c : ℕ) × (length (symbol_slots len width lens symbol) ≡ c * width)
unfolding symbol_slots
length-symbol_slots len width [] symbol = (0, omega arith)
length-symbol_slots len width (l ∷ rest) symbol =
    let (c, e) = length-symbol_slots len width rest (symbol + 1) in
    elim (Bool-cases (l == len)) [
      | inl same ↦ (c + 1, rw (same, length-append, length-replicate) (omega (arith, e)))
      | inr other ↦ (c, rw other e)
    ]
