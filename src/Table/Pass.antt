-- ===== src/Table/Pass.antt =====
-- The first pass of `reset_table` against the canonical code.
use native.Mathlib.Nat.{pow-suc}
use cxx_unlzx.Base.{
  ℕ, zero, suc, ◌+◌, ◌*◌, ◌/◌, ◌^◌, ◌≤◌, ◌≡◌, inl, inr, sym, ap, arith, List, [], ◌∷◌, length,
  replicate, ◌++◌, length-append, length-replicate, Bool-cases, ◌==◌,
}
use mathlib.Core.List.{append_assoc, append-nil}
use mathlib.Core.Path.{subst}
use cxx_unlzx.Exec.{Outcome, bind_outcome, Exec}
use cxx_unlzx.Table.{Build, assign_short, short_symbols, short_lengths}
use cxx_unlzx.Table.Slots.{Owned, symbol_slots, slots_from, slots, length-symbol_slots}
use cxx_unlzx.Table.Short.{ShortResult, owned, overfull, assign_short_lem}

ShortResult-bind :
    {bits : ℕ} {owners : List ℕ} (more : List ℕ) (o : Outcome Build (Unit {0}))
    (f : Unit {0} → Exec Build (Unit {0}))
    → ShortResult bits owners o
    → ((b : Build) → Owned bits owners b → ShortResult bits (owners ++ more) (f tt b))
    → ShortResult bits (owners ++ more) (bind_outcome o f)
ShortResult-bind more o f (owned {b} h) k = k b h
ShortResult-bind {owners = ys} more o f (overfull h) k = overfull (rw length-append (omega arith))

module _ (w len : ℕ) (small : w + len ≤ 30) where
  symbols_lem :
      (rest : List ℕ) (symbol : ℕ) (owners : List ℕ) (q : ℕ) (b : Build)
      → symbol + length rest ≤ 2 ^ 16
      → length owners ≡ q * 2 ^ w
      → Owned (w + len) owners b
      → ShortResult
          (w + len)
          (owners ++ symbol_slots len (2 ^ w) rest symbol)
          (short_symbols (w + len) len (2 ^ w) rest symbol b)
  unfolding short_symbols symbol_slots
  symbols_lem [] symbol owners q b n a o = rw append-nil (owned o)
  symbols_lem (l ∷ rest) symbol owners q b n a o = elim (Bool-cases (l == len)) [
    | inl same ↦
        rw (same, ← append_assoc)
          (ShortResult-bind (symbol_slots len (2 ^ w) rest (symbol + 1))
            (assign_short (w + len) len (2 ^ w) symbol b)
            (λ _. short_symbols (w + len) len (2 ^ w) rest (symbol + 1))
            (assign_short_lem w len symbol q owners o small (omega arith) a)
            (λ b' o'.
              symbols_lem rest (symbol + 1) (owners ++ replicate (2 ^ w) symbol) (q + 1) b'
                (omega arith) (rw (length-append, length-replicate) (omega (arith, a))) o'))
    | inr other ↦ rw other (symbols_lem rest (symbol + 1) owners q b (omega arith) a o)
  ]

-- The same at any name for the number of bits.
symbols_at :
    (bits w len : ℕ)
    → w + len ≡ bits
    → bits ≤ 30
    → (lens owners : List ℕ) (q : ℕ) (b : Build) → length lens ≤ 2 ^ 16
    → length owners ≡ q * 2 ^ w
    → Owned bits owners b
    → ShortResult bits
        (owners ++ symbol_slots len (2 ^ w) lens 0)
        (short_symbols bits len (2 ^ w) lens 0 b)
symbols_at bits w len e small lens owners q b n a o =
    subst
      (λ t.
        ShortResult t (owners ++ symbol_slots len (2 ^ w) lens 0)
          (short_symbols t len (2 ^ w) lens 0 b))
      e
      (symbols_lem w len (omega arith) lens 0 owners q b (omega arith) a
        (subst (λ t. Owned t owners b) (sym e) o))

module _ (bits : ℕ) (lens : List ℕ) (small : bits ≤ 30) (few : length lens ≤ 2 ^ 16) where
  lengths_lem :
      (w len : ℕ) (owners : List ℕ) (q : ℕ) (b : Build)
      → w + len ≡ bits
      → length owners ≡ q * 2 ^ w
      → Owned bits owners b
      → ShortResult bits
          (owners ++ slots_from lens (suc w) len (2 ^ w))
          (short_lengths bits lens (suc w) len (2 ^ w) b)
  unfolding short_lengths slots_from
  lengths_lem zero len owners q b e a o = rw (← append_assoc) (
      ShortResult-bind [] (short_symbols bits len (2 ^ 0) lens 0 b)
        (λ _. short_lengths bits lens 0 (len + 1) (2 ^ 0 / 2))
        (symbols_at bits zero len e small lens owners q b few a o)
        (λ b' o'. rw append-nil (owned o')))
  lengths_lem (suc w) len owners q b e a o =
      let (c, f) = length-symbol_slots len (2 ^ suc w) lens 0 in
      let half : 2 ^ suc w / 2 ≡ 2 ^ w = omega (arith, pow-suc 2 w) in
      rw (← append_assoc, half)
        (ShortResult-bind (slots_from lens (suc w) (len + 1) (2 ^ w))
          (short_symbols bits len (2 ^ suc w) lens 0 b)
          (λ _. short_lengths bits lens (suc w) (len + 1) (2 ^ w))
          (symbols_at bits (suc w) len e small lens owners q b few a o)
          (λ b' o'.
            lengths_lem w (len + 1) (owners ++ symbol_slots len (2 ^ suc w) lens 0) (2 * (q + c)) b'
              (omega arith)
              (rw length-append (
                omega (
                  arith,
                  a,
                  f,
                  ap (λ (t : ℕ). q * t) (pow-suc 2 w),
                  ap (λ (t : ℕ). c * t) (pow-suc 2 w),
                )))
              o'))

-- For 1 to 30 table bits, at most 2 ^ 16 symbols, an array of at least 2 ^ bits entries and a
-- position of 0: the first pass of `reset_table` returns Ok with a position that is the number of
-- canonical codes of at most `bits` bits, each owned by its symbol in the array, or
-- HuffmanTableError where there are more than 2 ^ bits. It makes no access outside the array.
pub first_pass :
    (bits : ℕ) (lens : List ℕ) (b : Build)
    → 1 ≤ bits
    → bits ≤ 30
    → length lens ≤ 2 ^ 16
    → 2 ^ bits ≤ length b.table
    → b.position ≡ 0
    → ShortResult bits (slots bits lens) (short_lengths bits lens bits 1 (2 ^ bits / 2) b)
unfolding slots
first_pass zero lens b one small few room start = elim one [ ]
first_pass (suc w) lens b one small few room start =
    let half : 2 ^ suc w / 2 ≡ 2 ^ w = omega (arith, pow-suc 2 w) in
    rw half (
      lengths_lem (suc w) lens small few w 1 [] 0 b (omega arith) (omega arith) (record {
        position = start;
        fits = omega arith;
        room = room;
        entry = λ k h. absurd (omega arith);
      }))
