-- ===== src/Table/Reset.antt =====
-- `reset_table` as a whole, where the codes of at most `table_bits_` bits decide.
use native.Mathlib.Nat.{mod-eq_of_lt}
use cxx_unlzx.Base.{
  ℕ, ◌/◌, ◌^◌, ◌≤◌, ◌<◌, ◌≡◌, refl, sym, ap, ◌∙◌, arith, List, length, get_or, ==_iff,
}
use cxx_unlzx.Base.Reverse.{reversed, reversed-lt, reversed-reversed}
use cxx_unlzx.Status.{huffman_table_error}
use cxx_unlzx.Exec.{Outcome, done, fail}
use cxx_unlzx.Table.{
  HuffmanTable, Build, short_lengths, check_full, after_first, build, reset_table,
}
use cxx_unlzx.Table.Slots.{Owned, slots}
use cxx_unlzx.Table.Short.{ShortResult, owned, overfull}
use cxx_unlzx.Table.Pass.{first_pass}
use cxx_unlzx.Table.Kraft.{kraft, length-slots}

-- A table whose arrays suit its parameters.
pub record IsSized (t : HuffmanTable) : Type 0 where
  pub some_bits : 1 ≤ t.table_bits
  pub few_bits : t.table_bits ≤ 30
  pub few_symbols : length t.bit_length ≤ 2 ^ 16
  pub entries : 2 ^ t.table_bits ≤ length t.table

abbrev codes : HuffmanTable → List ℕ
codes t = slots t.table_bits t.bit_length

abbrev start : HuffmanTable → Build
start t = record { table = t.table; position = 0; next_symbol = 0 }

-- Every prefix of `table_bits_` bits leads to the symbol whose code it begins with.
pub record Decodes (t t' : HuffmanTable) : Type 0 where
  pub same_bits : t'.table_bits ≡ t.table_bits
  pub same_lengths : t'.bit_length ≡ t.bit_length
  pub entry :
      (i : ℕ)
      → i < 2 ^ t.table_bits
      → get_or t'.table i 0 ≡ get_or (codes t) (reversed t.table_bits i) 0

Owned-of :
    {bits : ℕ} {owners : List ℕ} (o : Outcome Build (Unit {0}))
    → ShortResult bits owners o
    → length owners ≡ 2 ^ bits
    → (b : Build) × (o ≡ done tt b) × Owned bits owners b
Owned-of o (owned {b} w) e = (b, refl, w)
Owned-of o (overfull h) e = absurd (omega arith)

overfull_of :
    {bits : ℕ} {owners : List ℕ} (o : Outcome Build (Unit {0}))
    → ShortResult bits owners o
    → 2 ^ bits < length owners
    → (b : Build) × (o ≡ fail huffman_table_error b)
overfull_of o (owned {b} w) h = absurd (omega (arith, w.fits))
overfull_of o (overfull {b} _) h = (b, refl)

-- `reset_table` at the outcome of its first pass.
module _ (t : HuffmanTable) (b : Build) where
  abbrev passed : Outcome Build (Unit {0})
  passed = short_lengths t.table_bits t.bit_length t.table_bits 1 (2 ^ t.table_bits / 2) (start t)

  abbrev with_table : HuffmanTable
  with_table = record t { table = b.table }

  resets : passed ≡ done tt b → b.position ≡ 2 ^ t.table_bits → reset_table t ≡ done tt with_table
  unfolding reset_table build after_first check_full
  resets e full =
      let at_end = (==_iff b.position (2 ^ t.table_bits)).1 full in rw (e, at_end, at_end) refl

  rejects :
      passed ≡ fail huffman_table_error b → reset_table t ≡ fail huffman_table_error with_table
  unfolding reset_table build
  rejects e = rw e refl

  table_entries :
      length (codes t) ≡ 2 ^ t.table_bits
      → Owned t.table_bits (codes t) b
      → (i : ℕ) → i < 2 ^ t.table_bits
      → get_or b.table i 0 ≡ get_or (codes t) (reversed t.table_bits i) 0
  table_entries full w i h =
      ap (λ k. get_or b.table k 0) (sym (reversed-reversed t.table_bits i ∙ mod-eq_of_lt h))
      ∙ w.entry (reversed t.table_bits i) (rw full (reversed-lt t.table_bits i))

module _ (t : HuffmanTable) (s : IsSized t) where
  first :
      ShortResult t.table_bits
        (codes t)
        (short_lengths t.table_bits t.bit_length t.table_bits 1 (2 ^ t.table_bits / 2) (start t))
  first =
      first_pass t.table_bits t.bit_length (start t) s.some_bits s.few_bits s.few_symbols s.entries
        refl

  code_count : length (codes t) ≡ kraft t.table_bits t.bit_length
  code_count = length-slots t.table_bits t.bit_length s.some_bits

  -- For a table whose arrays suit its parameters: where the lengths from 1 to table_bits_ bits
  -- fill Kraft's sum, `reset_table` returns Ok, keeps the lengths, and each of the first 2 ^
  -- table_bits_ entries holds the symbol whose canonical code the entry's index begins with, low
  -- bits first.
  pub reset_table_complete :
      kraft t.table_bits t.bit_length ≡ 2 ^ t.table_bits
      → (t' : HuffmanTable) × (reset_table t ≡ done tt t') × Decodes t t'
  reset_table_complete all_used =
      let full : length (codes t) ≡ 2 ^ t.table_bits = code_count ∙ all_used in
      let (b, e, w) = Owned-of _ first full in
      (
        record t { table = b.table },
        resets t b e (w.position ∙ full),
        record { same_bits = refl; same_lengths = refl; entry = table_entries t b full w },
      )

  -- For a table whose arrays suit its parameters: where the lengths from 1 to table_bits_ bits
  -- exceed Kraft's sum, `reset_table` fails with HuffmanTableError.
  pub reset_table_overfull :
      2 ^ t.table_bits < kraft t.table_bits t.bit_length
      → (t' : HuffmanTable) × (reset_table t ≡ fail huffman_table_error t')
  reset_table_overfull over =
      let (b, e) = overfull_of _ first (rw code_count over) in
      (record t { table = b.table }, rejects t b e)
