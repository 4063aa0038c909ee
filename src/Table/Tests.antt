-- ===== src/Table/Tests.antt =====
-- Small tables, worked by hand, and the theorems on tables at them.
use cxx_unlzx.Base.{ℕ, ◌/◌, ◌^◌, ◌≡◌, refl, arith, List, [], ◌∷◌, replicate, u16}
use cxx_unlzx.Base.Reverse.{reversed}
use cxx_unlzx.Status.{Status, huffman_table_error}
use cxx_unlzx.Exec.{Outcome, done, fail, fault, exhausted}
use cxx_unlzx.Table.{
  HuffmanTable, Build, reset_table, build, after_first, second_pass, short_lengths, short_symbols,
  assign_short, fill_entries, reverse_bits, clear_rest, long_lengths, long_symbols, assign_long,
  walk_down, grow_node, check_full,
}
use cxx_unlzx.Table.Slots.{slots}
use cxx_unlzx.Table.Short.{ShortResult}
use cxx_unlzx.Table.Pass.{first_pass}
use cxx_unlzx.Table.Kraft.{kraft}
use cxx_unlzx.Table.Rebuilds.{Rebuilds, reset_table-Rebuilds}
use cxx_unlzx.Exec.Relate.{On}
use cxx_unlzx.Table.Fill.{IsFilled, fill_entries_lem}
use cxx_unlzx.Table.Reverse.{reverse_bits-eq-reversed}
use cxx_unlzx.Table.Reset.{IsSized, Decodes, reset_table_complete, reset_table_overfull}

abbrev with_lengths : ℕ → List ℕ → HuffmanTable
with_lengths bits lens = record { table_bits = bits; bit_length = lens; table = replicate 8 0 }

-- What a run of `reset_table` shows: its outcome and its table.
data Shown : Type 0 where
  table : List ℕ → Shown
  error : Status → Shown
  beyond stuck : Shown

abbrev shown : Outcome HuffmanTable (Unit {0}) → Shown
shown (done a t) = Shown.table t.table
shown (fail e t) = Shown.error e
shown fault = Shown.beyond
shown exhausted = Shown.stuck

run_reset : HuffmanTable → Shown
unfolding reset_table build after_first second_pass short_lengths short_symbols assign_short
    fill_entries reverse_bits clear_rest long_lengths long_symbols assign_long walk_down grow_node
    check_full
run_reset t = shown (reset_table t)

-- Codes 0, 10, 11 for the symbols 1, 0, 2, read low bit first.
three_codes :
    run_reset (with_lengths 2 (2 ∷ 1 ∷ 2 ∷ [])) ≡ Shown.table (1 ∷ 0 ∷ 1 ∷ 2 ∷ 0 ∷ 0 ∷ 0 ∷ 0 ∷ [])
unfolding run_reset
three_codes = refl

-- Codes 0, 10, 110, 111 with a table of two bits: the last two hang on the inner node 2.
with_a_node :
    run_reset (with_lengths 2 (1 ∷ 2 ∷ 3 ∷ 3 ∷ []))
    ≡ Shown.table (0 ∷ 1 ∷ 0 ∷ 2 ∷ 2 ∷ 3 ∷ 0 ∷ 0 ∷ [])
unfolding run_reset
with_a_node = refl

too_many : run_reset (with_lengths 2 (1 ∷ 1 ∷ 1 ∷ [])) ≡ Shown.error huffman_table_error
unfolding run_reset
too_many = refl

too_few : run_reset (with_lengths 2 (2 ∷ 2 ∷ 2 ∷ [])) ≡ Shown.error huffman_table_error
unfolding run_reset
too_few = refl

-- Twenty codes of 15 bits need more inner nodes than the 96 entries of the decoder's table hold.
overrun :
    run_reset (record { table_bits = 6; bit_length = replicate 20 15; table = replicate 96 0 })
    ≡ Shown.beyond
unfolding run_reset
overrun = refl

sized : IsSized (with_lengths 2 (2 ∷ 1 ∷ 2 ∷ []))
sized = record {
  some_bits = omega arith;
  few_bits = omega arith;
  few_symbols = omega arith;
  entries = omega arith;
}

reset_table_complete_example :
    (t : HuffmanTable) × (reset_table (with_lengths 2 (2 ∷ 1 ∷ 2 ∷ [])) ≡ done tt t)
    × Decodes (with_lengths 2 (2 ∷ 1 ∷ 2 ∷ [])) t
reset_table_complete_example =
    reset_table_complete (with_lengths 2 (2 ∷ 1 ∷ 2 ∷ [])) sized (unfold kraft in refl)

IsSized-overfull : IsSized (with_lengths 2 (1 ∷ 1 ∷ 1 ∷ []))
IsSized-overfull = record {
  some_bits = omega arith;
  few_bits = omega arith;
  few_symbols = omega arith;
  entries = omega arith;
}

reset_table_overfull_example :
    (t : HuffmanTable) × (reset_table (with_lengths 2 (1 ∷ 1 ∷ 1 ∷ []))
      ≡ fail huffman_table_error t)
reset_table_overfull_example =
    reset_table_overfull (with_lengths 2 (1 ∷ 1 ∷ 1 ∷ [])) IsSized-overfull
      (unfold kraft in omega arith)

abbrev empty_build : Build
empty_build = record { table = replicate 8 0; position = 0; next_symbol = 0 }

first_pass_example :
    ShortResult 2
      (slots 2 (2 ∷ 1 ∷ 2 ∷ []))
      (short_lengths 2 (2 ∷ 1 ∷ 2 ∷ []) 2 1 (2 ^ 2 / 2) empty_build)
first_pass_example =
    first_pass 2 (2 ∷ 1 ∷ 2 ∷ []) empty_build (omega arith) (omega arith) (omega arith)
      (omega arith) refl

reverse_bits-eq-reversed_example : reverse_bits 12 100 ≡ reversed 12 100
reverse_bits-eq-reversed_example = reverse_bits-eq-reversed 12 100 (omega arith)

fill_entries_lem_example :
    IsFilled 2 1 4 (u16 5) (replicate 8 0) (fill_entries 2 1 4 5 (replicate 8 0))
fill_entries_lem_example =
    fill_entries_lem 8 2 1 4 5 (replicate 8 0) (omega arith) (omega arith) (omega arith)
      (omega arith)

reset_table-Rebuilds_example :
    On Unit Rebuilds
      (with_lengths 2 (1 ∷ 2 ∷ 3 ∷ 3 ∷ []))
      (reset_table (with_lengths 2 (1 ∷ 2 ∷ 3 ∷ 3 ∷ [])))
reset_table-Rebuilds_example =
    reset_table-Rebuilds (with_lengths 2 (1 ∷ 2 ∷ 3 ∷ 3 ∷ [])) (omega arith)
