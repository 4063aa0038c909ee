-- ===== src/Table/Honest.antt =====
-- `HuffmanTable::reset_table` of src/huffman_table.cc does not fail with `Status::Ok`.
use cxx_unlzx.Base.{ℕ, zero, suc, List, [], ◌∷◌}
use cxx_unlzx.Exec.Honest.{honest, Honest}
use cxx_unlzx.Table.{
  HuffmanTable, Build, fill_entries, assign_short, short_symbols, short_lengths, clear_rest,
  grow_node, walk_down, assign_long, long_symbols, long_lengths, check_full, second_pass,
  after_first, build, reset_table,
}

pub fill_entries-Honest :
    (n leaf step symbol : ℕ) (xs : List ℕ) → Honest (fill_entries n leaf step symbol xs)
unfolding fill_entries
fill_entries-Honest zero leaf step symbol xs = tt
fill_entries-Honest (suc n) leaf step symbol xs = search (honest, fill_entries-Honest n) depth 16

pub assign_short-Honest :
    (x len mask symbol : ℕ) (b : Build) → Honest (assign_short x len mask symbol b)
unfolding assign_short
assign_short-Honest x len mask symbol b = search (honest, fill_entries-Honest) depth 16

pub short_symbols-Honest :
    (x len mask : ℕ) (ls : List ℕ) (symbol : ℕ) (b : Build)
    → Honest (short_symbols x len mask ls symbol b)
unfolding short_symbols
short_symbols-Honest x len mask [] symbol b = tt
short_symbols-Honest x len mask (l ∷ ls) symbol b =
    search (honest, assign_short-Honest, short_symbols-Honest x len mask ls) depth 16

pub short_lengths-Honest :
    (x : ℕ) (ls : List ℕ) (n len mask : ℕ) (b : Build) → Honest (short_lengths x ls n len mask b)
unfolding short_lengths
short_lengths-Honest x ls zero len mask b = tt
short_lengths-Honest x ls (suc n) len mask b =
    search (honest, short_symbols-Honest, short_lengths-Honest x ls n) depth 16

pub clear_rest-Honest : (x n symbol : ℕ) (xs : List ℕ) → Honest (clear_rest x n symbol xs)
unfolding clear_rest
clear_rest-Honest x zero symbol xs = tt
clear_rest-Honest x (suc n) symbol xs = search (honest, clear_rest-Honest x n) depth 16

pub grow_node-Honest : (leaf : ℕ) (b : Build) → Honest (grow_node leaf b)
unfolding grow_node
grow_node-Honest leaf b = search (honest) depth 16

pub walk_down-Honest : (n fill leaf : ℕ) (b : Build) → Honest (walk_down n fill leaf b)
unfolding walk_down
walk_down-Honest zero fill leaf b = tt
walk_down-Honest (suc n) fill leaf b =
    search (honest, grow_node-Honest, walk_down-Honest n) depth 16

pub assign_long-Honest :
    (x len mask symbol : ℕ) (b : Build) → Honest (assign_long x len mask symbol b)
unfolding assign_long
assign_long-Honest x len mask symbol b = search (honest, walk_down-Honest) depth 16

pub long_symbols-Honest :
    (x len mask : ℕ) (ls : List ℕ) (symbol : ℕ) (b : Build)
    → Honest (long_symbols x len mask ls symbol b)
unfolding long_symbols
long_symbols-Honest x len mask [] symbol b = tt
long_symbols-Honest x len mask (l ∷ ls) symbol b =
    search (honest, assign_long-Honest, long_symbols-Honest x len mask ls) depth 16

pub long_lengths-Honest :
    (x : ℕ) (ls : List ℕ) (n len mask : ℕ) (b : Build) → Honest (long_lengths x ls n len mask b)
unfolding long_lengths
long_lengths-Honest x ls zero len mask b = tt
long_lengths-Honest x ls (suc n) len mask b =
    search (honest, long_symbols-Honest, long_lengths-Honest x ls n) depth 16

pub check_full-Honest : (n : ℕ) (b : Build) → Honest (check_full n b)
unfolding check_full
check_full-Honest n b = search (honest) depth 16

pub second_pass-Honest : (x : ℕ) (ls : List ℕ) (b : Build) → Honest (second_pass x ls b)
unfolding second_pass
second_pass-Honest x ls b =
    search (honest, clear_rest-Honest, long_lengths-Honest, check_full-Honest) depth 16

pub after_first-Honest : (x : ℕ) (ls : List ℕ) (b : Build) → Honest (after_first x ls b)
unfolding after_first
after_first-Honest x ls b = search (honest, check_full-Honest, second_pass-Honest) depth 16

pub build-Honest : (x : ℕ) (ls : List ℕ) (b : Build) → Honest (build x ls b)
unfolding build
build-Honest x ls b = search (honest, short_lengths-Honest, after_first-Honest) depth 16

pub reset_table-Honest : (t : HuffmanTable) → Honest (reset_table t)
unfolding reset_table
reset_table-Honest t = search (honest, build-Honest) depth 16
