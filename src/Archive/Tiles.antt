-- ===== src/Archive/Tiles.antt =====
-- The segments of a merge group, as `list_archive` lays them in their block, read one by one by
-- `LzxFileSegment::data` of src/lzx_entry.cc.
mod Tests
use mathlib.Core.Path.{subst}
use native.Mathlib.Nat.{zero-add}
use cxx_unlzx.Base.{
  ℕ, ◌+◌, ◌-◌, ◌≤◌, ◌≡◌, refl, sym, ap, ◌∙◌, arith, List, [], ◌∷◌, ◌++◌, some, length, get_elem?,
  set, take, drop, take-drop, drop_all, drop-drop, le→ltb,
}
use cxx_unlzx.Exec.{Outcome, Exec, done, bind_outcome, ◌>>=◌, pure}
use cxx_unlzx.Exec.Ensures.{Ensures}
use cxx_unlzx.Block.{Block, block_data}
use cxx_unlzx.Block.Memo.{block_data_again}
use cxx_unlzx.Block.Life.{IsFresh, newborn, Answer, got, IsRead, Reads, block_data-Reads}
use cxx_unlzx.File.{Segment, subspan, part_of, segment_data}
use cxx_unlzx.File.Reads.{set_same, get_elem?-set}
use cxx_unlzx.Archive.Plan.{Member, Piece, name_of, length_of, total_of, laid, block_of}

-- The data of some pieces, one after the other.
unfoldable pub read_pieces : List Piece → Exec (List Block) (List ℕ)
read_pieces [] = pure []
read_pieces ((_, g) ∷ ps) = do xs ← segment_data g; ys ← read_pieces ps; pure (xs ++ ys)

subspan_inside :
    (offset count : ℕ) (xs : List ℕ) {store : List Block}
    → offset + count ≤ length xs
    → subspan offset count xs store ≡ done (take count (drop offset xs)) store
unfolding subspan
subspan_inside offset count xs within =
    rw
      (
        le→ltb (length xs) offset (omega (arith, within)),
        le→ltb (length xs - offset) count (omega (arith, within)),
      )
      refl

segment_data_inside :
    (store : List Block) (g : Segment) {b c : Block} {xs : List ℕ}
    → get_elem? store g.block ≡ some b
    → block_data b ≡ done (some xs) c
    → g.decompressed_offset + g.decompressed_length ≤ length xs
    → segment_data g store
      ≡ done (take g.decompressed_length (drop g.decompressed_offset xs)) (set store g.block c)
unfolding segment_data part_of
segment_data_inside store g {c = c} {xs} found e within =
    rw (found, e)
      (subspan_inside g.decompressed_offset g.decompressed_length xs {store = set store g.block c}
        within)

-- Over a block that has its data already.
read_served :
    (k : ℕ) (store : List Block) {c : Block} {xs : List ℕ} (offset : ℕ) (ms : List Member)
    → get_elem? store k ≡ some c
    → block_data c ≡ done (some xs) c
    → length xs ≡ offset + total_of ms
    → read_pieces (laid k offset ms) store ≡ done (drop offset xs) store
unfolding read_pieces
read_served k store {xs = xs} offset [] found e all =
    ap (λ t. done t store) (sym (drop_all offset xs (omega (arith, all))))
read_served k store {c} {xs} offset (m ∷ ms) found e all =
    rw
      (
        segment_data_inside store
            (record { block = k; decompressed_offset = offset; decompressed_length = length_of m })
            found e (omega (arith, all)),
        set_same store k found,
        read_served k store (offset + length_of m) ms found e (omega (arith, all)),
      )
      (ap (λ t. done t store)
        (ap (λ t. take (length_of m) (drop offset xs) ++ t)
            (sym (drop-drop (length_of m) offset xs))
          ∙ take-drop (length_of m) (drop offset xs)))

got_length : {b c : Block} {xs : List ℕ} → Answer b c (some xs) → length xs ≡ b.total_unpacked_size
got_length (got _ all _) = all

-- Members that are laid side by side in the block of their group cover it exactly: where that
-- block is fresh, stands at its place among the blocks and gives data, the `data()` of their
-- segments, asked for in order, one after the other, joins up to the whole of that data, and only
-- the block's own state has changed.
pub read_pieces-laid :
    (k : ℕ) (store : List Block) (m last : Member) (ms : List Member) {c : Block} {xs : List ℕ}
    → get_elem? store k ≡ some (block_of (m ∷ ms) last)
    → IsFresh (block_of (m ∷ ms) last)
    → block_data (block_of (m ∷ ms) last) ≡ done (some xs) c
    → read_pieces (laid k 0 (m ∷ ms)) store ≡ done xs (set store k c)
unfolding read_pieces
read_pieces-laid k store m last ms {c} {xs} found f e =
    let b = block_of (m ∷ ms) last in
    let read : IsRead b (some xs) c = subst (Reads b) e (block_data-Reads b (newborn f)) in
    let all : length xs ≡ length_of m + total_of ms = got_length read.answer in
    rw
      (
        segment_data_inside store
            (record { block = k; decompressed_offset = 0; decompressed_length = length_of m }) found
            e (omega (arith, all)),
        read_served k (set store k c) (0 + length_of m) ms (get_elem?-set store k c found)
            (block_data_again b e) (omega (arith, all)),
        zero-add,
      )
      (ap (λ t. done t (set store k c)) (take-drop (length_of m) xs))
