-- ===== src/Block/Tests.antt =====
-- The theorems on blocks at a stored block of three bytes.
use cxx_unlzx.Base.{set, ℕ, ◌≡◌, refl, arith, List, [], ◌∷◌, replicate, some}
use cxx_unlzx.Base.Octets.{AllBytes-check}
use cxx_unlzx.Status.{ok}
use cxx_unlzx.Exec.{done}
use cxx_unlzx.Input.{over, read_span, skip, bytes_from}
use cxx_unlzx.Input.Stream.{IsValid, over-IsValid}
use cxx_unlzx.Handle.{Entry, mode}
use cxx_unlzx.Block.{Block, new_block, finish, settle_stored, stored_data, first_data, block_data}
use cxx_unlzx.Exec.Ensures.{Ensures}
use cxx_unlzx.Block.Total.{HasAll, block_data_lem}
use cxx_unlzx.Block.Life.{IsRead, Derails, newborn, block_data-Reads}
use cxx_unlzx.Block.Memo.{StoredResult, block_data_again, block_data-stored}

-- A header with the compression mode 0.
abbrev plain : Entry
plain = record { metadata = replicate 31 0; filename = []; comment = [] }

abbrev packed : List ℕ
packed = 1 ∷ 2 ∷ 3 ∷ 4 ∷ []

abbrev block : Block
block = new_block plain (over packed) 3

abbrev settled : Block
settled = finish ok (1 ∷ 2 ∷ 3 ∷ []) (over packed) block

first_call : block_data block ≡ done (some (1 ∷ 2 ∷ 3 ∷ [])) settled
unfolding block_data first_data stored_data settle_stored read_span skip bytes_from mode
first_call = refl

block_data_again_example : block_data settled ≡ done (some (1 ∷ 2 ∷ 3 ∷ [])) settled
block_data_again_example = block_data_again block first_call

valid : IsValid (over packed)
valid = over-IsValid packed (AllBytes-check packed refl) (omega arith)

plain-mode : mode plain ≡ 0
unfolding mode
plain-mode = refl

block_data-stored_example : StoredResult block (block_data block)
block_data-stored_example = block_data-stored block valid (omega arith) refl plain-mode

-- The same with the compression mode 2: the bytes hold no valid tables.
abbrev normal : Block
normal =
    new_block (record { metadata = set (replicate 31 0) 11 2; filename = []; comment = [] })
      (over packed) 3

block_data_lem_example : Ensures (λ r _. HasAll 3 r) (λ _. ⊥) Unit (block_data normal)
block_data_lem_example = block_data_lem normal valid (omega arith) refl

block_data-Reads_example :
    Ensures (λ r c. IsRead block r c) (λ _. ⊥) (Derails block) (block_data block)
block_data-Reads_example =
    block_data-Reads block
      (newborn (record { valid = valid; small = omega arith; untouched = refl }))
