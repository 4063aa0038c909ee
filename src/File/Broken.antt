-- ===== src/File/Broken.antt =====
-- Segments whose data is asked for one after the other, by `LzxFileSegment::data` of
-- src/lzx_entry.cc, up to one whose block is decompressed with an access outside an array.
use cxx_unlzx.Base.{ℕ, ◌≡◌, List, ◌∷◌, some, get_elem?}
use cxx_unlzx.Exec.{done, fault}
use cxx_unlzx.Block.{Block, block_data}
use cxx_unlzx.File.{Segment, segment_data}

-- `store` are the blocks before the first of the segments is asked.
pub data Broken : List Segment → List Block → Type 0 where
  broken_here :
      {g : Segment} {gs : List Segment} {store : List Block} {b : Block}
      → get_elem? store g.block ≡ some b
      → block_data b ≡ fault
      → Broken (g ∷ gs) store
  broken_later :
      {g : Segment} {gs : List Segment} {store store' : List Block} {xs : List ℕ}
      → segment_data g store ≡ done xs store'
      → Broken gs store'
      → Broken (g ∷ gs) store
