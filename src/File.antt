-- ===== src/File.antt =====
-- `LzxFileSegment` and `LzxEntry` of src/lzx_entry.hh and src/lzx_entry.cc, and `LzxEntryBuilder` of
-- src/lzx_entry_builder.cc. Segments share their blocks, so a block is kept in a list of blocks and
-- a segment has its place there: what one segment decompresses the others see.
pub mod Reads
pub mod Broken
pub mod Latin
mod Tests
use cxx_unlzx.Base.{
  ℕ, ◌+◌, ◌-◌, ◌*◌, ◌/◌, ◌%◌, ◌^◌, bit_and, bit_or, Bool, true, ◌||◌, List, [], ◌∷◌, ◌++◌, Option,
  none, some, length, get_elem?, set, take, drop, ltb, if◌then◌else◌, u8, u64, ◌>>>◌,
}
use cxx_unlzx.Status.{Status}
use cxx_unlzx.Exec.{Outcome, Exec, done, fault, ◌>>=◌, pure, gets, or_fault, embed}
use cxx_unlzx.Handle.{Entry}
use cxx_unlzx.Handle
use cxx_unlzx.Block.{Block, block_data}

-- LzxFileSegment
pub record Segment : Type 0 where
  pub block : ℕ
  pub decompressed_offset : ℕ
  pub decompressed_length : ℕ

-- `block_->m()`: the pointer is never null, and a place outside the store is no block.
abbrev pub at_block {ℓ} :
    {A : Type ℓ} → ℕ → Exec Block A → List Block → Option Block → Outcome (List Block) A
at_block i m store none = fault
at_block i m store (some b) = embed (λ s c. set s i c) store (m b)

abbrev pub on_block {ℓ} : {A : Type ℓ} → ℕ → Exec Block A → Exec (List Block) A
on_block i m store = at_block i m store (get_elem? store i)

-- span::subspan(offset, count), whose arguments have to lie inside the span.
unfoldable pub subspan : ℕ → ℕ → List ℕ → Exec (List Block) (List ℕ)
subspan offset count xs =
    if ltb (length xs) offset || ltb (length xs - offset) count
    then (λ _. fault)
    else pure (take count (drop offset xs))

-- What `data()` makes of the data of its block.
unfoldable pub part_of : Segment → Option (List ℕ) → Exec (List Block) (List ℕ)
part_of g none = pure []
part_of g (some xs) = subspan g.decompressed_offset g.decompressed_length xs

unfoldable pub segment_data : Segment → Exec (List Block) (List ℕ)
segment_data g = do found ← on_block g.block block_data; part_of g found

unfoldable pub segment_status : Segment → Exec (List Block) Status
segment_status g = on_block g.block (gets (λ b. b.status))

-- The bytes of UTF-8 for a byte of Latin-1.
unfoldable pub utf8_of : ℕ → List ℕ
utf8_of c =
    if ltb c 128 then c ∷ [] else u8 (bit_or 192 (c >>> 6)) ∷ u8 (bit_or 128 (bit_and c 63)) ∷ []

unfoldable pub from_latin1 : List ℕ → List ℕ
from_latin1 [] = []
from_latin1 (c ∷ latin1) = utf8_of c ++ from_latin1 latin1

pub record LzxEntry : Type 0 where
  pub name : List ℕ
  pub path : List ℕ
  pub metadata : Entry
  pub segments : List Segment

-- LzxEntry(name, metadata, segments)
abbrev pub make_entry : List ℕ → Entry → List Segment → LzxEntry
make_entry name metadata segments = record {
  name = name;
  path = from_latin1 name;
  metadata = metadata;
  segments = segments;
}

-- LzxBlock::packed_size
abbrev pub packed_size : Block → ℕ
packed_size b = Handle.pack_size b.node

-- The step of the loop of `pack_size`: it sets the guess and does not add to it.
unfoldable pub guess : List Block → Segment → ℕ → ℕ
guess store g total_guessed = guess_in g total_guessed (get_elem? store g.block)
  where
    guess_in : Segment → ℕ → Option Block → ℕ
    guess_in g total_guessed none = total_guessed
    guess_in g total_guessed (some b) =
        if ltb 0 b.total_unpacked_size
        then u64 (g.decompressed_length * packed_size b) / b.total_unpacked_size
        else total_guessed

unfoldable pub guess_loop : List Block → ℕ → List Segment → ℕ
guess_loop store total_guessed [] = total_guessed
guess_loop store total_guessed (g ∷ segments) =
    guess_loop store (guess store g total_guessed) segments

unfoldable pub entry_pack_size : List Block → LzxEntry → ℕ
entry_pack_size store e =
    if Handle.is_merged e.metadata
    then guess_loop store 0 e.segments
    else Handle.pack_size e.metadata

unfoldable pub sum_loop : ℕ → List Segment → ℕ
sum_loop total [] = total
sum_loop total (g ∷ segments) = sum_loop (u64 (total + g.decompressed_length)) segments

unfoldable pub entry_unpack_size : LzxEntry → ℕ
entry_unpack_size e = sum_loop 0 e.segments

-- LzxEntryBuilder
pub record Builder : Type 0 where
  pub metadata : Entry
  pub segments : List Segment

abbrev pub new_builder : Entry → Builder
new_builder metadata = record { metadata = metadata; segments = [] }

abbrev pub add_segment : Segment → Builder → Builder
add_segment g b = record b { segments = b.segments ++ (g ∷ []) }

abbrev pub build_entry : List ℕ → Builder → LzxEntry
build_entry name b = make_entry name b.metadata b.segments
