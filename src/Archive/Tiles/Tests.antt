-- ===== src/Archive/Tiles/Tests.antt =====
-- The group of two members of `Archive.Tests`, read piece by piece.
use cxx_unlzx.Base.{◌≡◌, refl, arith, [], ◌∷◌, get_elem?, set, some}
use cxx_unlzx.Base.Octets.{AllBytes-check}
use cxx_unlzx.Status.{ok}
use cxx_unlzx.Exec.{done}
use cxx_unlzx.Input.{over, skip, bytes_from, read_span}
use cxx_unlzx.Input.Stream.{over-IsValid}
use cxx_unlzx.Types.{transform}
use cxx_unlzx.Handle.{unpack_size, mode}
use cxx_unlzx.Block.{Block, block_data, first_data, stored_data, settle_stored, finish}
use cxx_unlzx.Block.Life.{IsFresh}
use cxx_unlzx.Archive.Plan.{Member, laid, block_of}
use cxx_unlzx.Archive.Tiles.{read_pieces, read_pieces-laid}
use cxx_unlzx.Archive.Tests.{entry_a, entry_b, listing}

abbrev member_b : Member
member_b = record { entry = entry_b; packed = [] }

abbrev member_a : Member
member_a = record { entry = entry_a; packed = 104 ∷ 105 ∷ 121 ∷ 111 ∷ 117 ∷ [] }

abbrev hi_you : Block
hi_you = block_of (member_b ∷ member_a ∷ []) member_a

abbrev hi_you_read : Block
hi_you_read = finish ok member_a.packed (over member_a.packed) hi_you

shared_first : get_elem? listing.blocks 0 ≡ some hi_you
unfolding unpack_size transform
shared_first = refl

hi_you-IsFresh : IsFresh hi_you
unfolding unpack_size transform
hi_you-IsFresh = record {
  valid = over-IsValid member_a.packed (AllBytes-check member_a.packed refl) (omega arith);
  small = omega arith;
  untouched = refl;
}

hi_you_data : block_data hi_you ≡ done (some member_a.packed) hi_you_read
unfolding block_data first_data stored_data settle_stored mode read_span skip bytes_from unpack_size
    transform
hi_you_data = refl

read_pieces-laid_example :
    read_pieces (laid 0 0 (member_b ∷ member_a ∷ [])) listing.blocks
    ≡ done member_a.packed (set listing.blocks 0 hi_you_read)
read_pieces-laid_example =
    read_pieces-laid 0 listing.blocks member_b member_a (member_a ∷ []) shared_first hi_you-IsFresh
      hi_you_data
