-- ===== src/Archive/Tests.antt =====
-- An archive worked by hand: two merged members, "b" and "a", that share a block of five bytes,
-- and "c" alone.
use cxx_unlzx.Base.{ℕ, ◌≡◌, refl, arith, List, [], ◌∷◌, ◌++◌, ◌<◌, ◌^◌, length, none, some}
use cxx_unlzx.Base.Octets.{AllBytes-check}
use cxx_unlzx.Base.Names.{less, same}
use cxx_unlzx.Base.Dict.{lookup, try_emplace, change_at}
use cxx_unlzx.Status.{ok}
use cxx_unlzx.Exec.{done}
use cxx_unlzx.Exec.Ensures.{Ensures}
use cxx_unlzx.Input.{
  InputBuffer, over, is_eof, skip, bytes_from, read_into, read_string_view, read_buffer, read_span,
}
use cxx_unlzx.Input.Stream.{IsValid, over-IsValid}
use cxx_unlzx.Input.Bytes.{past, past-IsValid}
use cxx_unlzx.Crc.{calc}
use cxx_unlzx.Types.{transform}
use cxx_unlzx.Handle.{
  Entry, unpack_size, pack_size, mode, is_merged, header_sum, check_header, read_entry, from_buffer,
}
use cxx_unlzx.Block.{new_block, block_data, first_data, stored_data, settle_stored, finish}
use cxx_unlzx.File.{Segment, LzxEntry, segment_data, part_of, subspan, utf8_of, from_latin1}
use cxx_unlzx.File.Reads.{SegmentResult, AllAlive, segment_data_lem}
use cxx_unlzx.Mapped.{Os, for_file}
use cxx_unlzx.Mapped.Handles.{IsLawful}
use cxx_unlzx.Mapped.Memory.{Counts, memory_os, memory_os-file, memory_os-IsLawful}
use cxx_unlzx.Archive.Open.{open_archive, check_magic, OpenResult, open_archive_lem}
use cxx_unlzx.Block.Life.{newborn}
use cxx_unlzx.Archive.{
  Archive, block_data_of, add_segment_at, add_pending, close_group, add_merged, add_single,
  add_member, list_member, list_once, list_loop, build_all, list_archive,
}
use cxx_unlzx.Archive.Refines.{IsListing, list_archive_lem}
use cxx_unlzx.Archive.Bounds.{archive_segment_data}

abbrev pub first_header : List ℕ
first_header =
    15 ∷ 0 ∷ 2 ∷ 0 ∷ 0 ∷ 0 ∷ 0 ∷ 0 ∷ 0 ∷ 0 ∷ 10 ∷ 0 ∷ 1 ∷ 0 ∷ 0 ∷ 10 ∷ 0 ∷ 0 ∷ 138 ∷ 182 ∷ 199 ∷ 186
    ∷ 172 ∷ 42 ∷ 147 ∷ 216 ∷ 128 ∷ 166 ∷ 135 ∷ 18 ∷ 1 ∷ []

abbrev pub first_cleared : List ℕ
first_cleared =
    15 ∷ 0 ∷ 2 ∷ 0 ∷ 0 ∷ 0 ∷ 0 ∷ 0 ∷ 0 ∷ 0 ∷ 10 ∷ 0 ∷ 1 ∷ 0 ∷ 0 ∷ 10 ∷ 0 ∷ 0 ∷ 138 ∷ 182 ∷ 199 ∷ 186
    ∷ 172 ∷ 42 ∷ 147 ∷ 216 ∷ 0 ∷ 0 ∷ 0 ∷ 0 ∷ 1 ∷ []

abbrev pub second_header : List ℕ
second_header =
    15 ∷ 0 ∷ 3 ∷ 0 ∷ 0 ∷ 0 ∷ 5 ∷ 0 ∷ 0 ∷ 0 ∷ 10 ∷ 0 ∷ 1 ∷ 0 ∷ 0 ∷ 10 ∷ 0 ∷ 0 ∷ 138 ∷ 182 ∷ 199 ∷ 186
    ∷ 22 ∷ 120 ∷ 107 ∷ 102 ∷ 121 ∷ 109 ∷ 211 ∷ 227 ∷ 1 ∷ []

abbrev pub second_cleared : List ℕ
second_cleared =
    15 ∷ 0 ∷ 3 ∷ 0 ∷ 0 ∷ 0 ∷ 5 ∷ 0 ∷ 0 ∷ 0 ∷ 10 ∷ 0 ∷ 1 ∷ 0 ∷ 0 ∷ 10 ∷ 0 ∷ 0 ∷ 138 ∷ 182 ∷ 199 ∷ 186
    ∷ 22 ∷ 120 ∷ 107 ∷ 102 ∷ 0 ∷ 0 ∷ 0 ∷ 0 ∷ 1 ∷ []

abbrev pub third_header : List ℕ
third_header =
    15 ∷ 0 ∷ 2 ∷ 0 ∷ 0 ∷ 0 ∷ 2 ∷ 0 ∷ 0 ∷ 0 ∷ 10 ∷ 0 ∷ 0 ∷ 0 ∷ 0 ∷ 10 ∷ 0 ∷ 0 ∷ 138 ∷ 182 ∷ 199 ∷ 186
    ∷ 71 ∷ 221 ∷ 220 ∷ 121 ∷ 113 ∷ 182 ∷ 89 ∷ 57 ∷ 1 ∷ []

abbrev pub third_cleared : List ℕ
third_cleared =
    15 ∷ 0 ∷ 2 ∷ 0 ∷ 0 ∷ 0 ∷ 2 ∷ 0 ∷ 0 ∷ 0 ∷ 10 ∷ 0 ∷ 0 ∷ 0 ∷ 0 ∷ 10 ∷ 0 ∷ 0 ∷ 138 ∷ 182 ∷ 199 ∷ 186
    ∷ 71 ∷ 221 ∷ 220 ∷ 121 ∷ 0 ∷ 0 ∷ 0 ∷ 0 ∷ 1 ∷ []

-- "LZX" and seven bytes, then the members.
abbrev pub archive_bytes : List ℕ
archive_bytes =
    (76 ∷ 90 ∷ 88 ∷ 0 ∷ 0 ∷ 0 ∷ 0 ∷ 0 ∷ 0 ∷ 0 ∷ [])
    ++ first_header
    ++ (98 ∷ [])
    ++ second_header
    ++ (97 ∷ 104 ∷ 105 ∷ 121 ∷ 111 ∷ 117 ∷ [])
    ++ third_header
    ++ (99 ∷ 111 ∷ 107 ∷ [])

-- The buffer that `open_archive` leaves.
abbrev pub start : InputBuffer
start = past 10 (over archive_bytes)

abbrev pub entry_a : Entry
entry_a = record { metadata = second_cleared; filename = 97 ∷ []; comment = [] }

abbrev pub entry_b : Entry
entry_b = record { metadata = first_cleared; filename = 98 ∷ []; comment = [] }

abbrev pub entry_c : Entry
entry_c = record { metadata = third_cleared; filename = 99 ∷ []; comment = [] }

abbrev pub segment : ℕ → ℕ → ℕ → Segment
segment k offset len = record { block = k; decompressed_offset = offset; decompressed_length = len }

abbrev pub entry_of : Entry → Segment → LzxEntry
entry_of e g = record { name = e.filename; path = e.filename; metadata = e; segments = g ∷ [] }

-- In the order of the names.
abbrev pub listing : Archive
listing = record {
  entries =
      (97 ∷ [], entry_of entry_a (segment 0 2 3))
      ∷ (98 ∷ [], entry_of entry_b (segment 0 0 2))
      ∷ (99 ∷ [], entry_of entry_c (segment 1 0 2))
      ∷ [];
  blocks =
      new_block entry_a (over (104 ∷ 105 ∷ 121 ∷ 111 ∷ 117 ∷ [])) 5
      ∷ new_block entry_c (over (111 ∷ 107 ∷ [])) 2
      ∷ [];
}

pub lists_three : list_archive (some start) ≡ done listing (some (past 113 (over archive_bytes)))
unfolding list_archive list_loop list_once list_member add_member add_merged add_single close_group
    add_pending add_segment_at block_data_of build_all is_eof from_buffer read_entry read_into
    read_string_view read_buffer skip bytes_from check_header header_sum calc transform pack_size
    unpack_size is_merged try_emplace change_at less same from_latin1 utf8_of
lists_three = refl

start-IsValid : IsValid start
start-IsValid =
    past-IsValid 10 (over-IsValid archive_bytes (AllBytes-check archive_bytes refl) (omega arith))
      (omega arith)

list_archive_lem_example : Ensures (λ a _. IsListing start a) (λ _. ⊥) ⊥ (list_archive (some start))
list_archive_lem_example = list_archive_lem start start-IsValid refl (omega arith)

finds_a : lookup (97 ∷ []) listing.entries ≡ some (entry_of entry_a (segment 0 2 3))
unfolding lookup less same
finds_a = refl

-- The last three bytes of the block, "you".
reads_you :
    segment_data (segment 0 2 3) listing.blocks
    ≡ done (121 ∷ 111 ∷ 117 ∷ []) (
        finish ok
          (104 ∷ 105 ∷ 121 ∷ 111 ∷ 117 ∷ [])
          (over (104 ∷ 105 ∷ 121 ∷ 111 ∷ 117 ∷ []))
          (new_block entry_a (over (104 ∷ 105 ∷ 121 ∷ 111 ∷ 117 ∷ [])) 5)
        ∷ new_block entry_c (over (111 ∷ 107 ∷ [])) 2
        ∷ [])
unfolding segment_data part_of subspan block_data first_data stored_data settle_stored mode
    read_span skip bytes_from
reads_you = refl

archive_segment_data_example :
    SegmentResult listing.blocks (segment 0 2 3) (segment_data (segment 0 2 3) listing.blocks)
archive_segment_data_example =
    archive_segment_data start (97 ∷ []) 0 start-IsValid refl (omega arith) lists_three finds_a refl

pub all_alive : AllAlive listing.blocks
all_alive = (
  newborn (record {
    valid =
        over-IsValid (104 ∷ 105 ∷ 121 ∷ 111 ∷ 117 ∷ [])
          (AllBytes-check (104 ∷ 105 ∷ 121 ∷ 111 ∷ 117 ∷ []) refl) (omega arith);
    small = omega arith;
    untouched = refl;
  }),
  (
    newborn (record {
      valid = over-IsValid (111 ∷ 107 ∷ []) (AllBytes-check (111 ∷ 107 ∷ []) refl) (omega arith);
      small = omega arith;
      untouched = refl;
    }),
    tt,
  ),
)

segment_data_lem_example :
    SegmentResult listing.blocks (segment 0 2 3) (segment_data (segment 0 2 3) listing.blocks)
segment_data_lem_example =
    segment_data_lem listing.blocks (segment 0 2 3) all_alive
      (record { size = 5; there = refl; within = omega arith })

-- The file "x" on the disk.
abbrev pub disk : Os
disk = memory_os (120 ∷ []) archive_bytes

pub disk-IsLawful : IsLawful disk
disk-IsLawful =
    memory_os-IsLawful (120 ∷ []) archive_bytes (AllBytes-check archive_bytes refl) (omega arith)

pub disk-small : (s : Counts) (p : List ℕ) → length (disk-IsLawful.file s p) < 2 ^ 35
unfolding disk-IsLawful
disk-small s p = rw (memory_os-file (120 ∷ []) archive_bytes _ _ s p) (omega arith)

opens :
    open_archive disk (120 ∷ []) (record {
      host = record { system = record { opened = 0; mapped = 0 }; out = none };
      in_buffer = none;
    })
    ≡ done tt (record {
      host = record {
        system = record { opened = 1; mapped = 1 };
        out = some (record {
          fd = 3;
          data_ = record { address = 4096; bytes = archive_bytes };
          filesize = 113;
        });
      };
      in_buffer = some start;
    })
unfolding open_archive for_file check_magic read_into skip bytes_from less same
opens = refl

open_archive_lem_example :
    OpenResult disk disk-IsLawful
      (120 ∷ [])
      (record { opened = 0; mapped = 0 })
      (open_archive disk (120 ∷ []) (record {
        host = record { system = record { opened = 0; mapped = 0 }; out = none };
        in_buffer = none;
      }))
open_archive_lem_example =
    open_archive_lem disk disk-IsLawful (120 ∷ []) (record { opened = 0; mapped = 0 })
