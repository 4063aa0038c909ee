-- ===== src/Handle.antt =====
-- `lzx::Entry`, `lzx::DateStamp` and `Entry::from_buffer` of src/lzx_handle.hh and
-- src/lzx_handle.cc: the header of an archive member.
pub mod Parse
pub mod Sizes
pub mod Format
pub mod Stamp
pub mod Honest
mod Tests
use cxx_unlzx.Base.{
  ℕ, ◌+◌, ◌*◌, ◌/◌, ◌%◌, ◌^◌, Bool, List, get_or, ◌==◌, not, if◌then◌else◌, Option, none, some,
  ◌>>>◌,
}
use cxx_unlzx.Status.{checksum_invalid}
use cxx_unlzx.Exec.{Exec, done, fail, ◌>>=◌, pure, raise}
use cxx_unlzx.Input.{InputBuffer, is_eof, read_into, read_string_view}
use cxx_unlzx.Crc.{Crc32, fresh, calc}
use cxx_unlzx.Types.{Endian, value, assign}

-- `metadata` is the memory of the packed structure: 31 bytes.
pub record Entry : Type 0 where
  pub metadata : List ℕ
  pub filename : List ℕ
  pub comment : List ℕ

-- Where the fields of the structure lie.
abbrev pub metadata_size : ℕ
metadata_size = 31

abbrev pub comment_length : List ℕ → ℕ
comment_length xs = get_or xs 14 0

abbrev pub filename_length : List ℕ → ℕ
filename_length xs = get_or xs 30 0

abbrev pub header_crc : List ℕ → ℕ
header_crc xs = value Endian.little xs 26

abbrev pub clear_header_crc : List ℕ → List ℕ
clear_header_crc xs = assign Endian.little 0 xs 26

unfoldable pub unpack_size : Entry → ℕ
unpack_size e = value Endian.little e.metadata 2

unfoldable pub pack_size : Entry → ℕ
pack_size e = value Endian.little e.metadata 6

unfoldable pub data_crc : Entry → ℕ
data_crc e = value Endian.little e.metadata 22

-- CompressionInfo::mode
unfoldable pub mode : Entry → ℕ
mode e = get_or e.metadata 11 0 % 2 ^ 5

-- Flags::is_merged
unfoldable pub is_merged : Entry → Bool
is_merged e = get_or e.metadata 12 0 % 2 == 1

-- The `raw` of the DateStamp.
unfoldable pub datestamp : Entry → ℕ
datestamp e = value Endian.big e.metadata 18

unfoldable pub second : ℕ → ℕ
second raw = raw % 2 ^ 6

unfoldable pub minute : ℕ → ℕ
minute raw = (raw >>> 6) % 2 ^ 6

unfoldable pub hour : ℕ → ℕ
hour raw = (raw >>> 12) % 2 ^ 5

unfoldable pub year : ℕ → ℕ
year raw = (raw >>> 17) % 2 ^ 6 + 1970

unfoldable pub month : ℕ → ℕ
month raw = (raw >>> 23) % 2 ^ 4

unfoldable pub day : ℕ → ℕ
day raw = (raw >>> 27) % 2 ^ 5

-- crc_calc, after its three calls of `calc`.
unfoldable pub header_sum : Entry → Crc32
header_sum e = (calc e.comment (calc e.filename (calc e.metadata fresh).1).1).1

-- The checksum of the header is summed with its own field cleared.
unfoldable pub check_header : ℕ → Entry → Exec InputBuffer (Option Entry)
check_header expected e b =
    if not ((header_sum e).sum == expected) then fail checksum_invalid b else done (some e) b

unfoldable pub read_entry : Exec InputBuffer (Option Entry)
read_entry = do
  raw ← read_into metadata_size
  filename ← read_string_view (filename_length raw)
  comment ← read_string_view (comment_length raw)
  check_header (header_crc raw)
      (record { metadata = clear_header_crc raw; filename = filename; comment = comment })

-- Where the buffer is at its end, `out` stays empty.
unfoldable pub from_buffer : Exec InputBuffer (Option Entry)
from_buffer b = let entry = read_entry b in if is_eof b then done none b else entry
