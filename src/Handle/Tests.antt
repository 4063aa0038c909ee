-- ===== src/Handle/Tests.antt =====
-- A header worked by hand, and the theorems on headers at it.
use cxx_unlzx.Base.{ℕ, ◌+◌, ◌≡◌, refl, arith, List, [], ◌∷◌, ◌++◌, some}
use cxx_unlzx.Base.Octets.{AllBytes-check}
use cxx_unlzx.Exec.{done}
use cxx_unlzx.Input.{over, is_eof, skip, bytes_from, read_into, read_string_view}
use cxx_unlzx.Input.Stream.{IsValid, over-IsValid}
use cxx_unlzx.Crc.{calc}
use cxx_unlzx.Types.{transform, byteswap}
use cxx_unlzx.Handle.{
  Entry, unpack_size, mode, datestamp, second, minute, hour, year, month, day, header_sum,
  check_header, read_entry, from_buffer,
}
use cxx_unlzx.Handle.Parse.{EntryResult, from_buffer_lem}
use cxx_unlzx.Handle.Stamp.{stamp_fields}

-- A header of 31 bytes, and its checksum field cleared; the name "readme", the comment "hi".
abbrev header : List ℕ
header =
    15 ∷ 0 ∷ 100 ∷ 0 ∷ 0 ∷ 0 ∷ 64 ∷ 0 ∷ 0 ∷ 0 ∷ 10 ∷ 2 ∷ 0 ∷ 0 ∷ 2 ∷ 10 ∷ 0 ∷ 0 ∷ 138 ∷ 182 ∷ 199
    ∷ 186 ∷ 90 ∷ 163 ∷ 156 ∷ 124 ∷ 27 ∷ 228 ∷ 113 ∷ 167 ∷ 6 ∷ []

abbrev cleared : List ℕ
cleared =
    15 ∷ 0 ∷ 100 ∷ 0 ∷ 0 ∷ 0 ∷ 64 ∷ 0 ∷ 0 ∷ 0 ∷ 10 ∷ 2 ∷ 0 ∷ 0 ∷ 2 ∷ 10 ∷ 0 ∷ 0 ∷ 138 ∷ 182 ∷ 199
    ∷ 186 ∷ 90 ∷ 163 ∷ 156 ∷ 124 ∷ 0 ∷ 0 ∷ 0 ∷ 0 ∷ 6 ∷ []

abbrev name : List ℕ
name = 114 ∷ 101 ∷ 97 ∷ 100 ∷ 109 ∷ 101 ∷ []

abbrev remark : List ℕ
remark = 104 ∷ 105 ∷ []

abbrev packed : List ℕ
packed = header ++ name ++ remark

abbrev member : Entry
member = record { metadata = cleared; filename = name; comment = remark }

reads_member :
    from_buffer (over packed) ≡ done (some member) (record (over packed) { current_position = 39 })
unfolding from_buffer read_entry is_eof read_into read_string_view skip bytes_from check_header
    header_sum calc transform
reads_member = refl

member_fields :
    (unpack_size member ≡ 100)
    × (mode member ≡ 2)
    × (year (datestamp member) ≡ 1997)
    × (day (datestamp member) ≡ 17)
unfolding unpack_size mode datestamp year day transform byteswap
member_fields = (refl, refl, refl, refl)

packed-IsValid : IsValid (over packed)
packed-IsValid = over-IsValid packed (AllBytes-check packed refl) (omega arith)

from_buffer_lem_example : EntryResult (over packed) (from_buffer (over packed))
from_buffer_lem_example = from_buffer_lem (over packed) packed-IsValid

stamp_fields_example :
    (second 2327234490 ≡ 58)
    × (minute 2327234490 ≡ 30)
    × (hour 2327234490 ≡ 12)
    × (year 2327234490 ≡ 1970 + 27)
    × (month 2327234490 ≡ 5)
    × (day 2327234490 ≡ 17)
stamp_fields_example =
    stamp_fields 58 30 12 27 5 17 (omega arith) (omega arith) (omega arith) (omega arith)
      (omega arith) (omega arith)
