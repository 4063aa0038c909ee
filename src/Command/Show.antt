-- ===== src/Command/Show.antt =====
-- `handle_list` and `handle_view`.
pub mod Total
use cxx_unlzx.Base.{
  ℕ, zero, suc, ◌+◌, ◌^◌, ◌≡◌, Bool, true, false, List, [], ◌∷◌, ◌++◌, length, ◌==◌, if◌then◌else◌,
  u64,
}
use cxx_unlzx.Base.Dict.{Dict}
use cxx_unlzx.Text.{Printed, text, bytes, spaced}
use cxx_unlzx.Exec.{Exec, ◌>>=◌, ◌>>◌, pure, gets, modify}
use cxx_unlzx.Handle.{Entry, datestamp}
use cxx_unlzx.Handle.Format.{attributes, format_bits, format_stamp, date, time}
use cxx_unlzx.Block.{Block}
use cxx_unlzx.File.{Segment, LzxEntry, entry_pack_size, entry_unpack_size, segment_data}
use cxx_unlzx.Command.{Shell, on_store, print}

-- total_unpack, total_files
pub record Totals : Type 0 where
  pub total_unpack : ℕ
  pub total_files : ℕ

abbrev pub comment_line : List ℕ → List Printed
comment_line [] = []
comment_line (c ∷ comment) = text ": \"" ∷ bytes (c ∷ comment) ∷ text "\"\n" ∷ []

-- The line of an entry. `pack_size` always has a value, so "n/a" is never printed here.
unfoldable pub entry_line : List Block → List ℕ → LzxEntry → List Printed
entry_line store name entry =
    spaced 8 (entry_unpack_size entry)
      ∷ text " "
      ∷ spaced 8 (entry_pack_size store entry)
      ∷ text " "
      ∷ []
    ++ format_stamp time (datestamp entry.metadata)
    ++ (text " " ∷ [])
    ++ format_stamp date (datestamp entry.metadata)
    ++ (text " " ∷ bytes (format_bits (attributes entry.metadata)) ∷ text " " ∷ [])
    ++ (text "\"" ∷ bytes name ∷ text "\"\n" ∷ [])
    ++ comment_line entry.metadata.comment

-- The body of the loop, and the loop.
unfoldable pub list_entry : List ℕ → LzxEntry → Exec (Shell Totals) (Unit {0})
list_entry name entry = do
  modify (λ s. record s {
    own = record s.own {
      total_unpack = u64 (s.own.total_unpack + entry_unpack_size entry);
      total_files = u64 (s.own.total_files + length entry.segments);
    };
  })
  line ← gets (λ s. entry_line s.store name entry)
  print line

unfoldable pub list_entries : Dict LzxEntry → Exec (Shell Totals) (Unit {0})
list_entries [] = pure tt
list_entries ((name, entry) ∷ entries) = list_entry name entry >> list_entries entries

abbrev pub rule : Printed
rule = text "-------- -------- -------- ---------- -------- ----\n"

-- The value that it returns is the exit status.
unfoldable pub handle_list : Dict LzxEntry → Exec (Shell Totals) ℕ
handle_list entries = do
  print (text "Unpacked Packed   Time     Date       Attrib   Name\n" ∷ rule ∷ [])
  list_entries entries
  totals ← gets (λ s. s.own)
  print (
      rule
      ∷ spaced 8 totals.total_unpack
      ∷ text "      n/a "
      ∷ spaced 0 totals.total_files
      ∷ text " file"
      ∷ text (if totals.total_files == 1 then "" else "s")
      ∷ text "\n"
      ∷ [])
  pure 0

-- handle_view
unfoldable pub view_segments : List Segment → Exec (Shell ℕ) (Unit {0})
view_segments [] = pure tt
view_segments (segment ∷ segments) = do
  xs ← on_store (segment_data segment)
  print (bytes xs ∷ [])
  view_segments segments

-- `own` is `matched_files`, an int, which stays far below its bound.
unfoldable pub view_entries : Dict LzxEntry → Exec (Shell ℕ) (Unit {0})
view_entries [] = pure tt
view_entries ((name, entry) ∷ entries) = do
  print (text "-- contents of " ∷ bytes name ∷ text "\n" ∷ [])
  view_segments entry.segments
  modify (λ s. record s { own = s.own + 1 })
  view_entries entries

unfoldable pub handle_view : Dict LzxEntry → Exec (Shell ℕ) ℕ
handle_view entries = do
  view_entries entries
  matched_files ← gets (λ s. s.own)
  print (text "-- " ∷ spaced 0 matched_files ∷ text " files matched\n" ∷ [])
  pure 0
