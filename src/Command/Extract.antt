-- ===== src/Command/Extract.antt =====
-- `handle_extract`. The file system is a parameter; paths are bytes, split the POSIX way.
pub mod Writes
pub mod Verdict
pub mod Total
use cxx_unlzx.Base.{
  ℕ, ◌+◌, Bool, true, false, not, ◌&&◌, List, [], ◌∷◌, ◌++◌, Option, none, some, ◌==◌,
  if◌then◌else◌,
}
use cxx_unlzx.Base.Dict.{Dict}
use cxx_unlzx.Text.{Printed, text, bytes}
use cxx_unlzx.Status.{format_status}
use cxx_unlzx.Exec.{Exec, done, ◌>>=◌, ◌>>◌, pure, gets, modify, or_fault}
use cxx_unlzx.Crc.{Crc32, fresh, calc}
use cxx_unlzx.Handle.{data_crc}
use cxx_unlzx.Block.{is_ok}
use cxx_unlzx.File.{Segment, LzxEntry, entry_unpack_size, segment_data, segment_status}
use cxx_unlzx.Command.{Shell, on_store, print}

-- What the standard library does with files: `create_directories` throws (none) or not, an
-- `ofstream` opens or not, and a `write` leaves the stream good or not.
pub record Files : Type 1 where
  pub State : Type 0
  pub Stream : Type 0
  pub create_directories : List ℕ → State → Option State
  pub open_out : List ℕ → State → Option Stream × State
  pub write : Stream → List ℕ → State → Bool × State

abbrev pub is_nil : List ℕ → Bool
is_nil [] = true
is_nil (_ ∷ _) = false

unfoldable pub has_slash : List ℕ → Bool
has_slash [] = false
has_slash (c ∷ p) = let rest = has_slash p in if c == 47 then true else rest

-- The path up to its last slash, that one included.
unfoldable pub up_to_slash : List ℕ → List ℕ
up_to_slash [] = []
up_to_slash (c ∷ p) = let rest = up_to_slash p in if has_slash (c ∷ p) then c ∷ rest else []

unfoldable pub strip_slashes : List ℕ → List ℕ
strip_slashes [] = []
strip_slashes (c ∷ p) =
    let rest = strip_slashes p in if c == 47 && is_nil rest then [] else c ∷ rest

-- path::parent_path: the slashes at the end go, but for those of the root.
unfoldable pub parent_path : List ℕ → List ℕ
parent_path p =
    let head = up_to_slash p in
    let parent = strip_slashes head in
    if is_nil parent && not (is_nil head) then 47 ∷ [] else parent

-- name.ends_with("/")
unfoldable pub ends_with_slash : List ℕ → Bool
ends_with_slash [] = false
ends_with_slash (c ∷ []) = c == 47
ends_with_slash (c ∷ d ∷ p) = ends_with_slash (d ∷ p)

module _ (files : Files) where
  -- Nothing catches what `create_directories` throws.
  unfoldable pub make_directories : List ℕ → Exec (Shell files.State) (Unit {0})
  make_directories path = do
    system ← gets (λ s. s.own)
    made ← or_fault (files.create_directories path system)
    modify (λ s. record s { own = made })

  unfoldable pub open_file : List ℕ → Exec (Shell files.State) (Option files.Stream)
  open_file path s =
      let (file, own) = files.open_out path s.own in done file (record s { own = own })

  unfoldable pub write_file : files.Stream → List ℕ → Exec (Shell files.State) Bool
  write_file file xs s =
      let (good, own) = files.write file xs s.own in done good (record s { own = own })

  -- The loop over the segments: `error`, and `crc_calc`.
  unfoldable pub write_segments :
      files.Stream → List Segment → Crc32 → Exec (Shell files.State) (Bool × Crc32)
  write_segments file [] crc_calc = pure (false, crc_calc)
  write_segments file (segment ∷ segments) crc_calc = do
    xs ← on_store (segment_data segment)
    status ← on_store (segment_status segment)
    let summed = (calc xs crc_calc).1
    let rest = write_segments file segments summed
    if not (is_ok status)
        then (do
          print (text " error: " ∷ text (format_status status) ∷ text "\n" ∷ [])
          pure (true, crc_calc))
        else (do
          good ← write_file file xs
          if good
              then rest
              else (do print (text " error writing file\n" ∷ []); pure (true, summed)))

  unfoldable pub write_entry :
      List ℕ → LzxEntry → files.Stream → Exec (Shell files.State) (Unit {0})
  write_entry name entry file = do
    print (text "Writing \"" ∷ bytes name ∷ text "\"..." ∷ [])
    (error, crc_calc) ← write_segments file entry.segments fresh
    if error
        then pure tt
        else print (
            text " crc "
            ∷ text (if data_crc entry.metadata == crc_calc.sum then "good" else "bad")
            ∷ text "\n"
            ∷ [])

  unfoldable pub extract_directory : List ℕ → LzxEntry → Exec (Shell files.State) (Unit {0})
  extract_directory name entry = do
    make_directories entry.path
    print (text "Creating directory \"" ∷ bytes name ∷ text "\"" ∷ text " crc good\n" ∷ [])

  unfoldable pub make_parent : LzxEntry → Exec (Shell files.State) (Unit {0})
  make_parent entry =
      if is_nil (parent_path entry.path) then pure tt else make_directories (parent_path entry.path)

  -- Whether the command goes on.
  abbrev pub write_opened : List ℕ → LzxEntry → Option files.Stream → Exec (Shell files.State) Bool
  write_opened name entry none =
      print (text "Error creating file \"" ∷ bytes name ∷ text "\"\n" ∷ []) >> pure false
  write_opened name entry (some file) = write_entry name entry file >> pure true

  unfoldable pub extract_file : List ℕ → LzxEntry → Exec (Shell files.State) Bool
  extract_file name entry = do
    make_parent entry
    opened ← open_file entry.path
    write_opened name entry opened

  unfoldable pub extract_entry : List ℕ → LzxEntry → Exec (Shell files.State) Bool
  extract_entry name entry =
      if entry_unpack_size entry == 0 && ends_with_slash name
      then extract_directory name entry >> pure true
      else extract_file name entry

  -- The value that it returns is the exit status.
  unfoldable pub handle_extract : Dict LzxEntry → Exec (Shell files.State) ℕ
  handle_extract [] = pure 0
  handle_extract ((name, entry) ∷ entries) = do
    more ← extract_entry name entry
    let rest = handle_extract entries
    if more then rest else pure 1
