-- ===== src/Archive.antt =====
-- `Unlzx` of src/unlzx.hh and src/unlzx.cc: the members of an archive, as entries whose segments
-- lie in shared blocks.
pub mod Plan
mod Adds
mod Tracks
mod Known
mod Joins
mod Glue
mod Rounds
pub mod Refines
pub mod Bounds
pub mod Tiles
pub mod Open
pub mod Tests
use cxx_unlzx.Base.{
  ℕ, zero, suc, ◌+◌, Bool, true, false, List, [], ◌∷◌, ◌++◌, Option, none, some, length, ltb,
  if◌then◌else◌, u32, u64,
}
use cxx_unlzx.Base.Dict.{Dict, try_emplace, change_at}
use cxx_unlzx.Status.{Status, not_lzx_file}
use cxx_unlzx.Exec.{
  Outcome, Exec, done, fail, fault, exhausted, ◌>>=◌, ◌>>◌, pure, gets, modify, focus,
}
use cxx_unlzx.Input.{InputBuffer, over, filesize, is_eof, skip, read_into, read_buffer}
use cxx_unlzx.Handle.{Entry, unpack_size, pack_size, is_merged, from_buffer}
use cxx_unlzx.Block.{Block, new_block}
use cxx_unlzx.File.{Segment, LzxEntry, Builder, new_builder, add_segment, build_entry}

-- A member of a merge group whose block has not come yet.
pub record PendingMerge : Type 0 where
  pub filename : List ℕ
  pub offset : ℕ
  pub len : ℕ

-- The locals of `list_archive`, the buffer it reads, and the blocks made so far.
pub record Listing : Type 0 where
  pub in_buffer : InputBuffer
  pub builders : Dict Builder
  pub blocks : List Block
  pub current_decompressed_offset : ℕ
  pub pending_merges : List PendingMerge

abbrev pub on_buffer {ℓ} : {A : Type ℓ} → Exec InputBuffer A → Exec Listing A
on_buffer = focus (λ l. l.in_buffer) (λ l b. record l { in_buffer = b })

-- A call whose status is looked at: none where it is not Ok.
abbrev pub tried {ℓ κ} : {S : Type ℓ} {A : Type κ} → Outcome S A → Outcome S (Option A)
tried (done a s) = done (some a) s
tried (fail st s) = done none s
tried fault = fault
tried exhausted = exhausted

abbrev pub attempt {ℓ κ} : {S : Type ℓ} {A : Type κ} → Exec S A → Exec S (Option A)
attempt m s = tried (m s)

-- `make_shared<LzxBlock>(...)`: its place among the blocks.
abbrev pub make_shared : Block → Exec Listing ℕ
make_shared b l = done (length l.blocks) (record l { blocks = l.blocks ++ (b ∷ []) })

abbrev put_builders : Option (Dict Builder) → Exec Listing (Unit {0})
put_builders none l = fault
put_builders (some m) l = done tt (record l { builders = m })

-- `builders.at(name).add_segment(...)`. Nothing catches what `at` throws for a missing name.
unfoldable pub add_segment_at : List ℕ → Segment → Exec Listing (Unit {0})
add_segment_at name g l = put_builders (change_at name (add_segment g) l.builders) l

abbrev pub piece : ℕ → PendingMerge → Segment
piece k p = record { block = k; decompressed_offset = p.offset; decompressed_length = p.len }

unfoldable pub add_pending : ℕ → List PendingMerge → Exec Listing (Unit {0})
add_pending k [] = pure tt
add_pending k (pending ∷ rest) = do
  add_segment_at pending.filename (piece k pending)
  add_pending k rest

-- `block_data` stays empty where `read_buffer` fails.
abbrev pub or_empty : Option InputBuffer → InputBuffer
or_empty none = over []
or_empty (some b) = b

-- `sub` is a copy of the buffer, which itself does not move.
abbrev pub restored {ℓ} : {A : Type ℓ} → Listing → Outcome InputBuffer A → Outcome Listing A
restored l (done a _) = done a l
restored l (fail st _) = fail st l
restored l fault = fault
restored l exhausted = exhausted

unfoldable pub block_data_of : Entry → Exec Listing InputBuffer
block_data_of e l =
    restored l ((do found ← attempt (read_buffer (pack_size e)); pure (or_empty found)) l.in_buffer)

abbrev pub size_of : Entry → ℕ
size_of e = u32 (unpack_size e)

abbrev pub push_pending : Entry → Listing → Listing
push_pending e l = record l {
  pending_merges =
      l.pending_merges
      ++ (record { filename = e.filename; offset = l.current_decompressed_offset; len = size_of e }
          ∷ []);
  current_decompressed_offset = u64 (l.current_decompressed_offset + size_of e);
}

-- The last member of a merge group, which has the data of all.
unfoldable pub close_group : Entry → Exec Listing (Unit {0})
close_group e = do
  source ← block_data_of e
  total ← gets (λ l. l.current_decompressed_offset)
  shared_block ← make_shared (new_block e source total)
  pending_merges ← gets (λ l. l.pending_merges)
  add_pending shared_block pending_merges
  modify (λ l. record l { pending_merges = []; current_decompressed_offset = 0 })

unfoldable pub add_merged : Entry → Exec Listing (Unit {0})
add_merged e = do modify (push_pending e); if ltb 0 (pack_size e) then close_group e else pure tt

unfoldable pub add_single : Entry → Exec Listing (Unit {0})
add_single e = do
  source ← block_data_of e
  shared_block ← make_shared (new_block e source (size_of e))
  add_segment_at e.filename
      (record { block = shared_block; decompressed_offset = 0; decompressed_length = size_of e })

unfoldable pub add_member : Entry → Exec Listing (Unit {0})
add_member e = do
  modify (λ l. record l { builders = try_emplace e.filename (new_builder e) l.builders })
  if is_merged e then add_merged e else add_single e

abbrev pub goes_on : Option ℕ → Bool
goes_on none = false
goes_on (some _) = true

-- The header that was read; there is none only at the end of the buffer.
unfoldable pub list_member : Option Entry → Exec Listing Bool
list_member none = λ _. fault
list_member (some e) = do
  add_member e
  moved ← on_buffer (attempt (skip (pack_size e)))
  pure (goes_on moved)

abbrev pub list_read : Option (Option Entry) → Exec Listing Bool
list_read none = pure false
list_read (some header) = list_member header

-- A round of the loop: whether it goes on.
unfoldable pub list_once : Exec Listing Bool
list_once = do read ← on_buffer (attempt from_buffer); list_read read

-- while (!in_buffer_->is_eof()), with fuel.
unfoldable pub list_loop : ℕ → Exec Listing (Unit {0})
list_loop zero l = exhausted
list_loop (suc fuel) l =
    let rest = (do more ← list_once; if more then list_loop fuel else pure tt) l in
    if is_eof l.in_buffer then done tt l else rest

abbrev pub new_listing : InputBuffer → Listing
new_listing b = record {
  in_buffer = b;
  builders = [];
  blocks = [];
  current_decompressed_offset = 0;
  pending_merges = [];
}

unfoldable pub build_all : Dict Builder → Dict LzxEntry → Dict LzxEntry
build_all [] entries = entries
build_all ((name, b) ∷ builders) entries =
    build_all builders (try_emplace name (build_entry name b) entries)

-- What the caller has after `list_archive`: the entries and the blocks they point to.
pub record Archive : Type 0 where
  pub entries : Dict LzxEntry
  pub blocks : List Block

-- Fuel for a header in each byte.
abbrev pub list_fuel : InputBuffer → ℕ
list_fuel b = suc (filesize b)

abbrev pub listed : Outcome Listing (Unit {0}) → Outcome (Option InputBuffer) Archive
listed (done _ l) =
    done (record { entries = build_all l.builders []; blocks = l.blocks }) (some l.in_buffer)
listed (fail st l) = fail st (some l.in_buffer)
listed fault = fault
listed exhausted = exhausted

-- Without an open archive there are no entries.
unfoldable pub list_archive : Exec (Option InputBuffer) Archive
list_archive none = done (record { entries = []; blocks = [] }) none
list_archive (some b) = listed (list_loop (list_fuel b) (new_listing b))
