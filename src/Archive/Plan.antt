-- ===== src/Archive/Plan.antt =====
-- What an archive lists, said of its members alone: which members share a block, where each lies in
-- it, and what an entry has of it. No map is filled and no offset is carried along.
use cxx_unlzx.Base.{
  ℕ, ◌+◌, ◌≤◌, ◌<◌, ◌≡◌, true, false, List, [], ◌∷◌, ◌++◌, Option, none, some, ltb, if◌then◌else◌,
}
use mathlib.Core.Option
use cxx_unlzx.Base.Names.{same}
use cxx_unlzx.Base.Dict.{or_new}
use cxx_unlzx.Status.{Status}
use cxx_unlzx.Exec.{done, fail}
use cxx_unlzx.Input.{InputBuffer, over, filesize, is_eof}
use cxx_unlzx.Input.Bytes.{past, next_bytes}
use cxx_unlzx.Handle.{Entry, pack_size, is_merged, from_buffer}
use cxx_unlzx.Block.{Block, new_block}
use cxx_unlzx.File.{Segment, Builder, new_builder}
use cxx_unlzx.Archive.{size_of}

-- A member: its header, and the bytes after it that its header counts, if they are all there.
pub record Member : Type 0 where
  pub entry : Entry
  pub packed : List ℕ

abbrev pub name_of : Member → List ℕ
name_of m = m.entry.filename

abbrev pub length_of : Member → ℕ
length_of m = size_of m.entry

-- The members that start at the position of a buffer: up to its end, to a header that is damaged,
-- or to a member whose bytes are cut off.
pub data Members : InputBuffer → List Member → Type 0 where
  ended : {b : InputBuffer} → is_eof b ≡ true → Members b []
  damaged :
      {b : InputBuffer} {st : Status} {c : InputBuffer}
      → is_eof b ≡ false
      → from_buffer b ≡ fail st c
      → Members b []
  cut_off :
      {b : InputBuffer} {e : Entry} {c : InputBuffer}
      → is_eof b ≡ false
      → from_buffer b ≡ done (some e) c
      → filesize c < c.current_position + pack_size e
      → Members b (record { entry = e; packed = [] } ∷ [])
  next :
      {b : InputBuffer} {e : Entry} {c : InputBuffer} {ms : List Member}
      → is_eof b ≡ false
      → from_buffer b ≡ done (some e) c
      → c.current_position + pack_size e ≤ filesize c
      → Members (past (pack_size e) c) ms
      → Members b (record { entry = e; packed = next_bytes (pack_size e) c } ∷ ms)

-- A part of a block, and whose it is.
abbrev pub Piece : Type 0
Piece = List ℕ × Segment

abbrev pub total_of : List Member → ℕ
total_of [] = 0
total_of (m ∷ ms) = length_of m + total_of ms

-- Members laid side by side in block `k` from `offset` on.
abbrev pub laid : ℕ → ℕ → List Member → List Piece
laid k offset [] = []
laid k offset (m ∷ ms) =
    (
      name_of m,
      record { block = k; decompressed_offset = offset; decompressed_length = length_of m },
    )
    ∷ laid k (offset + length_of m) ms

abbrev pub block_of : List Member → Member → Block
block_of group m = new_block m.entry (over m.packed) (total_of group)

-- The members of a group wait until one comes that has data; a member of no group is alone.
unfoldable pub pieces : ℕ → List Member → List Member → List Piece
pieces k waiting [] = []
pieces k waiting (m ∷ ms) =
    let closed = laid k 0 (waiting ++ (m ∷ [])) ++ pieces (k + 1) [] ms in
    let open_still = pieces k (waiting ++ (m ∷ [])) ms in
    let alone = laid k 0 (m ∷ []) ++ pieces (k + 1) waiting ms in
    if is_merged m.entry then (if ltb 0 (pack_size m.entry) then closed else open_still) else alone

unfoldable pub groups : List Member → List Member → List Block
groups waiting [] = []
groups waiting (m ∷ ms) =
    let closed = block_of (waiting ++ (m ∷ [])) m ∷ groups [] ms in
    let open_still = groups (waiting ++ (m ∷ [])) ms in
    let alone = new_block m.entry (over m.packed) (length_of m) ∷ groups waiting ms in
    if is_merged m.entry then (if ltb 0 (pack_size m.entry) then closed else open_still) else alone

unfoldable pub of_name : List ℕ → List Piece → List Segment
of_name n [] = []
of_name n ((j, g) ∷ ps) = let rest = of_name n ps in if same n j then g ∷ rest else rest

-- The first member with a name.
unfoldable pub first_named : List ℕ → List Member → Option Builder
first_named n [] = none
first_named n (m ∷ ms) =
    let rest = first_named n ms in if same n (name_of m) then some (new_builder m.entry) else rest

abbrev pub grow : List Segment → Builder → Builder
grow gs b = record b { segments = b.segments ++ gs }

-- What a name has after more members, when it had `o` before.
abbrev pub grown : List ℕ → Option Builder → Option Builder → List Piece → Option Builder
grown n o found ps = Option.map (grow (of_name n ps)) (or_new o found)

-- The members that still wait after one more.
unfoldable pub left : List Member → Member → List Member
left waiting m =
    if is_merged m.entry
    then (if ltb 0 (pack_size m.entry) then [] else waiting ++ (m ∷ []))
    else waiting
