-- ===== src/Archive/Rounds.antt =====
-- A round of the loop of `list_archive`.
use mathlib.Core.Path.{subst}
use mathlib.Core.List.{append-nil}
use native.Mathlib.Decide.{dec_lt}
use cxx_unlzx.Base.{
  ℕ, ◌+◌, ◌*◌, ◌^◌, ◌≤◌, ◌<◌, ◌≡◌, refl, sym, ap, ◌∙◌, arith, Bool, true, false, List, [], ◌∷◌,
  ◌++◌, Option, none, some, length, lt→ltb, le→ltb,
}
use cxx_unlzx.Base.Dict.{lookup, IsSorted}
use cxx_unlzx.Exec.{Outcome, done, bind_outcome, embed}
use cxx_unlzx.Input.{InputBuffer, filesize, is_eof}
use cxx_unlzx.Input.Stream.{IsValid}
use cxx_unlzx.Input.Bytes.{past, next_bytes, past-IsValid, skip_lem, skip_short}
use cxx_unlzx.Handle.{Entry, pack_size, from_buffer}
use cxx_unlzx.Handle.Parse.{EntryResult, entry_at, after_entry, from_buffer_lem}
use cxx_unlzx.Handle.Parse
use cxx_unlzx.Handle.Sizes.{pack_size-lt}
use cxx_unlzx.File.{Builder}
use cxx_unlzx.Archive.{Listing, size_of, add_member, list_member, list_read, list_once, tried}
use cxx_unlzx.Archive.Plan.{
  Member, Members, damaged, cut_off, total_of, pieces, groups, first_named, of_name, grown, left,
}
use cxx_unlzx.Archive.Tracks.{AllFresh, Tracks, packed_of}
use cxx_unlzx.Archive.Joins.{Joins, add_member_lem}

-- The state `x` lists the members from the position of `l` on.
pub record Lists (w : List Member) (l x : Listing) : Type 0 where
  pub members : List Member
  pub reading : Members l.in_buffer members
  pub found :
      (j : List ℕ)
      → lookup j x.builders
        ≡ grown j (lookup j l.builders) (first_named j members) (pieces (length l.blocks) w members)
  pub more_blocks : x.blocks ≡ l.blocks ++ groups w members
  pub sorted : IsSorted x.builders
  pub fresh : AllFresh x.blocks

-- One member more.
pub record Joined (w : List Member) (m : Member) (l x : Listing) : Type 0 where
  pub found :
      (j : List ℕ)
      → lookup j x.builders
        ≡ grown j
            (lookup j l.builders)
            (first_named j (m ∷ []))
            (pieces (length l.blocks) w (m ∷ []))
  pub more_blocks : x.blocks ≡ l.blocks ++ groups w (m ∷ [])
  pub tracks : Tracks (left w m) x

-- A round ends the loop with all members listed, or goes on after one more.
pub data Round (w : List Member) (l : Listing) : Outcome Listing Bool → Type 0 where
  stops : {x : Listing} → Lists w l x → Round w l (done false x)
  goes_on :
      {e : Entry} {c : InputBuffer} {x : Listing}
      → from_buffer l.in_buffer ≡ done (some e) c
      → c.current_position + pack_size e ≤ filesize c
      → l.in_buffer.current_position < c.current_position
      → filesize c ≡ filesize l.in_buffer
      → x.in_buffer ≡ past (pack_size e) c
      → Joined w (record { entry = e; packed = next_bytes (pack_size e) c }) l x
      → Round w l (done true x)

grown-none : (j : List ℕ) (o : Option Builder) → grown j o none [] ≡ o
unfolding of_name
grown-none j none = refl
grown-none j (some b) = rw append-nil refl

-- Nothing more is listed.
pub Lists-nil :
    {w : List Member} {l x : Listing}
    → Tracks w l
    → Members l.in_buffer []
    → x.builders ≡ l.builders
    → x.blocks ≡ l.blocks
    → Lists w l x
unfolding pieces groups first_named
Lists-nil {w} {l} {x} t r d b = record {
  members = [];
  reading = r;
  found = λ j. ap (lookup j) d ∙ sym (grown-none j (lookup j l.builders));
  more_blocks = b ∙ sym (append-nil l.blocks);
  sorted = subst IsSorted (sym d) t.sorted;
  fresh = subst AllFresh (sym b) t.fresh;
}

moved-Tracks :
    (n : ℕ) {w : List Member} {x : Listing}
    → Tracks w x
    → x.in_buffer.current_position + n ≤ filesize x.in_buffer
    → Tracks w (record x { in_buffer = past n x.in_buffer })
moved-Tracks n {w} t fits = record {
  valid = past-IsValid n t.valid fits;
  aligned = t.aligned;
  small = t.small;
  sorted = t.sorted;
  known = t.known;
  pending = t.pending;
  offset = t.offset;
  bound = omega (arith, t.bound);
  fresh = t.fresh;
}

module _ (w : List Member) (l : Listing) (t : Tracks w l) (more : is_eof l.in_buffer ≡ false) where
  abbrev entry : Entry
  entry = entry_at l.in_buffer

  abbrev after : InputBuffer
  after = after_entry l.in_buffer

  -- The header has been read, and it is whole.
  module _ (whole : from_buffer l.in_buffer ≡ done (some entry) after)
      (inside : after.current_position ≤ filesize l.in_buffer) (valid : IsValid after) where
    abbrev read : Listing
    read = record l { in_buffer = after }

    room : (total_of w + size_of entry) * 16 ≤ 2 ^ 32 * after.current_position
    room = omega (arith, t.bound)

    read-Tracks : Tracks w read
    read-Tracks = record {
      valid = valid;
      aligned = t.aligned;
      small = t.small;
      sorted = t.sorted;
      known = t.known;
      pending = t.pending;
      offset = t.offset;
      bound = omega (arith, t.bound);
      fresh = t.fresh;
    }

    packed_small : pack_size entry < 2 ^ 32
    packed_small = pack_size-lt l.in_buffer t.valid

    -- The member, with the bytes that the buffer has of it.
    joined :
        (xs : List ℕ)
        → packed_of entry after ≡ xs
        → Joins w (record { entry = entry; packed = xs }) read (add_member entry read)
    joined xs q =
        subst (λ p. Joins w (record { entry = entry; packed = p }) read (add_member entry read)) q
          (add_member_lem w read entry read-Tracks packed_small room)

    member_cut_off :
        filesize after < after.current_position + pack_size entry
        → Round w l (list_member (some entry) read)
    unfolding list_member
    member_cut_off beyond =
        let j =
          joined []
            (rw (lt→ltb (filesize after) (after.current_position + pack_size entry) beyond) refl) in
        let pos = ap (λ b. b.current_position) j.same_buffer in
        let size = ap filesize j.same_buffer in
        rw
          (
            j.returns,
            skip_short {len = pack_size entry} j.tracks.valid (omega (arith, packed_small))
                j.tracks.aligned (omega (arith, pos, size, beyond)),
          )
          (stops (record {
            members = record { entry = entry; packed = [] } ∷ [];
            reading = cut_off more whole beyond;
            found = j.found;
            more_blocks = j.more_blocks;
            sorted = j.tracks.sorted;
            fresh = j.tracks.fresh;
          }))

    member_joins :
        after.current_position + pack_size entry ≤ filesize after
        → Round w l (list_member (some entry) read)
    unfolding list_member
    member_joins there =
        let j =
          joined (next_bytes (pack_size entry) after)
            (rw (le→ltb (filesize after) (after.current_position + pack_size entry) there) refl) in
        let pos = ap (λ b. b.current_position) j.same_buffer in
        let size = ap filesize j.same_buffer in
        let fits : j.state.in_buffer.current_position + pack_size entry
            ≤ filesize j.state.in_buffer =
          omega (arith, pos, size, there) in
        rw
          (
            j.returns,
            skip_lem {len = pack_size entry} j.tracks.valid (omega (arith, packed_small))
                j.tracks.aligned fits,
          )
          (goes_on whole there (omega arith) refl (ap (past (pack_size entry)) j.same_buffer)
            (record {
              found = j.found;
              more_blocks = j.more_blocks;
              tracks = moved-Tracks (pack_size entry) j.tracks fits;
            }))

    list_member_lem : Round w l (list_member (some entry) read)
    list_member_lem = elim (dec_lt (filesize after) (after.current_position + pack_size entry)) [
      | yes beyond ↦ member_cut_off beyond
      | no there ↦ member_joins (omega (arith, there))
    ]

  round_of :
      (o : Outcome InputBuffer (Option Entry))
      → o ≡ from_buffer l.in_buffer
      → EntryResult l.in_buffer o
      → Round w l (bind_outcome (embed (λ x b. record x { in_buffer = b }) l (tried o)) list_read)
  round_of o e (Parse.EntryResult.ended eof) = absurd (ground (arith, eof, more))
  round_of o e (Parse.EntryResult.parsed _ inside _ valid) = list_member_lem (sym e) inside valid
  round_of o e (Parse.EntryResult.damaged _ _ _) =
      stops (Lists-nil t (damaged more (sym e)) refl refl)
  round_of o e (Parse.EntryResult.misaligned _ used) =
      stops (Lists-nil t (damaged more (sym e)) refl refl)
  round_of o e (Parse.EntryResult.short _ _ _) =
      stops (Lists-nil t (damaged more (sym e)) refl refl)

  pub list_once_lem : Round w l (list_once l)
  unfolding list_once
  list_once_lem = round_of (from_buffer l.in_buffer) refl (from_buffer_lem l.in_buffer t.valid)
