-- ===== src/Archive/Bounds.antt =====
-- Every segment that `list_archive` makes lies in its block, so its data can be read.
use mathlib.Core.Path.{subst, subst₂}
use mathlib.Core.Option
use mathlib.Core.List.{append_assoc}
use cxx_unlzx.Base.{
  ℕ, zero, suc, ◌+◌, ◌^◌, ◌≤◌, ◌<◌, ◌≡◌, refl, sym, ap, ◌∙◌, arith, Bool-cases, inl, inr, List, [],
  ◌∷◌, ◌++◌, Option, none, some, length, length-append, get_elem?, ltb,
}
use cxx_unlzx.Base.Names.{same}
use cxx_unlzx.Base.Dict.{lookup}
use cxx_unlzx.Exec.{Outcome, done, fail, fault, exhausted}
use cxx_unlzx.Exec.Ensures.{Ensures, done_injective}
use cxx_unlzx.Input.{InputBuffer, filesize}
use cxx_unlzx.Input.Stream.{IsValid}
use cxx_unlzx.Handle.{pack_size, is_merged}
use cxx_unlzx.Block.{Block}
use cxx_unlzx.Block.Life.{newborn}
use cxx_unlzx.File.{Segment, LzxEntry, Builder, new_builder, segment_data, build_entry}
use cxx_unlzx.File.Reads.{sizes, Inside, AllAlive, SegmentResult, segment_data_lem}
use cxx_unlzx.Archive.{Archive, list_archive}
use cxx_unlzx.Archive.Plan.{
  Member, Piece, name_of, length_of, total_of, laid, pieces, groups, of_name, first_named, grow,
}
use cxx_unlzx.Archive.Tracks.{AllFresh}
use cxx_unlzx.Archive.Refines.{IsListing, planned, list_archive_lem}

abbrev AllInside : List ℕ → List Piece → Type 0
AllInside ns [] = Unit
AllInside ns ((_, g) ∷ ps) = Inside ns g × AllInside ns ps

AllInside-append :
    (ns : List ℕ) (ps qs : List Piece) → AllInside ns ps → AllInside ns qs → AllInside ns (ps ++ qs)
AllInside-append ns [] qs h k = k
AllInside-append ns (p ∷ ps) qs h k = (h.0, AllInside-append ns ps qs h.1 k)

laid-AllInside :
    (ns : List ℕ) (k n offset : ℕ) (ms : List Member)
    → get_elem? ns k ≡ some n
    → offset + total_of ms ≤ n
    → AllInside ns (laid k offset ms)
laid-AllInside ns k n offset [] there h = tt
laid-AllInside ns k n offset (m ∷ ms) there h = (
  record { size = n; there = there; within = omega (arith, h) },
  laid-AllInside ns k n (offset + length_of m) ms there (omega (arith, h)),
)

at_end :
    (pre : List ℕ) (n : ℕ) (rest : List ℕ) → get_elem? (pre ++ (n ∷ rest)) (length pre) ≡ some n
at_end [] n rest = refl
at_end (x ∷ pre) n rest = at_end pre n rest

-- The pieces of a group that has the next block, and the pieces that come later.
later-AllInside :
    (pre : List ℕ) (n : ℕ) (rest : List ℕ) (ms : List Member) (later : ℕ → List Piece)
    → total_of ms ≤ n
    → AllInside ((pre ++ (n ∷ [])) ++ rest) (later (length (pre ++ (n ∷ []))))
    → AllInside (pre ++ (n ∷ rest)) (laid (length pre) 0 ms ++ later (length pre + 1))
later-AllInside pre n rest ms later fits h =
    AllInside-append (pre ++ (n ∷ rest)) (laid (length pre) 0 ms) (later (length pre + 1))
      (laid-AllInside (pre ++ (n ∷ rest)) (length pre) n 0 ms (at_end pre n rest)
        (omega (arith, fits)))
      (subst₂ (λ ns i. AllInside ns (later i)) (append_assoc pre (n ∷ []) rest)
        (length-append pre (n ∷ [])) h)

pieces-AllInside :
    (pre : List ℕ) (w ms : List Member)
    → AllInside (pre ++ sizes (groups w ms)) (pieces (length pre) w ms)
unfolding pieces groups
pieces-AllInside pre w [] = tt
pieces-AllInside pre w (m ∷ ms) = elim (Bool-cases (is_merged m.entry)) [
  | inr alone ↦ rw alone (
      later-AllInside pre (length_of m) (sizes (groups w ms)) (m ∷ []) (λ k. pieces k w ms)
        (omega arith) (pieces-AllInside (pre ++ (length_of m ∷ [])) w ms))
  | inl merged ↦ elim (Bool-cases (ltb 0 (pack_size m.entry))) [
    | inr open_still ↦ rw (merged, open_still) (pieces-AllInside pre (w ++ (m ∷ [])) ms)
    | inl closed ↦
        let group = w ++ (m ∷ []) in
        rw (merged, closed)
          (later-AllInside pre (total_of group) (sizes (groups [] ms)) group (λ k. pieces k [] ms)
            (omega arith) (pieces-AllInside (pre ++ (total_of group ∷ [])) [] ms))
  ]
]

-- The same of segments.
abbrev pub Fit : List ℕ → List Segment → Type 0
Fit ns [] = Unit
Fit ns (g ∷ gs) = Inside ns g × Fit ns gs

named-Fit : (ns : List ℕ) (n : List ℕ) (ps : List Piece) → AllInside ns ps → Fit ns (of_name n ps)
unfolding of_name
named-Fit ns n [] h = tt
named-Fit ns n ((j, g) ∷ ps) h = elim (Bool-cases (same n j)) [
  | inl hit ↦ rw hit (h.0, named-Fit ns n ps h.1)
  | inr miss ↦ rw miss (named-Fit ns n ps h.1)
]

pub Fit-Inside :
    (ns : List ℕ) (gs : List Segment) (i : ℕ) {g : Segment}
    → Fit ns gs
    → get_elem? gs i ≡ some g
    → Inside ns g
Fit-Inside ns [] i h e = cc
Fit-Inside ns (x ∷ gs) zero h e = subst (Inside ns) (let q : x ≡ _ = cc in q) h.0
Fit-Inside ns (x ∷ gs) (suc i) h e = Fit-Inside ns gs i h.1 e

abbrev EntryFits : List ℕ → Option LzxEntry → Type 0
EntryFits ns none = Unit
EntryFits ns (some e) = Fit ns e.segments

planned-Fits :
    (ns : List ℕ) (n : List ℕ) (ps : List Piece) (o : Option Builder)
    → AllInside ns ps
    → (metadata_only : (b : Builder) → o ≡ some b → b.segments ≡ [])
    → EntryFits ns (Option.map (λ b. build_entry n (grow (of_name n ps) b)) o)
planned-Fits ns n ps none h k = tt
planned-Fits ns n ps (some b) h k =
    subst (λ gs. Fit ns (gs ++ of_name n ps)) (sym (k b refl)) (named-Fit ns n ps h)

first_named-empty :
    (n : List ℕ) (ms : List Member) (b : Builder) → first_named n ms ≡ some b → b.segments ≡ []
unfolding first_named
first_named-empty n [] b e = cc
first_named-empty n (m ∷ ms) b e = elim (Bool-cases (same n (name_of m))) [
  | inl hit ↦
      let q : some (new_builder m.entry) ≡ some b = rw hit at e in
      let r : new_builder m.entry ≡ b = cc in ap (λ x. x.segments) (sym r)
  | inr miss ↦ first_named-empty n ms b (rw miss at e)
]

fresh-AllAlive : (store : List Block) → AllFresh store → AllAlive store
fresh-AllAlive [] h = tt
fresh-AllAlive (b ∷ store) h = (newborn h.0, fresh-AllAlive store h.1)

module _ {b : InputBuffer} {a : Archive} (l : IsListing b a) where
  pub listing-AllAlive : AllAlive a.blocks
  listing-AllAlive = fresh-AllAlive a.blocks l.fresh

  pub listing-Fit :
      (n : List ℕ) {e : LzxEntry} → lookup n a.entries ≡ some e → Fit (sizes a.blocks) e.segments
  listing-Fit n found = subst (EntryFits (sizes a.blocks)) (sym (l.found n) ∙ found) (
      subst (λ bs. EntryFits (sizes bs) (planned n l.members)) (sym l.all_blocks)
        (planned-Fits (sizes (groups [] l.members)) n (pieces 0 [] l.members)
          (first_named n l.members) (pieces-AllInside [] [] l.members)
          (first_named-empty n l.members)))

IsListing-of :
    (o : Outcome (Option InputBuffer) Archive) {b : InputBuffer} {a : Archive}
    {s : Option InputBuffer}
    → Ensures (λ x _. IsListing b x) (λ _. ⊥) ⊥ o
    → o ≡ done a s
    → IsListing b a
IsListing-of (done x t) {b} h e = subst (IsListing b) (done_injective e).0 h
IsListing-of (fail _ _) h e = absurd h
IsListing-of fault h e = absurd h
IsListing-of exhausted h e = absurd h

-- An archive as `list_archive` leaves it.
pub archive-IsListing :
    (b : InputBuffer) {a : Archive} {s : Option InputBuffer}
    → IsValid b
    → b.data_bits_available ≡ 0
    → filesize b < 2 ^ 35
    → list_archive (some b) ≡ done a s
    → IsListing b a
archive-IsListing b v aligned small e =
    IsListing-of (list_archive (some b)) (list_archive_lem b v aligned small) e

-- Each segment of each entry that `list_archive` makes of a valid buffer with no bits pending and
-- of less than 2 ^ 35 bytes lies in its block: its `data()` is the part of the block's data that
-- it names, of the segment's length, with the block's status Ok, or it is empty with another
-- status; it makes no access outside an array, unless the decompression of the block does.
pub archive_segment_data :
    (b : InputBuffer) {a : Archive} {s : Option InputBuffer} (n : List ℕ) {e : LzxEntry} (i : ℕ)
    {g : Segment}
    → IsValid b
    → b.data_bits_available ≡ 0
    → filesize b < 2 ^ 35
    → list_archive (some b) ≡ done a s
    → lookup n a.entries ≡ some e
    → get_elem? e.segments i ≡ some g
    → SegmentResult a.blocks g (segment_data g a.blocks)
archive_segment_data b {a} n {e} i {g} v aligned small listed found at_i =
    let l = archive-IsListing b v aligned small listed in
    segment_data_lem a.blocks g (listing-AllAlive l)
      (Fit-Inside (sizes a.blocks) e.segments i (listing-Fit l n found) at_i)
