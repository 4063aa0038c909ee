-- ===== src/Archive/Refines.antt =====
-- `list_archive` as a whole, against the plan of its members.
use mathlib.Core.Option
use mathlib.Core.List.{append_assoc}
use mathlib.Core.Path.{subst}
use cxx_unlzx.Base.{
  ℕ, zero, suc, ◌+◌, ◌-◌, ◌^◌, ◌<◌, ◌≡◌, refl, sym, ap, ap₂, ◌∙◌, arith, Bool, true, false,
  Bool-cases, ◌⊎◌, inl, inr, List, [], ◌∷◌, ◌++◌, Option, none, some, length, length-append,
  if◌then◌else◌,
}
use cxx_unlzx.Base.Names.{same, same→≡}
use cxx_unlzx.Base.Dict.{
  Dict, lookup, or_new, try_emplace, IsSorted, try_emplace-IsSorted, lookup-try_emplace,
}
use cxx_unlzx.Exec.{Outcome, done, fail, fault, exhausted, bind_outcome, pure}
use cxx_unlzx.Exec.Ensures.{Ensures, Ensures-mono, Ensures-if_outcome}
use cxx_unlzx.Input.{InputBuffer, filesize, is_eof}
use cxx_unlzx.Input.Stream.{IsValid}
use cxx_unlzx.File.{LzxEntry, Builder, build_entry}
use cxx_unlzx.Archive.{
  Listing, Archive, list_once, list_loop, new_listing, build_all, list_fuel, listed, list_archive,
}
use cxx_unlzx.Archive.Plan.{
  Member, Members, Piece, ended, next, pieces, groups, of_name, first_named, grow, grown, left,
}
use cxx_unlzx.Archive.Glue.{groups_cons, grown_cons}
use cxx_unlzx.Archive.Tracks.{AllFresh, Tracks}
use cxx_unlzx.Archive.Rounds.{Lists, Lists-nil, Joined, Round, stops, goes_on, list_once_lem}

Joined-blocks :
    {w : List Member} {m : Member} {l x : Listing}
    → Joined w m l x
    → length x.blocks ≡ length l.blocks + length (groups w (m ∷ []))
Joined-blocks {w} {m} {l} j = ap length j.more_blocks ∙ length-append l.blocks (groups w (m ∷ []))

-- One member and those after it.
Lists-cons :
    {w : List Member} {m : Member} {l x y : Listing}
    → Tracks w l
    → Joined w m l x
    → (rest : Lists (left w m) x y) → Members l.in_buffer (m ∷ rest.members)
    → Lists w l y
Lists-cons {w} {m} {l} {x} {y} t j rest reading = record {
  members = m ∷ rest.members;
  reading = reading;
  found = λ k.
      rest.found k
      ∙ ap₂ (λ o n. grown k o (first_named k rest.members) (pieces n (left w m) rest.members))
          (j.found k) (Joined-blocks j)
      ∙ grown_cons k (length l.blocks) l.builders w m rest.members t.known;
  more_blocks =
      rest.more_blocks
      ∙ ap (λ bs. bs ++ groups (left w m) rest.members) j.more_blocks
      ∙ append_assoc l.blocks (groups w (m ∷ [])) (groups (left w m) rest.members)
      ∙ ap (λ bs. l.blocks ++ bs) (sym (groups_cons w m rest.members));
  sorted = rest.sorted;
  fresh = rest.fresh;
}

abbrev Ends : List Member → Listing → Outcome Listing (Unit {0}) → Type 0
Ends w l = Ensures (λ _ x. Lists w l x) (λ _. ⊥) ⊥

todo : Listing → ℕ
todo l = filesize l.in_buffer - l.in_buffer.current_position

after_round :
    (fuel : ℕ) (w : List Member) (l : Listing) (o : Outcome Listing Bool)
    → is_eof l.in_buffer ≡ false
    → Tracks w l
    → todo l < suc fuel
    → ((v : List Member) (x : Listing) → Tracks v x → todo x < fuel → Ends v x (list_loop fuel x))
    → Round w l o
    → Ends w l (bind_outcome o (λ more. if more then list_loop fuel else pure tt))
unfolding todo
after_round fuel w l _ more t enough rest (stops lists) = lists
after_round fuel w l _ more t enough rest (goes_on {e} {c} {x} whole fits less size moved j) =
    let pos = ap (λ b. b.current_position) moved in
    let same_size = ap filesize moved in
    Ensures-mono _ _ (λ _. ⊥) ⊥ (list_loop fuel x)
      (rest _ x j.tracks (omega (arith, enough, less, fits, size, pos, same_size)))
      (λ _ y lists.
        Lists-cons t j lists
          (next more whole fits (subst (λ b. Members b lists.members) moved lists.reading)))

list_loop_lem :
    (fuel : ℕ) (w : List Member) (l : Listing)
    → Tracks w l
    → todo l < fuel
    → Ends w l (list_loop fuel l)
unfolding list_loop
list_loop_lem zero w l t enough = elim enough [ ]
list_loop_lem (suc fuel) w l t enough =
    Ensures-if_outcome (λ _ x. Lists w l x) (λ _. ⊥) ⊥ (is_eof l.in_buffer) (done tt l)
      (bind_outcome (list_once l) (λ more. if more then list_loop fuel else pure tt))
      (λ eof. Lists-nil t (ended eof) refl refl)
      (λ more.
        after_round fuel w l (list_once l) more t enough (list_loop_lem fuel)
          (list_once_lem w l t more))

-- The entry that the plan has for a name.
abbrev pub planned : List ℕ → List Member → Option LzxEntry
planned n ms =
    Option.map (λ b. build_entry n (grow (of_name n (pieces 0 [] ms)) b)) (first_named n ms)

build_all-lookup :
    (j : List ℕ) (d : Dict Builder) (entries : Dict LzxEntry)
    → IsSorted entries
    → (lookup j (build_all d entries)
        ≡ or_new (lookup j entries) (Option.map (build_entry j) (lookup j d)))
      × IsSorted (build_all d entries)
unfolding build_all lookup
build_all-lookup j [] entries s = (or_new_none (lookup j entries), s)
  where
    or_new_none : (o : Option LzxEntry) → o ≡ or_new o none
    or_new_none none = refl
    or_new_none (some e) = refl
build_all-lookup j ((name, b) ∷ d) entries s =
    let more = try_emplace name (build_entry name b) entries in
    let (found, sorted) =
      build_all-lookup j d more (try_emplace-IsSorted name (build_entry name b) entries s) in
    (
      found
          ∙ ap (λ o. or_new o (Option.map (build_entry j) (lookup j d)))
              (lookup-try_emplace j name (build_entry name b) entries s)
          ∙ either (lookup j entries) (Bool-cases (same j name)),
      sorted,
    )
  where
    either :
        (o : Option LzxEntry)
        → (same j name ≡ true) ⊎ (same j name ≡ false)
        → or_new
            (or_new o (if same j name then some (build_entry name b) else none))
            (Option.map (build_entry j) (lookup j d))
          ≡ or_new o (Option.map (build_entry j) (if same j name then some b else lookup j d))
    either (some e) c = refl
    either none (inl hit) = rw hit (ap (λ n. some (build_entry n b)) (sym (same→≡ j name hit)))
    either none (inr miss) = rw miss refl

-- An archive lists the members that start at the position of a buffer.
pub record IsListing (b : InputBuffer) (a : Archive) : Type 0 where
  pub members : List Member
  pub reading : Members b members
  pub found : (j : List ℕ) → lookup j a.entries ≡ planned j members
  pub all_blocks : a.blocks ≡ groups [] members
  pub sorted : IsSorted a.entries
  pub fresh : AllFresh a.blocks

Lists-IsListing :
    {b : InputBuffer} {x : Listing}
    → Lists [] (new_listing b) x
    → IsListing b (record { entries = build_all x.builders []; blocks = x.blocks })
unfolding lookup
Lists-IsListing {b} {x} l = record {
  members = l.members;
  reading = l.reading;
  found = λ j.
      (build_all-lookup j x.builders [] tt).0
      ∙ ap (Option.map (build_entry j)) (l.found j)
      ∙ fused j (first_named j l.members) (pieces 0 [] l.members);
  all_blocks = l.more_blocks;
  sorted = (build_all-lookup [] x.builders [] tt).1;
  fresh = l.fresh;
}
  where
    fused :
        (j : List ℕ) (o : Option Builder) (ps : List Piece)
        → Option.map (build_entry j) (grown j none o ps)
          ≡ Option.map (λ c. build_entry j (grow (of_name j ps) c)) o
    fused j none ps = refl
    fused j (some c) ps = refl

start-Tracks :
    (b : InputBuffer)
    → IsValid b
    → b.data_bits_available ≡ 0
    → filesize b < 2 ^ 35
    → Tracks [] (new_listing b)
start-Tracks b v aligned small = record {
  valid = v;
  aligned = aligned;
  small = small;
  sorted = tt;
  known = tt;
  pending = refl;
  offset = refl;
  bound = omega arith;
  fresh = tt;
}

listed_lem :
    (b : InputBuffer) (o : Outcome Listing (Unit {0}))
    → Ends [] (new_listing b) o
    → Ensures (λ a _. IsListing b a) (λ _. ⊥) ⊥ (listed o)
listed_lem b (done _ x) h = Lists-IsListing h
listed_lem b (fail _ _) h = h
listed_lem b fault h = h
listed_lem b exhausted h = h

-- On a valid buffer with no bits pending and of less than 2 ^ 35 bytes, `list_archive` returns Ok,
-- within the fuel of the model; it throws nothing and accesses nothing outside an array. There are
-- members, as they stand one after the other from the buffer's position on until the first that is
-- refused or cut off, such that each name has the entry that the plan of the members gives it, the
-- blocks are those of the merge groups in order, the entries stand in the order of their names,
-- and no block is decompressed yet.
pub list_archive_lem :
    (b : InputBuffer)
    → IsValid b
    → b.data_bits_available ≡ 0
    → filesize b < 2 ^ 35
    → Ensures (λ a _. IsListing b a) (λ _. ⊥) ⊥ (list_archive (some b))
unfolding list_archive todo
list_archive_lem b v aligned small =
    listed_lem b (list_loop (list_fuel b) (new_listing b)) (
      list_loop_lem (list_fuel b) [] (new_listing b) (start-Tracks b v aligned small) (omega arith))
