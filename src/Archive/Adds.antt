-- ===== src/Archive/Adds.antt =====
-- What `add_segment` does to the builders, for one member and for those of a merge group.
use mathlib.Core.Option
use mathlib.Core.List.{append_assoc, append-nil}
use cxx_unlzx.Base.{
  ℕ, ◌+◌, ◌≡◌, ◌≢◌, refl, sym, ap, ◌∙◌, Bool, true, false, Bool-cases, inl, inr, List, [], ◌∷◌,
  ◌++◌, Option, none, some, if◌then◌else◌,
}
use cxx_unlzx.Base.Names.{same}
use cxx_unlzx.Base.Dict.{Dict, lookup, Changes, change_at_lem, IsSorted}
use cxx_unlzx.Exec.{Outcome, done}
use cxx_unlzx.File.{Segment, Builder, add_segment}
use cxx_unlzx.Archive.{PendingMerge, Listing, add_segment_at, add_pending}
use cxx_unlzx.Archive.Plan.{Member, Piece, name_of, length_of, laid, of_name, grow}

-- What waits, as the code keeps it.
abbrev pub waits : ℕ → List Member → List PendingMerge
waits offset [] = []
waits offset (m ∷ ms) =
    record { filename = name_of m; offset = offset; len = length_of m }
    ∷ waits (offset + length_of m) ms

abbrev pub AllKnown : Dict Builder → List Member → Type 0
AllKnown d [] = Unit
AllKnown d (m ∷ ms) = (lookup (name_of m) d ≢ none) × AllKnown d ms

-- The builders after some pieces: every name has the pieces that are its own.
pub record Adds (ps : List Piece) (d n : Dict Builder) : Type 0 where
  pub sorted : IsSorted d → IsSorted n
  pub found : (j : List ℕ) → lookup j n ≡ Option.map (grow (of_name j ps)) (lookup j d)

map-ne_none : (f : Builder → Builder) (o : Option Builder) → o ≢ none → Option.map f o ≢ none
map-ne_none f none h k = h refl
map-ne_none f (some b) h k = cc

pub Adds-known :
    {ps : List Piece} {d n : Dict Builder} (j : List ℕ)
    → Adds ps d n
    → lookup j d ≢ none
    → lookup j n ≢ none
Adds-known {ps} {d} j a h e = map-ne_none (grow (of_name j ps)) (lookup j d) h (sym (a.found j) ∙ e)

pub Adds-AllKnown :
    {ps : List Piece} {d n : Dict Builder} (ms : List Member)
    → Adds ps d n
    → AllKnown d ms
    → AllKnown n ms
Adds-AllKnown [] a h = tt
Adds-AllKnown (m ∷ ms) a h = (Adds-known (name_of m) a h.0, Adds-AllKnown ms a h.1)

grow_nil : (o : Option Builder) → o ≡ Option.map (grow []) o
grow_nil none = refl
grow_nil (some b) = rw append-nil refl

grow-grow :
    (gs hs : List Segment) (o : Option Builder)
    → Option.map (grow hs) (Option.map (grow gs) o) ≡ Option.map (grow (gs ++ hs)) o
grow-grow gs hs none = refl
grow-grow gs hs (some b) = rw append_assoc refl

pub of_name-append :
    (n : List ℕ) (ps qs : List Piece) → of_name n (ps ++ qs) ≡ of_name n ps ++ of_name n qs
unfolding of_name
of_name-append n [] qs = refl
of_name-append n ((j, g) ∷ ps) qs = elim (Bool-cases (same n j)) [
  | inl hit ↦ rw (hit, of_name-append n ps qs) refl
  | inr miss ↦ rw (miss, of_name-append n ps qs) refl
]

pub Adds-nil : (d : Dict Builder) → Adds [] d d
unfolding of_name
Adds-nil d = record { sorted = λ s. s; found = λ j. grow_nil (lookup j d) }

pub Adds-append :
    {ps qs : List Piece} {d n o : Dict Builder} → Adds ps d n → Adds qs n o → Adds (ps ++ qs) d o
Adds-append {ps} {qs} {d} a b = record {
  sorted = λ s. b.sorted (a.sorted s);
  found = λ j.
      b.found j
      ∙ ap (Option.map (grow (of_name j qs))) (a.found j)
      ∙ grow-grow (of_name j ps) (of_name j qs) (lookup j d)
      ∙ ap (λ gs. Option.map (grow gs) (lookup j d)) (sym (of_name-append j ps qs));
}

one_piece :
    (b : Bool) (g : Segment) (o : Option Builder)
    → (if b then Option.map (add_segment g) o else o)
      ≡ Option.map (grow (if b then g ∷ [] else [])) o
one_piece true g none = refl
one_piece true g (some x) = refl
one_piece false g o = grow_nil o

Changes-Adds :
    (name : List ℕ) (g : Segment) (d n : Dict Builder)
    → Changes name (add_segment g) d n
    → Adds ((name, g) ∷ []) d n
unfolding of_name
Changes-Adds name g d n c = record {
  sorted = c.sorted;
  found = λ j. c.found j ∙ one_piece (same j name) g (lookup j d);
}

-- The builders change and nothing else does.
pub record Grown (ps : List Piece) (l : Listing) (o : Outcome Listing (Unit {0})) : Type 0 where
  pub builders : Dict Builder
  pub returns : o ≡ done tt (record l { builders = builders })
  pub adds : Adds ps l.builders builders

pub add_segment_at_lem :
    (name : List ℕ) (g : Segment) (l : Listing)
    → lookup name l.builders ≢ none
    → Grown ((name, g) ∷ []) l (add_segment_at name g l)
unfolding add_segment_at
add_segment_at_lem name g l h =
    let (n, e, c) = change_at_lem name (add_segment g) l.builders h in
    record { builders = n; returns = rw e refl; adds = Changes-Adds name g l.builders n c }

pub add_pending_lem :
    (k offset : ℕ) (ms : List Member) (l : Listing)
    → AllKnown l.builders ms
    → Grown (laid k offset ms) l (add_pending k (waits offset ms) l)
unfolding add_pending
add_pending_lem k offset [] l h = record {
  builders = l.builders;
  returns = refl;
  adds = Adds-nil l.builders;
}
add_pending_lem k offset (m ∷ ms) l h =
    let first = add_segment_at_lem (name_of m) _ l h.0 in
    let rest =
      add_pending_lem k (offset + length_of m) ms (record l { builders = first.builders })
        (Adds-AllKnown ms first.adds h.1) in
    record {
      builders = rest.builders;
      returns = rw first.returns rest.returns;
      adds = Adds-append first.adds rest.adds;
    }
