-- ===== src/Archive/Glue.antt =====
-- The plan of some members, member by member.
use mathlib.Core.List.{append_assoc, append-nil}
use native.Mathlib.Nat.{add-zero}
use cxx_unlzx.Base.{
  ℕ, ◌+◌, ◌≡◌, refl, sym, ap, ap₂, ◌∙◌, false, Bool-cases, inl, inr, List, [], ◌∷◌, ◌++◌, Option,
  none, some, length, ltb,
}
use cxx_unlzx.Base.Names.{same, same→≡}
use cxx_unlzx.Base.Dict.{Dict, lookup, or_new}
use cxx_unlzx.Handle.{pack_size, is_merged}
use cxx_unlzx.File.{Builder, new_builder}
use cxx_unlzx.Archive.Plan.{
  Member, Piece, name_of, length_of, laid, pieces, groups, of_name, first_named, grown, left,
}
use cxx_unlzx.Archive.Adds.{AllKnown, of_name-append}

pub groups_cons :
    (w : List Member) (m : Member) (ms : List Member)
    → groups w (m ∷ ms) ≡ groups w (m ∷ []) ++ groups (left w m) ms
unfolding groups left
groups_cons w m ms = elim (Bool-cases (is_merged m.entry)) [
  | inr alone ↦ rw alone refl
  | inl merged ↦ elim (Bool-cases (ltb 0 (pack_size m.entry))) [
    | inr open_still ↦ rw (merged, open_still) refl
    | inl closed ↦ rw (merged, closed) refl
  ]
]

pub pieces_cons :
    (k : ℕ) (w : List Member) (m : Member) (ms : List Member)
    → pieces k w (m ∷ ms)
      ≡ pieces k w (m ∷ []) ++ pieces (k + length (groups w (m ∷ []))) (left w m) ms
unfolding pieces groups left
pieces_cons k w m ms = elim (Bool-cases (is_merged m.entry)) [
  | inr alone ↦ rw alone refl
  | inl merged ↦ elim (Bool-cases (ltb 0 (pack_size m.entry))) [
    | inr open_still ↦ rw (merged, open_still, add-zero k) refl
    | inl closed ↦ rw (merged, closed, append-nil) refl
  ]
]

pub first_named_cons :
    (j : List ℕ) (m : Member) (ms : List Member)
    → first_named j (m ∷ ms) ≡ or_new (first_named j (m ∷ [])) (first_named j ms)
unfolding first_named
first_named_cons j m ms = elim (Bool-cases (same j (name_of m))) [
  | inl hit ↦ rw hit refl
  | inr miss ↦ rw miss refl
]

-- No member has the name.
abbrev AllOther : List ℕ → List Member → Type 0
AllOther j [] = Unit
AllOther j (m ∷ ms) = (same j (name_of m) ≡ false) × AllOther j ms

AllOther-snoc :
    (j : List ℕ) (ms : List Member) (m : Member)
    → AllOther j ms
    → same j (name_of m) ≡ false
    → AllOther j (ms ++ (m ∷ []))
AllOther-snoc j [] m h k = (k, tt)
AllOther-snoc j (x ∷ ms) m h k = (h.0, AllOther-snoc j ms m h.1 k)

of_name-laid :
    (j : List ℕ) (k offset : ℕ) (ms : List Member)
    → AllOther j ms
    → of_name j (laid k offset ms) ≡ []
unfolding of_name
of_name-laid j k offset [] h = refl
of_name-laid j k offset (m ∷ ms) h = rw h.0 (of_name-laid j k (offset + length_of m) ms h.1)

known-AllOther :
    (j : List ℕ) (d : Dict Builder) (ms : List Member)
    → AllKnown d ms
    → lookup j d ≡ none
    → AllOther j ms
known-AllOther j d [] h e = tt
known-AllOther j d (m ∷ ms) h e = (
  elim (Bool-cases (same j (name_of m))) [
    | inl hit ↦ absurd (h.0 (ap (λ n. lookup n d) (sym (same→≡ j (name_of m) hit)) ∙ e))
    | inr miss ↦ miss
  ],
  known-AllOther j d ms h.1 e,
)

first_named-none :
    (j : List ℕ) (m : Member) → first_named j (m ∷ []) ≡ none → same j (name_of m) ≡ false
unfolding first_named
first_named-none j m h = elim (Bool-cases (same j (name_of m))) [
  | inl hit ↦ absurd (let bad : some (new_builder m.entry) ≡ none = rw hit at h in cc)
  | inr miss ↦ miss
]

-- A name that no builder has, and that is not the member's, has no piece.
no_stray :
    (j : List ℕ) (k : ℕ) (d : Dict Builder) (w : List Member) (m : Member)
    → AllKnown d w
    → or_new (lookup j d) (first_named j (m ∷ [])) ≡ none
    → of_name j (pieces k w (m ∷ [])) ≡ []
unfolding pieces
no_stray j k d w m known h =
    let (unknown, other) = both_none (lookup j d) (first_named j (m ∷ [])) h in
    let others = known-AllOther j d w known unknown in
    let miss = first_named-none j m other in
    elim (Bool-cases (is_merged m.entry)) [
      | inr alone ↦ rw (alone, append-nil) (of_name-laid j k 0 (m ∷ []) (miss, tt))
      | inl merged ↦ elim (Bool-cases (ltb 0 (pack_size m.entry))) [
        | inr open_still ↦ rw (merged, open_still) (of_name-laid j k 0 [] tt)
        | inl closed ↦
            rw (merged, closed, append-nil)
              (of_name-laid j k 0 (w ++ (m ∷ [])) (AllOther-snoc j w m others miss))
      ]
    ]
  where
    both_none : (o p : Option Builder) → or_new o p ≡ none → (o ≡ none) × (p ≡ none)
    both_none none p e = (refl, e)
    both_none (some b) p e = cc

regrown :
    (j : List ℕ) (o f₁ f₂ : Option Builder) (ps qs : List Piece)
    → (or_new o f₁ ≡ none → of_name j ps ≡ [])
    → grown j (grown j o f₁ ps) f₂ qs ≡ grown j o (or_new f₁ f₂) (ps ++ qs)
regrown j (some b) f₁ f₂ ps qs h = rw (of_name-append, append_assoc) refl
regrown j none (some b) f₂ ps qs h = rw (of_name-append, append_assoc) refl
regrown j none none f₂ ps qs h = rw (of_name-append, h refl) refl

-- What a name has after one member and then others is what it has after all of them.
pub grown_cons :
    (j : List ℕ) (k : ℕ) (d : Dict Builder) (w : List Member) (m : Member) (ms : List Member)
    → AllKnown d w
    → grown j
        (grown j (lookup j d) (first_named j (m ∷ [])) (pieces k w (m ∷ [])))
        (first_named j ms)
        (pieces (k + length (groups w (m ∷ []))) (left w m) ms)
      ≡ grown j (lookup j d) (first_named j (m ∷ ms)) (pieces k w (m ∷ ms))
grown_cons j k d w m ms known =
    regrown j (lookup j d) (first_named j (m ∷ [])) (first_named j ms) (pieces k w (m ∷ []))
      (pieces (k + length (groups w (m ∷ []))) (left w m) ms) (no_stray j k d w m known)
    ∙ ap₂ (λ f ps. grown j (lookup j d) f ps) (sym (first_named_cons j m ms))
        (sym (pieces_cons k w m ms))
