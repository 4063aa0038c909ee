-- ===== src/Archive/Known.antt =====
-- Which names have a builder after `try_emplace`.
use cxx_unlzx.Base.{
  ℕ, ◌≢◌, refl, sym, ap, ◌∙◌, List, [], ◌∷◌, ◌++◌, Option, none, some, if◌then◌else◌,
}
use cxx_unlzx.Base.Names.{same_refl}
use cxx_unlzx.Base.Dict.{Dict, lookup, try_emplace, lookup-try_emplace, or_new, IsSorted}
use cxx_unlzx.File.{Builder}
use cxx_unlzx.Archive.Plan.{Member, name_of}
use cxx_unlzx.Archive.Adds.{AllKnown}

known_after :
    (j name : List ℕ) (v : Builder) (d : Dict Builder)
    → IsSorted d
    → lookup j d ≢ none
    → lookup j (try_emplace name v d) ≢ none
known_after j name v d s h e = rest (lookup j d) _ h (sym (lookup-try_emplace j name v d s) ∙ e)
  where
    rest : (o new : Option Builder) → o ≢ none → or_new o new ≢ none
    rest none new k = absurd (k refl)
    rest (some b) new k = cc

pub AllKnown-after :
    (ms : List Member) (name : List ℕ) (v : Builder) (d : Dict Builder)
    → IsSorted d
    → AllKnown d ms
    → AllKnown (try_emplace name v d) ms
AllKnown-after [] name v d s h = tt
AllKnown-after (m ∷ ms) name v d s h =
    (known_after (name_of m) name v d s h.0, AllKnown-after ms name v d s h.1)

pub known_itself :
    (name : List ℕ) (v : Builder) (d : Dict Builder)
    → IsSorted d
    → lookup name (try_emplace name v d) ≢ none
known_itself name v d s e = rest (lookup name d) (
    ap (λ t. or_new (lookup name d) (if t then some v else none)) (sym (same_refl name))
    ∙ sym (lookup-try_emplace name name v d s)
    ∙ e)
  where
    rest : (o : Option Builder) → or_new o (some v) ≢ none
    rest none = cc
    rest (some b) = cc

pub AllKnown-snoc :
    (ms : List Member) (m : Member) (d : Dict Builder)
    → AllKnown d ms
    → lookup (name_of m) d ≢ none
    → AllKnown d (ms ++ (m ∷ []))
AllKnown-snoc [] m d h k = (k, tt)
AllKnown-snoc (x ∷ ms) m d h k = (h.0, AllKnown-snoc ms m d h.1 k)
