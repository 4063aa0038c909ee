-- ===== src/Command/Filter/Filters.antt =====
-- The loop over a filter visits the entries that match, in order.
use mathlib.Core.Path.{subst}
use cxx_unlzx.Base.{
  ℕ, zero, suc, ◌+◌, ◌<◌, ◌≡◌, ◌⊎◌, refl, sym, ap, ap₂, ◌∙◌, arith, ◌||◌, Bool, true, false, inl,
  inr, List, [], ◌∷◌, Option, none, some, length, get_elem?, if◌then◌else◌,
}
use cxx_unlzx.Base.Names.{same}
use cxx_unlzx.Base.Dict.{Dict}
use cxx_unlzx.File.{LzxEntry}
use cxx_unlzx.Command.Filter.{
  Regexes, FilteredEntries, ◌>>=◌, compile_all, new_filter, match_at, matches_from, is_empty,
  matches, Iterator, advance_to_match, onward, visit, visited,
}
use cxx_unlzx.Command.Filter.Select.{any_same, or_else, found_in, any_found, wanted, select}

answers : (o : Option Bool) → (o ≡ none) ⊎ (o ≡ some true) ⊎ (o ≡ some false)
answers none = inl refl
answers (some true) = inr (inl refl)
answers (some false) = inr (inr refl)

module _ (lib : Regexes) where
  -- The regular expressions of the names, one by one.
  abbrev pub Compiled : List (List ℕ) → List lib.Regex → Type 0
  Compiled [] [] = Unit
  Compiled [] (re ∷ res) = ⊥
  Compiled (n ∷ names) [] = ⊥
  Compiled (n ∷ names) (re ∷ res) = (lib.compile n ≡ some re) × Compiled names res

  Compiled-first :
      (n : List ℕ) (names : List (List ℕ)) (o : Option lib.Regex) (p : Option (List lib.Regex))
      {res : List lib.Regex}
      → lib.compile n ≡ o
      → ((more : List lib.Regex) → p ≡ some more → Compiled names more)
      → (o >>= λ re. p >>= λ more. some (re ∷ more)) ≡ some res
      → Compiled (n ∷ names) res
  Compiled-first n names none p c h k = cc
  Compiled-first n names (some re) none c h k = cc
  Compiled-first n names (some re) (some more) {res} c h k =
      let e : re ∷ more ≡ res = cc in subst (Compiled (n ∷ names)) e (c, h more refl)

  compile_all-Compiled :
      (names : List (List ℕ)) (res : List lib.Regex)
      → compile_all lib names ≡ some res
      → Compiled names res
  unfolding compile_all
  compile_all-Compiled [] res e = let q : [] ≡ res = cc in subst (Compiled []) q tt
  compile_all-Compiled (n ∷ names) res e =
      Compiled-first n names (lib.compile n) (compile_all lib names) refl
        (compile_all-Compiled names) e

  match_regex :
      (f : FilteredEntries lib) (name : List ℕ) (i : ℕ) (n : List ℕ) {re : lib.Regex}
      → f.use_regex ≡ true
      → get_elem? f.res i ≡ some re
      → lib.compile n ≡ some re
      → match_at lib f name i n ≡ found_in lib name n
  unfolding match_at
  match_regex f name i n regex at_i c =
      ap (λ t. if t then get_elem? f.res i >>= lib.regex_search name else some (same name n)) regex
      ∙ ap (λ o. o >>= lib.regex_search name) (at_i ∙ sym c)

  suffix_regex :
      (f : FilteredEntries lib) (name : List ℕ) (i : ℕ) (names : List (List ℕ))
      (res : List lib.Regex)
      → f.use_regex ≡ true
      → Compiled names res
      → ((j : ℕ) → get_elem? res j ≡ get_elem? f.res (i + j))
      → matches_from lib f name i names ≡ any_found lib name names
  unfolding matches_from
  suffix_regex f name i [] res regex compiled at_i = refl
  suffix_regex f name i (n ∷ names) [] regex compiled at_i = absurd compiled
  suffix_regex f name i (n ∷ names) (re ∷ res) regex compiled at_i =
      ap₂ or_else
        (match_regex f name i n regex
          (ap (get_elem? f.res) (let e : i ≡ i + 0 = omega arith in e) ∙ sym (at_i 0)) compiled.0)
        (suffix_regex f name (i + 1) names res regex compiled.1 (λ j.
          at_i (suc j) ∙ ap (get_elem? f.res) (let e : i + suc j ≡ i + 1 + j = omega arith in e)))

  or_else-some :
      {o rest : Option Bool} {hit more : Bool}
      → o ≡ some hit
      → rest ≡ some more
      → or_else o rest ≡ some (if hit then true else more)
  or_else-some {hit = true} e k = rw e refl
  or_else-some {hit = false} e k = rw e k

  or_as_if : (a b : Bool) → (if a then true else b) ≡ (a || b)
  or_as_if true b = refl
  or_as_if false b = refl

  suffix_same :
      (f : FilteredEntries lib) (name : List ℕ) (i : ℕ) (names : List (List ℕ))
      → f.use_regex ≡ false
      → matches_from lib f name i names ≡ some (any_same name names)
  unfolding matches_from match_at
  suffix_same f name i [] plain = refl
  suffix_same f name i (n ∷ names) plain =
      or_else-some
        (ap (λ t. if t then get_elem? f.res i >>= lib.regex_search name else some (same name n))
          plain)
        (suffix_same f name (i + 1) names plain)
      ∙ ap some (or_as_if (same name n) (any_same name names))

  -- A filter as the constructor makes it: with the names and, if it uses them, their regular
  -- expressions.
  pub record IsFilter (entries : Dict LzxEntry) (names : List (List ℕ)) (use_regex : Bool)
      (f : FilteredEntries lib) : Type 0 where
    pub same_entries : f.entries ≡ entries
    pub same_names : f.names ≡ names
    pub same_flag : f.use_regex ≡ use_regex
    pub compiled : use_regex ≡ true → Compiled names f.res

  pub new_filter-IsFilter :
      (entries : Dict LzxEntry) (names : List (List ℕ)) (use_regex : Bool) {f : FilteredEntries lib}
      → new_filter lib entries names use_regex ≡ some f
      → IsFilter entries names use_regex f
  unfolding new_filter
  new_filter-IsFilter entries names true {f} e = made (compile_all lib names) refl e
    where
      made :
          (o : Option (List lib.Regex))
          → compile_all lib names ≡ o
          → (o >>= λ res.
              some (record { entries = entries; names = names; use_regex = true; res = res }))
            ≡ some f
          → IsFilter entries names true f
      made none c k = cc
      made (some res) c k =
          let q : record { entries = entries; names = names; use_regex = true; res = res } ≡ f =
            cc in
          subst (IsFilter entries names true) q (record {
            same_entries = refl;
            same_names = refl;
            same_flag = refl;
            compiled = λ _. compile_all-Compiled names res c;
          })
  new_filter-IsFilter entries names false {f} e =
      let q : record { entries = entries; names = names; use_regex = false; res = [] } ≡ f = cc in
      subst (IsFilter entries names false) q (record {
        same_entries = refl;
        same_names = refl;
        same_flag = refl;
        compiled = λ t. absurd (let bad : false ≡ true = t in cc);
      })

  module _ (f : FilteredEntries lib) {entries : Dict LzxEntry} {names : List (List ℕ)}
      {use_regex : Bool} (is : IsFilter entries names use_regex f) where
    abbrev asked : List ℕ → List (List ℕ) → Option Bool
    asked name ns = if is_empty lib ns then some true else matches_from lib f name 0 ns

    matched :
        (ns : List (List ℕ)) (t : Bool) (name : List ℕ)
        → f.names ≡ ns
        → f.use_regex ≡ t
        → (t ≡ true → Compiled ns f.res)
        → matches lib f name ≡ wanted lib t ns name
    unfolding matches
    matched [] t name e k c = ap (asked name) e
    matched (n ∷ ns) true name e k c =
        ap (asked name) e
        ∙ suffix_regex f name 0 (n ∷ ns) f.res k (c refl)
            (λ j. ap (get_elem? f.res) (let e : j ≡ 0 + j = omega arith in e))
    matched (n ∷ ns) false name e k c = ap (asked name) e ∙ suffix_same f name 0 (n ∷ ns) k

    abbrev asks : List ℕ → Option Bool
    asks = wanted lib use_regex names

    matches_lem : (name : List ℕ) → matches lib f name ≡ asks name
    matches_lem name = matched names use_regex name is.same_names is.same_flag is.compiled

    skip_to : Iterator lib → Option (Iterator lib)
    skip_to [] = some []
    skip_to (e ∷ it) =
        let rest = skip_to it in asks e.0 >>= λ hit. if hit then some (e ∷ it) else rest

    advance_lem : (it : Iterator lib) → advance_to_match lib f it ≡ skip_to it
    unfolding advance_to_match skip_to
    advance_lem [] = refl
    advance_lem (e ∷ it) =
        ap₂ (λ o rest. o >>= λ hit. if hit then some (e ∷ it) else rest) (matches_lem e.0)
          (advance_lem it)

    visit_lem :
        (fuel : ℕ) (it : Iterator lib)
        → length it < fuel
        → onward lib (visit lib fuel f) (skip_to it) ≡ select asks it
    unfolding visit skip_to
    visit_lem zero it h = elim h [ ]
    visit_lem (suc fuel) [] h = refl
    visit_lem (suc fuel) (e ∷ it) h = elim (answers (asks e.0)) [
      | inl throws ↦ rw throws refl
      | inr (inl hit) ↦ rw (hit, advance_lem it, visit_lem fuel it (omega (arith, h))) refl
      | inr (inr miss) ↦ rw miss (visit_lem (suc fuel) it (omega (arith, h)))
    ]

    visited_lem : visited lib f ≡ select asks f.entries
    unfolding visited
    visited_lem =
        rw (advance_lem f.entries) (visit_lem (suc (length f.entries)) f.entries (omega arith))

  -- For a filter that the constructor makes of entries and names: the loop over it ends and
  -- visits, in the order of the map, exactly the entries whose name is wanted: all where no names
  -- are given, else those that equal one of the given names, or, with --regex, that one of the
  -- given patterns, compiled, is found in. Only where the search of a pattern throws does it stop
  -- earlier, at the first name for which it does.
  pub visited-select :
      (entries : Dict LzxEntry) (names : List (List ℕ)) (use_regex : Bool) {f : FilteredEntries lib}
      → new_filter lib entries names use_regex ≡ some f
      → visited lib f ≡ select (wanted lib use_regex names) entries
  visited-select entries names use_regex {f} e =
      let is = new_filter-IsFilter entries names use_regex e in
      visited_lem f is ∙ ap (select (wanted lib use_regex names)) is.same_entries
