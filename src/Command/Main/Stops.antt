-- ===== src/Command/Main/Stops.antt =====
-- Why a run of `main` of src/unlzx_main.cc may come to no exit status.
use cxx_unlzx.Base.{
  ℕ, suc, ◌≡◌, refl, Bool, true, false, List, [], ◌∷◌, Option, none, some, get_elem?,
}
use cxx_unlzx.Base.Dict.{Dict}
use cxx_unlzx.Text.{Printed}
use cxx_unlzx.File.{LzxEntry}
use cxx_unlzx.File.Broken.{Broken}
use cxx_unlzx.Archive.{Archive}
use cxx_unlzx.Command.Filter.{Regexes, compile_all, new_filter, ◌>>=◌}
use cxx_unlzx.Command.Filter.Select.{or_else, found_in, any_found, wanted, keep, select}
use cxx_unlzx.Command.Show.Total.{segments_of}
use cxx_unlzx.Command.Extract.{Files}
use cxx_unlzx.Command.Extract.Total.{HaltsAt}
use cxx_unlzx.Command.Main.{Action, view, extract}

module _ (lib : Regexes) where
  -- The entries that the names ask for.
  abbrev pub chosen : Bool → List (List ℕ) → Dict LzxEntry → Dict LzxEntry × Bool
  chosen use_regex names entries = select (wanted lib use_regex names) entries

  -- A pattern among the names that the constructor of a regular expression throws for.
  pub data Refused (names : List (List ℕ)) : Type 0 where
    refused :
        (i : ℕ) {p : List ℕ} → get_elem? names i ≡ some p → lib.compile p ≡ none → Refused names

  later-Refused : {n : List ℕ} {names : List (List ℕ)} → Refused names → Refused (n ∷ names)
  later-Refused (refused i at_i e) = refused (suc i) at_i e

  Refused-first :
      (p : List ℕ) (names : List (List ℕ)) (o : Option lib.Regex) (os : Option (List lib.Regex))
      → lib.compile p ≡ o
      → (os ≡ none → Refused names)
      → (o >>= λ re. os >>= λ res. some (re ∷ res)) ≡ none
      → Refused (p ∷ names)
  Refused-first p names none os c k e = refused 0 refl c
  Refused-first p names (some re) none c k e = later-Refused (k refl)
  Refused-first p names (some re) (some res) c k e = cc

  compile_all-none : (names : List (List ℕ)) → compile_all lib names ≡ none → Refused names
  unfolding compile_all
  compile_all-none [] e = cc
  compile_all-none (p ∷ names) e =
      Refused-first p names (lib.compile p) (compile_all lib names) refl (compile_all-none names) e

  -- Where the constructor of a filter throws, a pattern is refused.
  pub new_filter-none :
      (entries : Dict LzxEntry) (names : List (List ℕ)) (use_regex : Bool)
      → new_filter lib entries names use_regex ≡ none
      → (use_regex ≡ true) × Refused names
  unfolding new_filter
  new_filter-none entries names true e =
      (refl, compile_all-none names (none_before (compile_all lib names) _ e))
    where
      none_before :
          {B : Type 0} (o : Option (List lib.Regex)) (f : List lib.Regex → B)
          → (o >>= λ res. some (f res)) ≡ none
          → o ≡ none
      none_before none f e = refl
      none_before (some res) f e = cc
  new_filter-none entries names false e = cc

  -- A pattern among the names whose search throws for `name`.
  pub data Unsearched (names : List (List ℕ)) (name : List ℕ) : Type 0 where
    unsearched :
        (i : ℕ) {p : List ℕ}
        → get_elem? names i ≡ some p
        → found_in lib name p ≡ none
        → Unsearched names name

  Unsearched-first :
      (p : List ℕ) (names : List (List ℕ)) (name : List ℕ) (o rest : Option Bool)
      → found_in lib name p ≡ o
      → (rest ≡ none → Unsearched names name)
      → or_else o rest ≡ none
      → Unsearched (p ∷ names) name
  Unsearched-first p names name none rest c k e = unsearched 0 refl c
  Unsearched-first p names name (some true) rest c k e = cc
  Unsearched-first p names name (some false) rest c k e = later (k e)
    where
      later : Unsearched names name → Unsearched (p ∷ names) name
      later (unsearched i at_i e) = unsearched (suc i) at_i e

  any_found-none :
      (names : List (List ℕ)) (name : List ℕ)
      → any_found lib name names ≡ none
      → Unsearched names name
  any_found-none [] name e = cc
  any_found-none (p ∷ names) name e =
      Unsearched-first p names name (found_in lib name p) (any_found lib name names) refl
        (any_found-none names name) e

  wanted-none :
      (use_regex : Bool) (names : List (List ℕ)) (name : List ℕ)
      → wanted lib use_regex names name ≡ none
      → (use_regex ≡ true) × Unsearched names name
  wanted-none use_regex [] name e = cc
  wanted-none true (n ∷ names) name e = (refl, any_found-none (n ∷ names) name e)
  wanted-none false (n ∷ names) name e = cc

  -- An entry whose name a pattern cannot be searched in.
  pub data Throws (use_regex : Bool) (names : List (List ℕ)) (entries : Dict LzxEntry)
      : Type 0 where
    throws_at :
        (j : ℕ) {e : List ℕ × LzxEntry}
        → get_elem? entries j ≡ some e
        → use_regex ≡ true
        → Unsearched names e.0
        → Throws use_regex names entries

  kept-Throws :
      (use_regex : Bool) (names : List (List ℕ)) (e : List ℕ × LzxEntry) (es : Dict LzxEntry)
      (o : Option Bool)
      → wanted lib use_regex names e.0 ≡ o
      → ((chosen use_regex names es).1 ≡ true → Throws use_regex names es)
      → (keep o e (chosen use_regex names es)).1 ≡ true
      → Throws use_regex names (e ∷ es)
  kept-Throws use_regex names e es none w k h =
      let (regex, why) = wanted-none use_regex names e.0 w in throws_at 0 refl regex why
  kept-Throws use_regex names e es (some true) w k h = later (k h)
    where
      later : Throws use_regex names es → Throws use_regex names (e ∷ es)
      later (throws_at j at_j regex why) = throws_at (suc j) at_j regex why
  kept-Throws use_regex names e es (some false) w k h = later (k h)
    where
      later : Throws use_regex names es → Throws use_regex names (e ∷ es)
      later (throws_at j at_j regex why) = throws_at (suc j) at_j regex why

  pub chosen-Throws :
      (use_regex : Bool) (names : List (List ℕ)) (entries : Dict LzxEntry)
      → (chosen use_regex names entries).1 ≡ true
      → Throws use_regex names entries
  chosen-Throws use_regex names [] h = absurd (let bad : false ≡ true = h in cc)
  chosen-Throws use_regex names (e ∷ es) h =
      kept-Throws use_regex names e es (wanted lib use_regex names e.0) refl
        (chosen-Throws use_regex names es) h

-- A run over an archive, with what is printed and the files before it: the constructor or the search
-- of a regular expression throws, or the handler of the chosen entries cannot go on.
pub data Stops (files : Files) (lib : Regexes) (action : Action) (use_regex : Bool)
    (names : List (List ℕ)) (a : Archive) (out : List Printed) (own : files.State) : Type 0 where
  bad_pattern :
      use_regex ≡ true → Refused lib names → Stops files lib action use_regex names a out own
  bad_search :
      (chosen lib use_regex names a.entries).1 ≡ true
      → Throws lib use_regex names a.entries
      → Stops files lib action use_regex names a out own
  in_view :
      action ≡ view
      → Broken (segments_of (chosen lib use_regex names a.entries).0) a.blocks
      → Stops files lib action use_regex names a out own
  in_extract :
      action ≡ extract
      → HaltsAt files
          (chosen lib use_regex names a.entries).0
          (record { store = a.blocks; out = out; own = own })
      → Stops files lib action use_regex names a out own
