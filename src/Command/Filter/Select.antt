-- ===== src/Command/Filter/Select.antt =====
-- Which entries `FilteredEntries` of src/unlzx_main.cc is to give, said of the names on the command
-- line alone.
use cxx_unlzx.Base.{ℕ, Bool, true, false, ◌||◌, List, [], ◌∷◌, Option, none, some, if◌then◌else◌}
use cxx_unlzx.Base.Names.{same}
use cxx_unlzx.Base.Dict.{Dict}
use cxx_unlzx.File.{LzxEntry}
use cxx_unlzx.Command.Filter.{Regexes, ◌>>=◌}

abbrev pub any_same : List ℕ → List (List ℕ) → Bool
any_same name [] = false
any_same name (wanted ∷ names) = same name wanted || any_same name names

-- The rest is asked where the first does not hit.
abbrev pub or_else : Option Bool → Option Bool → Option Bool
or_else o rest = o >>= λ hit. if hit then some true else rest

module _ (lib : Regexes) where
  -- Whether a pattern is found in a name; none where the library throws.
  abbrev pub found_in : List ℕ → List ℕ → Option Bool
  found_in name pattern = lib.compile pattern >>= lib.regex_search name

  abbrev pub any_found : List ℕ → List (List ℕ) → Option Bool
  any_found name [] = some false
  any_found name (pattern ∷ patterns) = or_else (found_in name pattern) (any_found name patterns)

  -- The names on the command line, or all.
  abbrev pub wanted : Bool → List (List ℕ) → List ℕ → Option Bool
  wanted use_regex [] name = some true
  wanted true (n ∷ names) name = any_found name (n ∷ names)
  wanted false (n ∷ names) name = some (any_same name (n ∷ names))

abbrev pub keep : Option Bool → List ℕ × LzxEntry → Dict LzxEntry × Bool → Dict LzxEntry × Bool
keep none e rest = ([], true)
keep (some true) e rest = (e ∷ rest.0, rest.1)
keep (some false) e rest = rest

-- The entries that are wanted, up to one for which the library throws, and whether it does.
abbrev pub select : (List ℕ → Option Bool) → Dict LzxEntry → Dict LzxEntry × Bool
select p [] = ([], false)
select p (e ∷ es) = keep (p e.0) e (select p es)
