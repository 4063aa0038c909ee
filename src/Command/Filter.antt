-- ===== src/Command/Filter.antt =====
-- `FilteredEntries`: the entries that are named on the command line, by an iterator that skips the
-- others. The regular expressions of the standard library are a parameter.
pub mod Select
pub mod Filters
use mathlib.Core.Option
use cxx_unlzx.Base.{
  ℕ, zero, suc, ◌+◌, Bool, true, false, List, [], ◌∷◌, Option, none, some, length, get_elem?,
  if◌then◌else◌,
}
use cxx_unlzx.Base.Names.{same}
use cxx_unlzx.Base.Dict.{Dict}
use cxx_unlzx.File.{LzxEntry}

infixl 5 ◌>>=◌
abbrev pub ◌>>=◌ {ℓ κ} : {A : Type ℓ} {B : Type κ} → Option A → (A → Option B) → Option B
none >>= f = none
some a >>= f = f a

-- std::regex with ECMAScript and icase: none where the constructor or the search throws.
pub record Regexes : Type 1 where
  pub Regex : Type 0
  pub compile : List ℕ → Option Regex
  pub regex_search : List ℕ → Regex → Option Bool

module _ (lib : Regexes) where
  pub record FilteredEntries : Type 0 where
    pub entries : Dict LzxEntry
    pub names : List (List ℕ)
    pub use_regex : Bool
    pub res : List lib.Regex

  -- res_.emplace_back(pattern, ...), for each pattern
  unfoldable pub compile_all : List (List ℕ) → Option (List lib.Regex)
  compile_all [] = some []
  compile_all (pattern ∷ names) = do
    re ← lib.compile pattern
    res ← compile_all names
    some (re ∷ res)

  -- FilteredEntries(entries, names, use_regex): none where a pattern is refused.
  unfoldable pub new_filter : Dict LzxEntry → List (List ℕ) → Bool → Option FilteredEntries
  new_filter entries names use_regex = do
    res ← if use_regex then compile_all names else some []
    some (record { entries = entries; names = names; use_regex = use_regex; res = res })

  -- `names_[i]` or `res_[i]` against a name; none is an access outside `res_`, or a search that
  -- throws.
  unfoldable pub match_at : FilteredEntries → List ℕ → ℕ → List ℕ → Option Bool
  match_at f name i wanted =
      if f.use_regex then get_elem? f.res i >>= lib.regex_search name else some (same name wanted)

  -- for (i = 0; i < names_.size(); ++i), from `i`, over the names that are left
  unfoldable pub matches_from : FilteredEntries → List ℕ → ℕ → List (List ℕ) → Option Bool
  matches_from f name i [] = some false
  matches_from f name i (wanted ∷ names) =
      let rest = matches_from f name (i + 1) names in
      match_at f name i wanted >>= λ hit. if hit then some true else rest

  abbrev pub is_empty : List (List ℕ) → Bool
  is_empty [] = true
  is_empty (_ ∷ _) = false

  unfoldable pub matches : FilteredEntries → List ℕ → Option Bool
  matches f name = if is_empty f.names then some true else matches_from f name 0 f.names

  -- An iterator: the entries from `it_` to `end_`.
  abbrev pub Iterator : Type 0
  Iterator = Dict LzxEntry

  unfoldable pub advance_to_match : FilteredEntries → Iterator → Option Iterator
  advance_to_match f [] = some []
  advance_to_match f (e ∷ it) =
      let rest = advance_to_match f it in
      matches f e.0 >>= λ hit. if hit then some (e ∷ it) else rest

  -- begin()
  abbrev pub begin : FilteredEntries → Option Iterator
  begin f = advance_to_match f f.entries

  -- What the body of the loop sees, and whether an advance of the iterator throws after that.
  abbrev pub Visits : Type 0
  Visits = Dict LzxEntry × Bool

  -- The rest of the loop, from an iterator that has advanced.
  abbrev pub onward : (Iterator → Visits) → Option Iterator → Visits
  onward k none = ([], true)
  onward k (some it) = k it

  -- for (const auto& entry : entries), with fuel.
  unfoldable pub visit : ℕ → FilteredEntries → Iterator → Visits
  visit zero f it = ([], true)
  visit (suc fuel) f [] = ([], false)
  visit (suc fuel) f (e ∷ it) =
      let (es, throws) = onward (visit fuel f) (advance_to_match f it) in (e ∷ es, throws)

  unfoldable pub visited : FilteredEntries → Visits
  visited f = onward (visit (suc (length f.entries)) f) (begin f)
