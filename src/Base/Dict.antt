-- ===== src/Base/Dict.antt =====
-- `std::map<std::string, V>`: its pairs in the order of their keys.
use Prim.Native.Nat.{ℕ}
use mathlib.Core.Path.{◌≡◌, refl, ap, sym, ◌∙◌}
use mathlib.Core.Logic.{◌≢◌, inl, inr}
use mathlib.Core.Bool.{Bool, true, false}
use mathlib.Core.List.{List, [], ◌∷◌}
use mathlib.Core.Option
use mathlib.Core.Option.{Option, none, some}
use native.Mathlib.Omega.{arith}
use cxx_unlzx.Base.Tests.{Bool-cases, if◌then◌else◌}
use cxx_unlzx.Base.Names.{
  less, same, same_refl, same→≡, less_trans, less_irrefl, less_asymm, less→differs, compare_names,
}

abbrev pub Dict {ℓ} : Type ℓ → Type ℓ
Dict V = List (List ℕ × V)

module _ {ℓ} {V : Type ℓ} where
  -- find(k)
  unfoldable pub lookup : List ℕ → Dict V → Option V
  lookup k [] = none
  lookup k ((j, w) ∷ m) = if same k j then some w else lookup k m

  -- try_emplace(k, v): what the key has, it keeps.
  unfoldable pub try_emplace : List ℕ → V → Dict V → Dict V
  try_emplace k v [] = (k, v) ∷ []
  try_emplace k v ((j, w) ∷ m) =
      let rest = try_emplace k v m in
      if less k j then (k, v) ∷ (j, w) ∷ m else if less j k then (j, w) ∷ rest else (j, w) ∷ m

  -- A change of what `at(k)` refers to; none where the key is missing.
  unfoldable pub change_at : List ℕ → (V → V) → Dict V → Option (Dict V)
  change_at k f [] = none
  change_at k f ((j, w) ∷ m) =
      let rest = Option.map (λ t. (j, w) ∷ t) (change_at k f m) in
      if same k j then some ((j, f w) ∷ m) else rest

  abbrev pub AllAbove : List ℕ → Dict V → Type 0
  AllAbove k [] = Unit
  AllAbove k ((j, w) ∷ m) = (less k j ≡ true) × AllAbove k m

  abbrev pub IsSorted : Dict V → Type 0
  IsSorted [] = Unit
  IsSorted ((k, v) ∷ m) = AllAbove k m × IsSorted m

  AllAbove-weaken : (j k : List ℕ) (m : Dict V) → less j k ≡ true → AllAbove k m → AllAbove j m
  AllAbove-weaken j k [] h a = tt
  AllAbove-weaken j k ((i, w) ∷ m) h a = (less_trans j k i h a.0, AllAbove-weaken j k m h a.1)

  AllAbove-try_emplace :
      (j k : List ℕ) (v : V) (m : Dict V)
      → less j k ≡ true
      → AllAbove j m
      → AllAbove j (try_emplace k v m)
  unfolding try_emplace
  AllAbove-try_emplace j k v [] h a = (h, tt)
  AllAbove-try_emplace j k v ((i, w) ∷ m) h a = ground (arith, AllAbove-try_emplace j k v m h a.1)

  pub try_emplace-IsSorted :
      (k : List ℕ) (v : V) (m : Dict V) → IsSorted m → IsSorted (try_emplace k v m)
  unfolding try_emplace
  try_emplace-IsSorted k v [] s = (tt, tt)
  try_emplace-IsSorted k v ((j, w) ∷ m) s = elim (compare_names k j) [
    | inl below ↦ rw below ((below, AllAbove-weaken k j m below s.0), s)
    | inr (inl above) ↦
        rw (less_asymm j k above, above)
          (AllAbove-try_emplace j k v m above s.0, try_emplace-IsSorted k v m s.1)
    | inr (inr same_key) ↦ rw (same_key, less_irrefl j) s
  ]

  lookup-AllAbove : (k : List ℕ) (m : Dict V) → AllAbove k m → lookup k m ≡ none
  unfolding lookup
  lookup-AllAbove k [] a = refl
  lookup-AllAbove k ((j, w) ∷ m) a = rw (less→differs k j a.0).0 (lookup-AllAbove k m a.1)

  -- What a key had before, or else what is put in.
  abbrev pub or_new : Option V → Option V → Option V
  or_new (some w) new = some w
  or_new none new = new

  or_new-none : (o : Option V) → o ≡ or_new o none
  or_new-none none = refl
  or_new-none (some x) = refl

  -- A key that is found here, and one that is not, whatever follows.
  found_here :
      (b c : Bool) (w v : V) (o p : Option V)
      → (b ≡ false → o ≡ or_new p (if c then some v else none))
      → (if b then some w else o) ≡ or_new (if b then some w else p) (if c then some v else none)
  found_here true c w v o p h = refl
  found_here false c w v o p h = h refl

  put_first :
      (b : Bool) (v : V) (o : Option V)
      → (b ≡ true → o ≡ none)
      → (if b then some v else o) ≡ or_new o (if b then some v else none)
  put_first true v o h = rw (h refl) refl
  put_first false v o h = or_new-none o

  -- The rest of a sorted map, after its first key.
  pub lookup-try_emplace :
      (j k : List ℕ) (v : V) (m : Dict V)
      → IsSorted m
      → lookup j (try_emplace k v m) ≡ or_new (lookup j m) (if same j k then some v else none)
  unfolding try_emplace lookup
  lookup-try_emplace j k v [] s = refl
  lookup-try_emplace j k v ((i, w) ∷ m) s = elim (compare_names k i) [
    | inl below ↦ rw below (
        put_first (same j k) v (lookup j ((i, w) ∷ m)) (λ hit.
          ap (λ t. lookup t ((i, w) ∷ m)) (same→≡ j k hit)
          ∙ lookup-AllAbove k ((i, w) ∷ m) (below, AllAbove-weaken k i m below s.0)))
    | inr (inl above) ↦
        rw (less_asymm i k above, above)
          (found_here (same j i) (same j k) w v (lookup j (try_emplace k v m)) (lookup j m)
            (λ _. lookup-try_emplace j k v m s.1))
    | inr (inr same_key) ↦
        rw (same_key, less_irrefl i)
          (found_here (same j i) (same j i) w v (lookup j m) (lookup j m)
            (λ miss. rw miss (or_new-none (lookup j m))))
  ]

  -- A change at a key that the map has: the order stays, and only that key's value changes.
  pub record Changes (k : List ℕ) (f : V → V) (m n : Dict V) : Type ℓ where
    pub above : (i : List ℕ) → AllAbove i m → AllAbove i n
    pub sorted : IsSorted m → IsSorted n
    pub found :
        (j : List ℕ) → lookup j n ≡ (if same j k then Option.map f (lookup j m) else lookup j m)

  first_found :
      (b : Bool) (f : V → V) (w : V) (o : Option V)
      → (if b then some (f w) else o)
        ≡ (if b then Option.map f (if b then some w else o) else (if b then some w else o))
  first_found true f w o = refl
  first_found false f w o = refl

  later_found :
      (b c : Bool) (f : V → V) (w : V) (o p : Option V)
      → (b ≡ true → c ≡ false)
      → p ≡ (if c then Option.map f o else o)
      → (if b then some w else p)
        ≡ (if c then Option.map f (if b then some w else o) else (if b then some w else o))
  later_found true c f w o p h e = rw (h refl) refl
  later_found false c f w o p h e = e

  cons-Changes :
      (k i : List ℕ) (f : V → V) (w : V) (m n : Dict V)
      → same k i ≡ false
      → Changes k f m n
      → Changes k f ((i, w) ∷ m) ((i, w) ∷ n)
  unfolding lookup
  cons-Changes k i f w m n miss c = record {
    above = λ j a. (a.0, c.above j a.1);
    sorted = λ s. (c.above i s.0, c.sorted s.1);
    found = λ j.
        later_found (same j i) (same j k) f w (lookup j m) (lookup j n)
          (λ hit. elim (Bool-cases (same j k)) [
            | inl both ↦
                absurd (ground (arith, ap (λ t. same t i) (sym (same→≡ j k both)), miss, hit))
            | inr no_way ↦ no_way
          ])
          (c.found j);
  }

  pub change_at_lem :
      (k : List ℕ) (f : V → V) (m : Dict V)
      → lookup k m ≢ none
      → (n : Dict V) × (change_at k f m ≡ some n) × Changes k f m n
  unfolding lookup change_at
  change_at_lem k f [] there = absurd (there refl)
  change_at_lem k f ((i, w) ∷ m) there = elim (Bool-cases (same k i)) [
    | inl hit ↦
        let e : k ≡ i = same→≡ k i hit in
        (
          (i, f w) ∷ m,
          rw hit refl,
          rw e (record {
            above = λ j a. a;
            sorted = λ s. s;
            found = λ j. first_found (same j i) f w (lookup j m);
          }),
        )
    | inr miss ↦
        let (n, e, c) = change_at_lem k f m (rw miss at there) in
        ((i, w) ∷ n, rw (miss, e) refl, cons-Changes k i f w m n miss c)
  ]

  abbrev pub AllValues {κ} : (V → Type κ) → Dict V → Type κ
  AllValues P [] = Unit
  AllValues P ((k, v) ∷ m) = P v × AllValues P m

  found_later :
      (k j : List ℕ) (v : V) (m : Dict V) {w : V}
      → AllAbove k m
      → lookup j m ≡ some w
      → lookup j ((k, v) ∷ m) ≡ some w
  unfolding lookup
  found_later k j v m {w} a e = elim (Bool-cases (same j k)) [
    | inl hit ↦
        let q : lookup j m ≡ none = ap (λ n. lookup n m) (same→≡ j k hit) ∙ lookup-AllAbove k m a in
        absurd (let bad : some w ≡ none = sym e ∙ q in cc)
    | inr miss ↦ rw miss e
  ]

  found_first : (k : List ℕ) (v : V) (m : Dict V) → lookup k ((k, v) ∷ m) ≡ some v
  unfolding lookup
  found_first k v m = rw same_refl refl

  -- What holds of every value that a sorted map finds holds of every value in it.
  pub AllValues-lookup {κ} :
      (P : V → Type κ) (m : Dict V)
      → IsSorted m
      → ((k : List ℕ) (v : V) → lookup k m ≡ some v → P v)
      → AllValues P m
  AllValues-lookup P [] s h = tt
  AllValues-lookup P ((k, v) ∷ m) s h = (
    h k v (found_first k v m),
    AllValues-lookup P m s.1 (λ j w e. h j w (found_later k j v m s.0 e)),
  )
