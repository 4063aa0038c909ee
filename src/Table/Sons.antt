-- ===== src/Table/Sons.antt =====
-- What `reset_table` keeps: an entry that is no symbol is a node with two sons in the array.
use cxx_unlzx.Base.{
  ℕ, zero, suc, ◌+◌, ◌*◌, ◌≤◌, ◌<◌, ◌≡◌, ◌⊎◌, inl, inr, refl, ◌∙◌, arith, Bool-cases, List, [], ◌∷◌,
  length, get_elem?, set, length-set, some, ltb, ltb→lt,
}
use cxx_unlzx.Exec.{write}
use cxx_unlzx.Exec.Ensures.{Ensures}

-- An entry below `limit` is a symbol; any other is a node, and its sons are in the array.
pub HasSons : ℕ → List ℕ → Type 0
HasSons limit xs = (i e : ℕ) → get_elem? xs i ≡ some e → limit ≤ e → 2 * e + 1 < length xs

-- An array after some writes.
pub record Writes (limit : ℕ) (xs ys : List ℕ) : Type 0 where
  pub same_length : length ys ≡ length xs
  pub sons : HasSons limit xs → HasSons limit ys

pub Writes-refl : (limit : ℕ) (xs : List ℕ) → Writes limit xs xs
Writes-refl limit xs = record { same_length = refl; sons = λ h. h }

pub Writes-trans :
    (limit : ℕ) (xs ys zs : List ℕ) → Writes limit xs ys → Writes limit ys zs → Writes limit xs zs
Writes-trans limit xs ys zs m n = record {
  same_length = n.same_length ∙ m.same_length;
  sons = λ h. n.sons (m.sons h);
}

-- An entry after a write is the one written or an old one.
get_elem?-set :
    (xs : List ℕ) (i v j : ℕ) {e : ℕ}
    → get_elem? (set xs i v) j ≡ some e
    → (e ≡ v) ⊎ (get_elem? xs j ≡ some e)
get_elem?-set [] i v j h = inr h
get_elem?-set (x ∷ xs) zero v zero {e} h =
    let q : some v ≡ some e = h in inl (let r : e ≡ v = cc in r)
get_elem?-set (x ∷ xs) zero v (suc j) h = inr h
get_elem?-set (x ∷ xs) (suc i) v zero h = inr h
get_elem?-set (x ∷ xs) (suc i) v (suc j) h = get_elem?-set xs i v j h

-- What may be written.
abbrev pub Fits : ℕ → List ℕ → ℕ → Type 0
Fits limit xs v = (v < limit) ⊎ (2 * v + 1 < length xs)

set-Writes : (limit : ℕ) (xs : List ℕ) (i v : ℕ) → Fits limit xs v → Writes limit xs (set xs i v)
unfolding HasSons
set-Writes limit xs i v fits = record {
  same_length = length-set xs i v;
  sons = λ h j e q l. rw length-set (elim (get_elem?-set xs i v j q) [
    | inl same ↦ omega (arith, fits, same)
    | inr old ↦ h j e old l
  ]);
}

-- A write that succeeds was in range.
pub write-Writes :
    (limit i v : ℕ) (xs : List ℕ)
    → Fits limit xs v
    → Ensures (λ _ ys. Writes limit xs ys × (i < length xs)) (Writes limit xs) Unit (write i v xs)
write-Writes limit i v xs fits = elim (Bool-cases (ltb i (length xs))) [
  | inl inside ↦ rw inside (set-Writes limit xs i v fits, ltb→lt i (length xs) inside)
  | inr beyond ↦ rw beyond tt
]
