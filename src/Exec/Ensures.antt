-- ===== src/Exec/Ensures.antt =====
-- What an outcome says: inversions, and postconditions with a rule for a bind.
use cxx_unlzx.Base.{
  ℕ, zero, suc, ◌<◌, ◌≡◌, ◌⊎◌, inl, inr, refl, ap, arith, some, Bool, true, false, List, [], ◌∷◌,
  length, get_elem?, if◌then◌else◌,
}
use cxx_unlzx.Exec.{Outcome, Exec, done, fail, fault, exhausted, bind_outcome, or_fault}

module _ {ℓ κ} {S : Type ℓ} {A : Type κ} where
  abbrev value_or : A → Outcome S A → A
  value_or d (done a s) = a
  value_or d _ = d

  abbrev state_or : S → Outcome S A → S
  state_or d (done a s) = s
  state_or d _ = d

  -- `done` is injective.
  pub done_injective : {a b : A} {s t : S} → done a s ≡ done b t → (a ≡ b) × (s ≡ t)
  done_injective {a} {s = s} e = (ap (value_or a) e, ap (state_or s) e)

-- A method that succeeded did so step by step.
pub bind-eq-done {ℓ κ μ} :
    {S : Type ℓ} {A : Type κ} {B : Type μ} (o : Outcome S A) (f : A → Exec S B) {b : B} {t : S}
    → bind_outcome o f ≡ done b t
    → (a : A) × (s : S) × (o ≡ done a s) × (f a s ≡ done b t)
bind-eq-done (done a s) f e = (a, s, refl, e)
bind-eq-done (fail x s) f e = cc
bind-eq-done fault f e = cc
bind-eq-done exhausted f e = cc

-- Where the method succeeds `Q` holds of its result and its state, and where it fails `E` holds of
-- the state. `F` is what undefined behaviour is held to: `⊥` rules it out. Fuel never runs out.
abbrev pub Ensures {ℓ κ} :
    {S : Type ℓ} {A : Type κ} → (A → S → Type 0) → (S → Type 0) → Type 0 → Outcome S A → Type 0
Ensures Q E F (done a s) = Q a s
Ensures Q E F (fail x s) = E s
Ensures Q E F fault = F
Ensures Q E F exhausted = ⊥

pub Ensures-bind {ℓ κ μ} :
    {S : Type ℓ} {A : Type κ} {B : Type μ} (Q : A → S → Type 0) (R : B → S → Type 0)
    (E : S → Type 0) (F : Type 0) (o : Outcome S A) (f : A → Exec S B)
    → Ensures Q E F o
    → ((a : A) (s : S) → Q a s → Ensures R E F (f a s))
    → Ensures R E F (bind_outcome o f)
Ensures-bind Q R E F (done a s) f h k = k a s h
Ensures-bind Q R E F (fail x s) f h k = h
Ensures-bind Q R E F fault f h k = h
Ensures-bind Q R E F exhausted f h k = h

pub Ensures-mono {ℓ κ} :
    {S : Type ℓ} {A : Type κ} (Q R : A → S → Type 0) (E : S → Type 0) (F : Type 0) (o : Outcome S A)
    → Ensures Q E F o
    → ((a : A) (s : S) → Q a s → R a s)
    → Ensures R E F o
Ensures-mono Q R E F (done a s) h k = k a s h
Ensures-mono Q R E F (fail x s) h k = h
Ensures-mono Q R E F fault h k = h
Ensures-mono Q R E F exhausted h k = h

-- An array access: in range, or `F` holds.
pub lookup-bind {ℓ κ μ} :
    {S : Type ℓ} {A : Type κ} {B : Type μ} (Q : B → S → Type 0) (E : S → Type 0) (F : Type 0)
    (xs : List A) (i : ℕ) (f : A → Exec S B) (s : S)
    → F ⊎ (i < length xs)
    → ((a : A) → get_elem? xs i ≡ some a → Ensures Q E F (f a s))
    → Ensures Q E F (bind_outcome (or_fault (get_elem? xs i) s) f)
lookup-bind Q E F [] i f s (inl allowed) h = allowed
lookup-bind Q E F [] i f s (inr inside) h = elim inside [ ]
lookup-bind Q E F (x ∷ xs) zero f s range h = h x refl
lookup-bind Q E F (x ∷ xs) (suc i) f s (inl allowed) h = lookup-bind Q E F xs i f s (inl allowed) h
lookup-bind Q E F (x ∷ xs) (suc i) f s (inr inside) h =
    lookup-bind Q E F xs i f s (inr (omega arith)) h

pub Ensures-if {ℓ κ} :
    {S : Type ℓ} {A : Type κ} (Q : A → S → Type 0) (E : S → Type 0) (F : Type 0) (b : Bool)
    (m n : Exec S A) (s : S)
    → (b ≡ true → Ensures Q E F (m s))
    → (b ≡ false → Ensures Q E F (n s))
    → Ensures Q E F ((if b then m else n) s)
Ensures-if Q E F true m n s h k = h refl
Ensures-if Q E F false m n s h k = k refl

-- Another reading of undefined behaviour.
pub Ensures-fault {ℓ κ} :
    {S : Type ℓ} {A : Type κ} (Q : A → S → Type 0) (E : S → Type 0) (F G : Type 0) (o : Outcome S A)
    → (F → G)
    → Ensures Q E F o
    → Ensures Q E G o
Ensures-fault Q E F G (done a s) k h = h
Ensures-fault Q E F G (fail x s) k h = h
Ensures-fault Q E F G fault k h = k h
Ensures-fault Q E F G exhausted k h = h

-- The same for outcomes.
pub Ensures-if_outcome {ℓ κ} :
    {S : Type ℓ} {A : Type κ} (Q : A → S → Type 0) (E : S → Type 0) (F : Type 0) (b : Bool)
    (o p : Outcome S A)
    → (b ≡ true → Ensures Q E F o)
    → (b ≡ false → Ensures Q E F p)
    → Ensures Q E F (if b then o else p)
Ensures-if_outcome Q E F true o p h k = h refl
Ensures-if_outcome Q E F false o p h k = k refl
