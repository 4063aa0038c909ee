-- ===== src/Exec.antt =====
-- Methods that change objects and return a `Status`: `TRY` of src/error.hh is the bind. What was
-- written before an error stays written, so the state comes back beside the error too.
pub mod Ensures
pub mod Relate
pub mod Honest
use cxx_unlzx.Base.{
  ◌≡◌, refl, Bool, true, false, Option, none, some, List, ℕ, get_elem?, length, set, ltb,
  if◌then◌else◌,
}
use cxx_unlzx.Status.{Status}

-- `done` is `Status::Ok`. `fault` is an access outside an array, which C++ leaves undefined, or an
-- exception that nothing catches. `exhausted` is a loop of the model that ran out of fuel.
pub data Outcome {ℓ κ} (S : Type ℓ) (A : Type κ) : Type (ℓ ⊔ κ) where
  done : A → S → Outcome S A
  fail : Status → S → Outcome S A
  fault exhausted : Outcome S A

abbrev pub Exec {ℓ κ} : Type ℓ → Type κ → Type (ℓ ⊔ κ)
Exec S A = S → Outcome S A

abbrev pub bind_outcome {ℓ κ μ} :
    {S : Type ℓ} {A : Type κ} {B : Type μ} → Outcome S A → (A → Exec S B) → Outcome S B
bind_outcome (done a s) f = f a s
bind_outcome (fail e s) f = fail e s
bind_outcome fault f = fault
bind_outcome exhausted f = exhausted

infixl 5 ◌>>=◌ ◌>>◌
abbrev pub ◌>>=◌ {ℓ κ μ} :
    {S : Type ℓ} {A : Type κ} {B : Type μ} → Exec S A → (A → Exec S B) → Exec S B
◌>>=◌ m f s = bind_outcome (m s) f

abbrev pub ◌>>◌ {ℓ κ μ} : {S : Type ℓ} {A : Type κ} {B : Type μ} → Exec S A → Exec S B → Exec S B
m >> n = m >>= λ _. n

abbrev pub pure {ℓ κ} : {S : Type ℓ} {A : Type κ} → A → Exec S A
pure a s = done a s

abbrev pub raise {ℓ κ} : {S : Type ℓ} {A : Type κ} → Status → Exec S A
raise e s = fail e s

-- The fuel of a loop ran out.
abbrev pub give_up {ℓ κ} : {S : Type ℓ} {A : Type κ} → Exec S A
give_up s = exhausted

-- An array access: undefined behaviour out of range.
abbrev pub or_fault {ℓ κ} : {S : Type ℓ} {A : Type κ} → Option A → Exec S A
or_fault none s = fault
or_fault (some a) s = done a s

abbrev pub gets {ℓ κ} : {S : Type ℓ} {A : Type κ} → (S → A) → Exec S A
gets f s = done (f s) s

abbrev pub modify {ℓ} : {S : Type ℓ} → (S → S) → Exec S (Unit {0})
modify f s = done tt (f s)

-- A method of a part of the state: `get` and `put` say where the part lies.
abbrev pub embed {ℓ κ μ} :
    {S : Type ℓ} {T : Type κ} {A : Type μ} → (S → T → S) → S → Outcome T A → Outcome S A
embed put s (done a t) = done a (put s t)
embed put s (fail e t) = fail e (put s t)
embed put s fault = fault
embed put s exhausted = exhausted

abbrev pub focus {ℓ κ μ} :
    {S : Type ℓ} {T : Type κ} {A : Type μ} → (S → T) → (S → T → S) → Exec T A → Exec S A
focus get put m s = embed put s (m (get s))

-- A write of an array element.
abbrev pub write {ℓ} : {A : Type ℓ} → ℕ → A → Exec (List A) (Unit {0})
write i v xs = if ltb i (length xs) then done tt (set xs i v) else fault
