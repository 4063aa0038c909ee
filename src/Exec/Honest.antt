-- ===== src/Exec/Honest.antt =====
-- An error is never reported with `Status::Ok`: the rules by which that goes through methods.
use cxx_unlzx.Base.{ℕ, Bool, true, false, List, Option, none, some, length, ltb, if◌then◌else◌}
use cxx_unlzx.Status.{Status, ok}
use cxx_unlzx.Exec.{
  Outcome, Exec, done, fail, fault, exhausted, bind_outcome, embed, or_fault, write,
}

abbrev pub IsError : Status → Type 0
IsError ok = ⊥
IsError _ = Unit

abbrev pub Honest {ℓ κ} : {S : Type ℓ} {A : Type κ} → Outcome S A → Type 0
Honest (done a s) = Unit
Honest (fail st s) = IsError st
Honest fault = Unit
Honest exhausted = Unit

module _ {ℓ κ} {S : Type ℓ} {A : Type κ} where
  pub bind-Honest {μ} :
      {B : Type μ} (o : Outcome S A) (f : A → Exec S B)
      → Honest o
      → ((a : A) (s : S) → Honest (f a s))
      → Honest (bind_outcome o f)
  bind-Honest (done a s) f h k = k a s
  bind-Honest (fail st s) f h k = h
  bind-Honest fault f h k = tt
  bind-Honest exhausted f h k = tt

  pub if-Honest : (b : Bool) (o p : Outcome S A) → Honest o → Honest p → Honest (if b then o else p)
  if-Honest true o p h k = h
  if-Honest false o p h k = k

  pub choice-Honest :
      (b : Bool) (m n : Exec S A) (s : S)
      → Honest (m s)
      → Honest (n s)
      → Honest ((if b then m else n) s)
  choice-Honest true m n s h k = h
  choice-Honest false m n s h k = k

  pub embed-Honest {μ} :
      {T : Type μ} (put : S → T → S) (s : S) (o : Outcome T A) → Honest o → Honest (embed put s o)
  embed-Honest put s (done a t) h = tt
  embed-Honest put s (fail st t) h = h
  embed-Honest put s fault h = tt
  embed-Honest put s exhausted h = tt

  pub or_fault-Honest : (o : Option A) (s : S) → Honest (or_fault o s)
  or_fault-Honest none s = tt
  or_fault-Honest (some a) s = tt

pub write-Honest {ℓ} : {A : Type ℓ} (i : ℕ) (v : A) (xs : List A) → Honest (write i v xs)
write-Honest i v xs = if-Honest (ltb i (length xs)) _ _ tt tt

pub ruleset honest =
    (bind-Honest, if-Honest, choice-Honest, embed-Honest, or_fault-Honest, write-Honest)
