-- ===== src/Exec/Relate.antt =====
-- Methods that relate the state after them to the state before, however they return. Undefined
-- behaviour is held to `F`; running out of fuel is ruled out.
use cxx_unlzx.Base.{Bool, if◌then◌else◌}
use cxx_unlzx.Exec.{Outcome, Exec, done, fail, fault, exhausted, bind_outcome, embed}
use cxx_unlzx.Exec.Ensures.{Ensures, Ensures-if}

abbrev pub On {ℓ κ} :
    {S : Type ℓ} {A : Type κ} → Type 0 → (S → S → Type 0) → S → Outcome S A → Type 0
On F R s o = Ensures (λ _ t. R s t) (R s) F o

module _ {ℓ} {S : Type ℓ} {R : S → S → Type 0} (F : Type 0)
    (trans : (s t u : S) → R s t → R t u → R s u) where
  pub On-after {κ} : {A : Type κ} {s t : S} (o : Outcome S A) → R s t → On F R t o → On F R s o
  On-after (done a d) m n = trans _ _ d m n
  On-after (fail e d) m n = trans _ _ d m n
  On-after fault m n = n
  On-after exhausted m n = n

  pub On-bind {κ μ} :
      {A : Type κ} {B : Type μ} (s : S) (o : Outcome S A) (f : A → Exec S B)
      → On F R s o
      → ((a : A) (t : S) → R s t → On F R t (f a t))
      → On F R s (bind_outcome o f)
  On-bind s (done a t) f m k = On-after (f a t) m (k a t m)
  On-bind s (fail e t) f m k = m
  On-bind s fault f m k = m
  On-bind s exhausted f m k = m

pub On-if {ℓ κ} :
    {S : Type ℓ} {A : Type κ} (F : Type 0) (R : S → S → Type 0) (b : Bool) (m n : Exec S A) (s : S)
    → On F R s (m s)
    → On F R s (n s)
    → On F R s ((if b then m else n) s)
On-if F R b m n s h k = Ensures-if (λ _ t. R s t) (R s) F b m n s (λ _. h) (λ _. k)

-- A method of a part of the state, with what is known of its result.
pub Ensures-embed {ℓ κ μ} :
    {S : Type ℓ} {T : Type κ} {A : Type μ} (F : Type 0) (R : S → S → Type 0) (Q : T → T → Type 0)
    (P : A → Type 0) (put : S → T → S) (s : S) (t : T) (o : Outcome T A)
    → ((u : T) → Q t u → R s (put s u))
    → Ensures (λ a u. Q t u × P a) (Q t) F o
    → Ensures (λ a u. R s u × P a) (R s) F (embed put s o)
Ensures-embed F R Q P put s t (done a u) h q = (h u q.0, q.1)
Ensures-embed F R Q P put s t (fail e u) h q = h u q
Ensures-embed F R Q P put s t fault h q = q
Ensures-embed F R Q P put s t exhausted h q = q

pub On-embed {ℓ κ μ} :
    {S : Type ℓ} {T : Type κ} {A : Type μ} (F : Type 0) (R : S → S → Type 0) (Q : T → T → Type 0)
    (put : S → T → S) (s : S) (t : T) (o : Outcome T A)
    → ((u : T) → Q t u → R s (put s u))
    → On F Q t o
    → On F R s (embed put s o)
On-embed F R Q put s t (done a u) h q = h u q
On-embed F R Q put s t (fail e u) h q = h u q
On-embed F R Q put s t fault h q = q
On-embed F R Q put s t exhausted h q = q
