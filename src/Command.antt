-- ===== src/Command.antt =====
-- The command of src/unlzx_main.cc: which entries it takes, what it prints, and what it does with
-- them.
pub mod Filter
pub mod Show
pub mod Extract
pub mod Main
mod Tests
use cxx_unlzx.Base.{ℕ, List, [], ◌∷◌, ◌++◌}
use cxx_unlzx.Text.{Printed}
use cxx_unlzx.Exec.{Exec, focus, modify}
use cxx_unlzx.Block.{Block}

-- What a handler reads and changes: the blocks, what is printed, and a state of its own.
pub record Shell {ℓ} (S : Type ℓ) : Type ℓ where
  pub store : List Block
  pub out : List Printed
  pub own : S

module _ {ℓ} {S : Type ℓ} where
  abbrev pub on_store {κ} : {A : Type κ} → Exec (List Block) A → Exec (Shell S) A
  on_store = focus (λ s. s.store) (λ s store. record s { store = store })

  abbrev pub print : List Printed → Exec (Shell S) (Unit {0})
  print ps = modify (λ s. record s { out = s.out ++ ps })
