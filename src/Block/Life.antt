-- ===== src/Block/Life.antt =====
-- A block from call to call of `data()`: fresh, then either with its bytes or with an error.
use mathlib.Core.Path.{subst}
use cxx_unlzx.Base.{
  ℕ, ◌^◌, ◌<◌, ◌≡◌, ◌≢◌, refl, sym, ap, ◌∙◌, Bool, true, false, Bool-cases, inl, inr, List, Option,
  none, some, length, ◌==◌, ==_iff, if◌then◌else◌,
}
use cxx_unlzx.Status.{Status, ok, unknown_compression}
use cxx_unlzx.Exec.{Outcome, done, fail, fault, exhausted}
use cxx_unlzx.Exec.Ensures.{Ensures}
use cxx_unlzx.Exec.Honest.{IsError, Honest}
use cxx_unlzx.Input.{InputBuffer, read_span}
use cxx_unlzx.Input.Stream.{IsValid}
use cxx_unlzx.Input.Honest.{read_span-Honest}
use cxx_unlzx.Handle.{mode}
use cxx_unlzx.Block.{
  Block, Unpacking, is_ok, settle_stored, stored_data, settle_normal, normal_data, first_data,
  block_data, unpack_fuel, unpacking, finish,
}
use cxx_unlzx.Block.Honest.{unpack_loop-Honest}
use cxx_unlzx.Block.Memo
use cxx_unlzx.Block.Memo.{StoredResult, block_data-stored}
use cxx_unlzx.Block.Total.{HasAll, block_data_lem}

-- A block that no one has asked for its data.
pub record IsFresh (b : Block) : Type 0 where
  pub valid : IsValid b.in_file
  pub small : b.total_unpacked_size < 2 ^ 63
  pub untouched : b.is_decompressed ≡ false

pub data Life (b : Block) : Type 0 where
  newborn : IsFresh b → Life b
  served :
      b.is_decompressed ≡ true
      → is_ok b.status ≡ true
      → length b.data_span ≡ b.total_unpacked_size
      → Life b
  failed : b.is_decompressed ≡ true → is_ok b.status ≡ false → Life b

-- The answer of `data()` and the block that it leaves.
pub data Answer (b c : Block) : Option (List ℕ) → Type 0 where
  got :
      {xs : List ℕ}
      → is_ok c.status ≡ true
      → length xs ≡ b.total_unpacked_size
      → c.data_span ≡ xs
      → Answer b c (some xs)
  refused : is_ok c.status ≡ false → Answer b c none

pub record IsRead (b : Block) (r : Option (List ℕ)) (c : Block) : Type 0 where
  pub answer : Answer b c r
  pub size_kept : c.total_unpacked_size ≡ b.total_unpacked_size
  pub asked : c.is_decompressed ≡ true

-- What `settle` leaves, without the length of the bytes.
abbrev Leaves : Block → Option (List ℕ) → Block → Type 0
Leaves b (some xs) c =
    (is_ok c.status ≡ true)
    × (c.data_span ≡ xs)
    × (c.total_unpacked_size ≡ b.total_unpacked_size)
    × (c.is_decompressed ≡ true)
Leaves b none c =
    (is_ok c.status ≡ false)
    × (c.total_unpacked_size ≡ b.total_unpacked_size)
    × (c.is_decompressed ≡ true)

abbrev Settled : Block → Outcome Block (Option (List ℕ)) → Type 0
Settled b (done r c) = Leaves b r c
Settled b _ = Unit

is_error : (st : Status) → IsError st → is_ok st ≡ false
unfolding is_ok
is_error ok h = absurd h
is_error _ h = refl

stored_settles :
    (b : Block) (o : Outcome InputBuffer (List ℕ)) → Honest o → Settled b (settle_stored b o)
unfolding settle_stored is_ok
stored_settles b (done xs c) h = (refl, refl, refl, refl)
stored_settles b (fail st c) h = (is_error st h, refl, refl)
stored_settles b fault h = tt
stored_settles b exhausted h = tt

normal_settles :
    (b : Block) (o : Outcome Unpacking (Unit {0})) → Honest o → Settled b (settle_normal b o)
unfolding settle_normal is_ok
normal_settles b (done _ u) h = (refl, refl, refl, refl)
normal_settles b (fail st u) h = (is_error st h, refl, refl)
normal_settles b fault h = tt
normal_settles b exhausted h = tt

Settled-if :
    (b : Block) (t : Bool) (o p : Outcome Block (Option (List ℕ)))
    → Settled b o
    → Settled b p
    → Settled b (if t then o else p)
Settled-if b true o p h k = h
Settled-if b false o p h k = k

first_data-Settled : (b : Block) → Settled b (first_data b)
unfolding first_data stored_data normal_data is_ok
first_data-Settled b =
    Settled-if b (mode b.node == 0) (stored_data b) _
      (stored_settles b (read_span b.total_unpacked_size b.in_file)
        (read_span-Honest b.total_unpacked_size b.in_file))
      (Settled-if b (mode b.node == 2) (normal_data b) _
        (normal_settles b _ (
          unpack_loop-Honest (unpack_fuel b.in_file b.total_unpacked_size) b.total_unpacked_size
            (unpacking b.in_file b.total_unpacked_size)))
        (refl, refl, refl))

IsRead-of :
    (b : Block) (r : Option (List ℕ)) (c : Block)
    → HasAll b.total_unpacked_size r
    → Leaves b r c
    → IsRead b r c
IsRead-of b (some xs) c all (good, same, kept, asked) = record {
  answer = got good all same;
  size_kept = kept;
  asked = asked;
}
IsRead-of b none c all (bad, kept, asked) = record {
  answer = refused bad;
  size_kept = kept;
  asked = asked;
}

-- The one way to an undefined access: the first call, on a block of mode 2.
pub record Derails (b : Block) : Type 0 where
  pub unasked : b.is_decompressed ≡ false
  pub compressed : mode b.node ≡ 2
  pub out_of_range : normal_data b ≡ fault

abbrev pub Reads : Block → Outcome Block (Option (List ℕ)) → Type 0
Reads b = Ensures (λ r c. IsRead b r c) (λ _. ⊥) (Derails b)

Settled-Reads :
    (b : Block) (o : Outcome Block (Option (List ℕ)))
    → Ensures (λ r _. HasAll b.total_unpacked_size r) (λ _. ⊥) Unit o
    → Settled b o
    → (o ≡ fault → Derails b)
    → Reads b o
Settled-Reads b (done r c) all left derails = IsRead-of b r c all left
Settled-Reads b (fail _ _) all left derails = all
Settled-Reads b fault all left derails = derails refl
Settled-Reads b exhausted all left derails = all

first_call : (b : Block) → b.is_decompressed ≡ false → block_data b ≡ first_data b
unfolding block_data
first_call b new = rw new refl

abbrev memo : Block → Bool → Outcome Block (Option (List ℕ))
memo b good = done (if good then some b.data_span else none) b

later_call :
    (b : Block) {good : Bool}
    → b.is_decompressed ≡ true
    → is_ok b.status ≡ good
    → block_data b ≡ memo b good
unfolding block_data
later_call b old good =
    ap (λ t. if t then memo b (is_ok b.status) else first_data b) old ∙ ap (memo b) good

stored_returns : (b : Block) (o : Outcome Block (Option (List ℕ))) → StoredResult b o → o ≢ fault
stored_returns b o (Memo.StoredResult.stored _ _) e = cc
stored_returns b o (Memo.StoredResult.misaligned _) e = cc
stored_returns b o (Memo.StoredResult.short _ _) e = cc

first_normal :
    (b : Block) → mode b.node == 0 ≡ false → mode b.node == 2 ≡ true → first_data b ≡ normal_data b
unfolding first_data
first_normal b h k = rw (h, k) refl

first_unknown :
    (b : Block)
    → mode b.node == 0 ≡ false
    → mode b.node == 2 ≡ false
    → first_data b ≡ done none (finish unknown_compression b.data_span b.in_file b)
unfolding first_data
first_unknown b h k = rw (h, k) refl

first_fault : (b : Block) → IsFresh b → block_data b ≡ fault → first_data b ≡ fault
first_fault b f e = sym (first_call b f.untouched) ∙ e

returns_none :
    {o : Outcome Block (Option (List ℕ))} {r : Option (List ℕ)} {c : Block}
    → o ≡ done r c
    → o ≢ fault
returns_none h k = cc

fault-Derails : (b : Block) → IsFresh b → block_data b ≡ fault → Derails b
fault-Derails b f e = elim (Bool-cases (mode b.node == 0)) [
  | inl stored ↦ absurd (
      stored_returns b (block_data b)
        (block_data-stored b f.valid f.small f.untouched ((==_iff (mode b.node) 0).0 stored)) e)
  | inr other ↦ elim (Bool-cases (mode b.node == 2)) [
    | inl normal ↦ record {
      unasked = f.untouched;
      compressed = (==_iff (mode b.node) 2).0 normal;
      out_of_range = sym (first_normal b other normal) ∙ first_fault b f e;
    }
    | inr unknown ↦ absurd (returns_none (first_unknown b other unknown) (first_fault b f e))
  ]
]

-- At every point of a block's life, fresh, served or failed, `data()` returns, unless this is the
-- first call, the block has mode 2, and its decompression makes an access outside an array. It
-- returns as many bytes as the block's size with the status Ok, or none with another status; it
-- keeps the size, and from then on the block has what it returned.
pub block_data-Reads : (b : Block) → Life b → Reads b (block_data b)
block_data-Reads b (newborn f) =
    Settled-Reads b (block_data b) (block_data_lem b f.valid f.small f.untouched)
      (subst (Settled b) (sym (first_call b f.untouched)) (first_data-Settled b))
      (fault-Derails b f)
block_data-Reads b (served old good all) =
    subst (Reads b) (sym (later_call b old good))
      (record { answer = got good all refl; size_kept = refl; asked = old })
block_data-Reads b (failed old bad) =
    subst (Reads b) (sym (later_call b old bad))
      (record { answer = refused bad; size_kept = refl; asked = old })

lives :
    (b c : Block) (r : Option (List ℕ))
    → c.total_unpacked_size ≡ b.total_unpacked_size
    → c.is_decompressed ≡ true
    → Answer b c r
    → Life c
lives b c r kept old (got good all same) = served old good (ap length same ∙ all ∙ sym kept)
lives b c r kept old (refused bad) = failed old bad

-- The block lives on.
pub IsRead-Life : (b : Block) (r : Option (List ℕ)) (c : Block) → IsRead b r c → Life c
IsRead-Life b r c h = lives b c r h.size_kept h.asked h.answer
