-- ===== src/Table/Keeps.antt =====
-- The first pass of `reset_table` step by step, and what its writes keep of the array.
use cxx_unlzx.Base.{
  ℕ, zero, suc, ◌+◌, ◌^◌, ◌≤◌, ◌<◌, inl, arith, List, [], ◌∷◌, length, ltb, ◌==◌, if◌then◌else◌,
  u16, u32, ◌>>>◌,
}
use cxx_unlzx.Status.{huffman_table_error}
use cxx_unlzx.Exec.{Outcome, Exec, bind_outcome, pure, raise, write}
use cxx_unlzx.Exec.Ensures.{Ensures, Ensures-mono}
use cxx_unlzx.Exec.Relate.{On, On-bind, On-if, On-embed, Ensures-embed}
use cxx_unlzx.Table.{
  Build, on_table, put_table, advance, reverse_bits, fill_entries, assign_short, short_symbols,
  short_lengths,
}
use cxx_unlzx.Table.Sons.{Writes, Writes-refl, Writes-trans, Fits, write-Writes}

abbrev pub Builds : ℕ → Build → Build → Type 0
Builds limit b b' = Writes limit b.table b'.table

abbrev pub BuildsOn {ℓ} : {A : Type ℓ} → ℕ → Build → Outcome Build A → Type 0
BuildsOn limit b o = On Unit (Builds limit) b o

module _ (limit : ℕ) where
  pub Builds-refl : (b : Build) → Builds limit b b
  Builds-refl b = Writes-refl limit b.table

  pub Builds-trans : (a b c : Build) → Builds limit a b → Builds limit b c → Builds limit a c
  Builds-trans a b c m n = Writes-trans limit a.table b.table c.table m n

  pub then_builds {ℓ κ} :
      {A : Type ℓ} {B : Type κ} (b : Build) (o : Outcome Build A) (f : A → Exec Build B)
      → BuildsOn limit b o
      → ((a : A) (c : Build) → BuildsOn limit c (f a c))
      → BuildsOn limit b (bind_outcome o f)
  then_builds b o f h k = On-bind Unit (Builds-trans) b o f h (λ a c _. k a c)

  pub Writes-On :
      (i v : ℕ) (xs : List ℕ) → Fits limit xs v → On Unit (Writes limit) xs (write i v xs)
  Writes-On i v xs fits =
      Ensures-mono (λ _ ys. Writes limit xs ys × (i < length xs)) (λ _ ys. Writes limit xs ys)
        (Writes limit xs) Unit (write i v xs) (write-Writes limit i v xs fits) (λ a ys h. h.0)

  pub on_table-Builds :
      (m : Exec (List ℕ) (Unit {0})) (b : Build)
      → On Unit (Writes limit) b.table (m b.table)
      → BuildsOn limit b (on_table m b)
  on_table-Builds m b h =
      On-embed Unit (Builds limit) (Writes limit) put_table b b.table (m b.table) (λ xs w. w) h

  -- A write through the build, with its range.
  pub put_entry :
      (i v : ℕ) (b : Build)
      → Fits limit b.table v
      → Ensures
          (λ _ c. Builds limit b c × (i < length b.table))
          (Builds limit b)
          Unit
          (on_table (write i v) b)
  put_entry i v b fits =
      Ensures-embed Unit (Builds limit) (Writes limit) (λ _. i < length b.table) put_table b b.table
        (write i v b.table) (λ xs w. w) (write-Writes limit i v b.table fits)

  fill_entries-Writes :
      (fill leaf step symbol : ℕ) (xs : List ℕ)
      → symbol < limit
      → On Unit (Writes limit) xs (fill_entries fill leaf step symbol xs)
  unfolding fill_entries
  fill_entries-Writes zero leaf step symbol xs h = Writes-refl limit xs
  fill_entries-Writes (suc fill) leaf step symbol xs h =
      On-bind Unit (Writes-trans limit) xs (write leaf (u16 symbol) xs) _
        (Writes-On leaf (u16 symbol) xs (inl (omega arith)))
        (λ _ ys _. fill_entries-Writes fill (u32 (leaf + step)) step symbol ys h)

  assign_short-Builds :
      (bits len bit_mask symbol : ℕ) (b : Build)
      → symbol < limit
      → BuildsOn limit b (assign_short bits len bit_mask symbol b)
  unfolding assign_short
  assign_short-Builds bits len bit_mask symbol b h =
      let c = advance bit_mask b in
      On-if Unit (Builds limit) (ltb (2 ^ bits) c.position) (raise huffman_table_error)
        (on_table (fill_entries bit_mask (reverse_bits bits b.position) (2 ^ len) symbol)) c
        (Builds-refl c)
        (on_table-Builds (fill_entries bit_mask (reverse_bits bits b.position) (2 ^ len) symbol) c
          (fill_entries-Writes bit_mask (reverse_bits bits b.position) (2 ^ len) symbol c.table h))

  short_symbols-Builds :
      (bits len bit_mask : ℕ) (lens : List ℕ) (symbol : ℕ) (b : Build)
      → symbol + length lens ≤ limit
      → BuildsOn limit b (short_symbols bits len bit_mask lens symbol b)
  unfolding short_symbols
  short_symbols-Builds bits len bit_mask [] symbol b h = Builds-refl b
  short_symbols-Builds bits len bit_mask (l ∷ rest) symbol b h =
      then_builds b ((if l == len then assign_short bits len bit_mask symbol else pure tt) b) _
        (On-if Unit (Builds limit) (l == len) (assign_short bits len bit_mask symbol) (pure tt) b
          (assign_short-Builds bits len bit_mask symbol b (omega arith)) (Builds-refl b))
        (λ _ c. short_symbols-Builds bits len bit_mask rest (symbol + 1) c (omega arith))

  pub short_lengths-Builds :
      (bits : ℕ) (lens : List ℕ) (left len bit_mask : ℕ) (b : Build)
      → length lens ≤ limit
      → BuildsOn limit b (short_lengths bits lens left len bit_mask b)
  unfolding short_lengths
  short_lengths-Builds bits lens zero len bit_mask b h = Builds-refl b
  short_lengths-Builds bits lens (suc left) len bit_mask b h =
      then_builds b (short_symbols bits len bit_mask lens 0 b) _
        (short_symbols-Builds bits len bit_mask lens 0 b (omega arith))
        (λ _ c. short_lengths-Builds bits lens left (len + 1) (bit_mask >>> 1) c h)
