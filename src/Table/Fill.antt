-- ===== src/Table/Fill.antt =====
-- The inner loop of the first pass of `reset_table`.
use native.Mathlib.Nat.{zero-mul, add-zero}
use cxx_unlzx.Base.{
  ℕ, zero, suc, ◌+◌, ◌*◌, ◌^◌, ◌≤◌, ◌<◌, ◌≡◌, ◌≢◌, refl, ap, ◌∙◌, arith, List, length, get_or, set,
  length-set, get_or-set_self, get_or-set_ne, u16, u32, lt→ltb,
}
use cxx_unlzx.Exec.{Outcome, done}
use cxx_unlzx.Table.{fill_entries}

pub record IsFilled (fill leaf step value : ℕ) (xs : List ℕ) (o : Outcome (List ℕ) (Unit {0}))
    : Type 0 where
  pub out : List ℕ
  pub returns : o ≡ done tt out
  pub same_length : length out ≡ length xs
  pub hit : (j : ℕ) → j < fill → get_or out (leaf + j * step) 0 ≡ value
  pub missed : (i : ℕ) → ((j : ℕ) → j < fill → i ≢ leaf + j * step) → get_or out i 0 ≡ get_or xs i 0

fill_step :
    (fill leaf step symbol : ℕ) (xs : List ℕ)
    → leaf < length xs
    → leaf + step < 2 ^ 32
    → fill_entries (suc fill) leaf step symbol xs
      ≡ fill_entries fill (leaf + step) step symbol (set xs leaf (u16 symbol))
unfolding fill_entries
fill_step fill leaf step symbol xs h k = rw (lt→ltb leaf (length xs) h) (
    ap (λ t. fill_entries fill t step symbol (set xs leaf (u16 symbol)))
      (let e : u32 (leaf + step) ≡ leaf + step = omega arith in e))

module _ {fill leaf step : ℕ} (symbol : ℕ) (xs : List ℕ) {o : Outcome (List ℕ) (Unit {0})}
    (p : 1 ≤ step) (here : leaf < length xs)
    (rest : IsFilled fill (leaf + step) step (u16 symbol) (set xs leaf (u16 symbol)) o) where
  hit_first : get_or rest.out leaf 0 ≡ u16 symbol
  hit_first =
      rest.missed leaf (λ j l e. absurd (omega arith)) ∙ get_or-set_self xs leaf (u16 symbol) 0 here

  hit_all : (j : ℕ) → j < suc fill → get_or rest.out (leaf + j * step) 0 ≡ u16 symbol
  hit_all zero l = rw (zero-mul, add-zero) hit_first
  hit_all (suc j) l =
      ap (λ t. get_or rest.out t 0)
        (let e : leaf + suc j * step ≡ leaf + step + j * step = omega arith in e)
      ∙ rest.hit j (omega arith)

  IsFilled-suc :
      (o' : Outcome (List ℕ) (Unit {0})) → o' ≡ o → IsFilled (suc fill) leaf step (u16 symbol) xs o'
  IsFilled-suc o' e = record {
    out = rest.out;
    returns = e ∙ rest.returns;
    same_length = rest.same_length ∙ length-set xs leaf (u16 symbol);
    hit = hit_all;
    missed = λ i m.
        rest.missed i (λ j l d. m (suc j) (omega arith) (omega arith))
        ∙ get_or-set_ne xs leaf i (u16 symbol) 0 (λ d. m 0 (omega arith) (omega arith));
  }

-- Where the step is at least 1, `n` entries are in the array, n plus the step is at most 2 ^ 32,
-- and the entries that the inner loop of the first pass writes lie below n, the loop returns Ok,
-- keeps the size, and writes the symbol as 16 bits to each `step`-th entry from `leaf` on and to
-- no other.
pub fill_entries_lem :
    (n fill leaf step symbol : ℕ) (xs : List ℕ)
    → 1 ≤ step
    → n ≤ length xs
    → n + step ≤ 2 ^ 32
    → leaf + fill * step < n + step
    → IsFilled fill leaf step (u16 symbol) xs (fill_entries fill leaf step symbol xs)
fill_entries_lem n zero leaf step symbol xs p h k f = record {
  out = xs;
  returns = unfold fill_entries in refl;
  same_length = refl;
  hit = λ j l. absurd (omega arith);
  missed = λ i m. refl;
}
fill_entries_lem n (suc fill) leaf step symbol xs p h k f =
    let here : leaf < length xs = omega arith in
    let wrap : leaf + step < 2 ^ 32 = omega arith in
    IsFilled-suc symbol xs p here
      (fill_entries_lem n fill (leaf + step) step symbol (set xs leaf (u16 symbol)) p
        (rw length-set h) k (omega arith))
      (fill_entries (suc fill) leaf step symbol xs) (fill_step fill leaf step symbol xs here wrap)
