-- ===== src/Table/Codes.antt =====
-- Which table entries belong to a code: those that begin with it, low bits first.
use native.Mathlib.Nat.{
  add-mul-mod_self_right, mod-eq_of_lt, div-lt_iff_lt-mul, mul-add-div_right, div-eq_of_lt,
  add-zero, mul-div_left,
}
use cxx_unlzx.Base.{ℕ, ◌+◌, ◌*◌, ◌/◌, ◌%◌, ◌^◌, ◌<◌, ◌≡◌, ◌≢◌, sym, ap, ap₂, ◌∙◌, arith}
use cxx_unlzx.Base.Pow.{two-pow-pos}
use cxx_unlzx.Base.Reverse.{
  reversed, reversed-lt, reversed-add, reversed_shifted, reversed_injective,
}

-- Codes of `len` bits, in a table of `w + len` bits.
module _ (w len : ℕ) where
  -- The entry that a code leads to begins, low bits first, with the code's `len` high bits.
  pub entry_parts :
      (k : ℕ) → reversed (w + len) k ≡ reversed len (k / 2 ^ w) + reversed w k * 2 ^ len
  entry_parts k = omega (arith, reversed-add w len k)

  pub entry_of_first : (q : ℕ) → reversed (w + len) (q * 2 ^ w) ≡ reversed len q
  entry_of_first q =
      reversed-add w len (q * 2 ^ w)
      ∙ ap₂ (λ x y. x * 2 ^ len + reversed len y) (reversed_shifted w q)
          (mul-div_left q (two-pow-pos w))
      ∙ omega arith

  same_code :
      (q r i j : ℕ)
      → q < 2 ^ len
      → r < 2 ^ len
      → reversed len q + i * 2 ^ len ≡ reversed len r + j * 2 ^ len
      → q ≡ r
  same_code q r i j hq hr e = reversed_injective len q r hq hr (
      sym (mod-eq_of_lt (reversed-lt len q))
      ∙ sym (add-mul-mod_self_right (reversed len q) i (2 ^ len))
      ∙ ap (λ t. t % 2 ^ len) e
      ∙ add-mul-mod_self_right (reversed len r) j (2 ^ len)
      ∙ mod-eq_of_lt (reversed-lt len r))

  -- A code outside the symbol's range has an entry that the loop does not write.
  pub entry_missed :
      (q k : ℕ)
      → q < 2 ^ len
      → k < q * 2 ^ w
      → (j : ℕ) → reversed (w + len) k ≢ reversed len q + j * 2 ^ len
  entry_missed q k hq hk j e =
      let below : k / 2 ^ w < q = (div-lt_iff_lt-mul (two-pow-pos w)).1 hk in
      let same : k / 2 ^ w ≡ q =
        same_code (k / 2 ^ w) q (reversed w k) j (omega arith) hq (sym (entry_parts k) ∙ e) in
      omega arith

  -- A code in the range has the entry of the round that its low bits name.
  pub entry_hit :
      (q m : ℕ)
      → m < 2 ^ w
      → reversed (w + len) (q * 2 ^ w + m) ≡ reversed len q + reversed w (q * 2 ^ w + m) * 2 ^ len
  entry_hit q m h =
      let e : (q * 2 ^ w + m) / 2 ^ w ≡ q =
        mul-add-div_right (two-pow-pos w) q m ∙ ap (λ t. q + t) (div-eq_of_lt h) ∙ add-zero q in
      entry_parts (q * 2 ^ w + m)
      ∙ ap (λ t. reversed len t + reversed w (q * 2 ^ w + m) * 2 ^ len) e
