-- ===== src/Table/Short.antt =====
-- One symbol in the first pass of `reset_table`.
use cxx_unlzx.Base.{
  ℕ, suc, ◌+◌, ◌-◌, ◌*◌, ◌^◌, ◌≤◌, ◌<◌, ◌≡◌, refl, sym, ap, ◌∙◌, arith, List, length, get_or,
  replicate, ◌++◌, u16, u32, lt→ltb, le→ltb, length-append, length-replicate, get_or-append_left,
  get_or-append_right, get_or-replicate,
}
use native.Mathlib.Decide.{dec_lt}
use native.Mathlib.Nat.{pow-le-pow_right, le_of_mul-le-mul_right}
use cxx_unlzx.Status.{huffman_table_error}
use cxx_unlzx.Exec.{Outcome, done, fail}
use cxx_unlzx.Base.Pow.{two-pow-pos, two-pow-add}
use cxx_unlzx.Base.Reverse.{reversed, reversed-lt}
use cxx_unlzx.Table.{Build, assign_short, fill_entries, advance, reverse_bits}
use cxx_unlzx.Table.Reverse.{reverse_bits-eq-reversed}
use cxx_unlzx.Table.Fill.{IsFilled, fill_entries_lem}
use cxx_unlzx.Table.Codes.{entry_of_first, entry_missed, entry_hit}
use cxx_unlzx.Table.Slots.{Owned}

-- The build went on to give the codes to `owners`, or there are not as many codes.
pub data ShortResult (bits : ℕ) (owners : List ℕ) : Outcome Build (Unit {0}) → Type 0 where
  owned : {b : Build} → Owned bits owners b → ShortResult bits owners (done tt b)
  overfull :
      {b : Build} → 2 ^ bits < length owners → ShortResult bits owners (fail huffman_table_error b)

module _ (w len symbol q : ℕ) (owners : List ℕ) {b : Build} (o : Owned (w + len) owners b)
    (small : w + len ≤ 30) (word : symbol < 2 ^ 16) (aligned : length owners ≡ q * 2 ^ w) where
  abbrev next_owners : List ℕ
  next_owners = owners ++ replicate (2 ^ w) symbol

  abbrev bits : ℕ
  bits = w + len

  total : length next_owners ≡ length owners + 2 ^ w
  total = rw (length-append, length-replicate) refl

  bounds : (2 ^ (w + len) ≡ 2 ^ w * 2 ^ len) × (2 ^ (w + len) ≤ 2 ^ 30)
  bounds = (two-pow-add w len, pow-le-pow_right {n = 2} (omega arith) {i = w + len} {j = 30} small)

  low_width : 2 ^ w ≤ 2 ^ 30
  low_width = pow-le-pow_right {n = 2} (omega arith) {i = w} {j = 30} (omega arith)

  low_step : 2 ^ len ≤ 2 ^ 30
  low_step = pow-le-pow_right {n = 2} (omega arith) {i = len} {j = 30} (omega arith)

  advanced : u32 (b.position + 2 ^ w) ≡ b.position + 2 ^ w
  advanced = omega (arith, o.position, o.fits, bounds, low_width)

  assign_overfull :
      2 ^ bits < length owners + 2 ^ w
      → assign_short bits len (2 ^ w) symbol b ≡ fail huffman_table_error (advance (2 ^ w) b)
  unfolding assign_short
  assign_overfull h =
      rw (lt→ltb (2 ^ bits) (u32 (b.position + 2 ^ w)) (omega (arith, advanced, o.position))) refl

  -- The symbol's code, and the entries that the loop writes.
  first_code : reverse_bits bits b.position ≡ reversed len q
  first_code =
      reverse_bits-eq-reversed bits b.position (omega arith)
      ∙ ap (reversed bits) (o.position ∙ aligned)
      ∙ entry_of_first w len q

  filled :
      IsFilled
        (2 ^ w)
        (reversed len q)
        (2 ^ len)
        (u16 symbol)
        b.table
        (fill_entries (2 ^ w) (reversed len q) (2 ^ len) symbol b.table)
  filled =
      fill_entries_lem (2 ^ bits) (2 ^ w) (reversed len q) (2 ^ len) symbol b.table
        (two-pow-pos len) o.room (omega (arith, bounds, low_step))
        (omega (arith, reversed-lt len q, bounds))

  abbrev built : Build
  built = record b { table = filled.out; position = b.position + 2 ^ w }

  assign_fits :
      length owners + 2 ^ w ≤ 2 ^ bits → assign_short bits len (2 ^ w) symbol b ≡ done tt built
  unfolding assign_short
  assign_fits h =
      rw
        (
          le→ltb (2 ^ bits) (u32 (b.position + 2 ^ w)) (omega (arith, advanced, o.position)),
          first_code,
          filled.returns,
          advanced,
        )
        refl

  code_fits : length owners + 2 ^ w ≤ 2 ^ bits → q < 2 ^ len
  code_fits h =
      le_of_mul-le-mul_right {m = suc q} {n = 2 ^ len} (omega (arith, aligned, bounds))
        (two-pow-pos w)

  old_entry :
      q < 2 ^ len
      → (k : ℕ) → k < length owners
      → get_or filled.out (reversed bits k) 0 ≡ get_or next_owners k 0
  old_entry hq k h =
      filled.missed (reversed bits k) (λ j _. entry_missed w len q k hq (omega arith) j)
      ∙ o.entry k h
      ∙ sym (get_or-append_left owners (replicate (2 ^ w) symbol) k 0 h)

  new_entry :
      (m : ℕ)
      → m < 2 ^ w
      → get_or filled.out (reversed bits (length owners + m)) 0
        ≡ get_or next_owners (length owners + m) 0
  new_entry m h =
      ap (λ t. get_or filled.out (reversed bits (t + m)) 0) aligned
      ∙ ap (λ t. get_or filled.out t 0) (entry_hit w len q m h)
      ∙ filled.hit (reversed w (q * 2 ^ w + m)) (reversed-lt w (q * 2 ^ w + m))
      ∙ (let e : u16 symbol ≡ symbol = omega arith in e)
      ∙ sym (
          get_or-append_right owners (replicate (2 ^ w) symbol) m 0
          ∙ get_or-replicate (2 ^ w) symbol m 0 h)

  entries :
      q < 2 ^ len
      → (k : ℕ) → k < length next_owners
      → get_or filled.out (reversed bits k) 0 ≡ get_or next_owners k 0
  entries hq k h = elim (dec_lt k (length owners)) [
    | yes old ↦ old_entry hq k old
    | no new ↦
        let e : length owners + (k - length owners) ≡ k = omega arith in
        ap (λ t. get_or filled.out (reversed bits t) 0) (sym e)
        ∙ new_entry (k - length owners) (omega (arith, total))
        ∙ ap (λ t. get_or next_owners t 0) e
  ]

  built-Owned : length owners + 2 ^ w ≤ 2 ^ bits → Owned bits next_owners built
  built-Owned h = record {
    position = omega (arith, o.position, total);
    fits = omega (arith, total);
    room = omega (arith, o.room, filled.same_length);
    entry = entries (code_fits h);
  }

  pub assign_short_lem : ShortResult bits next_owners (assign_short bits len (2 ^ w) symbol b)
  assign_short_lem = elim (dec_lt (2 ^ bits) (length owners + 2 ^ w)) [
    | yes over ↦ rw (assign_overfull over) (overfull (omega (arith, total)))
    | no under ↦
        let room : length owners + 2 ^ w ≤ 2 ^ bits = omega arith in
        rw (assign_fits room) (owned (built-Owned room))
  ]
