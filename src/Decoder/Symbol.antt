-- ===== src/Decoder/Symbol.antt =====
-- How `HuffmanDecoder` decodes one symbol: the loop, and what is left of the source.
use native.Mathlib.Nat.{le_refl, mod-lt}
use cxx_unlzx.Base.{
  ℕ, zero, suc, ◌+◌, ◌*◌, ◌%◌, ◌^◌, ◌≤◌, ◌<◌, ◌≡◌, ◌⊎◌, inl, inr, refl, ◌∙◌, arith, get_elem?,
  length, some, bit_or, u32, ltb, ◌<<◌, ltb→lt, ltb→le,
}
use cxx_unlzx.Base.Bits.{or_shifted}
use cxx_unlzx.Base.Pow.{two-pow-pos}
use cxx_unlzx.Exec.{Outcome, Exec, bind_outcome, pure}
use cxx_unlzx.Exec.Ensures.{Ensures, Ensures-bind, Ensures-mono, lookup-bind, Ensures-if}
use cxx_unlzx.Exec.Relate.{On, On-after, On-bind}
use cxx_unlzx.Input.{InputBuffer, read_bits, peek_bits}
use cxx_unlzx.Input.Stream.{IsValid, bits_left, words_left, bit_stream}
use cxx_unlzx.Input.Bits.{ReadResult, PeekResult, read_bits_lem, peek_bits_lem}
use cxx_unlzx.Input.Bits
use cxx_unlzx.Table.{HuffmanTable}
use cxx_unlzx.Decoder.{follow, short_symbol, long_symbol, read_symbol, bit_fuel}

-- The source after some reads: the same data, valid, with no more bits to come.
pub record Moves (b b' : InputBuffer) : Type 0 where
  pub valid : IsValid b'
  pub same_bytes : b'.bytes ≡ b.bytes
  pub fewer : bits_left b' ≤ bits_left b

pub Moves-refl : {b : InputBuffer} → IsValid b → Moves b b
Moves-refl v = record { valid = v; same_bytes = refl; fewer = le_refl _ }

pub Moves-trans : (a b c : InputBuffer) → Moves a b → Moves b c → Moves a c
Moves-trans a b c m n = record {
  valid = n.valid;
  same_bytes = n.same_bytes ∙ m.same_bytes;
  fewer = omega (arith, m.fewer, n.fewer);
}

-- A table that leads nowhere outside its arrays: the first `width` bits of the source name an
-- entry, an entry below `limit` is a symbol with a length, and one from `limit` on is a node whose
-- two sons are in the table.
pub record IsClosed (t : HuffmanTable) (width limit : ℕ) : Type 0 where
  pub entries : 2 ^ width ≤ length t.table
  pub symbols : limit ≤ length t.bit_length
  pub sons : (i e : ℕ) → get_elem? t.table i ≡ some e → limit ≤ e → 2 * e + 1 < length t.table

module _ (F : Type 0) where
  -- A method on the source returns, whether it succeeds or not, and only moves on.
  abbrev pub MovesOn {ℓ} : {A : Type ℓ} → InputBuffer → Outcome InputBuffer A → Type 0
  MovesOn = On F Moves

  pub MovesOn-bind {ℓ κ} :
      {A : Type ℓ} {B : Type κ} (b : InputBuffer) (o : Outcome InputBuffer A)
      (f : A → Exec InputBuffer B)
      → MovesOn b o
      → ((a : A) (c : InputBuffer) → IsValid c → MovesOn c (f a c))
      → MovesOn b (bind_outcome o f)
  MovesOn-bind b o f m k = On-bind F Moves-trans b o f m (λ a c r. k a c r.valid)

  abbrev Spends : ℕ → InputBuffer → ℕ → InputBuffer → Type 0
  Spends n b out c = Moves b c × ((bits_left c + n ≡ bits_left b) × (out < 2 ^ n))

  spends :
      (n : ℕ) {b : InputBuffer} (o : Outcome InputBuffer ℕ)
      → IsValid b
      → ReadResult n b o
      → Ensures (Spends n b) (Moves b) F o
  spends n {b} o v (Bits.ReadResult.took r t) = (
    record { valid = t.valid; same_bytes = t.same_bytes; fewer = omega (arith, t.left) },
    (t.left, rw (t.value) (mod-lt (bit_stream b) (two-pow-pos n))),
  )
  spends n o v (Bits.ReadResult.refused w) = Moves-refl v

  pub read_bits-Spends :
      (n : ℕ) (b : InputBuffer)
      → IsValid b
      → Ensures
          (λ out c. Moves b c × ((bits_left c + n ≡ bits_left b) × (out < 2 ^ n)))
          (Moves b)
          F
          (read_bits n b)
  read_bits-Spends n b v = spends n (read_bits n b) v (read_bits_lem n b v)

  pub read_bits-MovesOn : (n : ℕ) (b : InputBuffer) → IsValid b → MovesOn b (read_bits n b)
  read_bits-MovesOn n b v =
      Ensures-mono (Spends n b) (λ _ c. Moves b c) (Moves b) F (read_bits n b)
        (read_bits-Spends n b v) (λ a c h. h.0)

  peeks_on :
      (n : ℕ) {b : InputBuffer} (o : Outcome InputBuffer ℕ)
      → IsValid b
      → PeekResult n b o
      → Ensures (λ out c. Moves b c × (out < 2 ^ n)) (Moves b) F o
  peeks_on n {b} o v (Bits.PeekResult.peeked r p) = (
    record { valid = p.valid; same_bytes = p.same_bytes; fewer = omega (arith, p.left) },
    rw (p.value) (mod-lt (bit_stream b) (two-pow-pos n)),
  )
  peeks_on n o v (Bits.PeekResult.refused w) = Moves-refl v

  pub peek_bits-Shows :
      (n : ℕ) (b : InputBuffer)
      → IsValid b
      → Ensures (λ out c. Moves b c × (out < 2 ^ n)) (Moves b) F (peek_bits n b)
  peek_bits-Shows n b v = peeks_on n (peek_bits n b) v (peek_bits_lem n b v)

  pub peek_bits-MovesOn : (n : ℕ) (b : InputBuffer) → IsValid b → MovesOn b (peek_bits n b)
  peek_bits-MovesOn n b v =
      Ensures-mono (λ out c. Moves b c × (out < 2 ^ n)) (λ _ c. Moves b c) (Moves b) F
        (peek_bits n b) (peek_bits-Shows n b v) (λ a c h. h.0)

-- The son of a node, for a bit.
son-lt :
    (symbol bit entries : ℕ)
    → bit < 2 ^ 1
    → 2 * symbol + 1 < entries
    → bit_or (u32 (symbol << 1)) bit < entries
son-lt symbol bit entries h k =
    let even : u32 (symbol << 1) ≡ symbol % 2 ^ 31 * 2 ^ 1 = omega arith in
    rw (even, or_shifted 1 (symbol % 2 ^ 31) bit h) (omega arith)

pub bit_fuel_enough : {b : InputBuffer} → IsValid b → bits_left b < bit_fuel b
unfolding bits_left words_left
bit_fuel_enough v = omega (arith, v.window, v.inside)

module _ (F : Type 0) (t : HuffmanTable) (width limit : ℕ) (safe : F ⊎ IsClosed t width limit) where
  IsNode : ℕ → Type 0
  IsNode symbol = F ⊎ (2 * symbol + 1 < length t.table)

  IsNode-of : (i e : ℕ) → get_elem? t.table i ≡ some e → limit ≤ e → IsNode e
  unfolding IsNode
  IsNode-of i e q h = elim safe [ inl allowed ↦ inl allowed | inr c ↦ inr (c.sons i e q h) ]

  son_of :
      (symbol bit : ℕ)
      → bit < 2 ^ 1
      → IsNode symbol
      → F ⊎ (bit_or (u32 (symbol << 1)) bit < length t.table)
  unfolding IsNode
  son_of symbol bit h (inl allowed) = inl allowed
  son_of symbol bit h (inr inside) = inr (son-lt symbol bit (length t.table) h inside)

  entry_of : (i : ℕ) → i < 2 ^ width → F ⊎ (i < length t.table)
  entry_of i h = elim safe [ inl allowed ↦ inl allowed | inr c ↦ inr (omega (arith, c.entries)) ]

  length_of : (symbol : ℕ) → symbol < limit → F ⊎ (symbol < length t.bit_length)
  length_of symbol h = elim safe [
    | inl allowed ↦ inl allowed
    | inr c ↦ inr (omega (arith, c.symbols))
  ]

  -- Each round takes a bit, so fuel above the bits that are left is enough.
  follow-MovesOn :
      (fuel symbol : ℕ) (b : InputBuffer)
      → IsValid b
      → bits_left b < fuel
      → IsNode symbol
      → MovesOn F b (follow t.table limit fuel symbol b)
  unfolding follow
  follow-MovesOn zero symbol b v h n = elim h [ ]
  follow-MovesOn (suc fuel) symbol b v h n =
      Ensures-bind (λ out c. Moves b c × ((bits_left c + 1 ≡ bits_left b) × (out < 2 ^ 1)))
        (λ _ c. Moves b c) (Moves b) F (read_bits 1 b) _ (read_bits-Spends F 1 b v)
        (λ bit c s. On-after F Moves-trans _ s.0 (
          lookup-bind (λ _ d. Moves c d) (Moves c) F t.table (bit_or (u32 (symbol << 1)) bit) _ c
            (son_of symbol bit s.1.1 n)
            (λ next e.
              Ensures-if (λ _ d. Moves c d) (Moves c) F (ltb next limit) (pure next)
                (follow t.table limit fuel next) c (λ _. Moves-refl s.0.valid)
                (λ more.
                  follow-MovesOn fuel next c s.0.valid (omega (arith, s.1.0))
                    (IsNode-of (bit_or (u32 (symbol << 1)) bit) next e (ltb→le next limit more))))))

  short_symbol-MovesOn :
      (symbol : ℕ) (b : InputBuffer)
      → IsValid b
      → symbol < limit
      → MovesOn F b (short_symbol t symbol b)
  unfolding short_symbol
  short_symbol-MovesOn symbol b v h =
      lookup-bind (λ _ d. Moves b d) (Moves b) F t.bit_length symbol _ b (length_of symbol h)
        (λ len _.
          MovesOn-bind F b (read_bits len b) _ (read_bits-MovesOn F len b v)
            (λ _ c w. Moves-refl w))

  module _ (before : Exec InputBuffer (Unit {0}))
      (h : (c : InputBuffer) → IsValid c → MovesOn F c (before c)) where
    long_symbol-MovesOn :
        (symbol : ℕ) (b : InputBuffer)
        → IsValid b
        → IsNode symbol
        → MovesOn F b (long_symbol t width limit before symbol b)
    unfolding long_symbol
    long_symbol-MovesOn symbol b v n = MovesOn-bind F b (before b) _ (h b v) (λ _ c w.
        MovesOn-bind F c (read_bits width c) _ (read_bits-MovesOn F width c w)
          (λ _ d x. follow-MovesOn (bit_fuel d) symbol d x (bit_fuel_enough x) n))

    -- On a valid buffer, reading a symbol returns if what comes before a long symbol does so on
    -- every valid buffer, and where the table leads nowhere outside its arrays it makes no access
    -- outside them: such an access implies F, and F or a closed table is given. Where it returns,
    -- also with an error, the buffer is valid, over the same bytes, with no more bits left than
    -- before.
    pub read_symbol-MovesOn :
        (b : InputBuffer) → IsValid b → MovesOn F b (read_symbol t width limit before b)
    unfolding read_symbol
    read_symbol-MovesOn b v =
        Ensures-bind (λ out c. Moves b c × (out < 2 ^ width)) (λ _ c. Moves b c) (Moves b) F
          (peek_bits width b) _ (peek_bits-Shows F width b v)
          (λ peeked c s. On-after F Moves-trans _ s.0 (
            lookup-bind (λ _ d. Moves c d) (Moves c) F t.table peeked _ c (entry_of peeked s.1)
              (λ symbol e.
                Ensures-if (λ _ d. Moves c d) (Moves c) F (ltb symbol limit) (short_symbol t symbol)
                  (long_symbol t width limit before symbol) c
                  (λ short. short_symbol-MovesOn symbol c s.0.valid (ltb→lt symbol limit short))
                  (λ long.
                    long_symbol-MovesOn symbol c s.0.valid
                      (IsNode-of peeked symbol e (ltb→le symbol limit long))))))
