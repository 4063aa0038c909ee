-- ===== src/Decoder/LiteralTable/Rounds.antt =====
-- A round of the inner loop of `read_literal_table`: how far it goes, and what it leaves.
use native.Mathlib.Decide.{dec_lt}
use cxx_unlzx.Base.{
  ℕ, ◌+◌, ◌-◌, ◌^◌, ◌≤◌, ◌<◌, ◌≡◌, inl, inr, refl, arith, Bool, Bool-cases, List, length,
  length-append, length-take, length-drop, length-replicate, get_elem?, ltb, ltb→le, ◌==◌,
  if◌then◌else◌, min, u8, u32, true, false, Option, some, none,
}
use cxx_unlzx.Exec.{
  Outcome, Exec, done, fail, fault, exhausted, bind_outcome, pure, write, or_fault,
}
use cxx_unlzx.Exec.Ensures.{Ensures, Ensures-bind, lookup-bind}
use cxx_unlzx.Exec.Relate.{On, On-embed}
use cxx_unlzx.Input.{InputBuffer, filesize, read_bits, skip}
use cxx_unlzx.Input.Stream.{IsValid, bits_left, words_left}
use cxx_unlzx.Input.Bytes.{past-IsValid, skip_lem, skip_misaligned}
use cxx_unlzx.Decoder.{Session, on_source, base_values, read_symbol}
use cxx_unlzx.Decoder.Symbol.{Moves-refl, MovesOn, read_symbol-MovesOn}
use cxx_unlzx.Decoder.LiteralTable.{
  ignoring, put_literals, fill_n, fill_lengths, read_symbol20, base_value, set_length, zero_fill,
  repeat_zero, repeat_previous, one_length, apply_symbol,
}
use cxx_unlzx.Decoder.LiteralTable.Loads.{
  Loads, Loads-refl, Loads-trans, on_source-Loads, read_source, write-length,
}

-- `skip(0)` moves nowhere.
pub skip_zero-MovesOn : (b : InputBuffer) → IsValid b → MovesOn Unit b (ignoring (skip 0) b)
unfolding bits_left words_left
skip_zero-MovesOn b v = elim (dec_lt 0 b.data_bits_available) [
  | yes used ↦ rw (ignoring, skip_misaligned 0 b used) (Moves-refl v)
  | no free ↦
      let there : b.current_position + 0 ≤ filesize b = omega (arith, v.inside) in
      rw (ignoring, skip_lem v (omega arith) (omega arith) there)
        (record { valid = past-IsValid 0 v there; same_bytes = refl; fewer = omega arith })
]

pub read_symbol20-Loads :
    (before : Exec InputBuffer (Unit {0})) (s : Session)
    → ((c : InputBuffer) → IsValid c → MovesOn Unit c (before c))
    → IsValid s.source
    → On Unit Loads s (read_symbol20 before s)
unfolding read_symbol20
read_symbol20-Loads before s h v =
    on_source-Loads (read_symbol s.decoder.huffman20 6 20 before) s
      (read_symbol-MovesOn Unit s.decoder.huffman20 6 20 (inl tt) before h s.source v)

length-fill_n :
    (pos count value : ℕ) (xs : List ℕ)
    → pos + count ≤ length xs
    → length (fill_n pos count value xs) ≡ length xs
length-fill_n pos count value xs h =
    rw (length-append, length-append, length-take, length-replicate, length-drop) (omega arith)

-- What a round returns: the position went on, and not past the end.
abbrev pub Rounds : ℕ → ℕ → Session → Outcome Session ℕ → Type 0
Rounds max_symbol pos s o =
    Ensures (λ p t. Loads s t × ((pos < p) × (p ≤ max_symbol))) (Loads s) Unit o

module _ (max_symbol pos : ℕ) (below : pos < max_symbol) (small : max_symbol < 2 ^ 32) where
  fill_lengths-Loads :
      (byte_count value : ℕ) (s : Session)
      → IsValid s.source
      → 1 ≤ byte_count
      → Ensures
          (λ n t. Loads s t × ((1 ≤ n) × (pos + n ≤ max_symbol)))
          (Loads s)
          Unit
          (fill_lengths max_symbol pos byte_count value s)
  unfolding fill_lengths
  fill_lengths-Loads byte_count value s v one =
      let count = min byte_count (u32 (max_symbol + 2 ^ 32 - pos)) in
      elim (Bool-cases (ltb (length s.decoder.literals.bit_length) (pos + count))) [
        | inl beyond ↦ rw beyond tt
        | inr inside ↦ rw inside (
          record {
            moves = Moves-refl v;
            symbols = λ x. record {
              offsets = x.offsets;
              huffman20 = x.huffman20;
              literals = omega (
                arith,
                x.literals,
                length-fill_n pos count (u8 value) s.decoder.literals.bit_length
                    (ltb→le (length s.decoder.literals.bit_length) (pos + count) inside),
              );
            };
            word = λ x. x;
          },
          (omega arith, omega arith),
        )
      ]

  -- The end of the three cases that fill.
  fill_to :
      (byte_count value : ℕ) (s : Session)
      → IsValid s.source
      → 1 ≤ byte_count
      → Rounds max_symbol pos s (
          bind_outcome
            (fill_lengths max_symbol pos byte_count value s)
            (λ filled. pure (pos + filled)))
  fill_to byte_count value s v one =
      Ensures-bind (λ n t. Loads s t × ((1 ≤ n) × (pos + n ≤ max_symbol)))
        (λ p t. Loads s t × ((pos < p) × (p ≤ max_symbol))) (Loads s) Unit
        (fill_lengths max_symbol pos byte_count value s) _
        (fill_lengths-Loads byte_count value s v one)
        (λ n t h. (h.0, (omega (arith, h.1.0), h.1.1)))

  -- A round goes on after what only loads.
  Rounds-after {ℓ} :
      {A : Type ℓ} (s : Session) (o : Outcome Session A) (f : A → Exec Session ℕ)
      → On Unit Loads s o
      → ((a : A) (t : Session) → IsValid t.source → Rounds max_symbol pos t (f a t))
      → Rounds max_symbol pos s (bind_outcome o f)
  Rounds-after s (done a t) f h k = after (f a t) (k a t h.moves.valid)
    where
      after :
          (p : Outcome Session ℕ)
          → Ensures (λ p u. Loads t u × ((pos < p) × (p ≤ max_symbol))) (Loads t) Unit p
          → Ensures (λ p u. Loads s u × ((pos < p) × (p ≤ max_symbol))) (Loads s) Unit p
      after (done p u) r = (Loads-trans s t u h r.0, r.1)
      after (fail e u) r = Loads-trans s t u h r
      after fault r = r
      after exhausted r = r
  Rounds-after s (fail e t) f h k = h
  Rounds-after s fault f h k = h
  Rounds-after s exhausted f h k = h

  base_value-Loads :
      (symbol : ℕ) (s : Session) → IsValid s.source → On Unit Loads s (base_value pos symbol s)
  unfolding base_value
  base_value-Loads symbol s v =
      lookup-bind (λ _ t. Loads s t) (Loads s) Unit s.decoder.literals.bit_length pos _ s (inl tt)
        (λ old _. looked (get_elem? base_values (u32 (old + 17 + 2 ^ 32 - symbol))))
    where
      looked : (o : Option ℕ) → On Unit Loads s (or_fault o s)
      looked (some a) = Loads-refl v
      looked none = tt

  set_length-Loads :
      (value : ℕ) (s : Session) → IsValid s.source → On Unit Loads s (set_length pos value s)
  unfolding set_length
  set_length-Loads value s v =
      On-embed Unit Loads (λ ys zs. length zs ≡ length ys)
        (λ u xs. put_literals u (record u.decoder.literals { bit_length = xs })) s
        s.decoder.literals.bit_length (write pos value s.decoder.literals.bit_length)
        (λ xs e. record {
          moves = Moves-refl v;
          symbols = λ x. record {
            offsets = x.offsets;
            huffman20 = x.huffman20;
            literals = omega (arith, x.literals, e);
          };
          word = λ x. x;
        })
        (write-length pos value s.decoder.literals.bit_length)

  module _ (fix : ℕ) (s : Session) (v : IsValid s.source) where
    zero_fill-Rounds : Rounds max_symbol pos s (zero_fill fix max_symbol pos s)
    unfolding zero_fill
    zero_fill-Rounds =
        Rounds-after s (on_source (read_bits 4) s) _ (read_source 4 s v)
          (λ bits t w. fill_to (3 + bits + fix) 0 t w (omega arith))

    repeat_zero-Rounds : Rounds max_symbol pos s (repeat_zero fix max_symbol pos s)
    unfolding repeat_zero
    repeat_zero-Rounds =
        Rounds-after s (on_source (read_bits (6 - fix)) s) _ (read_source (6 - fix) s v)
          (λ bits t w. fill_to (19 + bits + fix) 0 t w (omega arith))

    repeat_previous-Rounds : Rounds max_symbol pos s (repeat_previous fix max_symbol pos s)
    unfolding repeat_previous
    repeat_previous-Rounds =
        Rounds-after s (on_source (read_bits 1) s) _ (read_source 1 s v) (λ bits t w.
          Rounds-after t (read_symbol20 (pure tt) t) _
            (read_symbol20-Loads (pure tt) t (λ c x. Moves-refl x) w)
            (λ symbol u x.
              Rounds-after u (base_value pos symbol u) _ (base_value-Loads symbol u x)
                (λ value y z. fill_to (3 + bits + fix) value y z (omega arith))))

    one_length-Rounds : (symbol : ℕ) → Rounds max_symbol pos s (one_length pos symbol s)
    unfolding one_length
    one_length-Rounds symbol =
        Rounds-after s (base_value pos symbol s) _ (base_value-Loads symbol s v) (λ value t w.
          Rounds-after t (set_length pos value t) (λ _. pure (pos + 1)) (set_length-Loads value t w)
            (λ _ u x. (Loads-refl x, (omega arith, omega arith))))

    pub apply_symbol-Rounds :
        (symbol : ℕ) → Rounds max_symbol pos s (apply_symbol fix max_symbol pos symbol s)
    unfolding apply_symbol
    apply_symbol-Rounds symbol =
        choose (symbol == 17) (zero_fill fix max_symbol pos) _ zero_fill-Rounds (
          choose (symbol == 18) (repeat_zero fix max_symbol pos) _ repeat_zero-Rounds (
            choose (symbol == 19) (repeat_previous fix max_symbol pos) (one_length pos symbol)
              repeat_previous-Rounds (one_length-Rounds symbol)))
      where
        choose :
            (b : Bool) (m n : Exec Session ℕ)
            → Rounds max_symbol pos s (m s)
            → Rounds max_symbol pos s (n s)
            → Rounds max_symbol pos s ((if b then m else n) s)
        choose true m n h k = h
        choose false m n h k = k
