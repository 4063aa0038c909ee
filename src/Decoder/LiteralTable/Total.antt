-- ===== src/Decoder/LiteralTable/Total.antt =====
-- `read_literal_table` as a whole: its loops come to an end.
use cxx_unlzx.Base.{
  ℕ, zero, suc, ◌+◌, ◌-◌, ◌^◌, ◌≤◌, ◌<◌, ◌≡◌, arith, ltb, ltb→lt, ltb→le, ◌==◌, if◌then◌else◌,
  bit_or, u32, ◌<<◌,
}
use cxx_unlzx.Exec.{
  Outcome, Exec, done, fail, fault, exhausted, bind_outcome, embed, pure, modify, ◌>>=◌, ◌>>◌,
}
use cxx_unlzx.Exec.Ensures.{Ensures, Ensures-bind, Ensures-mono, Ensures-if}
use cxx_unlzx.Exec.Relate.{On, On-after, On-bind, On-if}
use cxx_unlzx.Input.{InputBuffer, read_bits, skip}
use cxx_unlzx.Input.Stream.{IsValid, bits_left}
use cxx_unlzx.Decoder.{Session, on_source}
use cxx_unlzx.Decoder.Symbol.{Moves, Moves-refl, read_bits-Spends}
use cxx_unlzx.Decoder.LiteralTable.{
  ignoring, read_symbol20, apply_symbol, lengths_loop, length_block, read_literals, read_offsets,
  read_huffman20, set_method, set_decrunch_length, read_literal_table,
}
use cxx_unlzx.Decoder.LiteralTable.Loads.{
  Loads, Loads-refl, Loads-trans, HasSymbols, read_source, read_offsets-Loads, read_huffman20-Loads,
  reset_literals-Loads,
}
use cxx_unlzx.Decoder.LiteralTable.Rounds.{
  apply_symbol-Rounds, read_symbol20-Loads, skip_zero-MovesOn,
}

-- The lengths up to `max_symbol` are set.
abbrev Filled : ℕ → Session → Outcome Session ℕ → Type 0
Filled max_symbol s o = Ensures (λ p t. Loads s t × (p ≡ max_symbol)) (Loads s) Unit o

Filled-after :
    (max_symbol : ℕ) (s t : Session) (o : Outcome Session ℕ)
    → Loads s t
    → Filled max_symbol t o
    → Filled max_symbol s o
Filled-after max_symbol s t (done p u) r h = (Loads-trans s t u r h.0, h.1)
Filled-after max_symbol s t (fail e u) r h = Loads-trans s t u r h
Filled-after max_symbol s t fault r h = h
Filled-after max_symbol s t exhausted r h = h

module _ (fix max_symbol : ℕ) (small : max_symbol < 2 ^ 32) where
  lengths_loop-Filled :
      (fuel pos : ℕ) (s : Session)
      → IsValid s.source
      → pos < max_symbol
      → max_symbol - pos < fuel
      → Filled max_symbol s (lengths_loop fuel fix max_symbol pos s)
  unfolding lengths_loop
  lengths_loop-Filled zero pos s v below enough = elim enough [ ]
  lengths_loop-Filled (suc fuel) pos s v below enough =
      Ensures-bind (λ _ t. Loads s t) (λ p t. Loads s t × (p ≡ max_symbol)) (Loads s) Unit
        (read_symbol20 (ignoring (skip 0)) s) _
        (read_symbol20-Loads (ignoring (skip 0)) s skip_zero-MovesOn v)
        (λ symbol t r. Filled-after max_symbol s t _ r (
          Ensures-bind (λ p u. Loads t u × ((pos < p) × (p ≤ max_symbol)))
            (λ p u. Loads t u × (p ≡ max_symbol)) (Loads t) Unit
            (apply_symbol fix max_symbol pos symbol t) _
            (apply_symbol-Rounds max_symbol pos below small fix t r.moves.valid symbol)
            (λ p u h. Filled-after max_symbol t u _ h.0 (
              Ensures-if (λ q w. Loads u w × (q ≡ max_symbol)) (Loads u) Unit (ltb p max_symbol)
                (lengths_loop fuel fix max_symbol p) (pure p) u
                (λ more.
                  lengths_loop-Filled fuel p u h.0.moves.valid (ltb→lt p max_symbol more)
                    (omega (arith, h.1.0)))
                (λ stop.
                  (Loads-refl h.0.moves.valid, omega (arith, h.1.1, ltb→le p max_symbol stop)))))))

  length_block-Filled :
      (pos : ℕ) (s : Session)
      → IsValid s.source
      → HasSymbols s.decoder
      → pos < max_symbol
      → Filled max_symbol s (length_block fix max_symbol pos s)
  unfolding length_block
  length_block-Filled pos s v h below =
      Ensures-bind (λ _ t. Loads s t) (λ p t. Loads s t × (p ≡ max_symbol)) (Loads s) Unit
        (read_huffman20 s) _ (read_huffman20-Loads s v h)
        (λ _ t r.
          Filled-after max_symbol s t _ r
            (lengths_loop-Filled (suc max_symbol) pos t r.moves.valid below (omega arith)))

Filled-Loads :
    (max_symbol : ℕ) (s : Session) (o : Outcome Session ℕ)
    → Filled max_symbol s o
    → On Unit Loads s o
Filled-Loads max_symbol s o h =
    Ensures-mono (λ p t. Loads s t × (p ≡ max_symbol)) (λ _ t. Loads s t) (Loads s) Unit o h
      (λ p t r. r.0)

read_literals-Loads :
    (s : Session) → IsValid s.source → HasSymbols s.decoder → On Unit Loads s (read_literals s)
unfolding read_literals
read_literals-Loads s v h =
    Ensures-bind (λ p t. Loads s t × (p ≡ 256)) (λ _ t. Loads s t) (Loads s) Unit
      (length_block 1 256 0 s) _ (length_block-Filled 1 256 (omega arith) 0 s v h (omega arith))
      (λ p t r. On-after Unit Loads-trans {s = s} {t = t} _ r.0 (
        On-bind Unit Loads-trans t (length_block 0 768 p t) _
          (Filled-Loads 768 t _ (
            length_block-Filled 0 768 (omega arith) p t r.0.moves.valid (r.0.symbols h)
              (omega (arith, r.1))))
          (λ _ u q. reset_literals-Loads u q.moves.valid (q.symbols (r.0.symbols h)))))

method_set : (method : ℕ) (s : Session) → IsValid s.source → Loads s (set_method method s)
method_set method s v = record {
  moves = Moves-refl v;
  symbols = λ x. record { offsets = x.offsets; huffman20 = x.huffman20; literals = x.literals };
  word = λ x. x;
}

length_set : (n : ℕ) (s : Session) → IsValid s.source → Loads s (set_decrunch_length (u32 n) s)
length_set n s v = record {
  moves = Moves-refl v;
  symbols = λ x. record { offsets = x.offsets; huffman20 = x.huffman20; literals = x.literals };
  word = λ x. omega arith;
}

-- Loading goes on from a good session.
then-Loads {ℓ} :
    {A : Type ℓ} {B : Type 0} (s : Session) (o : Outcome Session A) (f : A → Exec Session B)
    → HasSymbols s.decoder
    → On Unit Loads s o
    → ((a : A) (t : Session) → IsValid t.source → HasSymbols t.decoder → On Unit Loads t (f a t))
    → On Unit Loads s (bind_outcome o f)
then-Loads s o f h l k =
    On-bind Unit Loads-trans s o f l (λ a t r. k a t r.moves.valid (r.symbols h))

-- The part that comes after the method.
abbrev read_sizes : ℕ → Exec Session (Unit {0})
read_sizes method = do
  hi_byte ← on_source (read_bits 8)
  mid_byte ← on_source (read_bits 8)
  lo_byte ← on_source (read_bits 8)
  modify (set_decrunch_length (u32 (bit_or (bit_or (hi_byte << 16) (mid_byte << 8)) lo_byte)))
  if method == 1 then pure tt else read_literals

read_sizes-Loads :
    (method : ℕ) (s : Session)
    → IsValid s.source
    → HasSymbols s.decoder
    → On Unit Loads s (read_sizes method s)
read_sizes-Loads method s v h =
    then-Loads s (on_source (read_bits 8) s) _ h (read_source 8 s v) (λ hi_byte t vt ht.
      then-Loads t (on_source (read_bits 8) t) _ ht (read_source 8 t vt) (λ mid_byte u vu hu.
        then-Loads u (on_source (read_bits 8) u) _ hu (read_source 8 u vu) (λ lo_byte w vw hw.
          let n : ℕ = bit_or (bit_or (hi_byte << 16) (mid_byte << 8)) lo_byte in
          let x = set_decrunch_length (u32 n) w in
          let r = length_set n w vw in
          On-after Unit Loads-trans {s = w} {t = x} _ r (
            On-if Unit Loads (method == 1) (pure tt) read_literals x (Loads-refl vw)
              (read_literals-Loads x vw (r.symbols hw))))))

-- The three bits of the method are taken.
read_method :
    (s : Session)
    → IsValid s.source
    → Ensures
        (λ _ t. Loads s t × (bits_left t.source + 3 ≡ bits_left s.source))
        (Loads s)
        Unit
        (on_source (read_bits 3) s)
read_method s v = in_session (read_bits 3 s.source) (read_bits-Spends Unit 3 s.source v)
  where
    in_session :
        (o : Outcome InputBuffer ℕ)
        → Ensures
            (λ out c. Moves s.source c × ((bits_left c + 3 ≡ bits_left s.source) × (out < 2 ^ 3)))
            (Moves s.source)
            Unit
            o
        → Ensures
            (λ _ t. Loads s t × (bits_left t.source + 3 ≡ bits_left s.source))
            (Loads s)
            Unit
            (embed (λ u b. record u { source = b }) s o)
    in_session (done out c) h = (record { moves = h.0; symbols = λ x. x; word = λ x. x }, h.1.0)
    in_session (fail e c) h = record { moves = h; symbols = λ x. x; word = λ x. x }
    in_session fault h = h
    in_session exhausted h = h

-- A session after loading that took bits.
abbrev pub Spent : Session → Outcome Session (Unit {0}) → Type 0
Spent s o =
    Ensures (λ _ t. Loads s t × (bits_left t.source + 3 ≤ bits_left s.source)) (Loads s) Unit o

Spent-after :
    (s t : Session) (o : Outcome Session (Unit {0}))
    → Loads s t
    → bits_left t.source + 3 ≡ bits_left s.source
    → On Unit Loads t o
    → Spent s o
Spent-after s t (done a u) l e r = (Loads-trans s t u l r, omega (arith, e, r.moves.fewer))
Spent-after s t (fail x u) l e r = Loads-trans s t u l r
Spent-after s t fault l e r = r
Spent-after s t exhausted l e r = r

-- On a session with a valid source and a decoder whose three tables have a symbol each,
-- `read_literal_table` returns or makes an access outside an array. Where it returns, also with an
-- error, the source is valid, over the same bytes and has no more bits left, the tables still have
-- a symbol each, and a decrunch length below 2 ^ 32 gives one; where it returns Ok, at least three
-- bits were taken.
pub read_literal_table_lem :
    (s : Session) → IsValid s.source → HasSymbols s.decoder → Spent s (read_literal_table s)
unfolding read_literal_table
read_literal_table_lem s v h =
    Ensures-bind (λ _ t. Loads s t × (bits_left t.source + 3 ≡ bits_left s.source))
      (λ _ t. Loads s t × (bits_left t.source + 3 ≤ bits_left s.source)) (Loads s) Unit
      (on_source (read_bits 3) s) _ (read_method s v)
      (λ method t q.
        let vt = q.0.moves.valid in
        let ht = q.0.symbols h in
        let u = set_method method t in
        let r = method_set method t vt in
        Spent-after s t _ q.0 q.1 (
          On-after Unit Loads-trans {s = t} {t = u} _ r (
            then-Loads u ((if method == 3 then read_offsets else pure tt) u)
              (λ _. read_sizes method) (r.symbols ht)
              (On-if Unit Loads (method == 3) read_offsets (pure tt) u
                (read_offsets-Loads u vt (r.symbols ht)) (Loads-refl vt))
              (λ _ w vw hw. read_sizes-Loads method w vw hw))))
