-- ===== src/Decoder/Decrunch/Reads.antt =====
-- What the reads of a symbol do to the rest of the window, and how long a match is at least.
use native.Mathlib.Nat.{pow-le-pow_right}
use cxx_unlzx.Base.{
  ℕ, ◌+◌, ◌-◌, ◌^◌, ◌≤◌, ◌<◌, ◌≡◌, ◌⊎◌, inl, inr, refl, ◌∙◌, arith, length, get_elem?, ◌&&◌, leb,
  ◌==◌, bit_and, ◌>>>◌, some,
}
use cxx_unlzx.Exec.{Outcome, Exec, bind_outcome, pure}
use cxx_unlzx.Exec.Ensures.{Ensures, Ensures-bind, Ensures-mono, lookup-bind}
use cxx_unlzx.Exec.Relate.{On, On-after, On-bind, On-if, On-embed, Ensures-embed}
use cxx_unlzx.Input.{InputBuffer, read_bits, peek_bits}
use cxx_unlzx.Input.Stream.{IsValid, bits_left}
use cxx_unlzx.Decoder.{base_offsets, symbol_bit_lengths, read_symbol}
use cxx_unlzx.Decoder.Symbol.{
  Moves, Moves-refl, Moves-trans, MovesOn, IsClosed, read_bits-MovesOn, read_bits-Spends,
  peek_bits-MovesOn, peek_bits-Shows, read_symbol-MovesOn,
}
use cxx_unlzx.Decoder.Decrunch.Ready.{
  IsReady, IsReady-carry, tables, base-below, width-le, count-le, low_five, low_four,
}
use cxx_unlzx.Decoder.Decrunch.{
  Window, from_source, long_offset, short_offset, choose_offset, read_offset, read_count,
  next_symbol,
}

-- Only the source and the decoder changed, and the decoder not in its tables.
pub record Reads (w w' : Window) : Type 0 where
  pub moves : Moves w.source w'.source
  pub same_target : w'.target ≡ w.target
  pub same_pos : w'.pos ≡ w.pos
  pub same_tables : tables w'.decoder ≡ tables w.decoder

Reads-refl : {w : Window} → IsValid w.source → Reads w w
Reads-refl v = record {
  moves = Moves-refl v;
  same_target = refl;
  same_pos = refl;
  same_tables = refl;
}

pub Reads-trans : (a b c : Window) → Reads a b → Reads b c → Reads a c
Reads-trans a b c m n = record {
  moves = Moves-trans a.source b.source c.source m.moves n.moves;
  same_target = n.same_target ∙ m.same_target;
  same_pos = n.same_pos ∙ m.same_pos;
  same_tables = n.same_tables ∙ m.same_tables;
}

module _ (F : Type 0) where
  -- A method of the source, in a window.
  from_source-Reads {ℓ} :
      {A : Type ℓ} (m : Exec InputBuffer A) (w : Window)
      → MovesOn F w.source (m w.source)
      → On F Reads w (from_source m w)
  from_source-Reads m w h =
      On-embed F Reads Moves (λ v b. record v { source = b }) w w.source (m w.source)
        (λ b moves. record {
          moves = moves;
          same_target = refl;
          same_pos = refl;
          same_tables = refl;
        })
        h

  from_source-Shows :
      (P : ℕ → Type 0) (m : Exec InputBuffer ℕ) (w : Window)
      → Ensures (λ out c. Moves w.source c × P out) (Moves w.source) F (m w.source)
      → Ensures (λ out t. Reads w t × P out) (Reads w) F (from_source m w)
  from_source-Shows P m w h =
      Ensures-embed F Reads Moves P (λ v b. record v { source = b }) w w.source (m w.source)
        (λ b moves. record {
          moves = moves;
          same_target = refl;
          same_pos = refl;
          same_tables = refl;
        })
        h

  Reads-then {ℓ κ} :
      {A : Type ℓ} {B : Type κ} (w : Window) (o : Outcome Window A) (f : A → Exec Window B)
      → On F Reads w o
      → ((a : A) (t : Window) → Reads w t → On F Reads t (f a t))
      → On F Reads w (bind_outcome o f)
  Reads-then w o f h k = On-bind F Reads-trans w o f h k

  take_bits : (n : ℕ) (w : Window) → IsValid w.source → On F Reads w (from_source (read_bits n) w)
  take_bits n w v = from_source-Reads (read_bits n) w (read_bits-MovesOn F n w.source v)

  see_bits : (n : ℕ) (w : Window) → IsValid w.source → On F Reads w (from_source (peek_bits n) w)
  see_bits n w v = from_source-Reads (peek_bits n) w (peek_bits-MovesOn F n w.source v)

  Safe : Window → Type 0
  Safe w = F ⊎ IsReady w.decoder

  still-Safe : {w t : Window} → Reads w t → Safe w → Safe t
  unfolding Safe
  still-Safe {w} {t} r (inl allowed) = inl allowed
  still-Safe {w} {t} r (inr ready) = inr (IsReady-carry w.decoder t.decoder r.same_tables ready)

  offset_entry :
      (w : Window) (index : ℕ)
      → Safe w
      → index < 2 ^ 7
      → F ⊎ (index < length w.decoder.offsets.table)
  unfolding Safe
  offset_entry w index (inl allowed) h = inl allowed
  offset_entry w index (inr (_, d)) h = inr (omega (arith, d.entries))

  offset_length :
      (w : Window) (index low : ℕ)
      → Safe w
      → index < 2 ^ 7
      → get_elem? w.decoder.offsets.table index ≡ some low
      → F ⊎ (low < length w.decoder.offsets.bit_length)
  unfolding Safe
  offset_length w index low (inl allowed) h e = inl allowed
  offset_length w index low (inr (_, d)) h e = inr (d.symbols index low h e)

  long_offset-Reads :
      (base width : ℕ) (w : Window)
      → IsValid w.source
      → Safe w
      → On F Reads w (long_offset base width w)
  unfolding long_offset
  long_offset-Reads base width w v safe =
      Reads-then w (from_source (read_bits (width - 3)) w) _ (take_bits (width - 3) w v)
        (λ high s r.
          Ensures-bind (λ index t. Reads s t × (index < 2 ^ 7)) (λ _ t. Reads s t) (Reads s) F
            (from_source (peek_bits 7) s) _
            (from_source-Shows (λ out. out < 2 ^ 7) (peek_bits 7) s
              (peek_bits-Shows F 7 s.source r.moves.valid))
            (λ index t q.
              let safe_t = still-Safe q.0 (still-Safe r safe) in
              On-after F Reads-trans _ q.0 (
                lookup-bind (λ _ u. Reads t u) (Reads t) F t.decoder.offsets.table index _ t
                  (offset_entry t index safe_t q.1)
                  (λ low e.
                    lookup-bind (λ _ u. Reads t u) (Reads t) F t.decoder.offsets.bit_length low _ t
                      (offset_length t index low safe_t q.1 e)
                      (λ len _. Reads-refl q.0.moves.valid)))))

  short_offset-Reads :
      (base width : ℕ) (w : Window) → IsValid w.source → On F Reads w (short_offset base width w)
  unfolding short_offset
  short_offset-Reads base width w v =
      Reads-then w (from_source (peek_bits width) w) _ (see_bits width w v)
        (λ bits t r. Reads-refl r.moves.valid)

  choose_offset-Reads :
      (base width : ℕ) (w : Window)
      → IsValid w.source
      → Safe w
      → On F Reads w (choose_offset base width w)
  unfolding choose_offset
  choose_offset-Reads base width w v safe =
      On-if F Reads (leb 3 width && w.decoder.decrunch_method == 3) (long_offset base width)
        (short_offset base width) w (long_offset-Reads base width w v safe)
        (short_offset-Reads base width w v)

  pub read_offset-Reads :
      (symbol : ℕ) (w : Window)
      → IsValid w.source
      → F ⊎ IsReady w.decoder
      → On F Reads w (read_offset symbol w)
  unfolding read_offset Safe
  read_offset-Reads symbol w v safe =
      lookup-bind (λ _ t. Reads w t) (Reads w) F base_offsets (bit_and symbol 31) _ w
        (inr (low_five symbol))
        (λ base _.
          lookup-bind (λ _ t. Reads w t) (Reads w) F symbol_bit_lengths (bit_and symbol 31) _ w
            (inr (low_five symbol))
            (λ width _.
              Reads-then w (choose_offset base width w) _ (choose_offset-Reads base width w v safe)
                (λ chosen t r.
                  Reads-then t (from_source (read_bits chosen.1) t) _
                    (take_bits chosen.1 t r.moves.valid)
                    (λ _ u q. record {
                      moves = Moves-refl q.moves.valid;
                      same_target = refl;
                      same_pos = refl;
                      same_tables = refl;
                    }))))

  pub next_symbol-Reads :
      (w : Window) → IsValid w.source → F ⊎ IsReady w.decoder → On F Reads w (next_symbol w)
  unfolding next_symbol
  next_symbol-Reads w v safe =
      from_source-Reads (read_symbol w.decoder.literals 12 768 (pure tt)) w (
        read_symbol-MovesOn F w.decoder.literals 12 768 (literals_of safe) (pure tt)
          (λ c vc. Moves-refl vc) w.source v)
    where
      literals_of : F ⊎ IsReady w.decoder → F ⊎ IsClosed w.decoder.literals 12 768
      literals_of (inl allowed) = inl allowed
      literals_of (inr (closed, _)) = inr closed

  pub read_count-Reads :
      (symbol : ℕ) (w : Window)
      → IsValid w.source
      → Ensures (λ count t. Reads w t × (3 ≤ count)) (Reads w) F (read_count symbol w)
  unfolding read_count
  read_count-Reads symbol w v =
      let index = bit_and (symbol >>> 5) 15 in
      lookup-bind (λ count t. Reads w t × (3 ≤ count)) (Reads w) F base_offsets index _ w
        (inr (low_four (symbol >>> 5)))
        (λ base e.
          lookup-bind (λ count t. Reads w t × (3 ≤ count)) (Reads w) F symbol_bit_lengths index _ w
            (inr (low_four (symbol >>> 5)))
            (λ width f.
              Ensures-bind (λ bits t. Reads w t × (bits < 2 ^ width))
                (λ count t. Reads w t × (3 ≤ count)) (Reads w) F (from_source (read_bits width) w) _
                (from_source-Shows (λ out. out < 2 ^ width) (read_bits width) w
                  (Ensures-mono
                    (λ out c.
                      Moves w.source c
                      × ((bits_left c + width ≡ bits_left w.source) × (out < 2 ^ width)))
                    (λ out c. Moves w.source c × (out < 2 ^ width)) (Moves w.source) F
                    (read_bits width w.source) (read_bits-Spends F width w.source v)
                    (λ out c h. (h.0, h.1.1))))
                (λ bits t h. (
                  h.0,
                  count-le base bits (base-below index e) (
                      let p =
                        pow-le-pow_right {n = 2} (omega arith) {i = width} {j = 16}
                          (omega (arith, width-le index f)) in
                      omega (arith, p, h.1)),
                ))))
