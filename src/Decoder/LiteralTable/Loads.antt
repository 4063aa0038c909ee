-- ===== src/Decoder/LiteralTable/Loads.antt =====
-- What the parts of `read_literal_table` leave of the source and the decoder.
use cxx_unlzx.Base.{
  ℕ, zero, suc, ◌+◌, ◌^◌, ◌<◌, ◌≡◌, inl, inr, refl, ap, ◌∙◌, arith, Bool-cases, List, length,
  length-set, ltb, u8,
}
use cxx_unlzx.Exec.{Outcome, Exec, focus, write}
use cxx_unlzx.Exec.Relate.{On, On-bind, On-embed}
use cxx_unlzx.Input.{InputBuffer, read_bits}
use cxx_unlzx.Input.Stream.{IsValid}
use cxx_unlzx.Table.{reset_table}
use cxx_unlzx.Table.Rebuilds.{Rebuilds, reset_table-Rebuilds}
use cxx_unlzx.Decoder.{HuffmanDecoder, Session, on_source}
use cxx_unlzx.Decoder.Symbol.{Moves, Moves-refl, Moves-trans, MovesOn, read_bits-MovesOn}
use cxx_unlzx.Decoder.LiteralTable.{
  Loading, put_offsets, put_huffman20, put_literals, read_lengths, read_offsets, read_huffman20,
}

-- Each table has a symbol.
pub record HasSymbols (d : HuffmanDecoder) : Type 0 where
  pub offsets : 0 < length d.offsets.bit_length
  pub huffman20 : 0 < length d.huffman20.bit_length
  pub literals : 0 < length d.literals.bit_length

-- The session after some loading.
pub record Loads (s s' : Session) : Type 0 where
  pub moves : Moves s.source s'.source
  pub symbols : HasSymbols s.decoder → HasSymbols s'.decoder
  pub word : s.decoder.decrunch_length < 2 ^ 32 → s'.decoder.decrunch_length < 2 ^ 32

pub Loads-refl : {s : Session} → IsValid s.source → Loads s s
Loads-refl v = record { moves = Moves-refl v; symbols = λ h. h; word = λ h. h }

pub Loads-trans : (a b c : Session) → Loads a b → Loads b c → Loads a c
Loads-trans a b c m n = record {
  moves = Moves-trans a.source b.source c.source m.moves n.moves;
  symbols = λ h. n.symbols (m.symbols h);
  word = λ h. n.word (m.word h);
}

pub LoadsOn {ℓ} : {A : Type ℓ} → Session → Outcome Session A → Type 0
LoadsOn s o = On Unit Loads s o

pub on_source-Loads {ℓ} :
    {A : Type ℓ} (m : Exec InputBuffer A) (s : Session)
    → MovesOn Unit s.source (m s.source)
    → On Unit Loads s (on_source m s)
on_source-Loads m s h =
    On-embed Unit Loads Moves (λ u b. record u { source = b }) s s.source (m s.source)
      (λ b w. record { moves = w; symbols = λ x. x; word = λ x. x }) h

pub read_source :
    (n : ℕ) (s : Session) → IsValid s.source → On Unit Loads s (on_source (read_bits n) s)
read_source n s v = on_source-Loads (read_bits n) s (read_bits-MovesOn Unit n s.source v)

-- A table whose lengths are being read.
record Fills (l l' : Loading) : Type 0 where
  moves : Moves l.source l'.source
  same_length : length l'.lengths ≡ length l.lengths

Fills-trans : (a b c : Loading) → Fills a b → Fills b c → Fills a c
Fills-trans a b c m n = record {
  moves = Moves-trans a.source b.source c.source m.moves n.moves;
  same_length = n.same_length ∙ m.same_length;
}

pub write-length :
    (i v : ℕ) (xs : List ℕ) → On Unit (λ ys zs. length zs ≡ length ys) xs (write i v xs)
write-length i v xs = elim (Bool-cases (ltb i (length xs))) [
  | inl inside ↦ rw inside (length-set xs i v)
  | inr beyond ↦ rw beyond tt
]

read_lengths-Fills :
    (width left i : ℕ) (l : Loading)
    → IsValid l.source
    → On Unit Fills l (read_lengths width left i l)
unfolding read_lengths
read_lengths-Fills width zero i l v = record { moves = Moves-refl v; same_length = refl }
read_lengths-Fills width (suc left) i l v =
    On-bind Unit Fills-trans l
      (focus (λ s. s.source) (λ s b. record s { source = b }) (read_bits width) l) _
      (On-embed Unit Fills Moves (λ s b. record s { source = b }) l l.source
        (read_bits width l.source) (λ b w. record { moves = w; same_length = refl })
        (read_bits-MovesOn Unit width l.source v))
      (λ val m f.
        On-bind Unit Fills-trans m
          (focus (λ s. s.lengths) (λ s xs. record s { lengths = xs }) (write i (u8 val)) m) _
          (On-embed Unit Fills (λ ys zs. length zs ≡ length ys) (λ s xs. record s { lengths = xs })
            m m.lengths (write i (u8 val) m.lengths)
            (λ xs e. record { moves = Moves-refl f.moves.valid; same_length = e })
            (write-length i (u8 val) m.lengths))
          (λ _ n g. read_lengths-Fills width left (i + 1) n g.moves.valid))

module _ (s : Session) (v : IsValid s.source) (h : HasSymbols s.decoder) where
  pub read_offsets-Loads : On Unit Loads s (read_offsets s)
  unfolding read_offsets
  read_offsets-Loads =
      On-bind Unit Loads-trans s _ _
        (On-embed Unit Loads Fills
          (λ u l.
            put_offsets (record u { source = l.source })
              (record u.decoder.offsets { bit_length = l.lengths }))
          s (record { source = s.source; lengths = s.decoder.offsets.bit_length })
          (read_lengths 3 (length s.decoder.offsets.bit_length) 0
            (record { source = s.source; lengths = s.decoder.offsets.bit_length }))
          (λ l f. record {
            moves = f.moves;
            symbols = λ x. record {
              offsets = omega (arith, x.offsets, f.same_length);
              huffman20 = x.huffman20;
              literals = x.literals;
            };
            word = λ x. x;
          })
          (read_lengths-Fills 3 (length s.decoder.offsets.bit_length) 0
            (record { source = s.source; lengths = s.decoder.offsets.bit_length }) v))
        (λ _ t r.
          On-embed Unit Loads Rebuilds put_offsets t t.decoder.offsets
            (reset_table t.decoder.offsets)
            (λ u b. record {
              moves = Moves-refl r.moves.valid;
              symbols = λ x. record {
                offsets = omega (arith, x.offsets, ap length b.same_lengths);
                huffman20 = x.huffman20;
                literals = x.literals;
              };
              word = λ x. x;
            })
            (reset_table-Rebuilds t.decoder.offsets (r.symbols h).offsets))

  pub read_huffman20-Loads : On Unit Loads s (read_huffman20 s)
  unfolding read_huffman20
  read_huffman20-Loads =
      On-bind Unit Loads-trans s _ _
        (On-embed Unit Loads Fills
          (λ u l.
            put_huffman20 (record u { source = l.source })
              (record u.decoder.huffman20 { bit_length = l.lengths }))
          s (record { source = s.source; lengths = s.decoder.huffman20.bit_length })
          (read_lengths 4 (length s.decoder.huffman20.bit_length) 0
            (record { source = s.source; lengths = s.decoder.huffman20.bit_length }))
          (λ l f. record {
            moves = f.moves;
            symbols = λ x. record {
              offsets = x.offsets;
              huffman20 = omega (arith, x.huffman20, f.same_length);
              literals = x.literals;
            };
            word = λ x. x;
          })
          (read_lengths-Fills 4 (length s.decoder.huffman20.bit_length) 0
            (record { source = s.source; lengths = s.decoder.huffman20.bit_length }) v))
        (λ _ t r.
          On-embed Unit Loads Rebuilds put_huffman20 t t.decoder.huffman20
            (reset_table t.decoder.huffman20)
            (λ u b. record {
              moves = Moves-refl r.moves.valid;
              symbols = λ x. record {
                offsets = x.offsets;
                huffman20 = omega (arith, x.huffman20, ap length b.same_lengths);
                literals = x.literals;
              };
              word = λ x. x;
            })
            (reset_table-Rebuilds t.decoder.huffman20 (r.symbols h).huffman20))

  pub reset_literals-Loads :
      On Unit Loads s (focus (λ u. u.decoder.literals) put_literals reset_table s)
  reset_literals-Loads =
      On-embed Unit Loads Rebuilds put_literals s s.decoder.literals
        (reset_table s.decoder.literals)
        (λ u b. record {
          moves = Moves-refl v;
          symbols = λ x. record {
            offsets = x.offsets;
            huffman20 = x.huffman20;
            literals = omega (arith, x.literals, ap length b.same_lengths);
          };
          word = λ x. x;
        })
        (reset_table-Rebuilds s.decoder.literals h.literals)
