-- ===== src/Block/Round.antt =====
-- A round of the loop of `LzxBlock::data`: what it leaves to do.
use cxx_unlzx.Base.{
  ℕ, ◌+◌, ◌-◌, ◌^◌, ◌≤◌, ◌<◌, ◌≡◌, inl, inr, refl, ap, ◌∙◌, arith, Bool-cases, false, ◌&&◌, ltb,
  ◌==◌, length, min, u64,
}
use cxx_unlzx.Exec.{Outcome, done, fail, fault, exhausted, bind_outcome, embed, ◌>>◌, modify}
use cxx_unlzx.Exec.Ensures.{Ensures, Ensures-bind, Ensures-if_outcome}
use cxx_unlzx.Input.{is_eof}
use cxx_unlzx.Input.Stream.{IsValid, bits_left}
use cxx_unlzx.Decoder.{Session}
use cxx_unlzx.Decoder.LiteralTable.{read_literal_table}
use cxx_unlzx.Decoder.LiteralTable.Loads.{HasSymbols}
use cxx_unlzx.Decoder.LiteralTable.Total.{Spent, read_literal_table_lem}
use cxx_unlzx.Decoder.Decrunch.{Window, decrunch}
use cxx_unlzx.Decoder.Decrunch.Grows.{Grows}
use cxx_unlzx.Decoder.Decrunch.Total.{HasStopped, Decrunched, decrunch_lem}
use cxx_unlzx.Block.{Unpacking, on_session, on_window, set_left, next_table, account, unpack_once}

-- The locals of the loop between two rounds, with `size` bytes of target.
pub record IsUnpacking (size : ℕ) (u : Unpacking) : Type 0 where
  pub valid : IsValid u.window.source
  pub symbols : HasSymbols u.window.decoder
  pub word : u.window.decoder.decrunch_length < 2 ^ 32
  pub same_size : length u.window.target ≡ size
  pub placed : u.window.pos ≤ size
  pub left : u.decrunch_length < 2 ^ 32

-- What the loop has still to do: bits to take and bytes to make.
abbrev pub todo : ℕ → Unpacking → ℕ
todo total u = bits_left u.window.source + (total - u.window.pos)

-- After `next_table`: where nothing is left of a run, a table was read.
record IsTabled (size : ℕ) (u v : Unpacking) : Type 0 where
  good : IsUnpacking size v
  same_pos : v.window.pos ≡ u.window.pos
  fewer : bits_left v.window.source ≤ bits_left u.window.source
  spent : v.decrunch_length ≡ 0 → bits_left v.window.source < bits_left u.window.source

abbrev Tabled : ℕ → Unpacking → Outcome Unpacking (Unit {0}) → Type 0
Tabled size u o = Ensures (λ _ v. IsTabled size u v) (λ _. Unit) Unit o

module _ (size : ℕ) where
  loaded-Tabled :
      (u : Unpacking)
      → IsUnpacking size u
      → Tabled size u (
          (do
            on_session read_literal_table
            modify (λ v. set_left v.window.decoder.decrunch_length v))
            u)
  loaded-Tabled u g =
      let s : Session = record { source = u.window.source; decoder = u.window.decoder } in
      in_loop (read_literal_table s) (read_literal_table_lem s g.valid g.symbols)
    where
      in_loop :
          (o : Outcome Session (Unit {0}))
          → Spent (record { source = u.window.source; decoder = u.window.decoder }) o
          → Tabled size u (
              bind_outcome
                (embed
                  (λ u s. record u {
                    window = record u.window { source = s.source; decoder = s.decoder };
                  })
                  u
                  o)
                (λ _. modify (λ v. set_left v.window.decoder.decrunch_length v)))
      in_loop (done a t) h = record {
        good = record {
          valid = h.0.moves.valid;
          symbols = h.0.symbols g.symbols;
          word = h.0.word g.word;
          same_size = g.same_size;
          placed = g.placed;
          left = h.0.word g.word;
        };
        same_pos = refl;
        fewer = h.0.moves.fewer;
        spent = λ _. omega (arith, h.1);
      }
      in_loop (fail e t) h = tt
      in_loop fault h = tt
      in_loop exhausted h = h

  next_table-Tabled : (u : Unpacking) → IsUnpacking size u → Tabled size u (next_table u)
  unfolding next_table
  next_table-Tabled u g =
      Ensures-if_outcome (λ _ v. IsTabled size u v) (λ _. Unit) Unit (u.decrunch_length == 0) _
        (done tt u) (λ _. loaded-Tabled u g)
        (λ other. record {
          good = g;
          same_pos = refl;
          fewer = omega arith;
          spent = λ z. absurd (ground (arith, z, other));
        })

  -- After a whole round there is less to do.
  pub record IsRounded (total : ℕ) (u x : Unpacking) : Type 0 where
    pub good : IsUnpacking size x
    pub less : todo total x < todo total u

  abbrev Rounded : ℕ → Unpacking → Outcome Unpacking (Unit {0}) → Type 0
  Rounded total u o = Ensures (λ _ x. IsRounded total u x) (λ _. Unit) Unit o

  module _ (total : ℕ) (small : total < 2 ^ 63) (u v : Unpacking) (below : u.window.pos < total)
      (t : IsTabled size u v) where
    target_size : ℕ
    target_size = min (u64 (v.window.pos + v.decrunch_length)) total

    module _ (w : Window) (g : Grows v.window w) where
      decoded : Unpacking
      decoded = record v { window = w }

      decoded_good : (n : ℕ) → n < 2 ^ 32 → IsUnpacking size (set_left n (record v { window = w }))
      decoded_good n h = record {
        valid = g.moves.valid;
        symbols = record {
          offsets =
              omega (
                arith,
                t.good.symbols.offsets,
                ap (λ d. length d.offsets.bit_length) g.same_tables,
              );
          huffman20 = omega (
            arith,
            t.good.symbols.huffman20,
            ap (λ d. length d.huffman20.bit_length) g.same_tables,
          );
          literals = omega (
            arith,
            t.good.symbols.literals,
            ap (λ d. length d.literals.bit_length) g.same_tables,
          );
        };
        word = omega (arith, t.good.word, ap (λ d. d.decrunch_length) g.same_tables);
        same_size = g.same_length ∙ t.good.same_size;
        placed = omega (arith, g.placed, t.good.same_size);
        left = h;
      }

      moved_less : v.window.pos < w.pos → todo total (record v { window = w }) < todo total u
      moved_less h = omega (arith, h, t.same_pos, t.fewer, g.moves.fewer, below)

      stuck_less :
          w.pos ≡ v.window.pos
          → target_size ≤ w.pos
          → todo total (record v { window = w }) < todo total u
      unfolding target_size
      stuck_less same h =
          let none_left : v.decrunch_length ≡ 0 =
            omega (arith, h, same, t.same_pos, below, small, t.good.left) in
          omega (arith, same, t.same_pos, t.spent none_left, g.moves.fewer)

      less_of :
          HasStopped target_size w
          → ((w.pos - v.window.pos == 0) && is_eof w.source) ≡ false
          → todo total (record v { window = w }) < todo total u
      less_of (inl reached) e = elim (Bool-cases (w.pos - v.window.pos == 0)) [
        | inl zero_bytes ↦
            stuck_less (let q : w.pos ≡ v.window.pos = ground (arith, zero_bytes, g.forth) in q)
              reached
        | inr some_bytes ↦
            moved_less (let q : v.window.pos < w.pos = ground (arith, some_bytes, g.forth) in q)
      ]
      less_of (inr eof) e =
          moved_less (let q : v.window.pos < w.pos = ground (arith, e, eof, g.forth) in q)

      account-Rounded :
          HasStopped target_size w
          → Rounded total u (account v.window.pos (record v { window = w }))
      unfolding account
      account-Rounded stop =
          Ensures-if_outcome (λ _ x. IsRounded total u x) (λ _. Unit) Unit
            ((w.pos - v.window.pos == 0) && is_eof w.source) _ _ (λ _. tt)
            (λ goes_on.
              let less = less_of stop goes_on in
              Ensures-if_outcome (λ _ x. IsRounded total u x) (λ _. Unit) Unit
                (ltb v.decrunch_length (w.pos - v.window.pos))
                (done tt (set_left 0 (record v { window = w })))
                (done tt
                  (set_left (v.decrunch_length - (w.pos - v.window.pos)) (record v { window = w })))
                (λ _. record { good = decoded_good 0 (omega arith); less = less })
                (λ _. record {
                  good =
                      decoded_good (v.decrunch_length - (w.pos - v.window.pos))
                        (omega (arith, t.good.left));
                  less = less;
                }))

    Decrunched-Rounded :
        (o : Outcome Window (Unit {0}))
        → Decrunched Unit target_size v.window o
        → Rounded total u
            (bind_outcome (embed (λ u w. record u { window = w }) v o) (λ _. account v.window.pos))
    Decrunched-Rounded (done a w) h = account-Rounded w h.0 h.1
    Decrunched-Rounded (fail e w) h = tt
    Decrunched-Rounded fault h = tt
    Decrunched-Rounded exhausted h = h

    decrunch-Rounded : Rounded total u (
        bind_outcome
          (on_window (decrunch (min (u64 (v.window.pos + v.decrunch_length)) total)) v)
          (λ _. account v.window.pos))
    unfolding target_size
    decrunch-Rounded =
        Decrunched-Rounded (decrunch (min (u64 (v.window.pos + v.decrunch_length)) total) v.window)
          (decrunch_lem (min (u64 (v.window.pos + v.decrunch_length)) total) v.window t.good.valid
            (omega (arith, t.good.placed, t.good.same_size)))

  module _ (total : ℕ) (small : total < 2 ^ 63) where
    pub unpack_once-Rounded :
        (u : Unpacking)
        → IsUnpacking size u
        → u.window.pos < total
        → Rounded total u (unpack_once total u)
    unfolding unpack_once
    unpack_once-Rounded u g below =
        Ensures-bind (λ _ v. IsTabled size u v) (λ _ x. IsRounded total u x) (λ _. Unit) Unit
          (next_table u) _ (next_table-Tabled u g)
          (λ _ v t. decrunch-Rounded total small u v below t)
