-- ===== src/Decoder/Decrunch/Grows.antt =====
-- What a round of the loop of `decrunch` does to the window.
use mathlib.Core.Path.{subst}
use cxx_unlzx.Base.{
  ℕ, ◌-◌, ◌≤◌, ◌<◌, ◌≡◌, ◌⊎◌, inl, inr, refl, sym, ap, ◌∙◌, arith, Bool-cases, ltb, leb, length,
  get_or, u8, length-set, get_or-set_ne,
}
use cxx_unlzx.Exec.{Outcome, Exec, done, fail, fault, exhausted, bind_outcome}
use cxx_unlzx.Exec.Ensures.{Ensures, Ensures-mono, Ensures-if}
use cxx_unlzx.Exec.Relate.{On}
use cxx_unlzx.Input.Stream.{IsValid}
use cxx_unlzx.Decoder.Symbol.{Moves, Moves-refl, Moves-trans}
use cxx_unlzx.Decoder.Decrunch.{
  Window, put_literal, copy_match, put_match, put_symbol, read_offset, read_count, next_symbol,
  decrunch_once,
}
use cxx_unlzx.Decoder.Decrunch.Copy.{IsCopied, MatchResult, copy_match_lem, put_byte_lem}
use cxx_unlzx.Decoder.Decrunch.Copy
use cxx_unlzx.Decoder.Decrunch.Ready.{IsReady, IsReady-carry, tables}
use cxx_unlzx.Decoder.Decrunch.Reads.{Reads, read_offset-Reads, read_count-Reads, next_symbol-Reads}

-- The source moved on, `pos` did not go back and is still inside the target, whose size and whose
-- bytes before the old `pos` are as they were.
pub record Grows (w w' : Window) : Type 0 where
  pub moves : Moves w.source w'.source
  pub same_length : length w'.target ≡ length w.target
  pub forth : w.pos ≤ w'.pos
  pub placed : w'.pos ≤ length w.target
  pub kept : (j : ℕ) → j < w.pos → get_or w'.target j 0 ≡ get_or w.target j 0
  pub same_tables : tables w'.decoder ≡ tables w.decoder

pub Grows-trans : (a b c : Window) → Grows a b → Grows b c → Grows a c
Grows-trans a b c m n = record {
  moves = Moves-trans a.source b.source c.source m.moves n.moves;
  same_length = n.same_length ∙ m.same_length;
  forth = omega (arith, m.forth, n.forth);
  placed = omega (arith, n.placed, m.same_length);
  kept = λ j h. n.kept j (omega (arith, m.forth)) ∙ m.kept j h;
  same_tables = n.same_tables ∙ m.same_tables;
}

Reads-Grows : {w w' : Window} → w.pos ≤ length w.target → Reads w w' → Grows w w'
Reads-Grows {w} inside r = record {
  moves = r.moves;
  same_length = ap length r.same_target;
  forth = omega (arith, r.same_pos);
  placed = omega (arith, r.same_pos);
  kept = λ j h. ap (λ xs. get_or xs j 0) r.same_target;
  same_tables = r.same_tables;
}

pub Grows-refl : {w : Window} → IsValid w.source → w.pos ≤ length w.target → Grows w w
Grows-refl v inside = record {
  moves = Moves-refl v;
  same_length = refl;
  forth = omega arith;
  placed = inside;
  kept = λ j h. refl;
  same_tables = refl;
}

-- Tables that are good, or need not be.
pub stays_safe : {F : Type 0} {A B : Type 0} → (A → B) → F ⊎ A → F ⊎ B
stays_safe f (inl allowed) = inl allowed
stays_safe f (inr a) = inr (f a)

-- On success something was written. Undefined behaviour is held to `F`.
abbrev pub Advances : {A : Type 0} → Type 0 → Window → Outcome Window A → Type 0
Advances F w o = Ensures (λ _ t. Grows w t × (w.pos < t.pos)) (Grows w) F o

module _ (F : Type 0) where
  Advances-after :
      {A : Type 0} (w t : Window) (o : Outcome Window A)
      → t.pos ≡ w.pos
      → Grows w t
      → Advances F t o
      → Advances F w o
  Advances-after w t (done a d) same g h = (Grows-trans w t d g h.0, omega (arith, h.1))
  Advances-after w t (fail e d) same g h = Grows-trans w t d g h
  Advances-after w t fault same g h = h
  Advances-after w t exhausted same g h = h

  put_literal-Advances :
      (symbol : ℕ) (w : Window)
      → IsValid w.source
      → w.pos ≤ length w.target
      → Advances F w (put_literal symbol w)
  unfolding put_literal
  put_literal-Advances symbol w v inside = elim (Bool-cases (leb (length w.target) w.pos)) [
    | inl full ↦ rw full (Grows-refl v inside)
    | inr room ↦
        let here : w.pos < length w.target = ground arith in
        rw (room, put_byte_lem (u8 symbol) w here)
          (
            record {
              moves = Moves-refl v;
              same_length = length-set w.target w.pos (u8 symbol);
              forth = omega arith;
              placed = omega arith;
              kept = λ j h. get_or-set_ne w.target w.pos j (u8 symbol) 0 (omega arith);
              same_tables = refl;
            },
            omega arith,
          )
  ]

  copies_on :
      (count : ℕ) (w : Window) {o : Outcome Window (Unit {0})}
      → IsValid w.source
      → w.pos ≤ length w.target
      → 3 ≤ count
      → MatchResult count w o
      → Advances F w o
  copies_on count w v inside some (Copy.MatchResult.copied {w'} near fits c) = (
    record {
      moves = subst (λ b. Moves w.source b) (sym c.same_source) (Moves-refl v);
      same_length = c.same_length;
      forth = omega (arith, c.moved);
      placed = omega (arith, c.moved);
      kept = c.below;
      same_tables = ap tables c.same_decoder;
    },
    omega (arith, c.moved),
  )
  copies_on count w v inside some (Copy.MatchResult.before_start far) = Grows-refl v inside
  copies_on count w v inside some (Copy.MatchResult.past_end near long) = Grows-refl v inside

  -- Reads come first: what they leave is still a good window.
  Reads-first :
      {A : Type 0} {Q : A → Type 0} (w : Window) (o : Outcome Window A)
      (f : A → Exec Window (Unit {0}))
      → w.pos ≤ length w.target
      → F ⊎ IsReady w.decoder
      → Ensures (λ a t. Reads w t × Q a) (Reads w) F o
      → ((a : A) (t : Window)
          → Q a
          → IsValid t.source
          → t.pos ≤ length t.target
          → F ⊎ IsReady t.decoder
          → Advances F t (f a t))
      → Advances F w (bind_outcome o f)
  Reads-first w (done a t) f inside safe h k =
      Advances-after w t (f a t) h.0.same_pos (Reads-Grows inside h.0) (
        k a t h.1 h.0.moves.valid (omega (arith, h.0.same_pos, ap length h.0.same_target))
          (stays_safe (IsReady-carry w.decoder t.decoder h.0.same_tables) safe))
  Reads-first w (fail e t) f inside safe h k = Reads-Grows inside h
  Reads-first w fault f inside safe h k = h
  Reads-first w exhausted f inside safe h k = h

  -- Reads whose result does not matter.
  only-Reads :
      {A : Type 0} (w : Window) (o : Outcome Window A)
      → On F Reads w o
      → Ensures (λ _ t. Reads w t × Unit {0}) (Reads w) F o
  only-Reads w o h =
      Ensures-mono (λ _ t. Reads w t) (λ _ t. Reads w t × Unit {0}) (Reads w) F o h
        (λ a t r. (r, tt))

  put_match-Advances :
      (symbol : ℕ) (w : Window)
      → IsValid w.source
      → w.pos ≤ length w.target
      → F ⊎ IsReady w.decoder
      → Advances F w (put_match symbol w)
  unfolding put_match
  put_match-Advances symbol w v inside safe =
      Reads-first w (read_offset symbol w) _ inside safe
        (only-Reads w (read_offset symbol w) (read_offset-Reads F symbol w v safe))
        (λ _ t _ vt inside_t safe_t.
          Reads-first t (read_count symbol t) copy_match inside_t safe_t
            (read_count-Reads F symbol t vt)
            (λ count u some vu inside_u _.
              copies_on count u vu inside_u some (copy_match_lem count u)))

  put_symbol-Advances :
      (symbol : ℕ) (w : Window)
      → IsValid w.source
      → w.pos ≤ length w.target
      → F ⊎ IsReady w.decoder
      → Advances F w (put_symbol symbol w)
  unfolding put_symbol
  put_symbol-Advances symbol w v inside safe =
      Ensures-if (λ _ t. Grows w t × (w.pos < t.pos)) (Grows w) F (ltb symbol 256)
        (put_literal symbol) (put_match (symbol - 256)) w
        (λ _. put_literal-Advances symbol w v inside)
        (λ _. put_match-Advances (symbol - 256) w v inside safe)

  -- On a window with a valid source and `pos` inside the target, a round of the loop of `decrunch`
  -- returns, unless it makes an access outside an array, which implies F; F, or tables that lead
  -- nowhere outside their arrays, are given. Where it returns Ok it has put at least one byte;
  -- also with an error, the source has only moved on, the target has its old size and its old
  -- bytes below the old `pos`, `pos` is inside the target and did not go back, and the decoder
  -- changed at most in its last offset.
  pub decrunch_once-Advances :
      (w : Window)
      → IsValid w.source
      → w.pos ≤ length w.target
      → F ⊎ IsReady w.decoder
      → Advances F w (decrunch_once w)
  unfolding decrunch_once
  decrunch_once-Advances w v inside safe =
      Reads-first w (next_symbol w) put_symbol inside safe
        (only-Reads w (next_symbol w) (next_symbol-Reads F w v safe))
        (λ symbol t _. put_symbol-Advances symbol t)
