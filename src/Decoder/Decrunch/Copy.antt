-- ===== src/Decoder/Decrunch/Copy.antt =====
-- The copy of a match in `HuffmanDecoder::decrunch`. It goes byte by byte, and a match may reach
-- into the bytes that it makes itself.
use native.Mathlib.Decide.{dec_lt}
use native.Mathlib.Nat.{add-zero}
use mathlib.Core.Path.{subst}
use cxx_unlzx.Base.{
  ℕ, zero, suc, ◌+◌, ◌-◌, ◌≤◌, ◌<◌, ◌≡◌, refl, sym, ap, ◌∙◌, arith, length, get_or, set, length-set,
  get_or-set_self, get_or-set_ne, get_elem?-eq-get_or, lt→ltb, le→ltb,
}
use cxx_unlzx.Status.{buffer_overflow, out_of_range}
use cxx_unlzx.Exec.{Outcome, done, fail}
use cxx_unlzx.Decoder.Decrunch.{Window, put_byte, copy_bytes, copy_match}

-- After `put_byte value`.
abbrev pub put : ℕ → Window → Window
put value w = record w { target = set w.target w.pos value; pos = w.pos + 1 }

pub put_byte_lem :
    (value : ℕ) (w : Window) → w.pos < length w.target → put_byte value w ≡ done tt (put value w)
unfolding put_byte
put_byte_lem value w h = rw (lt→ltb w.pos (length w.target) h) refl

-- `left` bytes were copied to `pos` from `from` on; the rest of the state is as it was.
pub record IsCopied (left from : ℕ) (w w' : Window) : Type 0 where
  pub same_source : w'.source ≡ w.source
  pub same_decoder : w'.decoder ≡ w.decoder
  pub moved : w'.pos ≡ w.pos + left
  pub same_length : length w'.target ≡ length w.target
  pub copied : (j : ℕ) → j < left → get_or w'.target (w.pos + j) 0 ≡ get_or w'.target (from + j) 0
  pub below : (j : ℕ) → j < w.pos → get_or w'.target j 0 ≡ get_or w.target j 0
  pub above : (j : ℕ) → w.pos + left ≤ j → get_or w'.target j 0 ≡ get_or w.target j 0

module _ {left from : ℕ} (w : Window) {w' : Window} (behind : from ≤ w.pos)
    (room : w.pos < length w.target)
    (rest : IsCopied left (from + 1) (put (get_or w.target from 0) w) w') where
  abbrev byte : ℕ
  byte = get_or w.target from 0

  first_from_below : from < w.pos → get_or w'.target w.pos 0 ≡ get_or w'.target from 0
  first_from_below h =
      rest.below w.pos (omega arith)
      ∙ get_or-set_self w.target w.pos byte 0 room
      ∙ sym (rest.below from (omega arith) ∙ get_or-set_ne w.target w.pos from byte 0 (omega arith))

  first_copied : get_or w'.target w.pos 0 ≡ get_or w'.target from 0
  first_copied = elim (dec_lt from w.pos) [
    | yes h ↦ first_from_below h
    | no h ↦ ap (λ t. get_or w'.target t 0) (let e : w.pos ≡ from = omega arith in e)
  ]

  all_copied :
      (j : ℕ) → j < suc left → get_or w'.target (w.pos + j) 0 ≡ get_or w'.target (from + j) 0
  all_copied zero h = rw (add-zero, add-zero) first_copied
  all_copied (suc j) h =
      ap (λ t. get_or w'.target t 0) (let e : w.pos + suc j ≡ w.pos + 1 + j = omega arith in e)
      ∙ rest.copied j (omega arith)
      ∙ ap (λ t. get_or w'.target t 0) (let e : from + 1 + j ≡ from + suc j = omega arith in e)

  IsCopied-suc : IsCopied (suc left) from w w'
  IsCopied-suc = record {
    same_source = rest.same_source;
    same_decoder = rest.same_decoder;
    moved = omega (arith, rest.moved);
    same_length = rest.same_length ∙ length-set w.target w.pos byte;
    copied = all_copied;
    below = λ j h. rest.below j (omega arith) ∙ get_or-set_ne w.target w.pos j byte 0 (omega arith);
    above = λ j h. rest.above j (omega arith) ∙ get_or-set_ne w.target w.pos j byte 0 (omega arith);
  }

copy_step :
    (left start i : ℕ) (w : Window)
    → start + i ≤ w.pos
    → w.pos < length w.target
    → copy_bytes (suc left) start i w
      ≡ copy_bytes left start (i + 1) (put (get_or w.target (start + i) 0) w)
unfolding copy_bytes
copy_step left start i w behind room =
    rw
      (
        get_elem?-eq-get_or w.target (start + i) 0 (omega arith),
        put_byte_lem (get_or w.target (start + i) 0) w room,
      )
      refl

pub copy_bytes_lem :
    (left start i : ℕ) (w : Window)
    → start + i ≤ w.pos
    → w.pos + left ≤ length w.target
    → (w' : Window) × (copy_bytes left start i w ≡ done tt w') × IsCopied left (start + i) w w'
copy_bytes_lem zero start i w behind room = (
  w,
  unfold copy_bytes in refl,
  record {
    same_source = refl;
    same_decoder = refl;
    moved = omega arith;
    same_length = refl;
    copied = λ j h. absurd (omega arith);
    below = λ j h. refl;
    above = λ j h. refl;
  },
)
copy_bytes_lem (suc left) start i w behind room =
    let here : w.pos < length w.target = omega arith in
    let w₁ = put (get_or w.target (start + i) 0) w in
    let (w', e, c) =
      copy_bytes_lem left start (i + 1) w₁ (omega arith) (rw length-set (omega arith)) in
    (
      w',
      copy_step left start i w behind here ∙ e,
      IsCopied-suc w behind here (
          subst (λ t. IsCopied left t w₁ w')
            (let e' : start + (i + 1) ≡ start + i + 1 = omega arith in e') c),
    )

-- What a match of `count` bytes comes to.
pub data MatchResult (count : ℕ) (w : Window) : Outcome Window (Unit {0}) → Type 0 where
  copied :
      {w' : Window}
      → w.decoder.last_offset ≤ w.pos
      → w.pos + count ≤ length w.target
      → IsCopied count (w.pos - w.decoder.last_offset) w w'
      → MatchResult count w (done tt w')
  before_start : w.pos < w.decoder.last_offset → MatchResult count w (fail out_of_range w)
  past_end :
      w.decoder.last_offset ≤ w.pos
      → length w.target < w.pos + count
      → MatchResult count w (fail buffer_overflow w)

match_fits :
    (count : ℕ) (w : Window)
    → w.decoder.last_offset ≤ w.pos
    → w.pos + count ≤ length w.target
    → MatchResult count w (copy_match count w)
unfolding copy_match
match_fits count w near fits =
    let from : ℕ = w.pos - w.decoder.last_offset in
    let (w', e, c) = copy_bytes_lem count from 0 w (omega arith) fits in
    rw (le→ltb w.pos w.decoder.last_offset near, le→ltb (length w.target) (w.pos + count) fits, e)
      (copied near fits (subst (λ t. IsCopied count t w w') (add-zero from) c))

match_far :
    (count : ℕ) (w : Window)
    → w.pos < w.decoder.last_offset
    → copy_match count w ≡ fail out_of_range w
unfolding copy_match
match_far count w far = ground arith

match_long :
    (count : ℕ) (w : Window)
    → w.decoder.last_offset ≤ w.pos
    → length w.target < w.pos + count
    → copy_match count w ≡ fail buffer_overflow w
unfolding copy_match
match_long count w near long = ground arith

-- The checks and the copy of a match: where the last offset is at most `pos` and the match ends
-- inside the target, Ok comes back, each byte of the match equals the one `last_offset` places
-- before it, `pos` moves by the count, and the other bytes, the source and the decoder stay. A
-- larger offset gives OutOfRange, a match past the end BufferOverflow, and then nothing changes.
pub copy_match_lem : (count : ℕ) (w : Window) → MatchResult count w (copy_match count w)
copy_match_lem count w = elim (dec_lt w.pos w.decoder.last_offset) [
  | yes far ↦ rw (match_far count w far) (before_start far)
  | no near ↦ elim (dec_lt (length w.target) (w.pos + count)) [
    | yes long ↦ rw (match_long count w (omega arith) long) (past_end (omega arith) long)
    | no fits ↦ match_fits count w (omega arith) (omega arith)
  ]
]
