-- ===== src/File/Latin.antt =====
-- The path of an entry: what `from_latin1` of src/lzx_entry.cc writes is UTF-8 of the same
-- characters.
use mathlib.Core.Option
use cxx_unlzx.Base.{
  ℕ, ◌+◌, ◌-◌, ◌*◌, ◌/◌, ◌%◌, ◌^◌, ◌≤◌, ◌<◌, ◌≡◌, refl, ap, ap₂, ◌∙◌, arith, Bool, ◌&&◌, List, [],
  ◌∷◌, ◌++◌, Option, none, some, ltb, leb, lt→ltb, le→ltb, if◌then◌else◌, bit_and, bit_or,
}
use native.Mathlib.Decide.{dec_lt}
use cxx_unlzx.Base.Bits.{or_shifted, and_mask}
use cxx_unlzx.Base.Octets.{AllBytes}
use cxx_unlzx.File.{utf8_of, from_latin1}

-- Whether two octets are UTF-8 of a character from 128 to 2047.
unfoldable pub is_pair : ℕ → ℕ → Bool
is_pair a b = leb 194 a && (leb a 223 && (leb 128 b && leb b 191))

-- The characters of a text in UTF-8, as far as two octets go; none where it is not well-formed.
unfoldable pub decode : List ℕ → Option (List ℕ)
decode [] = some []
decode (a ∷ []) = if ltb a 128 then some (a ∷ []) else none
decode (a ∷ b ∷ rest) =
    let one = Option.map (λ t. a ∷ t) (decode (b ∷ rest)) in
    let two = Option.map (λ t. ((a - 192) * 64 + (b - 128)) ∷ t) (decode rest) in
    if ltb a 128 then one else if is_pair a b then two else none

-- The two octets of a character from 128 on.
utf8_pair : (c : ℕ) → 128 ≤ c → c < 256 → utf8_of c ≡ (192 + c / 64) ∷ (128 + c % 64) ∷ []
unfolding utf8_of
utf8_pair c from below =
    let high : bit_or 192 (c / 2 ^ 6) ≡ 192 + c / 64 = or_shifted 6 3 (c / 64) (omega arith) in
    let low : bit_or 128 (bit_and c 63) ≡ 128 + c % 64 =
      ap (bit_or 128) (and_mask 6 c) ∙ or_shifted 6 2 (c % 64) (omega arith) in
    rw (le→ltb c 128 from, high, low)
      (ap₂ (λ x y. x ∷ y ∷ []) (let e : (192 + c / 64) % 2 ^ 8 ≡ 192 + c / 64 = omega arith in e)
        (let e : (128 + c % 64) % 2 ^ 8 ≡ 128 + c % 64 = omega arith in e))

utf8_single : (c : ℕ) → c < 128 → utf8_of c ≡ c ∷ []
unfolding utf8_of
utf8_single c below = rw (lt→ltb c 128 below) refl

decode_single :
    (c : ℕ) (rest : List ℕ) → c < 128 → decode (c ∷ rest) ≡ Option.map (λ t. c ∷ t) (decode rest)
unfolding decode
decode_single c [] below = rw (lt→ltb c 128 below) refl
decode_single c (b ∷ rest) below = rw (lt→ltb c 128 below) refl

decode_pair :
    (a b : ℕ) (rest : List ℕ)
    → 194 ≤ a
    → a ≤ 223
    → 128 ≤ b
    → b ≤ 191
    → decode (a ∷ b ∷ rest) ≡ Option.map (λ t. ((a - 192) * 64 + (b - 128)) ∷ t) (decode rest)
unfolding decode is_pair
decode_pair a b rest h k l m = ground arith

decode_utf8 :
    (c : ℕ) (rest : List ℕ)
    → c < 256
    → decode (utf8_of c ++ rest) ≡ Option.map (λ t. c ∷ t) (decode rest)
decode_utf8 c rest below = elim (dec_lt c 128) [
  | yes small ↦ rw (utf8_single c small) (decode_single c rest small)
  | no large ↦ rw (utf8_pair c (omega (arith, large)) below) (
      decode_pair (192 + c / 64) (128 + c % 64) rest (omega (arith, large)) (omega arith)
        (omega arith) (omega arith)
      ∙ ap (λ x. Option.map (λ t. x ∷ t) (decode rest))
          (let e : (192 + c / 64 - 192) * 64 + (128 + c % 64 - 128) ≡ c = omega arith in e))
]

decode_nil : decode [] ≡ some []
unfolding decode
decode_nil = refl

-- For a name of octets, the path that `from_latin1` makes is well-formed UTF-8, and its characters
-- are those of the name.
pub decode-from_latin1 :
    (latin1 : List ℕ) → AllBytes latin1 → decode (from_latin1 latin1) ≡ some latin1
unfolding from_latin1
decode-from_latin1 [] h = decode_nil
decode-from_latin1 (c ∷ latin1) h =
    decode_utf8 c (from_latin1 latin1) h.0
    ∙ ap (Option.map (λ t. c ∷ t)) (decode-from_latin1 latin1 h.1)
