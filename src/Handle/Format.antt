-- ===== src/Handle/Format.antt =====
-- The formatters of `ProtectionBits` and `DateStamp`.
use cxx_unlzx.Base.{
  ℕ, zero, suc, ◌+◌, ◌%◌, ◌^◌, ◌<◌, ◌≡◌, refl, arith, Bool, true, ◌&&◌, Bool-cases, inl, inr, List,
  [], ◌∷◌, get_or, set, ◌==◌, ==_iff, if◌then◌else◌, ◌>>>◌,
}
use cxx_unlzx.Text.{Printed, text, spaced, zeroed}
use cxx_unlzx.Handle.{Entry, second, minute, hour, year, month, day}

-- Entry::attributes, the `raw` of the ProtectionBits
unfoldable pub attributes : Entry → ℕ
attributes e = get_or e.metadata 0 0

-- A field of one bit, `k` from the lowest: readable, writable, deletable, executable, archived,
-- hidden, script, pure.
abbrev pub bit_field : ℕ → ℕ → Bool
bit_field k raw = (raw >>> k) % 2 == 1

-- if (bits.field) result[i] = letter
abbrev pub mark : ℕ → ℕ → ℕ → ℕ → List ℕ → List ℕ
mark raw k i letter result = if bit_field k raw then set result i letter else result

-- formatter<ProtectionBits>::format, in ASCII, from "--------" on.
unfoldable pub format_bits : ℕ → List ℕ
format_bits raw = mark raw 2 7 100 (
    mark raw 3 6 101 (
      mark raw 1 5 119 (
        mark raw 0 4 114 (
          mark raw 4 3 97 (
            mark raw 7 2 112 (
              mark raw 6 1 115 (mark raw 5 0 104 (45 ∷ 45 ∷ 45 ∷ 45 ∷ 45 ∷ 45 ∷ 45 ∷ 45 ∷ []))))))))

-- formatter<DateStamp>::Format
pub data Format : Type 0 where
  date time : Format

-- A character of the format, 'd' or 't'; the others change nothing.
abbrev pub read_format : ℕ → Format → Format
read_format c f = if c == 100 then date else if c == 116 then time else f

-- The loop of `parse`, up to '}': the format, and the characters that are left.
unfoldable pub parse : List ℕ → Format → Format × List ℕ
parse [] f = (f, [])
parse (c ∷ it) f = let rest = parse it (read_format c f) in if c == 125 then (f, c ∷ it) else rest

-- formatter<DateStamp>::format
unfoldable pub format_stamp : Format → ℕ → List Printed
format_stamp time raw =
    zeroed 2 (hour raw) ∷ text ":" ∷ zeroed 2 (minute raw) ∷ text ":" ∷ zeroed 2 (second raw) ∷ []
format_stamp date raw =
    zeroed 2 (day raw) ∷ text "-" ∷ zeroed 2 (month raw) ∷ text "-" ∷ spaced 4 (year raw) ∷ []

-- The value of the letters: what a reader makes of the eight characters.
abbrev weight : List ℕ → ℕ → ℕ → ℕ
weight result i k = if get_or result i 0 == 45 then 0 else 2 ^ k

unfoldable pub bits_read : List ℕ → ℕ
bits_read xs =
    weight xs 4 0
    + weight xs 5 1
    + weight xs 7 2
    + weight xs 6 3
    + weight xs 3 4
    + weight xs 0 5
    + weight xs 1 6
    + weight xs 2 7

reads_back : ℕ → Bool
reads_back raw = bits_read (format_bits raw) == raw

all_below : (ℕ → Bool) → ℕ → Bool
all_below p zero = true
all_below p (suc n) = p n && all_below p n

below : (p : ℕ → Bool) (n i : ℕ) → all_below p n ≡ true → i < n → p i ≡ true
unfolding all_below
below p zero i h k = elim k [ ]
below p (suc n) i h k = elim (Bool-cases (i == n)) [
  | inl last ↦
      let e : i ≡ n = (==_iff i n).0 last in rw e (let g : p n ≡ true = ground (arith, h) in g)
  | inr earlier ↦
      below p n i (let g : all_below p n ≡ true = ground (arith, h) in g)
        (let l : i < n = ground (arith, earlier, k) in l)
]

all_read_back : all_below reads_back 256 ≡ true
unfolding all_below reads_back bits_read format_bits
all_read_back = refl

-- For each of the 256 values of the attributes, the eight characters tell every bit.
pub bits_read-format_bits : (raw : ℕ) → raw < 256 → bits_read (format_bits raw) ≡ raw
unfolding reads_back
bits_read-format_bits raw h =
    (==_iff (bits_read (format_bits raw)) raw).0 (below reads_back 256 raw all_read_back h)
