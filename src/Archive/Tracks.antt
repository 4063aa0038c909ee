-- ===== src/Archive/Tracks.antt =====
-- What the loop of `list_archive` keeps, and the data of a member's block.
use cxx_unlzx.Base.{
  ℕ, ◌+◌, ◌*◌, ◌^◌, ◌≤◌, ◌<◌, ◌≡◌, refl, ap, ◌∙◌, arith, Bool, true, false, List, [], ◌∷◌, ◌++◌,
  length, length-take, drop, length-drop, ltb, lt→ltb, le→ltb, if◌then◌else◌,
}
use cxx_unlzx.Base.Dict.{IsSorted}
use cxx_unlzx.Exec.{Outcome, done, bind_outcome, pure}
use cxx_unlzx.Input.{InputBuffer, over, filesize, read_buffer}
use cxx_unlzx.Input.Stream.{IsValid, over-IsValid}
use cxx_unlzx.Input.Bytes.{SpanResult, next_bytes, read_buffer_lem}
use cxx_unlzx.Input.Bytes
use cxx_unlzx.Handle.{Entry, pack_size}
use cxx_unlzx.Handle.Parse.{next_bytes-AllBytes}
use cxx_unlzx.Block.{Block}
use cxx_unlzx.Block.Life.{IsFresh}
use cxx_unlzx.Archive.{Listing, tried, or_empty, restored, block_data_of}
use cxx_unlzx.Archive.Plan.{Member, length_of, name_of, total_of}
use cxx_unlzx.Archive.Adds.{waits, AllKnown}

abbrev pub AllFresh : List Block → Type 0
AllFresh [] = Unit
AllFresh (b ∷ bs) = IsFresh b × AllFresh bs

pub AllFresh-snoc :
    (bs : List Block) (b : Block) → AllFresh bs → IsFresh b → AllFresh (bs ++ (b ∷ []))
AllFresh-snoc [] b h k = (k, tt)
AllFresh-snoc (c ∷ bs) b h k = (h.0, AllFresh-snoc bs b h.1 k)

-- The state of the loop while the members of `waiting` have no block yet. The offset stays far
-- from 2 ^ 64, since each member has taken at least 16 bytes of the archive.
pub record Tracks (waiting : List Member) (l : Listing) : Type 0 where
  pub valid : IsValid l.in_buffer
  pub aligned : l.in_buffer.data_bits_available ≡ 0
  pub small : filesize l.in_buffer < 2 ^ 35
  pub sorted : IsSorted l.builders
  pub known : AllKnown l.builders waiting
  pub pending : l.pending_merges ≡ waits 0 waiting
  pub offset : l.current_decompressed_offset ≡ total_of waiting
  pub bound : total_of waiting * 16 ≤ 2 ^ 32 * l.in_buffer.current_position
  pub fresh : AllFresh l.blocks

-- The bytes of a member that the buffer still has: all of them, or none.
abbrev pub packed_of : Entry → InputBuffer → List ℕ
packed_of e b =
    if ltb (filesize b) (b.current_position + pack_size e) then [] else next_bytes (pack_size e) b

next_bytes-le : (len : ℕ) (b : InputBuffer) → length (next_bytes len b) ≤ filesize b
next_bytes-le len b = omega (
  arith,
  length-take len (drop b.current_position b.bytes),
  length-drop b.current_position b.bytes,
)

pub packed-IsValid : (e : Entry) (b : InputBuffer) → IsValid b → IsValid (over (packed_of e b))
packed-IsValid e b v = choose (ltb (filesize b) (b.current_position + pack_size e))
  where
    choose : (t : Bool) → IsValid (over (if t then [] else next_bytes (pack_size e) b))
    choose true = over-IsValid [] tt (omega arith)
    choose false =
        over-IsValid (next_bytes (pack_size e) b) (next_bytes-AllBytes (pack_size e) b v.octets)
          (omega (arith, next_bytes-le (pack_size e) b, v.fits))

read_packed :
    (e : Entry) (l : Listing) (o : Outcome InputBuffer InputBuffer)
    → l.in_buffer.data_bits_available ≡ 0
    → SpanResult over (pack_size e) l.in_buffer o
    → restored l (bind_outcome (tried o) (λ found. pure (or_empty found)))
      ≡ done (over (packed_of e l.in_buffer)) l
read_packed e l o aligned (Bytes.SpanResult.got _ there a s v) =
    rw (a, le→ltb (filesize l.in_buffer) (l.in_buffer.current_position + pack_size e) there) refl
read_packed e l o aligned (Bytes.SpanResult.misaligned used) = absurd (omega (arith, aligned))
read_packed e l o aligned (Bytes.SpanResult.short _ beyond) =
    rw (lt→ltb (filesize l.in_buffer) (l.in_buffer.current_position + pack_size e) beyond) refl

pub block_data_of_lem :
    (e : Entry) (l : Listing)
    → IsValid l.in_buffer
    → l.in_buffer.data_bits_available ≡ 0
    → pack_size e < 2 ^ 63
    → block_data_of e l ≡ done (over (packed_of e l.in_buffer)) l
unfolding block_data_of
block_data_of_lem e l v aligned small =
    read_packed e l (read_buffer (pack_size e) l.in_buffer) aligned
      (read_buffer_lem (pack_size e) l.in_buffer v small)

pub total_of-snoc :
    (ms : List Member) (m : Member) → total_of (ms ++ (m ∷ [])) ≡ total_of ms + length_of m
total_of-snoc [] m = omega arith
total_of-snoc (x ∷ ms) m = omega (arith, total_of-snoc ms m)

pub waits-snoc :
    (offset : ℕ) (ms : List Member) (m : Member)
    → waits offset (ms ++ (m ∷ []))
      ≡ waits offset ms
        ++ (record { filename = name_of m; offset = offset + total_of ms; len = length_of m } ∷ [])
waits-snoc offset [] m =
    ap (λ o. record { filename = name_of m; offset = o; len = length_of m } ∷ [])
      (let e : offset ≡ offset + 0 = omega arith in e)
waits-snoc offset (x ∷ ms) m =
    ap (λ t. record { filename = name_of x; offset = offset; len = length_of x } ∷ t)
      (waits-snoc (offset + length_of x) ms m
        ∙ ap
            (λ o.
              waits (offset + length_of x) ms
              ++ (record { filename = name_of m; offset = o; len = length_of m } ∷ []))
            (let e : offset + length_of x + total_of ms ≡ offset + (length_of x + total_of ms) =
                omega arith in
              e))
