-- ===== src/Handle/Parse.antt =====
-- What `from_buffer` makes of the bytes, on every path.
use cxx_unlzx.Base.{
  ℕ, ◌+◌, ◌^◌, ◌≤◌, ◌<◌, ◌≡◌, ◌≢◌, sym, ap, ◌∙◌, arith, true, false, Bool-cases, inl, inr, ◌==◌,
  ==_iff, List, ◌++◌, get_or, Option, none, some, drop, u8,
}
use cxx_unlzx.Status.{checksum_invalid, misaligned_data, unexpected_eof}
use cxx_unlzx.Exec.{Outcome, Exec, done, fail, bind_outcome}
use cxx_unlzx.Input.{InputBuffer, filesize, is_eof, read_into, read_string_view}
use cxx_unlzx.Input.Stream.{IsValid}
use cxx_unlzx.Input.Bytes.{SpanResult, next_bytes, past, read_into_lem, read_string_view_lem}
use cxx_unlzx.Input.Bytes
use cxx_unlzx.Crc.{fresh, calc}
use cxx_unlzx.Base.Octets.{
  AllBytes, AllBytes-append, AllBytes-intro, AllBytes-take, AllBytes-drop, AllBytes-set,
  get_or-AllBytes,
}
use cxx_unlzx.Crc.Bitwise.{crc_of, crc_of-lt, calc-append, calc-eq-crc_of}
use cxx_unlzx.Types.{Endian, transform, assign}
use cxx_unlzx.Handle.{
  Entry, metadata_size, comment_length, filename_length, header_crc, clear_header_crc, header_sum,
  check_header, read_entry, from_buffer,
}

-- The entry whose header starts at `b`, and how long that header is.
abbrev pub entry_at : InputBuffer → Entry
entry_at b =
    let raw = next_bytes metadata_size b in
    record {
      metadata = clear_header_crc raw;
      filename = next_bytes (filename_length raw) (past metadata_size b);
      comment = next_bytes (comment_length raw) (past (filename_length raw) (past metadata_size b));
    }

abbrev pub after_entry : InputBuffer → InputBuffer
after_entry b =
    let raw = next_bytes metadata_size b in
    past (comment_length raw) (past (filename_length raw) (past metadata_size b))

-- The bytes of an entry that are summed.
abbrev pub summed : Entry → List ℕ
summed e = e.metadata ++ (e.filename ++ e.comment)

-- What `from_buffer` comes to.
pub data EntryResult (b : InputBuffer) : Outcome InputBuffer (Option Entry) → Type 0 where
  ended : is_eof b ≡ true → EntryResult b (done none b)
  parsed :
      is_eof b ≡ false
      → (after_entry b).current_position ≤ filesize b
      → crc_of 0 (summed (entry_at b)) ≡ header_crc (next_bytes metadata_size b)
      → IsValid (after_entry b)
      → EntryResult b (done (some (entry_at b)) (after_entry b))
  damaged :
      is_eof b ≡ false
      → (after_entry b).current_position ≤ filesize b
      → crc_of 0 (summed (entry_at b)) ≢ header_crc (next_bytes metadata_size b)
      → EntryResult b (fail checksum_invalid (after_entry b))
  misaligned : is_eof b ≡ false → 0 < b.data_bits_available → EntryResult b (fail misaligned_data b)
  short :
      {b' : InputBuffer}
      → is_eof b ≡ false
      → b.data_bits_available ≡ 0
      → filesize b < (after_entry b).current_position
      → EntryResult b (fail unexpected_eof b')

-- A read of whole bytes and what follows it.
spanned {ℓ} :
    {B : Type 0} {len : ℕ} {b : InputBuffer} (R : Outcome InputBuffer B → Type ℓ)
    (o : Outcome InputBuffer (List ℕ)) (f : List ℕ → Exec InputBuffer B)
    → SpanResult (λ xs. xs) len b o
    → (b.data_bits_available ≡ 0
        → b.current_position + len ≤ filesize b
        → IsValid (past len b)
        → R (f (next_bytes len b) (past len b)))
    → (0 < b.data_bits_available → R (fail misaligned_data b))
    → (b.data_bits_available ≡ 0
        → filesize b < b.current_position + len
        → R (fail unexpected_eof b))
    → R (bind_outcome o f)
spanned R o f (Bytes.SpanResult.got aligned there a s v) good mis bad =
    rw (a, s) (good aligned there (rw s at v))
spanned R o f (Bytes.SpanResult.misaligned used) good mis bad = mis used
spanned R o f (Bytes.SpanResult.short aligned beyond) good mis bad = bad aligned beyond

pub next_bytes-AllBytes :
    (len : ℕ) (b : InputBuffer) → ((i : ℕ) → get_or b.bytes i 0 < 256) → AllBytes (next_bytes len b)
next_bytes-AllBytes len b octets =
    AllBytes-take len (drop b.current_position b.bytes)
      (AllBytes-drop b.current_position b.bytes (AllBytes-intro b.bytes octets))

pub assign-AllBytes :
    (e : Endian) (w : ℕ) (xs : List ℕ) (i : ℕ) → AllBytes xs → AllBytes (assign e w xs i)
assign-AllBytes e w xs i h =
    let v = transform Endian.little e w in
    AllBytes-set _ (i + 3) _ (omega arith) (
      AllBytes-set _ (i + 2) _ (omega arith)
        (AllBytes-set _ (i + 1) _ (omega arith) (AllBytes-set xs i (u8 v) (omega arith) h)))

-- The three sums of a header are one sum.
header_sum-eq :
    (e : Entry)
    → AllBytes e.metadata
    → AllBytes e.filename
    → AllBytes e.comment
    → (header_sum e).sum ≡ crc_of 0 (summed e)
unfolding header_sum
header_sum-eq e h k l =
    let c = (calc e.metadata fresh).1 in
    let first = calc-eq-crc_of fresh e.metadata (omega arith) h in
    let bound : c.sum < 2 ^ 32 = rw first (crc_of-lt 0 e.metadata) in
    let rest = AllBytes-append e.filename e.comment k l in
    ap (λ p. p.1.sum)
      ((calc-append c e.filename e.comment bound k l).0
        ∙ (calc-append fresh e.metadata (e.filename ++ e.comment) (omega arith) h rest).0
        ∙ calc-eq-crc_of fresh (summed e) (omega arith)
            (AllBytes-append e.metadata (e.filename ++ e.comment) h rest))

check_header-if {ℓ} :
    (R : Outcome InputBuffer (Option Entry) → Type ℓ) (expected : ℕ) (e : Entry) (b : InputBuffer)
    → ((header_sum e).sum ≡ expected → R (done (some e) b))
    → ((header_sum e).sum ≢ expected → R (fail checksum_invalid b))
    → R (check_header expected e b)
unfolding check_header
check_header-if R expected e b same other = elim (Bool-cases ((header_sum e).sum == expected)) [
  | inl yes_it_is ↦ rw yes_it_is (same ((==_iff (header_sum e).sum expected).0 yes_it_is))
  | inr differs ↦ rw differs (other (λ q. absurd (ground (arith, q, differs))))
]

module _ (b : InputBuffer) (v : IsValid b) where
  name_length-lt : filename_length (next_bytes metadata_size b) < 256
  name_length-lt =
      get_or-AllBytes (next_bytes metadata_size b) 30 (next_bytes-AllBytes metadata_size b v.octets)

  comment_length-lt : comment_length (next_bytes metadata_size b) < 256
  comment_length-lt =
      get_or-AllBytes (next_bytes metadata_size b) 14 (next_bytes-AllBytes metadata_size b v.octets)

  entry_sum : (header_sum (entry_at b)).sum ≡ crc_of 0 (summed (entry_at b))
  entry_sum =
      header_sum-eq (entry_at b)
        (assign-AllBytes Endian.little 0 (next_bytes metadata_size b) 26
          (next_bytes-AllBytes metadata_size b v.octets))
        (next_bytes-AllBytes (filename_length (next_bytes metadata_size b)) (past metadata_size b)
          v.octets)
        (next_bytes-AllBytes (comment_length (next_bytes metadata_size b))
          (past (filename_length (next_bytes metadata_size b)) (past metadata_size b)) v.octets)

  check_header_lem :
      is_eof b ≡ false
      → (after_entry b).current_position ≤ filesize b
      → IsValid (after_entry b)
      → EntryResult b
          (check_header (header_crc (next_bytes metadata_size b)) (entry_at b) (after_entry b))
  check_header_lem more there w =
      check_header-if (EntryResult b) (header_crc (next_bytes metadata_size b)) (entry_at b)
        (after_entry b) (λ same. parsed more there (sym entry_sum ∙ same) w)
        (λ other. damaged more there (λ same. other (entry_sum ∙ same)))

  read_entry_lem : is_eof b ≡ false → EntryResult b (read_entry b)
  unfolding read_entry
  read_entry_lem more =
      spanned (EntryResult b) (read_into metadata_size b) _
        (read_into_lem metadata_size b v (omega arith))
        (λ aligned there v₁.
          let b₁ = past metadata_size b in
          let n = filename_length (next_bytes metadata_size b) in
          spanned (EntryResult b) (read_string_view n b₁) _
            (read_string_view_lem n b₁ v₁ (omega (arith, name_length-lt)))
            (λ _ there₁ v₂.
              let b₂ = past n b₁ in
              let m = comment_length (next_bytes metadata_size b) in
              spanned (EntryResult b) (read_string_view m b₂) _
                (read_string_view_lem m b₂ v₂ (omega (arith, comment_length-lt)))
                (λ _ there₂ v₃. check_header_lem more there₂ v₃)
                (λ used. absurd (omega (arith, aligned))) (λ _ beyond. short more aligned beyond))
            (λ used. absurd (omega (arith, aligned)))
            (λ _ beyond. short more aligned (omega arith)))
        (λ used. misaligned more used) (λ aligned beyond. short more aligned (omega arith))

  -- On a valid buffer: at its end `from_buffer` returns no entry and the buffer unchanged.
  -- Elsewhere, with bits pending it fails with MisalignedData and the buffer unchanged; where the
  -- 31 bytes of the header or the name and the comment whose lengths it gives are not all there,
  -- with UnexpectedEof; where the CRC of the header with its checksum field cleared, the name and
  -- the comment differs from that field, with ChecksumInvalid. Else it returns the entry of those
  -- bytes, the field cleared, and the buffer after them, still valid.
  pub from_buffer_lem : EntryResult b (from_buffer b)
  unfolding from_buffer
  from_buffer_lem = elim (Bool-cases (is_eof b)) [
    | inl eof ↦ rw eof (ended eof)
    | inr more ↦ rw more (read_entry_lem more)
  ]
