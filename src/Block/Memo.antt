-- ===== src/Block/Memo.antt =====
-- What `data()` returns for a block that is stored as it is, and at the calls after the first.
use mathlib.Core.Path.{subst}
use cxx_unlzx.Base.{
  ℕ, ◌+◌, ◌^◌, ◌≤◌, ◌<◌, ◌≡◌, refl, sym, ap, ◌∙◌, Bool, true, false, Bool-cases, inl, inr, List,
  Option, none, some, if◌then◌else◌, ◌==◌,
}
use cxx_unlzx.Status.{ok, misaligned_data, unexpected_eof, unknown_compression}
use cxx_unlzx.Exec.{Outcome, done, fail, fault, exhausted}
use cxx_unlzx.Input.{InputBuffer, filesize, read_span}
use cxx_unlzx.Input.Stream.{IsValid}
use cxx_unlzx.Input.Bytes.{SpanResult, next_bytes, read_span_lem}
use cxx_unlzx.Input.Bytes
use cxx_unlzx.Handle.{mode}
use cxx_unlzx.Block.{
  Block, Unpacking, finish, is_ok, settle_stored, settle_normal, stored_data, normal_data,
  first_data, block_data,
}

-- A block that has what it returned.
abbrev Holds : Block → Outcome Block (Option (List ℕ)) → Type 0
Holds b (done (some xs) c) =
    (c.is_decompressed ≡ true) × (is_ok c.status ≡ true) × (c.data_span ≡ xs)
Holds b _ = Unit

settle_stored-Holds : (b : Block) (o : Outcome InputBuffer (List ℕ)) → Holds b (settle_stored b o)
unfolding settle_stored is_ok
settle_stored-Holds b (done xs c) = (refl, refl, refl)
settle_stored-Holds b (fail st c) = tt
settle_stored-Holds b fault = tt
settle_stored-Holds b exhausted = tt

settle_normal-Holds : (b : Block) (o : Outcome Unpacking (Unit {0})) → Holds b (settle_normal b o)
unfolding settle_normal is_ok
settle_normal-Holds b (done xs c) = (refl, refl, refl)
settle_normal-Holds b (fail st c) = tt
settle_normal-Holds b fault = tt
settle_normal-Holds b exhausted = tt

choose-Holds :
    (b : Block) (test : Bool) (o p : Outcome Block (Option (List ℕ)))
    → (test ≡ true → Holds b o)
    → (test ≡ false → Holds b p)
    → Holds b (if test then o else p)
choose-Holds b true o p h k = h refl
choose-Holds b false o p h k = k refl

first_data-Holds : (b : Block) → Holds b (first_data b)
unfolding first_data stored_data normal_data
first_data-Holds b =
    choose-Holds b (mode b.node == 0) (stored_data b) _ (λ _. settle_stored-Holds b _)
      (λ _.
        choose-Holds b (mode b.node == 2) (normal_data b) _ (λ _. settle_normal-Holds b _)
          (λ _. tt))

memo_value : (b : Block) → Bool → Outcome Block (Option (List ℕ))
memo_value b good = done (if good then some b.data_span else none) b

memo-Holds : (b : Block) → b.is_decompressed ≡ true → Holds b (memo_value b (is_ok b.status))
unfolding memo_value
memo-Holds b old = elim (Bool-cases (is_ok b.status)) [
  | inl good ↦ rw good (old, good, refl)
  | inr bad ↦ rw bad tt
]

block_data-Holds : (b : Block) → Holds b (block_data b)
unfolding block_data memo_value
block_data-Holds b =
    choose-Holds b b.is_decompressed (memo_value b (is_ok b.status)) (first_data b) (memo-Holds b)
      (λ _. first_data-Holds b)

-- Once `data()` of a block has returned bytes, a further call returns the same bytes and changes
-- nothing.
pub block_data_again :
    (b : Block) {xs : List ℕ} {c : Block}
    → block_data b ≡ done (some xs) c
    → block_data c ≡ done (some xs) c
unfolding block_data
block_data_again b {xs} {c} e =
    let (old, good, same) = subst (Holds b) e (block_data-Holds b) in rw (old, good, same) refl

-- A block that is stored as it is: the first call returns the next bytes of the buffer, as many as
-- the block has, or none, with the status of the read; the buffer of the block is left where it was.
pub data StoredResult (b : Block) : Outcome Block (Option (List ℕ)) → Type 0 where
  stored :
      b.in_file.data_bits_available ≡ 0
      → b.in_file.current_position + b.total_unpacked_size ≤ filesize b.in_file
      → StoredResult b (
          done
            (some (next_bytes b.total_unpacked_size b.in_file))
            (finish ok (next_bytes b.total_unpacked_size b.in_file) b.in_file b))
  misaligned :
      0 < b.in_file.data_bits_available
      → StoredResult b (done none (finish misaligned_data b.data_span b.in_file b))
  short :
      b.in_file.data_bits_available ≡ 0
      → filesize b.in_file < b.in_file.current_position + b.total_unpacked_size
      → StoredResult b (done none (finish unexpected_eof b.data_span b.in_file b))

settle_stored_lem :
    (b : Block) (o : Outcome InputBuffer (List ℕ))
    → SpanResult (λ xs. xs) b.total_unpacked_size b.in_file o
    → StoredResult b (settle_stored b o)
unfolding settle_stored
settle_stored_lem b o (Bytes.SpanResult.got aligned there a s v) = rw a (stored aligned there)
settle_stored_lem b o (Bytes.SpanResult.misaligned used) = misaligned used
settle_stored_lem b o (Bytes.SpanResult.short aligned beyond) = short aligned beyond

is_stored :
    (b : Block)
    → b.is_decompressed ≡ false
    → mode b.node ≡ 0
    → block_data b ≡ settle_stored b (read_span b.total_unpacked_size b.in_file)
unfolding block_data first_data stored_data memo_value
is_stored b new stored_mode =
    ap (λ t. if t then memo_value b (is_ok b.status) else first_data b) new
    ∙ ap (λ m. if m == 0 then stored_data b else otherwise m) stored_mode
  where
    otherwise : ℕ → Outcome Block (Option (List ℕ))
    otherwise m =
        if m == 2
        then normal_data b
        else done none (finish unknown_compression b.data_span b.in_file b)

-- The first call of `data()` of a block of mode 0, over a valid buffer and with a size below 2 ^
-- 63: it returns the next bytes of the buffer, as many as the size; with bits pending, or where
-- the bytes are not all there, it returns none and keeps the status MisalignedData or
-- UnexpectedEof. The block's buffer does not move.
pub block_data-stored :
    (b : Block)
    → IsValid b.in_file
    → b.total_unpacked_size < 2 ^ 63
    → b.is_decompressed ≡ false
    → mode b.node ≡ 0
    → StoredResult b (block_data b)
block_data-stored b v small new stored_mode =
    subst (StoredResult b) (sym (is_stored b new stored_mode)) (
      settle_stored_lem b (read_span b.total_unpacked_size b.in_file)
        (read_span_lem b.total_unpacked_size b.in_file v small))
