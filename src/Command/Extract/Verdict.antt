-- ===== src/Command/Extract/Verdict.antt =====
-- What `handle_extract` says of an entry whose file it has opened, and what is in the file then.
use native.Mathlib.Nat.{zero-add}
use cxx_unlzx.Base.{
  ℕ, ◌+◌, ◌^◌, ◌<◌, ◌≡◌, sym, ap, ap₂, ◌∙◌, arith, Bool, List, [], ◌∷◌, ◌++◌, length, ◌==◌,
  if◌then◌else◌, u64,
}
use cxx_unlzx.Text.{Printed, text, bytes}
use cxx_unlzx.Exec.{Outcome, done, fault, bind_outcome, pure}
use cxx_unlzx.Crc.{Crc32, fresh, calc}
use cxx_unlzx.Handle.{data_crc}
use cxx_unlzx.File.{Segment, LzxEntry, sum_loop, entry_unpack_size}
use cxx_unlzx.File.Reads.{sizes, AllAlive}
use cxx_unlzx.Archive.Bounds.{Fit}
use cxx_unlzx.Command.{Shell, print}
use cxx_unlzx.Command.Extract.{Files, write_entry}
use cxx_unlzx.Command.Extract.Writes.{
  IsLawful, Breaks, Same, Trouble, WriteResult, complete, stopped, undefined_block, length_all,
  write_segments_lem,
}

sum_loop_lem :
    (total : ℕ) (gs : List Segment)
    → total < 2 ^ 64
    → sum_loop total gs ≡ u64 (total + length_all gs)
unfolding sum_loop
sum_loop_lem total [] h = omega (arith, h)
sum_loop_lem total (g ∷ gs) h =
    sum_loop_lem (u64 (total + g.decompressed_length)) gs (omega arith) ∙ (omega arith)

-- The unpacked size of an entry is the sum of the lengths of its segments, as 64 bits hold it.
pub entry_unpack_size_lem : (e : LzxEntry) → entry_unpack_size e ≡ u64 (length_all e.segments)
unfolding entry_unpack_size
entry_unpack_size_lem e =
    sum_loop_lem 0 e.segments (omega arith) ∙ ap u64 (zero-add (length_all e.segments))

abbrev pub writing : List ℕ → List Printed
writing name = text "Writing \"" ∷ bytes name ∷ text "\"..." ∷ []

abbrev pub verdict : Bool → List Printed
verdict good = text " crc " ∷ text (if good then "good" else "bad") ∷ text "\n" ∷ []

module _ (files : Files) (law : IsLawful files) (f : files.Stream) where
  -- What writing an entry comes to.
  pub data EntryWritten (s : Shell files.State) (name : List ℕ) (e : LzxEntry)
      : Outcome (Shell files.State) (Unit {0}) → Type 0 where
    told :
        {t : Shell files.State} (xs : List ℕ)
        → Same files law f s t
        → law.contents t.own f ≡ law.contents s.own f ++ xs
        → u64 (length xs) ≡ entry_unpack_size e
        → t.out ≡ s.out ++ writing name ++ verdict (data_crc e.metadata == (calc xs fresh).1.sum)
        → EntryWritten s name e (done tt t)
    in_error :
        {t : Shell files.State}
        → Same files law f s t
        → Trouble files law f e.segments (s.out ++ writing name) t
        → EntryWritten s name e (done tt t)
    undefined_entry : Breaks files f e.segments s.store s.own → EntryWritten s name e fault

  after_segments :
      (s : Shell files.State) (name : List ℕ) (e : LzxEntry)
      (o : Outcome (Shell files.State) (Bool × Crc32))
      → WriteResult files law f (record s { out = s.out ++ writing name }) e.segments fresh o
      → EntryWritten s name e (
          bind_outcome o (λ (error, crc_calc).
            if error
            then pure tt
            else print (
                text " crc "
                ∷ text (if data_crc e.metadata == crc_calc.sum then "good" else "bad")
                ∷ text "\n"
                ∷ [])))
  after_segments s name e o (complete {t = t} xs same more all sum quiet) =
      told xs (record { alive = same.alive; same_sizes = same.same_sizes }) more
        (ap u64 all ∙ sym (entry_unpack_size_lem e))
        (ap₂ (λ out c. out ++ verdict (data_crc e.metadata == c.sum)) quiet sum)
  after_segments s name e o (stopped same trouble) =
      in_error (record { alive = same.alive; same_sizes = same.same_sizes }) trouble
  after_segments s name e o (undefined_block broken) = undefined_entry broken

  -- Over a lawful file system, for an entry whose segments lie in blocks that are alive: unless
  -- one line is printed in place of a verdict, for the block of one of its segments whose status
  -- is not Ok or for a write that failed, the file has got as many bytes as the entry's unpacked
  -- size, modulo 2 ^ 64, and good is printed exactly where their CRC is the one that the header of
  -- the entry has; else bad. It returns, unless, after segments whose blocks have the status Ok
  -- and whose data has been written, the next segment's block makes an access outside an array.
  pub write_entry_lem :
      (s : Shell files.State) (name : List ℕ) (e : LzxEntry)
      → AllAlive s.store
      → Fit (sizes s.store) e.segments
      → EntryWritten s name e (write_entry files name e f s)
  unfolding write_entry
  write_entry_lem s name e alive fit = after_segments s name e _ (
      write_segments_lem files law f (record s { out = s.out ++ writing name }) e.segments fresh
        alive fit (omega arith))
