-- ===== src/Command/Extract/Writes.antt =====
-- What the loop over the segments of an entry writes, and which sum it takes.
use mathlib.Core.Path.{subst}
use mathlib.Core.List.{append_assoc, append-nil}
use cxx_unlzx.Base.{
  ℕ, suc, ◌+◌, ◌^◌, ◌<◌, ◌≡◌, refl, sym, ap, ◌∙◌, arith, Bool, true, false, not, List, [], ◌∷◌,
  ◌++◌, some, length, length-append, get_elem?, if◌then◌else◌,
}
use cxx_unlzx.Text.{Printed, text}
use cxx_unlzx.Status.{Status, format_status}
use cxx_unlzx.Exec.{Outcome, done, fault, bind_outcome, embed, ◌>>=◌, ◌>>◌, pure}
use cxx_unlzx.Crc.{Crc32, calc}
use cxx_unlzx.Crc.Chunks.{calc-chunks, calc_nil, calc_sum-lt}
use cxx_unlzx.Block.{Block, is_ok, block_data}
use cxx_unlzx.File.{Segment, segment_data, segment_status}
use cxx_unlzx.File.Reads.{
  set_same, sizes, AllAlive, SegmentResult, whole, empty, undefined, segment_data_lem,
}
use cxx_unlzx.Archive.Bounds.{Fit}
use cxx_unlzx.Command.{Shell, on_store, print}
use cxx_unlzx.Command.Extract.{Files, write_file, write_segments}

-- A stream holds what was written to it; opening one for a path starts it empty.
pub record IsLawful (files : Files) : Type 0 where
  pub contents : files.State → files.Stream → List ℕ
  pub open_empty :
      (p : List ℕ) (s : files.State) {f : files.Stream}
      → (files.open_out p s).0 ≡ some f
      → contents (files.open_out p s).1 f ≡ []
  pub write_appends :
      (f : files.Stream) (xs : List ℕ) (s : files.State)
      → (files.write f xs s).0 ≡ true
      → contents (files.write f xs s).1 f ≡ contents s f ++ xs

abbrev pub length_all : List Segment → ℕ
length_all [] = 0
length_all (g ∷ gs) = g.decompressed_length + length_all gs

status_lem :
    (store : List Block) (g : Segment) {c : Block}
    → get_elem? store g.block ≡ some c
    → segment_status g store ≡ done c.status store
unfolding segment_status
status_lem store g {c} e = rw e (ap (done c.status) (set_same store g.block e))

abbrev pub error_line : Status → List Printed
error_line status = text " error: " ∷ text (format_status status) ∷ text "\n" ∷ []

abbrev pub write_error : List Printed
write_error = text " error writing file\n" ∷ []

module _ (files : Files) (f : files.Stream) where
  -- The loop over some segments, from blocks and files on, comes to a block that is decompressed
  -- with an access outside an array: the segments before it have a status of Ok and are written.
  pub data Breaks : List Segment → List Block → files.State → Type 0 where
    breaks_here :
        {g : Segment} {gs : List Segment} {store : List Block} {own : files.State} {b : Block}
        → get_elem? store g.block ≡ some b
        → block_data b ≡ fault
        → Breaks (g ∷ gs) store own
    breaks_later :
        {g : Segment} {gs : List Segment} {store store' : List Block} {own : files.State}
        {xs : List ℕ} {c : Block}
        → segment_data g store ≡ done xs store'
        → get_elem? store' g.block ≡ some c
        → is_ok c.status ≡ true
        → (files.write f xs own).0 ≡ true
        → Breaks gs store' (files.write f xs own).1
        → Breaks (g ∷ gs) store own

module _ (files : Files) (law : IsLawful files) (f : files.Stream) where
  -- Why the loop stops, and the one line that it prints of it after what `out` was.
  -- The block is that of one of the segments, and the write is the last change of the files.
  pub data Trouble (gs : List Segment) (out : List Printed) (t : Shell files.State) : Type 0 where
    bad_block :
        (i : ℕ) {g : Segment} {b : Block}
        → get_elem? gs i ≡ some g
        → get_elem? t.store g.block ≡ some b
        → is_ok b.status ≡ false
        → t.out ≡ out ++ error_line b.status
        → Trouble gs out t
    bad_write :
        (xs : List ℕ) (own : files.State)
        → (files.write f xs own).0 ≡ false
        → t.own ≡ (files.write f xs own).1
        → t.out ≡ out ++ write_error
        → Trouble gs out t

  one_later :
      {g : Segment} {gs : List Segment} {out : List Printed} {t : Shell files.State}
      → Trouble gs out t
      → Trouble (g ∷ gs) out t
  one_later (bad_block i at_i found bad line) = bad_block (suc i) at_i found bad line
  one_later (bad_write xs own bad last line) = bad_write xs own bad last line

  -- The blocks are as alive and as large as before.
  pub record Same (s t : Shell files.State) : Type 0 where
    pub alive : AllAlive t.store
    pub same_sizes : sizes t.store ≡ sizes s.store

  pub data WriteResult (s : Shell files.State) (gs : List Segment) (c : Crc32)
      : Outcome (Shell files.State) (Bool × Crc32) → Type 0 where
    complete :
        {t : Shell files.State} {d : Crc32} (xs : List ℕ)
        → Same s t
        → law.contents t.own f ≡ law.contents s.own f ++ xs
        → length xs ≡ length_all gs
        → d ≡ (calc xs c).1
        → t.out ≡ s.out
        → WriteResult s gs c (done (false, d) t)
    stopped :
        {t : Shell files.State} {d : Crc32}
        → Same s t
        → Trouble gs s.out t
        → WriteResult s gs c (done (true, d) t)
    undefined_block : Breaks files f gs s.store s.own → WriteResult s gs c fault

  -- The rest of the loop, after a segment that is all there.
  one_more :
      {s t : Shell files.State} {g : Segment} {gs : List Segment} {c : Crc32}
      {o : Outcome (Shell files.State) (Bool × Crc32)} (xs : List ℕ)
      → c.sum < 2 ^ 32
      → Same s t
      → law.contents t.own f ≡ law.contents s.own f ++ xs
      → length xs ≡ g.decompressed_length
      → t.out ≡ s.out
      → (Breaks files f gs t.store t.own → Breaks files f (g ∷ gs) s.store s.own)
      → WriteResult t gs (calc xs c).1 o
      → WriteResult s (g ∷ gs) c o
  one_more {s} {t} {c = c} xs bound same written all quiet later
        (complete ys rest more less sum still) =
      complete (xs ++ ys)
        (record { alive = rest.alive; same_sizes = rest.same_sizes ∙ same.same_sizes })
        (more ∙ ap (λ zs. zs ++ ys) written ∙ append_assoc (law.contents s.own f) xs ys)
        (omega (arith, length-append xs ys, all, less)) (sum ∙ calc-chunks c xs ys bound)
        (still ∙ quiet)
  one_more {g = g} {gs} xs bound same written all quiet later (stopped {t = u} rest trouble) =
      stopped (record { alive = rest.alive; same_sizes = rest.same_sizes ∙ same.same_sizes })
        (subst (λ o. Trouble (g ∷ gs) o u) quiet (one_later trouble))
  one_more xs bound same written all quiet later (undefined_block broken) =
      undefined_block (later broken)

  -- What the loop does with the bytes of a segment whose block is fine.
  wrote :
      (s : Shell files.State) (store : List Block) (g : Segment) (gs : List Segment) (c : Crc32)
      (xs : List ℕ) (d : Block) (r : Bool)
      → c.sum < 2 ^ 32
      → AllAlive store
      → sizes store ≡ sizes s.store
      → length xs ≡ g.decompressed_length
      → segment_data g s.store ≡ done xs store
      → get_elem? store g.block ≡ some d
      → is_ok d.status ≡ true
      → (files.write f xs s.own).0 ≡ r
      → ((t : Shell files.State)
          → AllAlive t.store
          → sizes t.store ≡ sizes s.store
          → WriteResult t gs (calc xs c).1 (write_segments files f gs (calc xs c).1 t))
      → WriteResult s (g ∷ gs) c (
          (if r
              then write_segments files f gs (calc xs c).1
              else (print (text " error writing file\n" ∷ []) >> pure (true, (calc xs c).1)))
            (record { store = store; out = s.out; own = (files.write f xs s.own).1 }))
  wrote s store g gs c xs d true bound alive same all asked placed okay good rest =
      let t : Shell files.State = record {
        store = store;
        out = s.out;
        own = (files.write f xs s.own).1;
      } in
      one_more {t = t} xs bound (record { alive = alive; same_sizes = same })
        (law.write_appends f xs s.own good) all refl (breaks_later asked placed okay good)
        (rest t alive same)
  wrote s store g gs c xs d false bound alive same all asked placed okay good rest =
      stopped (record { alive = alive; same_sizes = same }) (bad_write xs s.own good refl refl)

  module _ (s : Shell files.State) (g : Segment) (gs : List Segment) (c : Crc32)
      (bound : c.sum < 2 ^ 32)
      (rest : (xs : List ℕ) (t : Shell files.State)
        → AllAlive t.store
        → sizes t.store ≡ sizes s.store
        → WriteResult t gs (calc xs c).1 (write_segments files f gs (calc xs c).1 t)) where
    after_data :
        (o : Outcome (List Block) (List ℕ))
        → segment_data g s.store ≡ o
        → SegmentResult s.store g o
        → WriteResult s (g ∷ gs) c (
            bind_outcome (embed (λ t store. record t { store = store }) s o) (λ xs.
              on_store (segment_status g) >>= λ status.
              let summed = (calc xs c).1 in
              let more = write_segments files f gs summed in
              if not (is_ok status)
              then (print (text " error: " ∷ text (format_status status) ∷ text "\n" ∷ [])
                  >> pure (true, c))
              else (write_file files f xs >>= λ good.
                  if good
                  then more
                  else (print (text " error writing file\n" ∷ []) >> pure (true, summed)))))
    unfolding write_file
    after_data o asked (whole {store' = store'} found read good kept all) =
        rw (status_lem store' g kept.placed, good)
          (wrote s store' g gs c _ _ (files.write f _ s.own).0 bound kept.alive kept.same_sizes all
            asked kept.placed good refl (rest _))
    after_data o asked (empty {store' = store'} found read bad kept) =
        rw (status_lem store' g kept.placed, bad)
          (stopped (record { alive = kept.alive; same_sizes = kept.same_sizes })
            (bad_block 0 refl kept.placed bad refl))
    after_data o asked (undefined found e) = undefined_block (breaks_here found e)

  -- Over a lawful file system, for segments that lie in blocks that are alive, and a 32-bit sum: the
  -- loop returns, unless a decompression makes an access outside an array. Without an error it has
  -- appended to the file as many bytes as the segments have, printed nothing, and its sum is the
  -- CRC of those bytes, carried on from `c`; else it has printed one line, for a block whose status
  -- is not Ok or for a write that failed. The blocks stay alive and keep their sizes.
  pub write_segments_lem :
      (s : Shell files.State) (gs : List Segment) (c : Crc32)
      → AllAlive s.store
      → Fit (sizes s.store) gs
      → c.sum < 2 ^ 32
      → WriteResult s gs c (write_segments files f gs c s)
  unfolding write_segments
  write_segments_lem s [] c alive fit bound =
      complete [] (record { alive = alive; same_sizes = refl }) (sym (append-nil _)) refl
        (sym (calc_nil c)) refl
  write_segments_lem s (g ∷ gs) c alive fit bound =
      after_data s g gs c bound
        (λ xs t alive' same.
          write_segments_lem t gs (calc xs c).1 alive' (subst (λ ns. Fit ns gs) (sym same) fit.1)
            (calc_sum-lt c xs bound))
        (segment_data g s.store) refl (segment_data_lem s.store g alive fit.0)
