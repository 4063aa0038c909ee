-- ===== src/Archive/Open.antt =====
-- `Unlzx::open_archive`, over any operating system.
use cxx_unlzx.Base.{
  ℕ, ◌≤◌, ◌<◌, ◌≡◌, refl, arith, Bool, true, false, not, ◌||◌, Bool-cases, inl, inr, List, Option,
  none, some, length, take, get_or, get_or-take, ◌==◌, if◌then◌else◌,
}
use cxx_unlzx.Status.{not_lzx_file, unexpected_eof, file_open_error, file_map_error}
use cxx_unlzx.Exec.{
  Outcome, Exec, done, fail, fault, bind_outcome, ◌>>=◌, ◌>>◌, pure, raise, modify, focus, embed,
}
use cxx_unlzx.Input.{InputBuffer, over, read_into}
use cxx_unlzx.Input.Stream.{IsValid, over-IsValid}
use cxx_unlzx.Input.Bytes.{SpanResult, next_bytes, past, read_into_lem}
use cxx_unlzx.Input.Bytes
use cxx_unlzx.Mapped.{Os, MmapInputBuffer, Host, get, destroy, for_file}
use cxx_unlzx.Mapped.Handles.{IsLawful, MapResult, Unopened, Unmapped, Balanced, for_file_lem}
use cxx_unlzx.Mapped.Handles

module _ (os : Os) where
  -- The object, and the system that it calls.
  pub record Unlzx : Type 0 where
    pub host : Host os
    pub in_buffer : Option InputBuffer

  abbrev pub on_host {ℓ} : {A : Type ℓ} → Exec (Host os) A → Exec Unlzx A
  on_host = focus (λ u. u.host) (λ u h. record u { host = h })

  -- in_buffer_ = mmap_buffer_->get()
  abbrev pub set_buffer : Unlzx → Unlzx
  set_buffer u = record u { in_buffer = buffer_of u.host.out }
    where
      buffer_of : Option MmapInputBuffer → Option InputBuffer
      buffer_of none = none
      buffer_of (some m) = some (get m)

  -- A method of `*in_buffer_`: undefined where there is none.
  abbrev in_buffer_of {ℓ} :
      {A : Type ℓ} → Exec InputBuffer A → Unlzx → Option InputBuffer → Outcome Unlzx A
  in_buffer_of m u none = fault
  in_buffer_of m u (some b) = embed (λ v c. record v { in_buffer = some c }) u (m b)

  abbrev pub on_in_buffer {ℓ} : {A : Type ℓ} → Exec InputBuffer A → Exec Unlzx A
  on_in_buffer m u = in_buffer_of m u u.in_buffer

  -- 'L', 'Z', 'X'
  unfoldable pub check_magic : List ℕ → Exec Unlzx (Unit {0})
  check_magic header =
      if not (get_or header 0 0 == 76)
        || not (get_or header 1 0 == 90)
        || not (get_or header 2 0 == 88)
      then raise not_lzx_file
      else pure tt

  unfoldable pub open_archive : List ℕ → Exec Unlzx (Unit {0})
  open_archive filename = do
    on_host (for_file os filename)
    modify set_buffer
    header ← on_in_buffer (read_into 10)
    check_magic header

abbrev pub Magic : List ℕ → Type 0
Magic xs = (get_or xs 0 0 ≡ 76) × (get_or xs 1 0 ≡ 90) × (get_or xs 2 0 ≡ 88)

module _ (os : Os) (law : IsLawful os) where
  -- The mapping that the object keeps shows the file, and its destructor gives back what `s` did
  -- not have.
  pub record Keeps (p : List ℕ) (s : os.State) (m : MmapInputBuffer) (u : Unlzx os) : Type 0 where
    pub out : u.host.out ≡ some m
    pub same_file : (get m).bytes ≡ law.file s p
    pub balanced : Balanced os law s (destroy os m u.host.system)

  pub data OpenResult (p : List ℕ) (s : os.State) : Outcome (Unlzx os) (Unit {0}) → Type 0 where
    opened :
        {u : Unlzx os} (m : MmapInputBuffer)
        → Keeps p s m u
        → u.in_buffer ≡ some (past 10 (over (law.file s p)))
        → IsValid (past 10 (over (law.file s p)))
        → Magic (law.file s p)
        → OpenResult p s (done tt u)
    other_file :
        {u : Unlzx os} (m : MmapInputBuffer)
        → Keeps p s m u
        → 10 ≤ length (law.file s p)
        → ¬ Magic (law.file s p)
        → OpenResult p s (fail not_lzx_file u)
    short :
        {u : Unlzx os} (m : MmapInputBuffer)
        → Keeps p s m u
        → length (law.file s p) < 10
        → OpenResult p s (fail unexpected_eof u)
    unopened :
        {u : Unlzx os}
        → u.host.out ≡ none
        → u.in_buffer ≡ none
        → Unopened os law p s
        → Balanced os law s u.host.system
        → OpenResult p s (fail file_open_error u)
    unmapped :
        {u : Unlzx os}
        → u.host.out ≡ none
        → u.in_buffer ≡ none
        → Unmapped os law p s
        → Balanced os law s u.host.system
        → OpenResult p s (fail file_map_error u)

  refuses : ℕ → ℕ → ℕ → Bool
  refuses a b c = not (a == 76) || not (b == 90) || not (c == 88)

  refuses-true : (a b c : ℕ) → refuses a b c ≡ true → ¬ ((a ≡ 76) × (b ≡ 90) × (c ≡ 88))
  unfolding refuses
  refuses-true a b c h (x, y, z) = ground (arith, h, x, y, z)

  refuses-false : (a b c : ℕ) → refuses a b c ≡ false → (a ≡ 76) × (b ≡ 90) × (c ≡ 88)
  unfolding refuses
  refuses-false a b c h = (
    (let e : a ≡ 76 = ground arith in e),
    (let e : b ≡ 90 = ground arith in e),
    (let e : c ≡ 88 = ground arith in e),
  )

  check_lem :
      (p : List ℕ) (s : os.State) (xs : List ℕ) (u : Unlzx os)
      → (Magic xs → OpenResult p s (done tt u))
      → (¬ Magic xs → OpenResult p s (fail not_lzx_file u))
      → OpenResult p s (check_magic os (take 10 xs) u)
  unfolding check_magic refuses
  check_lem p s xs u fits differs =
      rw
        (
          get_or-take 10 xs 0 0 (omega arith),
          get_or-take 10 xs 1 0 (omega arith),
          get_or-take 10 xs 2 0 (omega arith),
        )
        (elim (Bool-cases (refuses (get_or xs 0 0) (get_or xs 1 0) (get_or xs 2 0))) [
          | inl other ↦
              rw other
                (differs (refuses-true (get_or xs 0 0) (get_or xs 1 0) (get_or xs 2 0) other))
          | inr good ↦
              rw good (fits (refuses-false (get_or xs 0 0) (get_or xs 1 0) (get_or xs 2 0) good))
        ])

  after_read :
      (p : List ℕ) (s : os.State) (m : MmapInputBuffer) (u : Unlzx os)
      (o : Outcome InputBuffer (List ℕ))
      → Keeps p s m u
      → SpanResult (λ xs. xs) 10 (over (law.file s p)) o
      → OpenResult p s
          (bind_outcome (embed (λ v c. record v { in_buffer = some c }) u o) (check_magic os))
  after_read p s m u o k (Bytes.SpanResult.got _ there a b v) =
      rw (a, b)
        (check_lem p s (law.file s p)
          (record u { in_buffer = some (past 10 (over (law.file s p))) })
          (λ magic. opened m (keeps k) refl (rw b at v) magic)
          (λ other. other_file m (keeps k) (omega (arith, there)) other))
    where
      keeps : {b : Option InputBuffer} → Keeps p s m u → Keeps p s m (record u { in_buffer = b })
      keeps k = record { out = k.out; same_file = k.same_file; balanced = k.balanced }
  after_read p s m u o k (Bytes.SpanResult.misaligned used) = absurd (omega (arith, used))
  after_read p s m u o k (Bytes.SpanResult.short _ beyond) =
      short m (record { out = k.out; same_file = k.same_file; balanced = k.balanced })
        (omega (arith, beyond))

  after_map :
      (p : List ℕ) (s : os.State) (o : Outcome (Host os) (Unit {0}))
      → MapResult os law p s o
      → OpenResult p s (
          bind_outcome
            (embed
              (λ u h. record u { host = h })
              (record { host = record { system = s; out = none }; in_buffer = none })
              o)
            (λ _.
              modify (set_buffer os)
              >> (on_in_buffer os (read_into 10) >>= λ header. check_magic os header)))
  after_map p s o (Handles.MapResult.mapped {h} m out file balanced) =
      rw (out, file)
        (after_read p s m
          (record { host = record h { out = some m }; in_buffer = some (over (law.file s p)) })
          (read_into 10 (over (law.file s p)))
          (record { out = refl; same_file = file; balanced = balanced })
          (read_into_lem 10 (over (law.file s p))
            (over-IsValid (law.file s p) (law.octets s p) (law.fits s p)) (omega arith)))
  after_map p s o (Handles.MapResult.unopened out why b) = unopened out refl why b
  after_map p s o (Handles.MapResult.unmapped out why b) = unmapped out refl why b

  -- Over a lawful system, for an object that has opened nothing: where open or fstat fails,
  -- `open_archive` fails with FileOpenError, and where mmap fails, with FileMapError, and keeps
  -- nothing open; for a file of less than 10 bytes it fails with UnexpectedEof; where the file
  -- does not begin with LZX, with NotLzxFile; and else it returns Ok with a valid buffer over the
  -- bytes of the file that stands after the first 10. In the last three cases destroying the
  -- mapping that it keeps leaves open and mapped what was so before.
  pub open_archive_lem :
      (filename : List ℕ) (s : os.State)
      → OpenResult filename s (
          open_archive os filename
            (record { host = record { system = s; out = none }; in_buffer = none }))
  unfolding open_archive
  open_archive_lem filename s =
      after_map filename s (for_file os filename (record { system = s; out = none }))
        (for_file_lem os law filename s)
