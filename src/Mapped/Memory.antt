-- ===== src/Mapped/Memory.antt =====
-- A system with one file, which meets the assumptions.
use cxx_unlzx.Base.{
  ℕ, ◌+◌, ◌-◌, ◌^◌, ◌<◌, ◌≡◌, refl, sym, ap, true, arith, List, none, some, length, ◌&&◌, ◌==◌,
  if◌then◌else◌,
}
use cxx_unlzx.Base.Names.{same}
use cxx_unlzx.Base.Octets.{AllBytes}
use cxx_unlzx.Mapped.{Mapping, Os}
use cxx_unlzx.Mapped.Handles.{IsLawful}

-- How often the file is open, and how often it is mapped.
pub record Counts : Type 0 where
  pub opened : ℕ
  pub mapped : ℕ

abbrev whole_map : List ℕ → Mapping
whole_map file = record { address = 4096; bytes = file }

abbrev pub memory_os : List ℕ → List ℕ → Os
memory_os path file = record {
  State = Counts;
  open_read =
      λ p s. if same p path then (some 3, record s { opened = s.opened + 1 }) else (none, s);
  fstat = λ fd s. (some (length file), s);
  mmap = λ n fd s.
      if n == length file
      then (some (whole_map file), record s { mapped = s.mapped + 1 })
      else (none, s);
  munmap = λ a n s. if a == 4096 && n == length file then record s { mapped = s.mapped - 1 } else s;
  close = λ fd s. if fd == 3 then record s { opened = s.opened - 1 } else s;
}

pub memory_os-IsLawful :
    (path file : List ℕ) → AllBytes file → length file < 2 ^ 63 → IsLawful (memory_os path file)
memory_os-IsLawful path file octets fits = record {
  handles = λ s j. if j == 3 then s.opened else 0;
  maps = λ s j k. if j == 4096 && k == length file then s.mapped else 0;
  file = λ _ _. file;
  contents = λ _ _. file;
  octets = λ _ _. octets;
  fits = λ _ _. fits;
  open_handles = λ p s j. ground arith;
  open_maps = λ p s j k. ground arith;
  open_contents = λ p s e. refl;
  fstat_handles = λ _ _ _. refl;
  fstat_maps = λ _ _ _ _. refl;
  fstat_contents = λ _ _. refl;
  fstat_size = λ fd s e. cc;
  mmap_handles = λ n fd s j. ground arith;
  mmap_maps = λ n fd s j k. ground arith;
  mmap_contents = λ n fd s {m} full e.
      let whole : (n == length file) ≡ true = ground arith in
      let q : some (whole_map file) ≡ some m = rw whole at e in
      let r : whole_map file ≡ m = cc in ap (λ x. x.bytes) (sym r);
  munmap_handles = λ a n s j. ground arith;
  munmap_maps = λ a n s there j k. ground arith;
  close_handles = λ fd s j. ground arith;
  close_maps = λ fd s j k. ground arith;
}

pub memory_os-file :
    (path file : List ℕ) (octets : AllBytes file) (fits : length file < 2 ^ 63) (s : Counts)
    (p : List ℕ)
    → (memory_os-IsLawful path file octets fits).file s p ≡ file
unfolding memory_os-IsLawful
memory_os-file path file octets fits s p = refl
