-- ===== src/Mapped/Handles.antt =====
-- Which descriptors and mappings are open before and after `for_file`, and what is mapped.
use cxx_unlzx.Base.{
  ℕ, ◌+◌, ◌-◌, ◌^◌, ◌<◌, ◌≡◌, refl, sym, ap, ◌∙◌, arith, ◌&&◌, List, Option, none, some, length,
  take_all, ◌==◌, if◌then◌else◌,
}
use cxx_unlzx.Base.Octets.{AllBytes}
use cxx_unlzx.Status.{file_open_error, file_map_error}
use cxx_unlzx.Exec.{Outcome, done, fail, bind_outcome, ◌>>=◌, modify}
use cxx_unlzx.Mapped.{
  Mapping, Os, MmapInputBuffer, get, Host, destroy, for_file, call, or_raise, or_close, reset,
}

abbrev one_of : ℕ → ℕ → ℕ
one_of fd j = if j == fd then 1 else 0

abbrev opened_by : Option ℕ → ℕ → ℕ
opened_by none j = 0
opened_by (some fd) j = one_of fd j

abbrev one_at : ℕ → ℕ → ℕ → ℕ → ℕ
one_at a n j k = if j == a && k == n then 1 else 0

abbrev mapped_by : Option Mapping → ℕ → ℕ → ℕ → ℕ
mapped_by none n j k = 0
mapped_by (some m) n j k = one_at m.address n j k

-- What the calls are documented to do, while no one else changes the files. `handles` counts what
-- is open under a descriptor, `maps` the mappings with an address and a length; `file` are the bytes
-- of the file that a path names, and `contents` those of the file behind a descriptor. Of `munmap`
-- nothing is assumed but for the address and the length of a mapping that is there.
pub record IsLawful (os : Os) : Type 1 where
  pub handles : os.State → ℕ → ℕ
  pub maps : os.State → ℕ → ℕ → ℕ
  pub file : os.State → List ℕ → List ℕ
  pub contents : os.State → ℕ → List ℕ
  pub octets : (s : os.State) (p : List ℕ) → AllBytes (file s p)
  pub fits : (s : os.State) (p : List ℕ) → length (file s p) < 2 ^ 63
  pub open_handles :
      (p : List ℕ) (s : os.State) (j : ℕ)
      → handles (os.open_read p s).1 j ≡ handles s j + opened_by (os.open_read p s).0 j
  pub open_maps : (p : List ℕ) (s : os.State) (j k : ℕ) → maps (os.open_read p s).1 j k ≡ maps s j k
  pub open_contents :
      (p : List ℕ) (s : os.State) {fd : ℕ}
      → (os.open_read p s).0 ≡ some fd
      → contents (os.open_read p s).1 fd ≡ file s p
  pub fstat_handles : (fd : ℕ) (s : os.State) (j : ℕ) → handles (os.fstat fd s).1 j ≡ handles s j
  pub fstat_maps : (fd : ℕ) (s : os.State) (j k : ℕ) → maps (os.fstat fd s).1 j k ≡ maps s j k
  pub fstat_contents : (fd : ℕ) (s : os.State) → contents (os.fstat fd s).1 fd ≡ contents s fd
  pub fstat_size :
      (fd : ℕ) (s : os.State) {n : ℕ} → (os.fstat fd s).0 ≡ some n → n ≡ length (contents s fd)
  pub mmap_handles : (n fd : ℕ) (s : os.State) (j : ℕ) → handles (os.mmap n fd s).1 j ≡ handles s j
  pub mmap_maps :
      (n fd : ℕ) (s : os.State) (j k : ℕ)
      → maps (os.mmap n fd s).1 j k ≡ maps s j k + mapped_by (os.mmap n fd s).0 n j k
  pub mmap_contents :
      (n fd : ℕ) (s : os.State) {m : Mapping}
      → n ≡ length (contents s fd)
      → (os.mmap n fd s).0 ≡ some m
      → m.bytes ≡ contents s fd
  pub munmap_handles : (a n : ℕ) (s : os.State) (j : ℕ) → handles (os.munmap a n s) j ≡ handles s j
  pub munmap_maps :
      (a n : ℕ) (s : os.State)
      → 0 < maps s a n
      → (j k : ℕ) → maps (os.munmap a n s) j k ≡ maps s j k - one_at a n j k
  pub close_handles :
      (fd : ℕ) (s : os.State) (j : ℕ) → handles (os.close fd s) j ≡ handles s j - one_of fd j
  pub close_maps : (fd : ℕ) (s : os.State) (j k : ℕ) → maps (os.close fd s) j k ≡ maps s j k

module _ (os : Os) (law : IsLawful os) where
  -- The same files and mappings are open.
  pub record Balanced (s t : os.State) : Type 0 where
    pub handles : (j : ℕ) → law.handles t j ≡ law.handles s j
    pub maps : (j k : ℕ) → law.maps t j k ≡ law.maps s j k

  -- `open` or `fstat` has failed.
  pub data Unopened (p : List ℕ) (s : os.State) : Type 0 where
    not_open : (os.open_read p s).0 ≡ none → Unopened p s
    no_stat :
        {fd : ℕ}
        → (os.open_read p s).0 ≡ some fd
        → (os.fstat fd (os.open_read p s).1).0 ≡ none
        → Unopened p s

  -- `mmap` has failed.
  pub data Unmapped (p : List ℕ) (s : os.State) : Type 0 where
    no_map :
        {fd n : ℕ}
        → (os.open_read p s).0 ≡ some fd
        → (os.fstat fd (os.open_read p s).1).0 ≡ some n
        → (os.mmap n fd (os.fstat fd (os.open_read p s).1).1).0 ≡ none
        → Unmapped p s

  -- What `for_file` comes to, where nothing was mapped before.
  pub data MapResult (p : List ℕ) (s : os.State) : Outcome (Host os) (Unit {0}) → Type 0 where
    mapped :
        {h : Host os} (m : MmapInputBuffer)
        → h.out ≡ some m
        → (get m).bytes ≡ law.file s p
        → Balanced s (destroy os m h.system)
        → MapResult p s (done tt h)
    unopened :
        {h : Host os}
        → h.out ≡ none
        → Unopened p s
        → Balanced s h.system
        → MapResult p s (fail file_open_error h)
    unmapped :
        {h : Host os}
        → h.out ≡ none
        → Unmapped p s
        → Balanced s h.system
        → MapResult p s (fail file_map_error h)

  -- One file more is open than in `s`.
  record Held (s : os.State) (fd : ℕ) (t : os.State) : Type 0 where
    handles : (j : ℕ) → law.handles t j ≡ law.handles s j + one_of fd j
    maps : (j k : ℕ) → law.maps t j k ≡ law.maps s j k

  closed : {s t : os.State} (fd : ℕ) → Held s fd t → Balanced s (os.close fd t)
  closed {s} {t} fd h = record {
    handles = λ j. law.close_handles fd t j ∙ (omega (arith, h.handles j));
    maps = λ j k. law.close_maps fd t j k ∙ h.maps j k;
  }

  -- The destructor gives back the mapping, which is there, and the file.
  given_back :
      {s : os.State} (n fd : ℕ) (t : os.State) (m : Mapping)
      → Held s fd t
      → (os.mmap n fd t).0 ≡ some m
      → Balanced s (destroy os (record { fd = fd; data_ = m; filesize = n }) (os.mmap n fd t).1)
  unfolding destroy
  given_back {s} n fd t m held e =
      let added : (j k : ℕ)
          → law.maps (os.mmap n fd t).1 j k ≡ law.maps t j k + one_at m.address n j k =
        λ j k. law.mmap_maps n fd t j k ∙ ap (λ o. law.maps t j k + mapped_by o n j k) e in
      let there : 0 < law.maps (os.mmap n fd t).1 m.address n =
        (let one : one_at m.address n m.address n ≡ 1 = ground arith in
          omega (arith, added m.address n, one)) in
      record {
        handles = λ j. omega (
          arith,
          law.close_handles fd (os.munmap m.address n (os.mmap n fd t).1) j,
          law.munmap_handles m.address n (os.mmap n fd t).1 j,
          law.mmap_handles n fd t j,
          held.handles j,
        );
        maps = λ j k. omega (
          arith,
          law.close_maps fd (os.munmap m.address n (os.mmap n fd t).1) j k,
          law.munmap_maps m.address n (os.mmap n fd t).1 there j k,
          added j k,
          held.maps j k,
        );
      }

  module _ (p : List ℕ) (s : os.State) (fd : ℕ) (opened : (os.open_read p s).0 ≡ some fd) where
    abbrev at_open : os.State
    at_open = (os.open_read p s).1

    abbrev at_stat : os.State
    at_stat = (os.fstat fd at_open).1

    held : Held s fd at_stat
    held = record {
      handles = λ j.
          law.fstat_handles fd at_open j
          ∙ law.open_handles p s j
          ∙ ap (λ o. law.handles s j + opened_by o j) opened;
      maps = λ j k. law.fstat_maps fd at_open j k ∙ law.open_maps p s j k;
    }

    after_mmap :
        (n : ℕ) (r : Option Mapping)
        → (os.fstat fd at_open).0 ≡ some n
        → (os.mmap n fd at_stat).0 ≡ r
        → MapResult p s (
            bind_outcome
              (or_close os fd file_map_error r
                (record { system = (os.mmap n fd at_stat).1; out = none }))
              (λ m. modify (reset os (record { fd = fd; data_ = m; filesize = n }))))
    after_mmap n none size e = unmapped refl (no_map opened size e) (
        closed fd (record {
          handles = λ j. law.mmap_handles n fd at_stat j ∙ held.handles j;
          maps = λ j k.
              omega (
                arith,
                law.mmap_maps n fd at_stat j k,
                ap (λ o. mapped_by o n j k) e,
                held.maps j k,
              );
        }))
    after_mmap n (some m) size e =
        let same : law.contents at_stat fd ≡ law.file s p =
          law.fstat_contents fd at_open ∙ law.open_contents p s opened in
        let full : n ≡ length (law.contents at_stat fd) =
          law.fstat_size fd at_open size ∙ ap length (sym (law.fstat_contents fd at_open)) in
        let seen : m.bytes ≡ law.contents at_stat fd = law.mmap_contents n fd at_stat full e in
        mapped (record { fd = fd; data_ = m; filesize = n }) refl
          (take_all n m.bytes (omega (arith, full, ap length seen)) ∙ seen ∙ same)
          (given_back n fd at_stat m held e)

    after_fstat :
        (r : Option ℕ)
        → (os.fstat fd at_open).0 ≡ r
        → MapResult p s (
            bind_outcome
              (or_close os fd file_open_error r (record { system = at_stat; out = none }))
              (λ n. call os (os.mmap n fd) >>= λ o. or_close os fd file_map_error o >>= λ m.
                modify (reset os (record { fd = fd; data_ = m; filesize = n }))))
    after_fstat none e = unopened refl (no_stat opened e) (closed fd held)
    after_fstat (some n) e = after_mmap n (os.mmap n fd at_stat).0 e refl

  after_open :
      (p : List ℕ) (s : os.State) (r : Option ℕ)
      → (os.open_read p s).0 ≡ r
      → MapResult p s (
          bind_outcome
            (or_raise os file_open_error r (record { system = (os.open_read p s).1; out = none }))
            (λ fd. call os (os.fstat fd) >>= λ stat. or_close os fd file_open_error stat >>= λ n.
              call os (os.mmap n fd) >>= λ o. or_close os fd file_map_error o >>= λ m.
              modify (reset os (record { fd = fd; data_ = m; filesize = n }))))
  after_open p s none e = unopened refl (not_open e) (record {
    handles = λ j. omega (arith, law.open_handles p s j, ap (λ o. opened_by o j) e);
    maps = law.open_maps p s;
  })
  after_open p s (some fd) e = after_fstat p s fd e (os.fstat fd (os.open_read p s).1).0 refl

  -- Over a lawful system and with nothing mapped before: `for_file` maps the file that the path
  -- names, so that the buffer that `get` gives is over the bytes of the file, and then destroying
  -- it leaves open and mapped what was so before the call; or, where open or fstat fails, it fails
  -- with FileOpenError, and where mmap fails, with FileMapError, maps nothing and leaves open and
  -- mapped what was so.
  pub for_file_lem :
      (p : List ℕ) (s : os.State)
      → MapResult p s (for_file os p (record { system = s; out = none }))
  unfolding for_file
  for_file_lem p s = after_open p s (os.open_read p s).0 refl
