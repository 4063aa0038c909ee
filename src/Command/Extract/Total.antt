-- ===== src/Command/Extract/Total.antt =====
-- `handle_extract` as a whole: it comes to an end.
use mathlib.Core.Path.{subst}
use cxx_unlzx.Base.{
  ℕ, ◌≤◌, ◌≡◌, sym, ap, ◌∙◌, refl, arith, Bool, true, false, ◌&&◌, if◌then◌else◌, List, [], ◌∷◌,
  Option, none, some, ◌==◌,
}
use cxx_unlzx.Base.Dict.{Dict, AllValues}
use cxx_unlzx.Exec.{
  Outcome, done, fail, fault, exhausted, bind_outcome, ◌>>=◌, or_fault, pure, modify,
}
use cxx_unlzx.Exec.Ensures.{Ensures, Ensures-bind, Ensures-if, Ensures-fault}
use cxx_unlzx.File.{LzxEntry, entry_unpack_size}
use cxx_unlzx.File.Reads.{sizes, AllAlive}
use cxx_unlzx.Archive.Bounds.{Fit}
use cxx_unlzx.Command.{Shell}
use cxx_unlzx.Command.Extract.{
  Files, is_nil, parent_path, ends_with_slash, make_directories, open_file, make_parent,
  write_entry, write_opened, extract_directory, extract_file, extract_entry, handle_extract,
}
use cxx_unlzx.Command.Extract.Writes.{IsLawful, Breaks}
use cxx_unlzx.Command.Extract.Verdict.{
  EntryWritten, told, in_error, undefined_entry, write_entry_lem,
}

abbrev is_directory : List ℕ → LzxEntry → Bool
is_directory name e = entry_unpack_size e == 0 && ends_with_slash name

module _ (files : Files) where
  -- Why an entry may not be extracted: `create_directories` throws for the directory that it is, or
  -- for its parent; or its file is open and the loop over its segments comes to a block that is
  -- decompressed with an access outside an array.
  pub data Halts (name : List ℕ) (e : LzxEntry) (s : Shell files.State) : Type 0 where
    no_directory :
        is_directory name e ≡ true → files.create_directories e.path s.own ≡ none → Halts name e s
    no_parent :
        is_directory name e ≡ false
        → is_nil (parent_path e.path) ≡ false
        → files.create_directories (parent_path e.path) s.own ≡ none
        → Halts name e s
    in_segments :
        {t : Shell files.State} {f : files.Stream}
        → is_directory name e ≡ false
        → make_parent files e s ≡ done tt t
        → (files.open_out e.path t.own).0 ≡ some f
        → Breaks files f e.segments t.store (files.open_out e.path t.own).1
        → Halts name e s

  -- The first entry that cannot be extracted, after those before it have been.
  pub data HaltsAt : Dict LzxEntry → Shell files.State → Type 0 where
    halts_here :
        {name : List ℕ} {e : LzxEntry} {es : Dict LzxEntry} {s : Shell files.State}
        → Halts name e s
        → HaltsAt ((name, e) ∷ es) s
    halts_later :
        {name : List ℕ} {e : LzxEntry} {es : Dict LzxEntry} {s t : Shell files.State}
        → extract_entry files name e s ≡ done true t
        → HaltsAt es t
        → HaltsAt ((name, e) ∷ es) s

module _ (files : Files) (law : IsLawful files) (ns : List ℕ) where
  -- The blocks are alive and have the sizes `ns`.
  pub record Fine (s : Shell files.State) : Type 0 where
    pub alive : AllAlive s.store
    pub sized : sizes s.store ≡ ns

  abbrev Stays {ℓ} : {A : Type ℓ} → Type 0 → Outcome (Shell files.State) A → Type 0
  Stays F = Ensures (λ _ s. Fine s) (λ _. ⊥) F

  -- The blocks are those of before.
  abbrev Leaves {ℓ} :
      {A : Type ℓ} → Shell files.State → Type 0 → Outcome (Shell files.State) A → Type 0
  Leaves s F = Ensures (λ _ t. t.store ≡ s.store) (λ _. ⊥) F

  same-Fine : {s t : Shell files.State} → t.store ≡ s.store → Fine s → Fine t
  same-Fine q h = record { alive = subst AllAlive (sym q) h.alive; sized = ap sizes q ∙ h.sized }

  make_directories-Leaves :
      (p : List ℕ) (s : Shell files.State)
      → Leaves s (files.create_directories p s.own ≡ none) (make_directories files p s)
  unfolding make_directories
  make_directories-Leaves p s = made (files.create_directories p s.own) refl
    where
      made :
          (o : Option files.State)
          → files.create_directories p s.own ≡ o
          → Leaves s
              (files.create_directories p s.own ≡ none)
              (bind_outcome (or_fault o s) (λ t. modify (λ x. record x { own = t })))
      made none e = e
      made (some t) e = refl

  written-Stays :
      {f : files.Stream} (s : Shell files.State) (name : List ℕ) (e : LzxEntry)
      (o : Outcome (Shell files.State) (Unit {0}))
      → Fine s
      → EntryWritten files law f s name e o
      → Stays (Breaks files f e.segments s.store s.own) o
  written-Stays s name e o h (told xs same _ _ _) = record {
    alive = same.alive;
    sized = same.same_sizes ∙ h.sized;
  }
  written-Stays s name e o h (in_error same _) = record {
    alive = same.alive;
    sized = same.same_sizes ∙ h.sized;
  }
  written-Stays s name e o h (undefined_entry broken) = broken

  write_opened-Stays :
      (name : List ℕ) (e : LzxEntry) (o : Option files.Stream) (s : Shell files.State) (F : Type 0)
      → Fit ns e.segments
      → Fine s
      → ((f : files.Stream) → o ≡ some f → Breaks files f e.segments s.store s.own → F)
      → Stays F (write_opened files name e o s)
  write_opened-Stays name e none s F fit h k = record { alive = h.alive; sized = h.sized }
  write_opened-Stays name e (some f) s F fit h k =
      Ensures-fault (λ _ t. Fine t) (λ _. ⊥) (Breaks files f e.segments s.store s.own) F _
        (k f refl)
        (Ensures-bind (λ _ t. Fine t) (λ _ t. Fine t) (λ _. ⊥)
          (Breaks files f e.segments s.store s.own) (write_entry files name e f s) _
          (written-Stays s name e _ h (
            write_entry_lem files law f s name e h.alive
              (subst (λ ms. Fit ms e.segments) (sym h.sized) fit)))
          (λ _ t g. g))

  make_parent-Leaves :
      (name : List ℕ) (e : LzxEntry) (s : Shell files.State)
      → is_directory name e ≡ false
      → Leaves s (Halts files name e s) (make_parent files e s)
  unfolding make_parent
  make_parent-Leaves name e s plain =
      Ensures-if (λ _ t. t.store ≡ s.store) (λ _. ⊥) (Halts files name e s)
        (is_nil (parent_path e.path)) _ _ s (λ _. refl)
        (λ some_parent.
          Ensures-fault (λ _ t. t.store ≡ s.store) (λ _. ⊥)
            (files.create_directories (parent_path e.path) s.own ≡ none) (Halts files name e s) _
            (no_parent plain some_parent) (make_directories-Leaves (parent_path e.path) s))

  -- The file, after the directory of its parent.
  after_parent :
      (name : List ℕ) (e : LzxEntry) (s : Shell files.State)
      (o : Outcome (Shell files.State) (Unit {0}))
      → is_directory name e ≡ false
      → Fit ns e.segments
      → Fine s
      → make_parent files e s ≡ o
      → Leaves s (Halts files name e s) o
      → Stays (Halts files name e s) (
          bind_outcome o
            (λ _. open_file files e.path >>= λ opened. write_opened files name e opened))
  unfolding open_file
  after_parent name e s (done _ t) plain fit h made same =
      write_opened-Stays name e (files.open_out e.path t.own).0
        (record t { own = (files.open_out e.path t.own).1 }) (Halts files name e s) fit
        (same-Fine same h) (λ f opened b. in_segments plain made opened b)
  after_parent name e s (fail _ _) plain fit h made same = same
  after_parent name e s fault plain fit h made same = same
  after_parent name e s exhausted plain fit h made same = same

  extract_file-Stays :
      (name : List ℕ) (e : LzxEntry) (s : Shell files.State)
      → is_directory name e ≡ false
      → Fit ns e.segments
      → Fine s
      → Stays (Halts files name e s) (extract_file files name e s)
  unfolding extract_file
  extract_file-Stays name e s plain fit h =
      after_parent name e s (make_parent files e s) plain fit h refl
        (make_parent-Leaves name e s plain)

  extract_entry-Stays :
      (name : List ℕ) (e : LzxEntry) (s : Shell files.State)
      → Fit ns e.segments
      → Fine s
      → Stays (Halts files name e s) (extract_entry files name e s)
  unfolding extract_entry extract_directory
  extract_entry-Stays name e s fit h =
      Ensures-if (λ _ t. Fine t) (λ _. ⊥) (Halts files name e s) (is_directory name e) _ _ s
        (λ directory.
          Ensures-bind (λ _ t. t.store ≡ s.store) (λ _ t. Fine t) (λ _. ⊥) (Halts files name e s)
            (bind_outcome (make_directories files e.path s) _) _
            (Ensures-bind (λ _ t. t.store ≡ s.store) (λ _ t. t.store ≡ s.store) (λ _. ⊥)
              (Halts files name e s) (make_directories files e.path s) _
              (Ensures-fault (λ _ t. t.store ≡ s.store) (λ _. ⊥)
                (files.create_directories e.path s.own ≡ none) (Halts files name e s) _
                (no_directory directory) (make_directories-Leaves e.path s))
              (λ _ t q. q))
            (λ _ t q. same-Fine q h))
        (λ plain. extract_file-Stays name e s plain fit h)

  -- The rest of the loop, after an entry.
  after_entry :
      (name : List ℕ) (e : LzxEntry) (es : Dict LzxEntry) (s : Shell files.State)
      (o : Outcome (Shell files.State) Bool)
      → extract_entry files name e s ≡ o
      → Stays (Halts files name e s) o
      → ((t : Shell files.State)
          → Fine t
          → Ensures
              (λ code u. (code ≤ 1) × Fine u)
              (λ _. ⊥)
              (HaltsAt files es t)
              (handle_extract files es t))
      → Ensures
          (λ code u. (code ≤ 1) × Fine u)
          (λ _. ⊥)
          (HaltsAt files ((name, e) ∷ es) s)
          (bind_outcome o (λ more. if more then handle_extract files es else pure 1))
  after_entry name e es s (done true t) q h k =
      Ensures-fault (λ code u. (code ≤ 1) × Fine u) (λ _. ⊥) (HaltsAt files es t)
        (HaltsAt files ((name, e) ∷ es) s) _ (halts_later q) (k t h)
  after_entry name e es s (done false t) q h k = (omega arith, h)
  after_entry name e es s (fail _ _) q h k = h
  after_entry name e es s fault q h k = halts_here h
  after_entry name e es s exhausted q h k = h

  -- Over a lawful file system and blocks that are alive, for entries whose segments lie in them:
  -- `handle_extract` returns 0 or 1, unless, after the entries before it have been extracted, an
  -- entry comes to a block that is decompressed with an access outside an array, or to a directory
  -- for which `create_directories` throws. The blocks stay alive and keep their sizes.
  pub handle_extract_lem :
      (es : Dict LzxEntry) (s : Shell files.State)
      → AllValues (λ e. Fit ns e.segments) es
      → Fine s
      → Ensures
          (λ code t. (code ≤ 1) × Fine t)
          (λ _. ⊥)
          (HaltsAt files es s)
          (handle_extract files es s)
  unfolding handle_extract
  handle_extract_lem [] s fit h = (omega arith, h)
  handle_extract_lem ((name, e) ∷ es) s fit h =
      after_entry name e es s (extract_entry files name e s) refl
        (extract_entry-Stays name e s fit.0 h) (λ t g. handle_extract_lem es t fit.1 g)
