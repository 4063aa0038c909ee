-- ===== src/Command/Main/Listed.antt =====
-- A run of the command over an archive that has been listed.
use cxx_unlzx.Base.{
  ℕ, zero, suc, ◌≤◌, ◌≡◌, refl, arith, Bool, true, false, List, [], ◌∷◌, Option, none, some,
}
use cxx_unlzx.Base.Dict.{Dict, AllValues, AllValues-lookup}
use cxx_unlzx.Exec.{Outcome, done, fail, fault, exhausted}
use cxx_unlzx.Exec.Ensures.{Ensures, Ensures-fault}
use cxx_unlzx.Input.{InputBuffer}
use cxx_unlzx.File.{LzxEntry}
use cxx_unlzx.File.Reads.{sizes, AllAlive}
use cxx_unlzx.File.Broken.{Broken}
use cxx_unlzx.Archive.{Archive}
use cxx_unlzx.Archive.Refines.{IsListing}
use cxx_unlzx.Archive.Bounds.{Fit, listing-AllAlive, listing-Fit}
use cxx_unlzx.Mapped.{Os}
use cxx_unlzx.Command.{Shell}
use cxx_unlzx.Command.Filter.{Regexes, FilteredEntries, new_filter, visited}
use cxx_unlzx.Command.Filter.Select.{wanted, keep, select}
use cxx_unlzx.Command.Filter.Filters.{visited-select}
use cxx_unlzx.Command.Show.{handle_list, handle_view}
use cxx_unlzx.Command.Show.Total.{Counted, segments_of, handle_list_lem, handle_view_lem}
use cxx_unlzx.Command.Extract.{Files, handle_extract}
use cxx_unlzx.Command.Extract.Writes
use cxx_unlzx.Command.Extract.Total.{HaltsAt, Fine, handle_extract_lem}
use cxx_unlzx.Command.Main.Stops.{
  Stops, bad_pattern, bad_search, in_view, in_extract, chosen, new_filter-none, chosen-Throws,
}
use cxx_unlzx.Command.Main.{
  Action, list, extract, view, Getopt, World, handled, dispatch, or_stop, then_throw, run_archive,
  run_listed,
}

keep-AllValues :
    (P : LzxEntry → Type 0) (o : Option Bool) (e : List ℕ × LzxEntry) (rest : Dict LzxEntry × Bool)
    → P e.1
    → AllValues P rest.0
    → AllValues P (keep o e rest).0
keep-AllValues P none e rest h k = tt
keep-AllValues P (some true) e rest h k = (h, k)
keep-AllValues P (some false) e rest h k = k

select-AllValues :
    (P : LzxEntry → Type 0) (p : List ℕ → Option Bool) (es : Dict LzxEntry)
    → AllValues P es
    → AllValues P (select p es).0
select-AllValues P p [] h = tt
select-AllValues P p (e ∷ es) h =
    keep-AllValues P (p e.0) e (select p es) h.0 (select-AllValues P p es h.1)

listing-AllFit :
    {b : InputBuffer} {a : Archive}
    → IsListing b a
    → AllValues (λ e. Fit (sizes a.blocks) e.segments) a.entries
listing-AllFit {a = a} l =
    AllValues-lookup (λ e. Fit (sizes a.blocks) e.segments) a.entries l.sorted
      (λ n e found. listing-Fit l n found)

module _ (os : Os) (files : Files) (lib : Regexes) (getopt : Getopt)
    (disk : Writes.IsLawful files) where
  -- A run over an open archive: the exit status, and nothing is done to the system. `F` is why it
  -- may stop.
  abbrev pub Runs : Type 0 → os.State → Outcome (World os files lib getopt) ℕ → Type 0
  Runs F s = Ensures (λ code w. (code ≤ 1) × (w.system ≡ s)) (λ _. ⊥) F

  handled_lem :
      {S : Type 0} (Q : ℕ → Shell S → Type 0) (F G : Type 0)
      (keeps : S → World os files lib getopt → World os files lib getopt)
      (w : World os files lib getopt) (o : Outcome (Shell S) ℕ)
      → Ensures Q (λ _. ⊥) F o
      → ((n : ℕ) (s : Shell S) → Q n s → n ≤ 1)
      → ((s : S) (v : World os files lib getopt) → (keeps s v).system ≡ v.system)
      → (F → G)
      → Runs G w.system (handled os files lib getopt keeps w o)
  handled_lem Q F G keeps w (done n s) h k l stop = (k n s h, l s.own _)
  handled_lem Q F G keeps w (fail _ _) h k l stop = absurd h
  handled_lem Q F G keeps w fault h k l stop = stop h
  handled_lem Q F G keeps w exhausted h k l stop = absurd h

  then_throw_lem :
      (F : Type 0) (s : os.State) (throws : Bool) (o : Outcome (World os files lib getopt) ℕ)
      → Runs F s o
      → (throws ≡ true → F)
      → Runs F s (then_throw os files lib getopt throws o)
  then_throw_lem F s false o h k = h
  then_throw_lem F s true (done zero w) h k = k refl
  then_throw_lem F s true (done (suc n) w) h k = h
  then_throw_lem F s true (fail _ _) h k = h
  then_throw_lem F s true fault h k = h
  then_throw_lem F s true exhausted h k = h

  module _ (use_regex : Bool) (names : List (List ℕ)) (a : Archive)
      (w : World os files lib getopt) where
    abbrev StopsAs : Action → Type 0
    StopsAs action = Stops files lib action use_regex names a w.out w.file_system

    abbrev taken : Dict LzxEntry × Bool
    taken = chosen lib use_regex names a.entries

    dispatch_lem :
        (action : Action)
        → AllAlive a.blocks
        → AllValues (λ e. Fit (sizes a.blocks) e.segments) taken.0
        → Runs (StopsAs action) w.system (dispatch os files lib getopt action a.blocks taken.0 w)
    unfolding dispatch
    dispatch_lem list alive fit =
        handled_lem (λ code t. (code ≡ 0) × Counted taken.0 _ t) ⊥ (StopsAs list) (λ _ v. v) w
          (handle_list taken.0 _) (handle_list_lem taken.0 _ refl refl)
          (λ n s h. omega (arith, h.0)) (λ _ _. refl) (λ h. absurd h)
    dispatch_lem view alive fit =
        handled_lem (λ code _. code ≡ 0) (Broken (segments_of taken.0) a.blocks) (StopsAs view)
          (λ _ v. v) w (handle_view taken.0 _)
          (handle_view_lem (sizes a.blocks) taken.0 _ fit (record { alive = alive; sized = refl }))
          (λ n s h. omega (arith, h)) (λ _ _. refl) (in_view refl)
    dispatch_lem extract alive fit =
        handled_lem (λ code t. (code ≤ 1) × Fine files disk (sizes a.blocks) t)
          (HaltsAt files taken.0 (record { store = a.blocks; out = w.out; own = w.file_system }))
          (StopsAs extract) (λ s v. record v { file_system = s }) w (handle_extract files taken.0 _)
          (handle_extract_lem files disk (sizes a.blocks) taken.0 _ fit
            (record { alive = alive; sized = refl }))
          (λ n s h. h.0) (λ _ _. refl) (in_extract refl)

    run_archive_lem :
        (action : Action) {b : InputBuffer}
        → IsListing b a
        → Runs
            (StopsAs action)
            w.system
            (run_archive os files lib getopt action use_regex names a w)
    unfolding run_archive
    run_archive_lem action l = filtered (new_filter lib a.entries names use_regex) refl
      where
        filtered :
            (o : Option (FilteredEntries lib))
            → new_filter lib a.entries names use_regex ≡ o
            → Runs (StopsAs action) w.system (
                or_stop os files lib getopt o
                  (λ f v.
                    let (es, throws) = visited lib f in
                    then_throw os files lib getopt throws
                      (dispatch os files lib getopt action a.blocks es v))
                  w)
        filtered none e =
            let (regex, why) = new_filter-none lib a.entries names use_regex e in
            bad_pattern regex why
        filtered (some f) e = rw (visited-select lib a.entries names use_regex e) (
            then_throw_lem (StopsAs action) w.system taken.1
              (dispatch os files lib getopt action a.blocks taken.0 w)
              (dispatch_lem action (listing-AllAlive l) (
                select-AllValues (λ x. Fit (sizes a.blocks) x.segments) (wanted lib use_regex names)
                  a.entries (listing-AllFit l)))
              (λ t. bad_search t (chosen-Throws lib use_regex names a.entries t)))

  pub listed_lem :
      (action : Action) (use_regex : Bool) (names : List (List ℕ)) (b : InputBuffer)
      (o : Outcome (Option InputBuffer) Archive) (w : World os files lib getopt) (F : Type 0)
      → Ensures (λ a _. IsListing b a) (λ _. ⊥) ⊥ o
      → ((a : Archive) (c : Option InputBuffer)
          → o ≡ done a c
          → Stops files lib action use_regex names a w.out w.file_system
          → F)
      → Runs F w.system (run_listed os files lib getopt action use_regex names o w)
  listed_lem action use_regex names b (done a c) w F h k =
      Ensures-fault (λ code v. (code ≤ 1) × (v.system ≡ w.system)) (λ _. ⊥)
        (Stops files lib action use_regex names a w.out w.file_system) F _ (k a c refl)
        (run_archive_lem use_regex names a w action h)
  listed_lem action use_regex names b (fail _ _) w F h k = absurd h
  listed_lem action use_regex names b fault w F h k = absurd h
  listed_lem action use_regex names b exhausted w F h k = absurd h
