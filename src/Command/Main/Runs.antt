-- ===== src/Command/Main/Runs.antt =====
-- A run of the command from end to end.
use mathlib.Core.Path.{subst}
use cxx_unlzx.Base.{
  ℕ, ◌^◌, ◌≤◌, ◌<◌, ◌≡◌, refl, sym, ap, ◌∙◌, arith, Bool, true, false, List, [], ◌∷◌, ◌++◌, Option,
  none, some, length,
}
use cxx_unlzx.Exec.{Outcome, done, fail, fault, exhausted}
use cxx_unlzx.Exec.Ensures.{Ensures}
use cxx_unlzx.Input.{InputBuffer, over, filesize}
use cxx_unlzx.Input.Bytes.{past}
use cxx_unlzx.Archive.{Archive, list_archive}
use cxx_unlzx.Archive.Refines.{list_archive_lem}
use cxx_unlzx.Archive.Open.{Unlzx, Keeps, OpenResult, open_archive, open_archive_lem}
use cxx_unlzx.Archive.Open
use cxx_unlzx.Mapped.{Os, MmapInputBuffer, drop_old}
use cxx_unlzx.Mapped.Handles.{IsLawful, Balanced}
use cxx_unlzx.Command.Filter.{Regexes}
use cxx_unlzx.Command.Extract.{Files}
use cxx_unlzx.Command.Extract.Writes
use cxx_unlzx.Command.Main.Listed.{Runs, listed_lem}
use cxx_unlzx.Command.Main.Stops.{Stops}
use cxx_unlzx.Command.Main.{
  Action, extract, take_regex, read_options, Getopt, World, leave, run_opened, process,
  with_operands, main, opening,
}

module _ (os : Os) (files : Files) (lib : Regexes) (getopt : Getopt) where
  -- Why a run may stop: the archive was opened and listed, and the run over it stops.
  pub data RunStops
      : Action × Bool → Bool → List (List ℕ) → World os files lib getopt → Type 0 where
    run_stops :
        {action : Action} {use_regex : Bool} {archive : List ℕ} {names : List (List ℕ)}
        {w : World os files lib getopt} {u : Unlzx os} {a : Archive} {b : Option InputBuffer}
        → open_archive os archive
            (record { host = record { system = w.system; out = none }; in_buffer = none })
          ≡ done tt u
        → list_archive u.in_buffer ≡ done a b
        → Stops files lib action use_regex names a (w.out ++ opening archive) w.file_system
        → RunStops (action, false) use_regex (archive ∷ names) w

module _ (os : Os) (files : Files) (lib : Regexes) (getopt : Getopt)
    (disk : Writes.IsLawful files) where
  module _ (law : IsLawful os)
      (small : (s : os.State) (p : List ℕ) → length (law.file s p) < 2 ^ 35) where
    -- The run ends with a status of at most 2, and what is open is what was open in `s`; or it stops
    -- for `F`.
    abbrev Ends : Type 0 → os.State → Outcome (World os files lib getopt) ℕ → Type 0
    Ends F s = Ensures (λ code w. (code ≤ 2) × Balanced os law s w.system) (λ _. ⊥) F

    given_back :
        {p : List ℕ} {s : os.State} {m : MmapInputBuffer} (u : Unlzx os)
        → Keeps os law p s m u
        → Balanced os law s (drop_old os u.host.out u.host.system)
    given_back {s = s} u k =
        subst (λ o. Balanced os law s (drop_old os o u.host.system)) (sym k.out) k.balanced

    nothing_kept :
        {s : os.State} (u : Unlzx os)
        → u.host.out ≡ none
        → Balanced os law s u.host.system
        → Balanced os law s (drop_old os u.host.out u.host.system)
    nothing_kept {s} u out k =
        subst (λ o. Balanced os law s (drop_old os o u.host.system)) (sym out) k

    leave_lem :
        {s : os.State} (F : Type 0) (r : os.State) (u : Unlzx os)
        (o : Outcome (World os files lib getopt) ℕ)
        → Balanced os law s (drop_old os u.host.out u.host.system)
        → Runs os files lib getopt disk F r o
        → Ends F s (leave os files lib getopt u o)
    leave_lem F r u (done n w) k h = (omega (arith, h.0), k)
    leave_lem F r u (fail _ _) k h = h
    leave_lem F r u fault k h = h
    leave_lem F r u exhausted k h = h

    opened_lem :
        (action : Action) (use_regex : Bool) (archive : List ℕ) (names : List (List ℕ))
        (w : World os files lib getopt) (s : os.State) (F : Type 0)
        (o : Outcome (Unlzx os) (Unit {0}))
        → OpenResult os law archive s o
        → ((u : Unlzx os) (a : Archive) (c : Option InputBuffer)
            → o ≡ done tt u
            → list_archive u.in_buffer ≡ done a c
            → Stops files lib action use_regex names a w.out w.file_system
            → F)
        → Ends F s (run_opened os files lib getopt action use_regex archive names w o)
    opened_lem action use_regex archive names w s F o
          (Open.OpenResult.opened {u} m k buffer valid _) stop =
        let b = past 10 (over (law.file s archive)) in
        let fits : filesize b < 2 ^ 35 = small s archive in
        leave_lem F w.system u _ (given_back u k) (
          rw buffer (
            listed_lem os files lib getopt disk action use_regex names b (list_archive (some b)) w F
              (list_archive_lem b valid refl fits)
              (λ a c e. stop u a c refl (ap list_archive buffer ∙ e))))
    opened_lem action use_regex archive names w s F o (Open.OpenResult.other_file {u} m k _ _)
          stop =
        (omega arith, given_back u k)
    opened_lem action use_regex archive names w s F o (Open.OpenResult.short {u} m k _) stop =
        (omega arith, given_back u k)
    opened_lem action use_regex archive names w s F o (Open.OpenResult.unopened {u} out _ _ k)
          stop =
        (omega arith, nothing_kept u out k)
    opened_lem action use_regex archive names w s F o (Open.OpenResult.unmapped {u} out _ _ k)
          stop =
        (omega arith, nothing_kept u out k)

    with_operands_lem :
        (r : Action × Bool) (use_regex : Bool) (operands : List (List ℕ))
        (w : World os files lib getopt)
        → Ends
            (RunStops os files lib getopt r use_regex operands w)
            w.system
            (with_operands os files lib getopt r use_regex operands w)
    unfolding process
    with_operands_lem (action, bad) use_regex [] w =
        (omega arith, record { handles = λ _. refl; maps = λ _ _. refl })
    with_operands_lem (action, true) use_regex (archive ∷ names) w =
        (omega arith, record { handles = λ _. refl; maps = λ _ _. refl })
    with_operands_lem (action, false) use_regex (archive ∷ names) w =
        opened_lem action use_regex archive names _ w.system
          (RunStops os files lib getopt (action, false) use_regex (archive ∷ names) w) _
          (open_archive_lem os law archive w.system) (λ u a c e k why. run_stops e k why)

    -- Why `main` may stop, with the options and the operands that `getopt` finds.
    abbrev pub MainStops : List (List ℕ) → World os files lib getopt → Type 0
    MainStops args w =
        let (use_regex, rest) = take_regex false args in
        let (options, operands) = getopt rest in
        RunStops os files lib getopt (read_options options (extract, false)) use_regex operands w

    -- Over a lawful system whose files are smaller than 2 ^ 35 bytes, and a lawful file system:
    -- whatever the arguments and the archive, `main` comes to an end with an exit status of 0, 1
    -- or 2, and the files that it opened to read are closed and unmapped again; unless it has
    -- opened and listed the archive, and then one of the given patterns is refused by the
    -- constructor of a regular expression; or the search of a given pattern throws where the
    -- entries are chosen; or, of the chosen entries in order, a segment that is viewed or is to be
    -- written has a block that makes an access outside an array, or `create_directories` throws
    -- for an entry that is a directory or for the parent of one that is not.
    pub main_lem :
        (args : List (List ℕ)) (w : World os files lib getopt)
        → Ends (MainStops args w) w.system (main os files lib getopt args w)
    unfolding main
    main_lem args w =
        with_operands_lem (read_options _ (extract, false)) (take_regex false args).0 _ w
