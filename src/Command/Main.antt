-- ===== src/Command/Main.antt =====
-- `main`. The system, the file system, `getopt` and the regular expressions are parameters.
pub mod Stops
pub mod Listed
pub mod Runs
use cxx_unlzx.Base.{
  ℕ, zero, suc, Bool, true, false, not, ◌||◌, List, [], ◌∷◌, ◌++◌, Option, none, some, ◌==◌,
  if◌then◌else◌,
}
use cxx_unlzx.Base.Names.{same}
use cxx_unlzx.Base.Dict.{Dict}
use cxx_unlzx.Text.{Printed, text, bytes}
use cxx_unlzx.Status.{Status, format_status}
use cxx_unlzx.Exec.{
  Outcome, Exec, done, fail, fault, exhausted, bind_outcome, ◌>>=◌, ◌>>◌, pure, modify,
}
use cxx_unlzx.Input.{InputBuffer}
use cxx_unlzx.Block.{Block}
use cxx_unlzx.File.{LzxEntry}
use cxx_unlzx.Archive.{Archive, list_archive}
use cxx_unlzx.Archive.Open.{Unlzx, open_archive}
use cxx_unlzx.Mapped.{Os, drop_old}
use cxx_unlzx.Command.{Shell}
use cxx_unlzx.Command.Filter.{Regexes, new_filter, visited}
use cxx_unlzx.Command.Show.{Totals, handle_list, handle_view}
use cxx_unlzx.Command.Extract.{Files, handle_extract}

pub data Action : Type 0 where
  list extract view : Action

-- "--regex"
abbrev pub regex_flag : List ℕ
regex_flag = 45 ∷ 45 ∷ 114 ∷ 101 ∷ 103 ∷ 101 ∷ 120 ∷ []

-- The arguments after the program's name: those "--regex" that come first are dropped.
unfoldable pub take_regex : Bool → List (List ℕ) → Bool × List (List ℕ)
take_regex use_regex [] = (use_regex, [])
take_regex use_regex (arg ∷ args) =
    let rest = take_regex true args in if same arg regex_flag then rest else (use_regex, arg ∷ args)

-- The switch: the action, and whether an option was unknown.
unfoldable pub read_option : ℕ → Action × Bool → Action × Bool
read_option c (action, bad) =
    if c == 108
    then (list, bad)
    else if c == 120
    then (extract, bad)
    else if c == 118
    then (view, bad)
    else (action, true)

unfoldable pub read_options : List ℕ → Action × Bool → Action × Bool
read_options [] r = r
read_options (c ∷ options) r = read_options options (read_option c r)

abbrev pub usage : List Printed
usage =
    text "Usage: unlzx [--regex] [-l][-x][-v] archive [file...]\n"
    ∷ text "\t--regex : treat file(s) as regex patterns (with -l, -v)\n"
    ∷ text "\t-l : list archive\n"
    ∷ text "\t-x : extract (default)\n"
    ∷ text "\t-v : view file(s) in archive\n"
    ∷ []

abbrev pub opening : List ℕ → List Printed
opening archive = text "Archive \"" ∷ bytes archive ∷ text "\"...\n" ∷ []

-- `getopt` with "lxv": what its calls return, '?' for an unknown option, and `argv` from `optind`
-- on after the last call.
abbrev pub Getopt : Type 0
Getopt = List (List ℕ) → List ℕ × List (List ℕ)

module _ (os : Os) (files : Files) (lib : Regexes) (getopt : Getopt) where
  pub record World : Type 0 where
    pub system : os.State
    pub file_system : files.State
    pub out : List Printed

  abbrev pub say : List Printed → World → World
  say ps w = record w { out = w.out ++ ps }

  -- A handler of a state of its own, over the blocks of the archive.
  abbrev pub handled :
      {S : Type 0} → (S → World → World) → World → Outcome (Shell S) ℕ → Outcome World ℕ
  handled keep w (done n s) = done n (keep s.own (record w { out = s.out }))
  handled keep w (fail st s) = fail st (keep s.own (record w { out = s.out }))
  handled keep w fault = fault
  handled keep w exhausted = exhausted

  unfoldable pub dispatch : Action → List Block → Dict LzxEntry → Exec World ℕ
  dispatch list store es w =
      handled (λ _ v. v) w
        (handle_list es (record {
          store = store;
          out = w.out;
          own = record { total_unpack = 0; total_files = 0 };
        }))
  dispatch view store es w =
      handled (λ _ v. v) w (handle_view es (record { store = store; out = w.out; own = 0 }))
  dispatch extract store es w =
      handled (λ s v. record v { file_system = s }) w
        (handle_extract files es (record { store = store; out = w.out; own = w.file_system }))

  -- What a constructor throws ends the run.
  abbrev pub or_stop : {A : Type 0} → Option A → (A → Exec World ℕ) → Exec World ℕ
  or_stop none k w = fault
  or_stop (some a) k w = k a w

  -- An advance of the filter that throws after the last entry that it gave: a handler that returns
  -- before it has seen them all, with a status of its own, does not come to it.
  abbrev pub then_throw : Bool → Outcome World ℕ → Outcome World ℕ
  then_throw false o = o
  then_throw true (done zero w) = fault
  then_throw true (done (suc n) w) = done (suc n) w
  then_throw true (fail st w) = fail st w
  then_throw true fault = fault
  then_throw true exhausted = exhausted

  unfoldable pub run_archive : Action → Bool → List (List ℕ) → Archive → Exec World ℕ
  run_archive action use_regex names a =
      or_stop (new_filter lib a.entries names use_regex) (λ f w.
        let (es, throws) = visited lib f in then_throw throws (dispatch action a.blocks es w))

  -- `unlzx.list_archive()`, and the rest of the block.
  abbrev pub run_listed :
      Action → Bool → List (List ℕ) → Outcome (Option InputBuffer) Archive → Exec World ℕ
  run_listed action use_regex names (done a _) w = run_archive action use_regex names a w
  run_listed action use_regex names (fail st _) w = fail st w
  run_listed action use_regex names fault w = fault
  run_listed action use_regex names exhausted w = exhausted

  -- The destructor of `unlzx` at the end of the block.
  abbrev pub destroy_unlzx : Unlzx os → World → World
  destroy_unlzx u w = record w { system = drop_old os u.host.out u.host.system }

  abbrev pub leave : Unlzx os → Outcome World ℕ → Outcome World ℕ
  leave u (done n w) = done n (destroy_unlzx u w)
  leave u (fail st w) = fail st (destroy_unlzx u w)
  leave u fault = fault
  leave u exhausted = exhausted

  abbrev pub run_opened :
      Action
      → Bool
      → List ℕ
      → List (List ℕ)
      → World
      → Outcome (Unlzx os) (Unit {0})
      → Outcome World ℕ
  run_opened action use_regex archive names w (done _ u) =
      leave u (run_listed action use_regex names (list_archive u.in_buffer) w)
  run_opened action use_regex archive names w (fail st u) = leave u (
      done 1 (
        say
          (text "Error processing archive \""
            ∷ bytes archive
            ∷ text "\": "
            ∷ text (format_status st)
            ∷ text "\n"
            ∷ [])
          w))
  run_opened action use_regex archive names w fault = fault
  run_opened action use_regex archive names w exhausted = exhausted

  unfoldable pub process : Action → Bool → List ℕ → List (List ℕ) → Exec World ℕ
  process action use_regex archive names w =
      run_opened action use_regex archive names (say (opening archive) w) (
        open_archive os archive
          (record { host = record { system = w.system; out = none }; in_buffer = none }))

  abbrev pub with_operands : Action × Bool → Bool → List (List ℕ) → Exec World ℕ
  with_operands (action, bad) use_regex [] w = done 2 (say usage w)
  with_operands (action, true) use_regex (archive ∷ names) w = done 2 (say usage w)
  with_operands (action, false) use_regex (archive ∷ names) w =
      process action use_regex archive names w

  -- The arguments after the program's name; the value is the exit status.
  unfoldable pub main : List (List ℕ) → Exec World ℕ
  main args =
      let (use_regex, rest) = take_regex false args in
      let (options, operands) = getopt rest in
      with_operands (read_options options (extract, false)) use_regex operands
