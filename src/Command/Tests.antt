-- ===== src/Command/Tests.antt =====
-- The command over the archive of `Archive.Tests`, on a disk that has it under the name "x".
use cxx_unlzx.Base.{
  ℕ, ◌≤◌, ◌≡◌, refl, arith, true, false, List, [], ◌∷◌, ◌++◌, some, ◌==◌, if◌then◌else◌,
}
use cxx_unlzx.Base.Names.{less, same}
use cxx_unlzx.Exec.Ensures.{Ensures}
use cxx_unlzx.Archive.Tests.{
  listing, entry_of, entry_a, entry_c, segment, all_alive, disk, disk-IsLawful, disk-small,
}
use cxx_unlzx.Mapped.Handles.{Balanced}
use cxx_unlzx.Command.{Shell}
use cxx_unlzx.Command.Filter.{
  Regexes, FilteredEntries, compile_all, new_filter, visited, visit, advance_to_match, matches,
  matches_from, match_at,
}
use cxx_unlzx.Command.Filter.Select.{wanted, select}
use cxx_unlzx.Command.Filter.Filters.{visited-select}
use cxx_unlzx.Command.Show.{Totals, handle_list}
use cxx_unlzx.Command.Show.Total.{Counted, handle_list_lem}
use cxx_unlzx.Command.Extract.{Files, write_entry}
use cxx_unlzx.Command.Extract.Writes.{IsLawful}
use cxx_unlzx.Command.Extract.Verdict.{EntryWritten, write_entry_lem}
use cxx_unlzx.Command.Main.{Getopt, World, main, take_regex, regex_flag}
use cxx_unlzx.Command.Main.Runs.{MainStops, main_lem}

-- A regular expression that is found in a name that equals it.
abbrev literal : Regexes
literal = record {
  Regex = List ℕ;
  compile = λ p. some p;
  regex_search = λ name re. some (same name re);
}

-- One file at a time; directories are always there.
abbrev paper : Files
paper = record {
  State = List ℕ;
  Stream = Unit {0};
  create_directories = λ p s. some s;
  open_out = λ p s. (some tt, []);
  write = λ f xs s. (true, s ++ xs);
}

paper-IsLawful : IsLawful paper
paper-IsLawful = record {
  contents = λ s _. s;
  open_empty = λ p s e. refl;
  write_appends = λ f xs s e. refl;
}

-- Options in the first argument, if that begins with a dash.
abbrev first_argument : Getopt
first_argument [] = ([], [])
first_argument ([] ∷ args) = ([], [] ∷ args)
first_argument ((c ∷ arg) ∷ args) = if c == 45 then (arg, args) else ([], (c ∷ arg) ∷ args)

abbrev filter_ac : FilteredEntries literal
filter_ac = record {
  entries = listing.entries;
  names = (99 ∷ []) ∷ (97 ∷ []) ∷ [];
  use_regex = true;
  res = (99 ∷ []) ∷ (97 ∷ []) ∷ [];
}

-- "a" and "c", in the order of the map.
visits_two : visited literal filter_ac ≡ (
  (97 ∷ [], entry_of entry_a (segment 0 2 3)) ∷ (99 ∷ [], entry_of entry_c (segment 1 0 2)) ∷ [],
  false,
)
unfolding visited visit advance_to_match matches matches_from match_at less same
visits_two = refl

makes_filter : new_filter literal listing.entries ((99 ∷ []) ∷ (97 ∷ []) ∷ []) true ≡ some filter_ac
unfolding new_filter compile_all
makes_filter = refl

visited-select_example :
    visited literal filter_ac
    ≡ select (wanted literal true ((99 ∷ []) ∷ (97 ∷ []) ∷ [])) listing.entries
visited-select_example =
    visited-select literal listing.entries ((99 ∷ []) ∷ (97 ∷ []) ∷ []) true makes_filter

two_flags :
    take_regex false (regex_flag ∷ regex_flag ∷ (120 ∷ []) ∷ regex_flag ∷ [])
    ≡ (true, (120 ∷ []) ∷ regex_flag ∷ [])
unfolding take_regex less same
two_flags = refl

abbrev shelf : Shell (List ℕ)
shelf = record { store = listing.blocks; out = []; own = [] }

write_entry_lem_example :
    EntryWritten paper paper-IsLawful tt shelf
      (97 ∷ [])
      (entry_of entry_a (segment 0 2 3))
      (write_entry paper (97 ∷ []) (entry_of entry_a (segment 0 2 3)) tt shelf)
write_entry_lem_example =
    write_entry_lem paper paper-IsLawful tt shelf (97 ∷ []) (entry_of entry_a (segment 0 2 3))
      all_alive (record { size = 5; there = refl; within = omega arith }, tt)

abbrev counter : Shell Totals
counter = record {
  store = listing.blocks;
  out = [];
  own = record { total_unpack = 0; total_files = 0 };
}

handle_list_lem_example :
    Ensures
      (λ code t. (code ≡ 0) × Counted listing.entries counter t)
      (λ _. ⊥)
      ⊥
      (handle_list listing.entries counter)
handle_list_lem_example = handle_list_lem listing.entries counter refl refl

abbrev desk : World disk paper literal first_argument
desk = record { system = record { opened = 0; mapped = 0 }; file_system = []; out = [] }

main_lem_example :
    Ensures
      (λ code w. (code ≤ 2) × Balanced disk disk-IsLawful desk.system w.system)
      (λ _. ⊥)
      (MainStops disk paper literal first_argument paper-IsLawful disk-IsLawful disk-small
        ((120 ∷ []) ∷ [])
        desk)
      (main disk paper literal first_argument ((120 ∷ []) ∷ []) desk)
main_lem_example =
    main_lem disk paper literal first_argument paper-IsLawful disk-IsLawful disk-small
      ((120 ∷ []) ∷ []) desk
