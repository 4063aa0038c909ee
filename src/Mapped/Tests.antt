-- ===== src/Mapped/Tests.antt =====
-- A file of three bytes, mapped; and one that is not there.
use cxx_unlzx.Base.{◌≡◌, refl, arith, [], ◌∷◌, none, some}
use cxx_unlzx.Base.Octets.{AllBytes-check}
use cxx_unlzx.Base.Names.{less, same}
use cxx_unlzx.Status.{file_open_error}
use cxx_unlzx.Exec.{done, fail}
use cxx_unlzx.Mapped.{Os, for_file}
use cxx_unlzx.Mapped.Handles.{IsLawful, MapResult, for_file_lem}
use cxx_unlzx.Mapped.Memory.{Counts, memory_os, memory_os-IsLawful}

abbrev disk : Os
disk = memory_os (120 ∷ []) (1 ∷ 2 ∷ 3 ∷ [])

disk-IsLawful : IsLawful disk
disk-IsLawful =
    memory_os-IsLawful (120 ∷ []) (1 ∷ 2 ∷ 3 ∷ []) (AllBytes-check (1 ∷ 2 ∷ 3 ∷ []) refl)
      (omega arith)

abbrev idle : Counts
idle = record { opened = 0; mapped = 0 }

maps_three :
    for_file disk (120 ∷ []) (record { system = idle; out = none })
    ≡ done tt (record {
      system = record { opened = 1; mapped = 1 };
      out = some (record {
        fd = 3;
        data_ = record { address = 4096; bytes = 1 ∷ 2 ∷ 3 ∷ [] };
        filesize = 3;
      });
    })
unfolding for_file less same
maps_three = refl

not_there :
    for_file disk (121 ∷ []) (record { system = idle; out = none })
    ≡ fail file_open_error (record { system = idle; out = none })
unfolding for_file less same
not_there = refl

for_file_lem_example :
    MapResult disk disk-IsLawful
      (120 ∷ [])
      idle
      (for_file disk (120 ∷ []) (record { system = idle; out = none }))
for_file_lem_example = for_file_lem disk disk-IsLawful (120 ∷ []) idle
