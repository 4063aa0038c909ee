-- ===== src/Mapped.antt =====
-- `MmapInputBuffer` of src/mmap_buffer.hh and src/mmap_buffer.cc, the POSIX branch. The operating
-- system is a parameter.
pub mod Handles
pub mod Memory
mod Tests
use cxx_unlzx.Base.{ℕ, List, Option, none, some, take}
use cxx_unlzx.Status.{Status, file_open_error, file_map_error}
use cxx_unlzx.Exec.{Exec, done, ◌>>=◌, ◌>>◌, pure, raise, modify}
use cxx_unlzx.Input.{InputBuffer, over}

-- What `mmap` returns: where the mapping is, and the bytes that are seen there.
pub record Mapping : Type 0 where
  pub address : ℕ
  pub bytes : List ℕ

-- The calls of the system, none where they return -1 or MAP_FAILED. A path is its bytes. `mmap` has
-- a length and a descriptor, `munmap` an address and a length.
pub record Os : Type 1 where
  pub State : Type 0
  pub open_read : List ℕ → State → Option ℕ × State
  pub fstat : ℕ → State → Option ℕ × State
  pub mmap : ℕ → ℕ → State → Option Mapping × State
  pub munmap : ℕ → ℕ → State → State
  pub close : ℕ → State → State

pub record MmapInputBuffer : Type 0 where
  pub fd : ℕ
  pub data_ : Mapping
  pub filesize : ℕ

-- get(): a buffer over the first `filesize_` bytes at `data_`.
abbrev pub get : MmapInputBuffer → InputBuffer
get m = over (take m.filesize m.data_.bytes)

module _ (os : Os) where
  -- `out` is the pointer that `for_file` fills.
  pub record Host : Type 0 where
    pub system : os.State
    pub out : Option MmapInputBuffer

  abbrev pub call : {A : Type 0} → (os.State → Option A × os.State) → Exec Host (Option A)
  call f h = let (r, s) = f h.system in done r (record h { system = s })

  abbrev pub act : (os.State → os.State) → Exec Host (Unit {0})
  act f = modify (λ h. record h { system = f h.system })

  -- ~MmapInputBuffer()
  unfoldable pub destroy : MmapInputBuffer → os.State → os.State
  destroy m s = os.close m.fd (os.munmap m.data_.address m.filesize s)

  abbrev pub or_raise : {A : Type 0} → Status → Option A → Exec Host A
  or_raise st none = raise st
  or_raise st (some a) = pure a

  -- A call on an open file: where it fails, the file is closed.
  abbrev pub or_close : {A : Type 0} → ℕ → Status → Option A → Exec Host A
  or_close file_desc st none = act (os.close file_desc) >> raise st
  or_close file_desc st (some a) = pure a

  abbrev pub drop_old : Option MmapInputBuffer → os.State → os.State
  drop_old none s = s
  drop_old (some m) s = destroy m s

  -- `out = make_unique<...>()` and the fields: what `out` held is destroyed.
  abbrev pub reset : MmapInputBuffer → Host → Host
  reset m h = record h { system = drop_old h.out h.system; out = some m }

  unfoldable pub for_file : List ℕ → Exec Host (Unit {0})
  for_file filepath = do
    opened ← call (os.open_read filepath)
    file_desc ← or_raise file_open_error opened
    stat ← call (os.fstat file_desc)
    filesize ← or_close file_desc file_open_error stat
    mapped ← call (os.mmap filesize file_desc)
    mapping ← or_close file_desc file_map_error mapped
    modify (reset (record { fd = file_desc; data_ = mapping; filesize = filesize }))
