-- ===== src/Handle/Honest.antt =====
-- `Entry::from_buffer` of src/lzx_handle.cc does not fail with `Status::Ok`.
use cxx_unlzx.Base.{ℕ}
use cxx_unlzx.Exec.Honest.{honest, Honest}
use cxx_unlzx.Input.{InputBuffer}
use cxx_unlzx.Input.Honest.{read_into-Honest, read_string_view-Honest}
use cxx_unlzx.Handle.{Entry, check_header, read_entry, from_buffer}

pub check_header-Honest : (n : ℕ) (e : Entry) (b : InputBuffer) → Honest (check_header n e b)
unfolding check_header
check_header-Honest n e b = search (honest)

pub read_entry-Honest : (b : InputBuffer) → Honest (read_entry b)
unfolding read_entry
read_entry-Honest b =
    search (honest, read_into-Honest, read_string_view-Honest, check_header-Honest)

pub from_buffer-Honest : (b : InputBuffer) → Honest (from_buffer b)
unfolding from_buffer
from_buffer-Honest b = search (honest, read_entry-Honest)
