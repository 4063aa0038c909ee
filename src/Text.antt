-- ===== src/Text.antt =====
-- What `std::print` and `std::format` of src/unlzx_main.cc and src/lzx_handle.hh are given: the
-- literal parts of the format and the arguments between them.
use Prim.Native.String.{String}
use cxx_unlzx.Base.{ℕ, List}

-- A literal, a text of bytes, a number padded to a width with spaces or with zeros.
pub data Printed : Type 0 where
  text : String → Printed
  bytes : List ℕ → Printed
  spaced zeroed : ℕ → ℕ → Printed
