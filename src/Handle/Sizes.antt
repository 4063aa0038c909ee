-- ===== src/Handle/Sizes.antt =====
-- The sizes that a header holds are 32-bit numbers.
use cxx_unlzx.Base.{ℕ, ◌+◌, ◌^◌, ◌<◌, arith, List}
use cxx_unlzx.Base.Octets.{AllBytes, get_or-AllBytes}
use cxx_unlzx.Input.{InputBuffer}
use cxx_unlzx.Input.Stream.{IsValid}
use cxx_unlzx.Input.Bytes.{next_bytes}
use cxx_unlzx.Types.{Endian, transform}
use cxx_unlzx.Types
use cxx_unlzx.Handle.{metadata_size, pack_size}
use cxx_unlzx.Handle.Parse.{entry_at, next_bytes-AllBytes, assign-AllBytes}

load-lt : (xs : List ℕ) (i : ℕ) → AllBytes xs → Types.load xs i < 2 ^ 32
load-lt xs i h = omega (
  arith,
  get_or-AllBytes xs i h,
  get_or-AllBytes xs (i + 1) h,
  get_or-AllBytes xs (i + 2) h,
  get_or-AllBytes xs (i + 3) h,
)

pub pack_size-lt : (b : InputBuffer) → IsValid b → pack_size (entry_at b) < 2 ^ 32
unfolding pack_size transform
pack_size-lt b v = load-lt (entry_at b).metadata 6 (
    assign-AllBytes Endian.little 0 (next_bytes metadata_size b) 26
      (next_bytes-AllBytes metadata_size b v.octets))
