-- ===== src/Block.antt =====
-- `LzxBlock` of src/lzx_block.hh and src/lzx_block.cc: the data of one or more merged members,
-- decompressed at the first call of `data()`, here `block_data`.
pub mod Memo
pub mod Round
pub mod Total
pub mod Honest
pub mod Life
mod Tests
use cxx_unlzx.Base.{
  ℕ, zero, suc, ◌+◌, ◌-◌, ◌*◌, ◌^◌, ◌%◌, min, Bool, ◌&&◌, not, true, false, List, [], ltb, ◌==◌,
  if◌then◌else◌, Option, none, some, length, take, ◌++◌, replicate, u64,
}
use cxx_unlzx.Status.{Status, ok, unexpected_eof, unknown_compression}
use cxx_unlzx.Exec.{
  Outcome, Exec, done, fail, fault, exhausted, give_up, ◌>>=◌, ◌>>◌, pure, raise, focus, gets,
  modify,
}
use cxx_unlzx.Input.{InputBuffer, filesize, is_eof, read_span}
use cxx_unlzx.Handle.{Entry, mode}
use cxx_unlzx.Decoder.{HuffmanDecoder, new_decoder, Session, bit_fuel}
use cxx_unlzx.Decoder.LiteralTable.{read_literal_table}
use cxx_unlzx.Decoder.Decrunch.{Window, decrunch}

-- `data_span` is what the span shows: nothing writes there once it is set. `decompressed_data_` is
-- the memory behind it.
pub record Block : Type 0 where
  pub node : Entry
  pub in_file : InputBuffer
  pub total_unpacked_size : ℕ
  pub data_span : List ℕ
  pub status : Status
  pub is_decompressed : Bool

-- LzxBlock(n, in, unpacked_sz)
abbrev pub new_block : Entry → InputBuffer → ℕ → Block
new_block n in_file unpacked_sz = record {
  node = n;
  in_file = in_file;
  total_unpacked_size = unpacked_sz;
  data_span = [];
  status = ok;
  is_decompressed = false;
}

-- The locals of the loop.
pub record Unpacking : Type 0 where
  pub window : Window
  pub decrunch_length : ℕ

abbrev pub on_session {ℓ} : {A : Type ℓ} → Exec Session A → Exec Unpacking A
on_session =
    focus (λ u. record { source = u.window.source; decoder = u.window.decoder })
      (λ u s. record u { window = record u.window { source = s.source; decoder = s.decoder } })

abbrev pub on_window {ℓ} : {A : Type ℓ} → Exec Window A → Exec Unpacking A
on_window = focus (λ u. u.window) (λ u w. record u { window = w })

abbrev pub set_left : ℕ → Unpacking → Unpacking
set_left n u = record u { decrunch_length = n }

-- The tables of the next run of symbols, where the last run is used up.
unfoldable pub next_table : Exec Unpacking (Unit {0})
next_table u =
    let loaded =
      (do on_session read_literal_table; modify (λ v. set_left v.window.decoder.decrunch_length v))
        u in
    if u.decrunch_length == 0 then loaded else done tt u

-- After `decrunch`, with the position before it.
unfoldable pub account : ℕ → Exec Unpacking (Unit {0})
account old_pos u =
    let decoded_bytes = u.window.pos - old_pos in
    if decoded_bytes == 0 && is_eof u.window.source
    then fail unexpected_eof u
    else if ltb u.decrunch_length decoded_bytes
    then done tt (set_left 0 u)
    else done tt (set_left (u.decrunch_length - decoded_bytes) u)

unfoldable pub unpack_once : ℕ → Exec Unpacking (Unit {0})
unpack_once total = do
  next_table
  target_size ← gets (λ u. min (u64 (u.window.pos + u.decrunch_length)) total)
  old_pos ← gets (λ u. u.window.pos)
  on_window (decrunch target_size)
  account old_pos

-- while (pos < total_unpacked_size_), with fuel.
unfoldable pub unpack_loop : ℕ → ℕ → Exec Unpacking (Unit {0})
unpack_loop zero total u = exhausted
unpack_loop (suc fuel) total u =
    let rest = (unpack_once total >> unpack_loop fuel total) u in
    if ltb u.window.pos total then rest else done tt u

unfoldable pub unpacking : InputBuffer → ℕ → Unpacking
unpacking source total = record {
  window = record {
    source = source;
    decoder = new_decoder;
    target = replicate (total + 256) 0;
    pos = 0;
  };
  decrunch_length = 0;
}

-- Fuel for a round per bit of the source and per byte of the target.
abbrev pub unpack_fuel : InputBuffer → ℕ → ℕ
unpack_fuel source total = bit_fuel source + total

-- What is left of the block when a call returns: the status, the span and the buffer.
abbrev pub finish : Status → List ℕ → InputBuffer → Block → Block
finish st xs source b = record b {
  status = st;
  data_span = xs;
  in_file = source;
  is_decompressed = true;
}

-- Mode::kNone: `sub` is a copy of the buffer.
unfoldable pub settle_stored :
    Block → Outcome InputBuffer (List ℕ) → Outcome Block (Option (List ℕ))
settle_stored b (done xs _) = done (some xs) (finish ok xs b.in_file b)
settle_stored b (fail st _) = done none (finish st b.data_span b.in_file b)
settle_stored b fault = fault
settle_stored b exhausted = exhausted

unfoldable pub stored_data : Exec Block (Option (List ℕ))
stored_data b = settle_stored b (read_span b.total_unpacked_size b.in_file)

-- Mode::kNormal, after the loop.
unfoldable pub settle_normal :
    Block → Outcome Unpacking (Unit {0}) → Outcome Block (Option (List ℕ))
settle_normal b (done _ u) =
    let xs = take b.total_unpacked_size u.window.target in
    done (some xs) (finish ok xs u.window.source b)
settle_normal b (fail st u) = done none (finish st b.data_span u.window.source b)
settle_normal b fault = fault
settle_normal b exhausted = exhausted

unfoldable pub normal_data : Exec Block (Option (List ℕ))
normal_data b = settle_normal b (
    unpack_loop (unpack_fuel b.in_file b.total_unpacked_size) b.total_unpacked_size
      (unpacking b.in_file b.total_unpacked_size))

unfoldable pub first_data : Exec Block (Option (List ℕ))
first_data b =
    if mode b.node == 0
    then stored_data b
    else if mode b.node == 2
    then normal_data b
    else done none (finish unknown_compression b.data_span b.in_file b)

unfoldable pub is_ok : Status → Bool
is_ok ok = true
is_ok _ = false

unfoldable pub block_data : Exec Block (Option (List ℕ))
block_data b =
    if b.is_decompressed
    then done (if is_ok b.status then some b.data_span else none) b
    else first_data b
