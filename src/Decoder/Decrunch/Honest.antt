-- ===== src/Decoder/Decrunch/Honest.antt =====
-- `HuffmanDecoder::decrunch` of src/huffman_decoder.cc does not fail with `Status::Ok`.
use cxx_unlzx.Base.{ℕ, zero, suc}
use cxx_unlzx.Exec.Honest.{honest, Honest}
use cxx_unlzx.Input.Honest.{peek_bits-Honest, read_bits-Honest}
use cxx_unlzx.Decoder.LiteralTable.Honest.{read_symbol-Honest}
use cxx_unlzx.Decoder.Decrunch.{
  Window, put_byte, put_literal, copy_bytes, long_offset, short_offset, choose_offset, read_offset,
  read_count, copy_match, put_match, next_symbol, put_symbol, decrunch_once, decrunch_loop,
  decrunch,
}

pub put_byte-Honest : (v : ℕ) (w : Window) → Honest (put_byte v w)
unfolding put_byte
put_byte-Honest v w = search (honest) depth 16

pub put_literal-Honest : (v : ℕ) (w : Window) → Honest (put_literal v w)
unfolding put_literal
put_literal-Honest v w = search (honest, put_byte-Honest) depth 16

pub copy_bytes-Honest : (n start i : ℕ) (w : Window) → Honest (copy_bytes n start i w)
unfolding copy_bytes
copy_bytes-Honest zero start i w = tt
copy_bytes-Honest (suc n) start i w =
    search (honest, put_byte-Honest, copy_bytes-Honest n start) depth 16

pub long_offset-Honest : (x width : ℕ) (w : Window) → Honest (long_offset x width w)
unfolding long_offset
long_offset-Honest x width w = search (honest, read_bits-Honest, peek_bits-Honest) depth 16

pub short_offset-Honest : (x width : ℕ) (w : Window) → Honest (short_offset x width w)
unfolding short_offset
short_offset-Honest x width w = search (honest, peek_bits-Honest) depth 16

pub choose_offset-Honest : (x width : ℕ) (w : Window) → Honest (choose_offset x width w)
unfolding choose_offset
choose_offset-Honest x width w = search (honest, long_offset-Honest, short_offset-Honest) depth 16

pub read_offset-Honest : (symbol : ℕ) (w : Window) → Honest (read_offset symbol w)
unfolding read_offset
read_offset-Honest symbol w = search (honest, read_bits-Honest, choose_offset-Honest) depth 16

pub read_count-Honest : (symbol : ℕ) (w : Window) → Honest (read_count symbol w)
unfolding read_count
read_count-Honest symbol w = search (honest, read_bits-Honest) depth 16

pub copy_match-Honest : (n : ℕ) (w : Window) → Honest (copy_match n w)
unfolding copy_match
copy_match-Honest n w = search (honest, copy_bytes-Honest) depth 16

pub put_match-Honest : (symbol : ℕ) (w : Window) → Honest (put_match symbol w)
unfolding put_match
put_match-Honest symbol w =
    search (honest, read_offset-Honest, read_count-Honest, copy_match-Honest) depth 16

pub next_symbol-Honest : (w : Window) → Honest (next_symbol w)
unfolding next_symbol
next_symbol-Honest w = search (honest, read_symbol-Honest) depth 16

pub put_symbol-Honest : (symbol : ℕ) (w : Window) → Honest (put_symbol symbol w)
unfolding put_symbol
put_symbol-Honest symbol w = search (honest, put_literal-Honest, put_match-Honest) depth 16

pub decrunch_once-Honest : (w : Window) → Honest (decrunch_once w)
unfolding decrunch_once
decrunch_once-Honest w = search (honest, next_symbol-Honest, put_symbol-Honest) depth 16

pub decrunch_loop-Honest : (n threshold : ℕ) (w : Window) → Honest (decrunch_loop n threshold w)
unfolding decrunch_loop
decrunch_loop-Honest zero threshold w = tt
decrunch_loop-Honest (suc n) threshold w =
    search (honest, decrunch_once-Honest, decrunch_loop-Honest n threshold) depth 16

pub decrunch-Honest : (threshold : ℕ) (w : Window) → Honest (decrunch threshold w)
unfolding decrunch
decrunch-Honest threshold w = search (honest, decrunch_loop-Honest) depth 16
