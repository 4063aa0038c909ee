-- ===== src/Input/Honest.antt =====
-- No read of src/mmap_buffer.cc fails with `Status::Ok`.
use cxx_unlzx.Base.{ℕ}
use cxx_unlzx.Exec.Honest.{honest, Honest}
use cxx_unlzx.Input.{
  InputBuffer, read_word, refill, peek_bits, read_bits, skip, bytes_from, read_into,
  read_string_view, read_span, read_buffer,
}

pub read_word-Honest : (b : InputBuffer) → Honest (read_word b)
unfolding read_word
read_word-Honest b = search (honest)

pub refill-Honest : (b : InputBuffer) → Honest (refill b)
unfolding refill
refill-Honest b = search (honest, read_word-Honest)

pub peek_bits-Honest : (n : ℕ) (b : InputBuffer) → Honest (peek_bits n b)
unfolding peek_bits
peek_bits-Honest n b = search (honest, refill-Honest)

pub read_bits-Honest : (n : ℕ) (b : InputBuffer) → Honest (read_bits n b)
unfolding read_bits
read_bits-Honest n b = search (honest, peek_bits-Honest)

pub skip-Honest : (n : ℕ) (b : InputBuffer) → Honest (skip n b)
unfolding skip
skip-Honest n b = search (honest)

pub bytes_from-Honest : (n p : ℕ) (b : InputBuffer) → Honest (bytes_from n p b)
unfolding bytes_from
bytes_from-Honest n p b = search (honest)

pub read_into-Honest : (n : ℕ) (b : InputBuffer) → Honest (read_into n b)
unfolding read_into
read_into-Honest n b = search (honest, skip-Honest, bytes_from-Honest)

pub read_string_view-Honest : (n : ℕ) (b : InputBuffer) → Honest (read_string_view n b)
unfolding read_string_view
read_string_view-Honest n b = search (honest, skip-Honest, bytes_from-Honest)

pub read_span-Honest : (n : ℕ) (b : InputBuffer) → Honest (read_span n b)
unfolding read_span
read_span-Honest n b = search (honest, skip-Honest, bytes_from-Honest)

pub read_buffer-Honest : (n : ℕ) (b : InputBuffer) → Honest (read_buffer n b)
unfolding read_buffer
read_buffer-Honest n b = search (honest, skip-Honest, bytes_from-Honest)
