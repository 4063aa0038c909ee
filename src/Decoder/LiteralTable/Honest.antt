-- ===== src/Decoder/LiteralTable/Honest.antt =====
-- `HuffmanDecoder::read_literal_table` of src/huffman_decoder.cc does not fail with `Status::Ok`.
use cxx_unlzx.Base.{ℕ, zero, suc, List}
use cxx_unlzx.Exec.{Exec, done, fail, fault, exhausted}
use cxx_unlzx.Exec.Honest.{honest, Honest}
use cxx_unlzx.Input.{InputBuffer}
use cxx_unlzx.Input.Honest.{peek_bits-Honest, read_bits-Honest}
use cxx_unlzx.Table.{HuffmanTable}
use cxx_unlzx.Table.Honest.{reset_table-Honest}
use cxx_unlzx.Decoder.{Session, follow, short_symbol, long_symbol, read_symbol}
use cxx_unlzx.Decoder.LiteralTable.{
  Loading, ignoring, read_lengths, read_offsets, read_huffman20, fill_lengths, read_symbol20,
  base_value, set_length, zero_fill, repeat_zero, repeat_previous, one_length, apply_symbol,
  lengths_loop, length_block, read_literals, read_literal_table,
}

pub follow-Honest :
    (xs : List ℕ) (limit n symbol : ℕ) (b : InputBuffer) → Honest (follow xs limit n symbol b)
unfolding follow
follow-Honest xs limit zero symbol b = tt
follow-Honest xs limit (suc n) symbol b =
    search (honest, read_bits-Honest, follow-Honest xs limit n) depth 16

pub short_symbol-Honest : (t : HuffmanTable) (n : ℕ) (b : InputBuffer) → Honest (short_symbol t n b)
unfolding short_symbol
short_symbol-Honest t n b = search (honest, read_bits-Honest) depth 16

pub long_symbol-Honest :
    (t : HuffmanTable) (n limit : ℕ) (before : Exec InputBuffer (Unit {0})) (symbol : ℕ)
    (h : (c : InputBuffer) → Honest (before c)) (b : InputBuffer)
    → Honest (long_symbol t n limit before symbol b)
unfolding long_symbol
long_symbol-Honest t n limit before symbol h b =
    search (honest, read_bits-Honest, follow-Honest) depth 16

pub read_symbol-Honest :
    (t : HuffmanTable) (n limit : ℕ) (before : Exec InputBuffer (Unit {0}))
    (h : (c : InputBuffer) → Honest (before c)) (b : InputBuffer)
    → Honest (read_symbol t n limit before b)
unfolding read_symbol
read_symbol-Honest t n limit before h b =
    search (honest, peek_bits-Honest, short_symbol-Honest, long_symbol-Honest) depth 16

pub read_lengths-Honest : (width n i : ℕ) (l : Loading) → Honest (read_lengths width n i l)
unfolding read_lengths
read_lengths-Honest width zero i l = tt
read_lengths-Honest width (suc n) i l =
    search (honest, read_bits-Honest, read_lengths-Honest width n) depth 16

pub read_offsets-Honest : (s : Session) → Honest (read_offsets s)
unfolding read_offsets
read_offsets-Honest s = search (honest, read_lengths-Honest, reset_table-Honest) depth 16

pub read_huffman20-Honest : (s : Session) → Honest (read_huffman20 s)
unfolding read_huffman20
read_huffman20-Honest s = search (honest, read_lengths-Honest, reset_table-Honest) depth 16

pub fill_lengths-Honest : (n p count v : ℕ) (s : Session) → Honest (fill_lengths n p count v s)
unfolding fill_lengths
fill_lengths-Honest n p count v s = search (honest) depth 16

pub read_symbol20-Honest :
    (before : Exec InputBuffer (Unit {0})) (h : (c : InputBuffer) → Honest (before c)) (s : Session)
    → Honest (read_symbol20 before s)
unfolding read_symbol20
read_symbol20-Honest before h s = search (honest, read_symbol-Honest) depth 16

pub base_value-Honest : (p n : ℕ) (s : Session) → Honest (base_value p n s)
unfolding base_value
base_value-Honest p n s = search (honest) depth 16

pub set_length-Honest : (p n : ℕ) (s : Session) → Honest (set_length p n s)
unfolding set_length
set_length-Honest p n s = search (honest) depth 16

pub zero_fill-Honest : (fix n p : ℕ) (s : Session) → Honest (zero_fill fix n p s)
unfolding zero_fill
zero_fill-Honest fix n p s = search (honest, read_bits-Honest, fill_lengths-Honest) depth 16

pub repeat_zero-Honest : (fix n p : ℕ) (s : Session) → Honest (repeat_zero fix n p s)
unfolding repeat_zero
repeat_zero-Honest fix n p s = search (honest, read_bits-Honest, fill_lengths-Honest) depth 16

pub repeat_previous-Honest : (fix n p : ℕ) (s : Session) → Honest (repeat_previous fix n p s)
unfolding repeat_previous
repeat_previous-Honest fix n p s =
    search (honest, read_bits-Honest, read_symbol20-Honest, base_value-Honest, fill_lengths-Honest)
      depth 16

pub one_length-Honest : (p n : ℕ) (s : Session) → Honest (one_length p n s)
unfolding one_length
one_length-Honest p n s = search (honest, base_value-Honest, set_length-Honest) depth 16

pub apply_symbol-Honest :
    (fix n p symbol : ℕ) (s : Session) → Honest (apply_symbol fix n p symbol s)
unfolding apply_symbol
apply_symbol-Honest fix n p symbol s =
    search (honest, zero_fill-Honest, repeat_zero-Honest, repeat_previous-Honest, one_length-Honest)
      depth 16

ignoring-Honest {ℓ κ} : {T : Type ℓ} {A : Type κ} (m : Exec T A) (s : T) → Honest (ignoring m s)
ignoring-Honest {T = T} {A = A} m s =
    elim (m s)
      as (λ o. Honest {S = T} {A = Unit {0}} (elim o [
        | done a t ↦ done tt t
        | fail e t ↦ done tt t
        | fault ↦ fault
        | exhausted ↦ exhausted
      ])) [ done a t ↦ tt | fail e t ↦ tt | fault ↦ tt | exhausted ↦ tt ]

pub lengths_loop-Honest : (fuel fix n p : ℕ) (s : Session) → Honest (lengths_loop fuel fix n p s)
unfolding lengths_loop
lengths_loop-Honest zero fix n p s = tt
lengths_loop-Honest (suc fuel) fix n p s =
    search
      (
        honest,
        ignoring-Honest,
        read_symbol20-Honest,
        apply_symbol-Honest,
        lengths_loop-Honest fuel fix n,
      )
      depth 16

pub length_block-Honest : (fix n p : ℕ) (s : Session) → Honest (length_block fix n p s)
unfolding length_block
length_block-Honest fix n p s = search (honest, read_huffman20-Honest, lengths_loop-Honest) depth 16

pub read_literals-Honest : (s : Session) → Honest (read_literals s)
unfolding read_literals
read_literals-Honest s = search (honest, length_block-Honest, reset_table-Honest) depth 16

pub read_literal_table-Honest : (s : Session) → Honest (read_literal_table s)
unfolding read_literal_table
read_literal_table-Honest s =
    search (honest, read_bits-Honest, read_offsets-Honest, read_literals-Honest) depth 16
