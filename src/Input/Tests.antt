-- ===== src/Input/Tests.antt =====
-- The tests of src/mmap_buffer_test.cc, and the input theorems at concrete buffers.
use cxx_unlzx.Base.{ℕ, ◌+◌, ◌≡◌, refl, arith, List, [], ◌∷◌, ◌++◌}
use cxx_unlzx.Base.Octets.{AllBytes, AllBytes-check}
use cxx_unlzx.Status.{out_of_range}
use cxx_unlzx.Exec.{done, fail, ◌>>=◌, pure}
use cxx_unlzx.Input.{
  InputBuffer, over, read_word, refill, peek_bits, read_bits, skip, bytes_from, read_into,
  read_buffer,
}
use cxx_unlzx.Input.Stream.{IsValid, over-IsValid}
use cxx_unlzx.Input.Bits.{PeekResult, ReadResult, peek_bits_lem, read_bits_lem}
use cxx_unlzx.Input.Bytes.{SpanResult, read_into_lem, read_buffer_lem}
use cxx_unlzx.Input.Sequence.{Joined, read_bits_compose, read_into-append}

-- kTestData
abbrev test_data : List ℕ
test_data = 0x12 ∷ 0x34 ∷ 0x56 ∷ 0x78 ∷ []

-- The buffer over it, from the byte at `p` on, with bits pending.
abbrev at_byte : ℕ → ℕ → ℕ → InputBuffer
at_byte p bits n = record {
  bytes = test_data;
  current_position = p;
  data_bits = bits;
  data_bits_available = n;
}

two_words :
    (do x ← read_word; y ← read_word; pure (x ∷ y ∷ [])) (over test_data)
    ≡ done (0x1234 ∷ 0x5678 ∷ []) (at_byte 4 0 0)
unfolding read_word
two_words = refl

six_reads :
    (do
      a ← read_bits 4
      b ← read_bits 4
      c ← read_bits 8
      d ← read_bits 4
      e ← read_bits 4
      f ← read_bits 8
      pure (a ∷ b ∷ c ∷ d ∷ e ∷ f ∷ []))
      (over test_data)
    ≡ done (0x4 ∷ 0x3 ∷ 0x12 ∷ 0x8 ∷ 0x7 ∷ 0x56 ∷ []) (at_byte 4 0 0)
unfolding read_bits peek_bits refill read_word
six_reads = refl

more_than_16 : read_bits 17 (over (0x12 ∷ 0x34 ∷ [])) ≡ fail out_of_range (over (0x12 ∷ 0x34 ∷ []))
unfolding read_bits peek_bits
more_than_16 = refl

word_out_of_range : read_word (over (0x12 ∷ [])) ≡ fail out_of_range (over (0x12 ∷ []))
unfolding read_word
word_out_of_range = refl

test_bytes : AllBytes test_data
test_bytes = AllBytes-check test_data refl

test-IsValid : IsValid (over test_data)
test-IsValid = over-IsValid test_data test_bytes (omega arith)

peek_bits_lem_example : PeekResult 5 (over test_data) (peek_bits 5 (over test_data))
peek_bits_lem_example = peek_bits_lem 5 (over test_data) test-IsValid

read_bits_lem_example : ReadResult 12 (over test_data) (read_bits 12 (over test_data))
read_bits_lem_example = read_bits_lem 12 (over test_data) test-IsValid

first_four : read_bits 4 (over test_data) ≡ done 4 (at_byte 2 0x123 12)
unfolding read_bits peek_bits refill read_word
first_four = refl

next_eight : read_bits 8 (at_byte 2 0x123 12) ≡ done 0x23 (at_byte 2 1 4)
unfolding read_bits peek_bits refill read_word
next_eight = refl

read_bits_compose_example :
    Joined 4 8 (over test_data) (at_byte 2 1 4) 4 0x23 (read_bits (4 + 8) (over test_data))
read_bits_compose_example =
    read_bits_compose 4 8 (over test_data) test-IsValid (omega arith) first_four next_eight

read_into_lem_example : SpanResult (λ xs. xs) 3 (over test_data) (read_into 3 (over test_data))
read_into_lem_example = read_into_lem 3 (over test_data) test-IsValid (omega arith)

read_buffer_lem_example : SpanResult over 2 (over test_data) (read_buffer 2 (over test_data))
read_buffer_lem_example = read_buffer_lem 2 (over test_data) test-IsValid (omega arith)

first_byte : read_into 1 (over test_data) ≡ done (0x12 ∷ []) (at_byte 1 0 0)
unfolding read_into skip bytes_from
first_byte = refl

next_two : read_into 2 (at_byte 1 0 0) ≡ done (0x34 ∷ 0x56 ∷ []) (at_byte 3 0 0)
unfolding read_into skip bytes_from
next_two = refl

read_into-append_example :
    read_into (1 + 2) (over test_data) ≡ done ((0x12 ∷ []) ++ (0x34 ∷ 0x56 ∷ [])) (at_byte 3 0 0)
read_into-append_example =
    read_into-append 1 2 (over test_data) test-IsValid (omega arith) first_byte next_two
