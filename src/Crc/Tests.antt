-- ===== src/Crc/Tests.antt =====
-- The tests of src/crc_test.cc, and the checksum theorems at concrete texts.
use cxx_unlzx.Base.{ℕ, ◌^◌, ◌<◌, ◌≡◌, ◌≢◌, refl, arith, List, [], ◌∷◌, ◌++◌, bit_xor}
use cxx_unlzx.Base.Octets.{AllBytes, AllBytes-check}
use cxx_unlzx.Crc.{reversed_polynomial, table_steps, update, calc, fresh}
use cxx_unlzx.Crc.Bitwise.{crc_of, update-eq-steps, calc-eq-crc_of, calc-append}
use cxx_unlzx.Crc.Detects.{calc_detects}

-- static_assert(kCrc32ReversedPolynomial == 0xEDB88320)
reversed_polynomial_asserted : reversed_polynomial ≡ 0xEDB88320
unfolding reversed_polynomial
reversed_polynomial_asserted = refl

zero_length : (calc [] fresh).0 ≡ 0
unfolding calc
zero_length = refl

single_byte : (calc (0x01 ∷ []) fresh).0 ≡ 0xA505DF1B
unfolding calc
single_byte = refl

multiple_bytes : (calc (0x01 ∷ 0x02 ∷ 0x03 ∷ []) fresh).0 ≡ 0x55BC801D
unfolding calc
multiple_bytes = refl

known_values :
    ((calc (0xDE ∷ 0xAD ∷ 0xBE ∷ 0xEF ∷ []) fresh).0 ≡ 0x7C9CA35A)
    × ((calc (0x12 ∷ 0x34 ∷ 0x56 ∷ 0x78 ∷ 0x9A ∷ []) fresh).0 ≡ 0x3C4687AF)
unfolding calc
known_values = (refl, refl)

abbrev text : List ℕ
text = 0xDE ∷ 0xAD ∷ []

text_bytes : AllBytes text
text_bytes = AllBytes-check text refl

update-eq-steps_example : update 0xFFFFFFFF 0x61 ≡ table_steps 8 (bit_xor 0xFFFFFFFF 0x61)
update-eq-steps_example = update-eq-steps 0xFFFFFFFF 0x61 (omega arith)

calc-eq-crc_of_example : calc text fresh ≡ (crc_of 0 text, record { sum = crc_of 0 text })
calc-eq-crc_of_example = calc-eq-crc_of fresh text (omega arith) text_bytes

calc-append_example :
    (calc text (calc text fresh).1 ≡ calc (text ++ text) fresh)
    × ((calc (text ++ text) fresh).0 < 2 ^ 32)
calc-append_example = calc-append fresh text text (omega arith) text_bytes text_bytes

calc_detects_example : (calc (text ++ 1 ∷ text) fresh).0 ≢ (calc (text ++ 2 ∷ text) fresh).0
calc_detects_example =
    calc_detects fresh text 1 2 text (omega arith) text_bytes (omega arith) (omega arith) text_bytes
      (λ e. absurd (omega (arith, e)))
