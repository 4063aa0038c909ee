-- ===== src/File/Tests.antt =====
-- A name in Latin-1, and its path.
use cxx_unlzx.Base.{◌≡◌, refl, [], ◌∷◌, some}
use cxx_unlzx.Base.Octets.{AllBytes-check}
use cxx_unlzx.File.{utf8_of, from_latin1}
use cxx_unlzx.File.Latin.{decode, decode-from_latin1}

-- "aä"
writes_two_octets : from_latin1 (97 ∷ 228 ∷ []) ≡ 97 ∷ 195 ∷ 164 ∷ []
unfolding from_latin1 utf8_of
writes_two_octets = refl

decode-from_latin1_example : decode (from_latin1 (97 ∷ 228 ∷ [])) ≡ some (97 ∷ 228 ∷ [])
decode-from_latin1_example =
    decode-from_latin1 (97 ∷ 228 ∷ []) (AllBytes-check (97 ∷ 228 ∷ []) refl)
