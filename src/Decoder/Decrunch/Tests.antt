-- ===== src/Decoder/Decrunch/Tests.antt =====
-- Small windows, worked by hand, and the theorems on decompression at them.
use cxx_unlzx.Base.{inr, ℕ, ◌≡◌, refl, arith, List, [], ◌∷◌, ◌++◌, replicate}
use cxx_unlzx.Base.Octets.{AllBytes-check}
use cxx_unlzx.Exec.{Outcome, done, fail, pure}
use cxx_unlzx.Input.{over, is_eof, read_bits, peek_bits, refill, read_word}
use cxx_unlzx.Input.Stream.{IsValid, over-IsValid}
use cxx_unlzx.Table.{HuffmanTable}
use cxx_unlzx.Decoder.{HuffmanDecoder, new_decoder, read_symbol, short_symbol, long_symbol, follow}
use cxx_unlzx.Decoder.Symbol.{Moves-refl, MovesOn, read_symbol-MovesOn}
use cxx_unlzx.Decoder.Decrunch.{
  Window, put_byte, put_literal, copy_bytes, copy_match, put_match, read_offset, choose_offset,
  long_offset, short_offset, read_count, next_symbol, put_symbol, decrunch_once, decrunch_loop,
  decrunch,
}
use cxx_unlzx.Decoder.Decrunch.Copy.{MatchResult, copy_match_lem}
use cxx_unlzx.Decoder.Decrunch.Ready.{new_decoder-IsReady}
use cxx_unlzx.Decoder.Decrunch.Grows.{Advances, decrunch_once-Advances}
use cxx_unlzx.Decoder.Decrunch.Total.{Decrunched, decrunch_lem, decrunch_safe}

-- The letter `A` by the code 0, of one bit.
abbrev only_a : HuffmanTable
only_a = record { table_bits = 12; bit_length = replicate 65 0 ++ (1 ∷ []); table = 65 ∷ [] }

abbrev no_table : HuffmanTable
no_table = record { table_bits = 7; bit_length = []; table = [] }

abbrev decoder_at : ℕ → HuffmanDecoder
decoder_at offset = record {
  offsets = no_table;
  huffman20 = no_table;
  literals = only_a;
  decrunch_method = 2;
  decrunch_length = 0;
  last_offset = offset;
}

abbrev window_over : List ℕ → List ℕ → ℕ → ℕ → Window
window_over bytes target pos offset = record {
  source = over bytes;
  decoder = decoder_at offset;
  target = target;
  pos = pos;
}

-- What a run shows: the target and the position, or the status.
data Shown : Type 0 where
  filled : List ℕ → ℕ → Shown
  refused undefined : Shown

abbrev shown : Outcome Window (Unit {0}) → Shown
shown (done a w) = Shown.filled w.target w.pos
shown (fail e w) = Shown.refused
shown _ = Shown.undefined

abbrev zeros : List ℕ
zeros = 0 ∷ 0 ∷ 0 ∷ 0 ∷ []

-- A match with an offset of 1 repeats a byte; one with an offset of 2 repeats two.
repeats :
    (shown (copy_match 3 (window_over [] (7 ∷ 0 ∷ 0 ∷ 0 ∷ 0 ∷ []) 1 1))
      ≡ Shown.filled (7 ∷ 7 ∷ 7 ∷ 7 ∷ 0 ∷ []) 4)
    × (shown (copy_match 3 (window_over [] (7 ∷ 8 ∷ 0 ∷ 0 ∷ 0 ∷ []) 2 2))
        ≡ Shown.filled (7 ∷ 8 ∷ 7 ∷ 8 ∷ 7 ∷ []) 5)
unfolding copy_match copy_bytes put_byte
repeats = (refl, refl)

run_decrunch : ℕ → Window → Shown
unfolding decrunch decrunch_loop decrunch_once put_symbol put_match put_literal put_byte copy_match
    copy_bytes read_offset choose_offset long_offset short_offset read_count next_symbol read_symbol
    short_symbol long_symbol follow read_bits peek_bits refill read_word is_eof
run_decrunch threshold w = shown (decrunch threshold w)

three_letters :
    run_decrunch 3 (window_over zeros zeros 0 1) ≡ Shown.filled (65 ∷ 65 ∷ 65 ∷ 0 ∷ []) 3
unfolding run_decrunch
three_letters = refl

-- The loop stops at the end of the source, though 15 bits are still pending.
stops_early :
    run_decrunch 3 (window_over (0 ∷ 0 ∷ []) zeros 0 1) ≡ Shown.filled (65 ∷ 0 ∷ 0 ∷ 0 ∷ []) 1
unfolding run_decrunch
stops_early = refl

valid : IsValid (over zeros)
valid = over-IsValid zeros (AllBytes-check zeros refl) (omega arith)

abbrev start : Window
start = window_over zeros zeros 0 1

copy_match_lem_example :
    MatchResult 3 (window_over [] (7 ∷ zeros) 1 1) (copy_match 3 (window_over [] (7 ∷ zeros) 1 1))
copy_match_lem_example = copy_match_lem 3 (window_over [] (7 ∷ zeros) 1 1)

abbrev fresh : Window
fresh = record { source = over zeros; decoder = new_decoder; target = zeros; pos = 0 }

read_symbol-MovesOn_example :
    MovesOn ⊥ (over zeros) (read_symbol new_decoder.literals 12 768 (pure tt) (over zeros))
read_symbol-MovesOn_example =
    read_symbol-MovesOn ⊥ new_decoder.literals 12 768 (inr new_decoder-IsReady.0) (pure tt)
      (λ c v. Moves-refl v) (over zeros) valid

decrunch_once-Advances_example : Advances ⊥ fresh (decrunch_once fresh)
decrunch_once-Advances_example =
    decrunch_once-Advances ⊥ fresh valid (omega arith) (inr new_decoder-IsReady)

decrunch_lem_example : Decrunched Unit 3 start (decrunch 3 start)
decrunch_lem_example = decrunch_lem 3 start valid (omega arith)

decrunch_safe_example : Decrunched ⊥ 3 fresh (decrunch 3 fresh)
decrunch_safe_example = decrunch_safe 3 fresh valid (omega arith) new_decoder-IsReady
