-- ===== src/Block/Total.antt =====
-- The loop of `LzxBlock::data` as a whole.
use cxx_unlzx.Base.{
  ℕ, zero, suc, ◌+◌, ◌^◌, ◌≤◌, ◌<◌, ◌≡◌, ap, ◌∙◌, arith, false, ltb, ltb→lt, ltb→le, ◌==◌, length,
  length-take, length-replicate, length-drop, drop, min, List, Option, some, none,
}
use cxx_unlzx.Exec.{Outcome, done, fail, fault, exhausted, ◌>>◌}
use cxx_unlzx.Exec.Ensures.{Ensures, Ensures-bind, Ensures-if_outcome}
use cxx_unlzx.Input.{InputBuffer, filesize, read_span}
use cxx_unlzx.Input.Bytes.{SpanResult, next_bytes, read_span_lem}
use cxx_unlzx.Input.Bytes
use cxx_unlzx.Handle.{mode}
use cxx_unlzx.Input.Stream.{IsValid}
use cxx_unlzx.Block.{
  Block, Unpacking, unpack_once, unpack_loop, unpacking, unpack_fuel, settle_normal, normal_data,
  settle_stored, stored_data, first_data, block_data,
}
use cxx_unlzx.Decoder.{new_decoder}
use cxx_unlzx.Decoder.Symbol.{bit_fuel_enough}
use cxx_unlzx.Table.{new_table}
use cxx_unlzx.Block.Round.{IsUnpacking, todo, IsRounded, unpack_once-Rounded}

module _ (size total : ℕ) (small : total < 2 ^ 63) where
  -- The state in which the loop ends.
  unpack_loop_lem :
      (fuel : ℕ) (u : Unpacking)
      → IsUnpacking size u
      → todo total u < fuel
      → Ensures
          (λ _ x. IsUnpacking size x × (total ≤ x.window.pos))
          (λ _. Unit)
          Unit
          (unpack_loop fuel total u)
  unfolding unpack_loop
  unpack_loop_lem zero u g enough = elim enough [ ]
  unpack_loop_lem (suc fuel) u g enough =
      Ensures-if_outcome (λ _ x. IsUnpacking size x × (total ≤ x.window.pos)) (λ _. Unit) Unit
        (ltb u.window.pos total) ((unpack_once total >> unpack_loop fuel total) u) (done tt u)
        (λ more.
          Ensures-bind (λ _ x. IsRounded size total u x)
            (λ _ x. IsUnpacking size x × (total ≤ x.window.pos)) (λ _. Unit) Unit
            (unpack_once total u) _
            (unpack_once-Rounded size total small u g (ltb→lt u.window.pos total more))
            (λ _ x r. unpack_loop_lem fuel x r.good (omega (arith, enough, r.less))))
        (λ stop. (g, ltb→le u.window.pos total stop))

unpacking-IsUnpacking :
    (source : InputBuffer) (total : ℕ)
    → IsValid source
    → IsUnpacking (total + 256) (unpacking source total)
unfolding unpacking new_decoder new_table
unpacking-IsUnpacking source total v = record {
  valid = v;
  symbols = record {
    offsets = rw length-replicate (omega arith);
    huffman20 = rw length-replicate (omega arith);
    literals = rw length-replicate (omega arith);
  };
  word = omega arith;
  same_size = length-replicate (total + 256) 0;
  placed = omega arith;
  left = omega arith;
}

unpacking-todo :
    (source : InputBuffer) (total : ℕ)
    → IsValid source
    → todo total (unpacking source total) < unpack_fuel source total
unfolding unpacking
unpacking-todo source total v = omega (arith, bit_fuel_enough v)

-- None, or as many bytes as the block has.
abbrev pub HasAll : ℕ → Option (List ℕ) → Type 0
HasAll total none = Unit
HasAll total (some xs) = length xs ≡ total

settles :
    (b : Block) (o : Outcome Unpacking (Unit {0}))
    → Ensures
        (λ _ x.
          IsUnpacking (b.total_unpacked_size + 256) x × (b.total_unpacked_size ≤ x.window.pos))
        (λ _. Unit)
        Unit
        o
    → Ensures (λ r _. HasAll b.total_unpacked_size r) (λ _. ⊥) Unit (settle_normal b o)
unfolding settle_normal
settles b (done a u) h =
    length-take b.total_unpacked_size u.window.target
    ∙ (let e : min b.total_unpacked_size (length u.window.target) ≡ b.total_unpacked_size =
          omega (arith, h.0.same_size) in
        e)
settles b (fail e u) h = tt
settles b fault h = tt
settles b exhausted h = h

normal_data_lem :
    (b : Block)
    → IsValid b.in_file
    → b.total_unpacked_size < 2 ^ 63
    → Ensures (λ r _. HasAll b.total_unpacked_size r) (λ _. ⊥) Unit (normal_data b)
unfolding normal_data
normal_data_lem b v small =
    let total = b.total_unpacked_size in
    settles b (unpack_loop (unpack_fuel b.in_file total) total (unpacking b.in_file total)) (
      unpack_loop_lem (total + 256) total small (unpack_fuel b.in_file total)
        (unpacking b.in_file total) (unpacking-IsUnpacking b.in_file total v)
        (unpacking-todo b.in_file total v))

next_bytes-length :
    (len : ℕ) (c : InputBuffer)
    → c.current_position + len ≤ filesize c
    → length (next_bytes len c) ≡ len
next_bytes-length len c there =
    length-take len (drop c.current_position c.bytes)
    ∙ (let e : min len (length (drop c.current_position c.bytes)) ≡ len =
          omega (arith, length-drop c.current_position c.bytes, there) in
        e)

stored_all :
    (b : Block) (o : Outcome InputBuffer (List ℕ))
    → SpanResult (λ xs. xs) b.total_unpacked_size b.in_file o
    → Ensures (λ r _. HasAll b.total_unpacked_size r) (λ _. ⊥) Unit (settle_stored b o)
unfolding settle_stored
stored_all b o (Bytes.SpanResult.got aligned there a s v) =
    ap length a ∙ next_bytes-length b.total_unpacked_size b.in_file there
stored_all b o (Bytes.SpanResult.misaligned used) = tt
stored_all b o (Bytes.SpanResult.short aligned beyond) = tt

-- For a block over a valid buffer, with a size below 2 ^ 63 and not decompressed before, `data()`
-- returns in every mode, within the fuel of the model's loop and with no error of its own, or
-- makes an access outside an array; where it returns bytes, they are as many as the block's size.
pub block_data_lem :
    (b : Block)
    → IsValid b.in_file
    → b.total_unpacked_size < 2 ^ 63
    → b.is_decompressed ≡ false
    → Ensures (λ r _. HasAll b.total_unpacked_size r) (λ _. ⊥) Unit (block_data b)
unfolding block_data first_data stored_data
block_data_lem b v small new =
    Ensures-if_outcome (λ r _. HasAll b.total_unpacked_size r) (λ _. ⊥) Unit b.is_decompressed _ _
      (λ old. absurd (ground (arith, old, new)))
      (λ _.
        Ensures-if_outcome (λ r _. HasAll b.total_unpacked_size r) (λ _. ⊥) Unit (mode b.node == 0)
          _ _
          (λ _.
            stored_all b (read_span b.total_unpacked_size b.in_file)
              (read_span_lem b.total_unpacked_size b.in_file v small))
          (λ _.
            Ensures-if_outcome (λ r _. HasAll b.total_unpacked_size r) (λ _. ⊥) Unit
              (mode b.node == 2) (normal_data b) _ (λ _. normal_data_lem b v small) (λ _. tt)))
