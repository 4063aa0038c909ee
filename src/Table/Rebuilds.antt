-- ===== src/Table/Rebuilds.antt =====
-- The second pass of `reset_table`, and `reset_table` as a whole: what their writes keep of the array.
use cxx_unlzx.Base.{
  ℕ, zero, suc, ◌+◌, ◌-◌, ◌^◌, ◌≤◌, ◌<◌, ◌≡◌, inl, inr, refl, arith, List, [], ◌∷◌, length, ltb,
  ◌==◌, if◌then◌else◌, u16, u32, ◌<<◌, ◌>>>◌, bit_and, bit_or,
}
use cxx_unlzx.Status.{huffman_table_error}
use cxx_unlzx.Exec.{Exec, pure, raise, gets, modify, write, ◌>>=◌, ◌>>◌}
use cxx_unlzx.Exec.Ensures.{Ensures-bind, lookup-bind}
use cxx_unlzx.Exec.Relate.{On, On-after, On-bind, On-if, On-embed}
use cxx_unlzx.Table.{
  HuffmanTable, Build, on_table, advance, reverse_bits, short_lengths, clear_rest, grow_node,
  walk_down, assign_long, long_symbols, long_lengths, check_full, second_pass, after_first, build,
  reset_table,
}
use cxx_unlzx.Table.Sons.{HasSons, Writes, Writes-refl, Writes-trans}
use cxx_unlzx.Table.Keeps.{
  Builds, BuildsOn, Builds-refl, Builds-trans, Writes-On, on_table-Builds, put_entry,
  short_lengths-Builds, then_builds,
}

module _ (limit : ℕ) (some_symbol : 0 < limit) where
  clear_rest-Writes :
      (bits left symbol : ℕ) (xs : List ℕ)
      → On Unit (Writes limit) xs (clear_rest bits left symbol xs)
  unfolding clear_rest
  clear_rest-Writes bits zero symbol xs = Writes-refl limit xs
  clear_rest-Writes bits (suc left) symbol xs =
      On-bind Unit (Writes-trans limit) xs (write (reverse_bits bits symbol) 0 xs) _
        (Writes-On limit (reverse_bits bits symbol) 0 xs (inl some_symbol))
        (λ _ ys _. clear_rest-Writes bits left (symbol + 1) ys)

  -- A fresh node: its sons were written, so they are in the array.
  fresh_node : ℕ → ℕ → Exec Build (Unit {0})
  fresh_node leaf node = do
    on_table (write (u32 (node << 1)) 0)
    on_table (write (u32 (u32 (node << 1) + 1)) 0)
    on_table (write leaf (u16 node))
    modify (λ b. record b { next_symbol = u32 (node + 1) })

  fresh_node-Builds : (c : Build) (leaf node : ℕ) → BuildsOn limit c (fresh_node leaf node c)
  unfolding fresh_node
  fresh_node-Builds c leaf node =
      then_builds limit c (on_table (write (u32 (node << 1)) 0) c) _
        (on_table-Builds limit (write (u32 (node << 1)) 0) c
          (Writes-On limit (u32 (node << 1)) 0 c.table (inl some_symbol)))
        (λ _ d.
          Ensures-bind (λ _ e. Builds limit d e × (u32 (u32 (node << 1) + 1) < length d.table))
            (λ _ e. Builds limit d e) (Builds limit d) Unit
            (on_table (write (u32 (u32 (node << 1) + 1)) 0) d) _
            (put_entry limit (u32 (u32 (node << 1) + 1)) 0 d (inl some_symbol))
            (λ _ e h. On-after Unit (Builds-trans limit) {s = d} {t = e} _ h.0 (
              then_builds limit e (on_table (write leaf (u16 node)) e) _
                (on_table-Builds limit (write leaf (u16 node)) e (
                  Writes-On limit leaf (u16 node) e.table
                    (inr (omega (arith, h.1, Writes.same_length h.0)))))
                (λ _ f. Builds-refl limit f))))

  grow_node-Builds : (leaf : ℕ) (b : Build) → BuildsOn limit b (grow_node leaf b)
  unfolding grow_node fresh_node
  grow_node-Builds leaf b =
      lookup-bind (λ _ c. Builds limit b c) (Builds limit b) Unit b.table leaf _ b (inl tt)
        (λ entry _.
          On-if Unit (Builds limit) (entry == 0) (gets (λ c. c.next_symbol) >>= fresh_node leaf)
            (pure tt) b (fresh_node-Builds b leaf b.next_symbol) (Builds-refl limit b))

  walk_down-Builds :
      (left fill leaf : ℕ) (b : Build) → BuildsOn limit b (walk_down left fill leaf b)
  unfolding walk_down
  walk_down-Builds zero fill leaf b = Builds-refl limit b
  walk_down-Builds (suc left) fill leaf b =
      then_builds limit b (grow_node leaf b) _ (grow_node-Builds leaf b) (λ _ c.
        lookup-bind (λ _ d. Builds limit c d) (Builds limit c) Unit c.table leaf _ c (inl tt)
          (λ entry _.
            walk_down-Builds left (fill + 1)
              (bit_or (u32 (entry << 1)) (bit_and (c.position >>> (15 - fill)) 1)) c))

  assign_long-Builds :
      (bits len bit_mask symbol : ℕ) (b : Build)
      → symbol < limit
      → BuildsOn limit b (assign_long bits len bit_mask symbol b)
  unfolding assign_long
  assign_long-Builds bits len bit_mask symbol b h =
      then_builds limit b (walk_down (len - bits) 0 (reverse_bits bits (b.position >>> 16)) b) _
        (walk_down-Builds (len - bits) 0 (reverse_bits bits (b.position >>> 16)) b)
        (λ leaf c.
          then_builds limit c (on_table (write leaf (u16 symbol)) c) _
            (on_table-Builds limit (write leaf (u16 symbol)) c
              (Writes-On limit leaf (u16 symbol) c.table (inl (omega arith))))
            (λ _ d.
              let e = advance bit_mask d in
              On-if Unit (Builds limit) (ltb (u32 (2 ^ bits << 16)) e.position)
                (raise huffman_table_error) (pure tt) e (Builds-refl limit e)
                (Builds-refl limit e)))

  long_symbols-Builds :
      (bits len bit_mask : ℕ) (lens : List ℕ) (symbol : ℕ) (b : Build)
      → symbol + length lens ≤ limit
      → BuildsOn limit b (long_symbols bits len bit_mask lens symbol b)
  unfolding long_symbols
  long_symbols-Builds bits len bit_mask [] symbol b h = Builds-refl limit b
  long_symbols-Builds bits len bit_mask (l ∷ rest) symbol b h =
      then_builds limit b ((if l == len then assign_long bits len bit_mask symbol else pure tt) b) _
        (On-if Unit (Builds limit) (l == len) (assign_long bits len bit_mask symbol) (pure tt) b
          (assign_long-Builds bits len bit_mask symbol b (omega arith)) (Builds-refl limit b))
        (λ _ c. long_symbols-Builds bits len bit_mask rest (symbol + 1) c (omega arith))

  long_lengths-Builds :
      (bits : ℕ) (lens : List ℕ) (left len bit_mask : ℕ) (b : Build)
      → length lens ≤ limit
      → BuildsOn limit b (long_lengths bits lens left len bit_mask b)
  unfolding long_lengths
  long_lengths-Builds bits lens zero len bit_mask b h = Builds-refl limit b
  long_lengths-Builds bits lens (suc left) len bit_mask b h =
      then_builds limit b (long_symbols bits len bit_mask lens 0 b) _
        (long_symbols-Builds bits len bit_mask lens 0 b (omega arith))
        (λ _ c. long_lengths-Builds bits lens left (len + 1) (bit_mask >>> 1) c h)

  check_full-Builds : (mask : ℕ) (b : Build) → BuildsOn limit b (check_full mask b)
  unfolding check_full
  check_full-Builds mask b =
      On-if Unit (Builds limit) (b.position == mask) (pure tt) (raise huffman_table_error) b
        (Builds-refl limit b) (Builds-refl limit b)

  second_pass-Builds :
      (bits : ℕ) (lens : List ℕ) (b : Build)
      → length lens ≤ limit
      → BuildsOn limit b (second_pass bits lens b)
  unfolding second_pass
  second_pass-Builds bits lens b h =
      then_builds limit b (on_table (clear_rest bits (2 ^ bits - b.position) b.position) b) _
        (on_table-Builds limit (clear_rest bits (2 ^ bits - b.position) b.position) b
          (clear_rest-Writes bits (2 ^ bits - b.position) b.position b.table))
        (λ _ c.
          let d : Build = record c {
            position = u32 (c.position << 16);
            next_symbol = 2 ^ bits >>> 1;
          } in
          then_builds limit d (long_lengths bits lens (16 - bits) (bits + 1) 32768 d) _
            (long_lengths-Builds bits lens (16 - bits) (bits + 1) 32768 d h)
            (λ _ e. check_full-Builds (u32 (2 ^ bits << 16)) e))

  build-Builds :
      (bits : ℕ) (lens : List ℕ) (b : Build)
      → length lens ≤ limit
      → BuildsOn limit b (build bits lens b)
  unfolding build after_first
  build-Builds bits lens b h =
      then_builds limit b (short_lengths bits lens bits 1 (2 ^ bits >>> 1) b) _
        (short_lengths-Builds limit bits lens bits 1 (2 ^ bits >>> 1) b h)
        (λ _ c.
          On-if Unit (Builds limit) (c.position == 2 ^ bits) (check_full (2 ^ bits))
            (second_pass bits lens) c (check_full-Builds (2 ^ bits) c)
            (second_pass-Builds bits lens c h))

-- A table after `reset_table`.
pub record Rebuilds (t t' : HuffmanTable) : Type 0 where
  pub same_bits : t'.table_bits ≡ t.table_bits
  pub same_lengths : t'.bit_length ≡ t.bit_length
  pub same_size : length t'.table ≡ length t.table
  pub sons : HasSons (length t.bit_length) t.table → HasSons (length t.bit_length) t'.table

-- For a table with at least one symbol, `reset_table` returns or makes an access outside the
-- array. Where it returns, also with HuffmanTableError, the bit lengths and the size of the array
-- are as before, and if every entry that is no symbol named a node with both sons in the array
-- before, so it does after.
pub reset_table-Rebuilds :
    (t : HuffmanTable) → 0 < length t.bit_length → On Unit Rebuilds t (reset_table t)
unfolding reset_table
reset_table-Rebuilds t h =
    let limit = length t.bit_length in
    let b : Build = record { table = t.table; position = 0; next_symbol = 0 } in
    On-embed Unit Rebuilds (Builds limit) (λ u c. record u { table = c.table }) t b
      (build t.table_bits t.bit_length b)
      (λ c w. record {
        same_bits = refl;
        same_lengths = refl;
        same_size = w.same_length;
        sons = w.sons;
      })
      (build-Builds limit h t.table_bits t.bit_length b (omega arith))
