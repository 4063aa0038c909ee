-- ===== src/File/Reads.antt =====
-- What `data()` and `status()` of a segment give, over blocks at any point of their life.
use cxx_unlzx.Base.{
  ℕ, zero, suc, ◌+◌, ◌-◌, ◌≤◌, ◌≡◌, refl, sym, ap, ◌∙◌, arith, true, false, List, [], ◌∷◌, Option,
  none, some, length, get_elem?, set, take, drop, length-take, length-drop, le→ltb,
}
use cxx_unlzx.Exec.{Outcome, done, fail, fault, exhausted, bind_outcome, embed}
use cxx_unlzx.Block.{Block, is_ok, block_data}
use cxx_unlzx.Block.Life.{Life, Answer, got, refused, IsRead, Reads, block_data-Reads, IsRead-Life}
use cxx_unlzx.File.{Segment, subspan, part_of, segment_data}

abbrev pub sizes : List Block → List ℕ
sizes [] = []
sizes (b ∷ store) = b.total_unpacked_size ∷ sizes store

-- A segment lies in its block.
pub record Inside (ns : List ℕ) (g : Segment) : Type 0 where
  pub size : ℕ
  pub there : get_elem? ns g.block ≡ some size
  pub within : g.decompressed_offset + g.decompressed_length ≤ size

abbrev pub AllAlive : List Block → Type 0
AllAlive [] = Unit
AllAlive (b ∷ store) = Life b × AllAlive store

find_block :
    (store : List Block) (i : ℕ) {n : ℕ}
    → AllAlive store
    → get_elem? (sizes store) i ≡ some n
    → (b : Block) × (get_elem? store i ≡ some b) × (b.total_unpacked_size ≡ n) × Life b
find_block [] i alive h = cc
find_block (b ∷ store) zero alive h =
    (b, refl, (let e : b.total_unpacked_size ≡ _ = cc in e), alive.0)
find_block (b ∷ store) (suc i) alive h = find_block store i alive.1 h

pub set-AllAlive :
    (store : List Block) (i : ℕ) (c : Block) → AllAlive store → Life c → AllAlive (set store i c)
set-AllAlive [] i c alive l = tt
set-AllAlive (b ∷ store) zero c alive l = (l, alive.1)
set-AllAlive (b ∷ store) (suc i) c alive l = (alive.0, set-AllAlive store i c alive.1 l)

sizes-set :
    (store : List Block) (i : ℕ) {b : Block} (c : Block)
    → get_elem? store i ≡ some b
    → c.total_unpacked_size ≡ b.total_unpacked_size
    → sizes (set store i c) ≡ sizes store
sizes-set [] i c h e = refl
sizes-set (x ∷ store) zero {b} c h e =
    let q : x ≡ b = cc in ap (λ n. n ∷ sizes store) (e ∙ ap (λ y. y.total_unpacked_size) (sym q))
sizes-set (x ∷ store) (suc i) c h e =
    ap (λ ns. x.total_unpacked_size ∷ ns) (sizes-set store i c h e)

pub set_same :
    (store : List Block) (i : ℕ) {c : Block} → get_elem? store i ≡ some c → set store i c ≡ store
set_same [] i e = refl
set_same (b ∷ store) zero {c} e = let q : b ≡ c = cc in ap (λ x. x ∷ store) (sym q)
set_same (b ∷ store) (suc i) e = ap (λ t. b ∷ t) (set_same store i e)

pub get_elem?-set :
    (store : List Block) (i : ℕ) {b : Block} (c : Block)
    → get_elem? store i ≡ some b
    → get_elem? (set store i c) i ≡ some c
get_elem?-set [] i c h = cc
get_elem?-set (x ∷ store) zero c h = refl
get_elem?-set (x ∷ store) (suc i) c h = get_elem?-set store i c h

-- The blocks after a call: alive, as large as before, and the one that was asked in its place.
pub record Kept (store : List Block) (i : ℕ) (c : Block) (store' : List Block) : Type 0 where
  pub alive : AllAlive store'
  pub same_sizes : sizes store' ≡ sizes store
  pub placed : get_elem? store' i ≡ some c

-- What `data()` of a segment comes to.
pub data SegmentResult (store : List Block) (g : Segment)
    : Outcome (List Block) (List ℕ) → Type 0 where
  whole :
      {b c : Block} {ys : List ℕ} {store' : List Block}
      → get_elem? store g.block ≡ some b
      → block_data b ≡ done (some ys) c
      → is_ok c.status ≡ true
      → Kept store g.block c store'
      → length (take g.decompressed_length (drop g.decompressed_offset ys)) ≡ g.decompressed_length
      → SegmentResult store g
          (done (take g.decompressed_length (drop g.decompressed_offset ys)) store')
  empty :
      {b c : Block} {store' : List Block}
      → get_elem? store g.block ≡ some b
      → block_data b ≡ done none c
      → is_ok c.status ≡ false
      → Kept store g.block c store'
      → SegmentResult store g (done [] store')
  undefined :
      {b : Block}
      → get_elem? store g.block ≡ some b
      → block_data b ≡ fault
      → SegmentResult store g fault

module _ (store : List Block) (g : Segment) (alive : AllAlive store) where
  kept :
      {b c : Block} (r : Option (List ℕ))
      → get_elem? store g.block ≡ some b
      → IsRead b r c
      → Kept store g.block c (set store g.block c)
  kept {b} {c} r found h = record {
    alive = set-AllAlive store g.block c alive (IsRead-Life b r c h);
    same_sizes = sizes-set store g.block c found h.size_kept;
    placed = get_elem?-set store g.block c found;
  }

  subspan_lem :
      (ys : List ℕ) {s : List Block}
      → g.decompressed_offset + g.decompressed_length ≤ length ys
      → subspan g.decompressed_offset g.decompressed_length ys s
        ≡ done (take g.decompressed_length (drop g.decompressed_offset ys)) s
  unfolding subspan
  subspan_lem ys within =
      rw
        (
          le→ltb (length ys) g.decompressed_offset (omega (arith, within)),
          le→ltb (length ys - g.decompressed_offset) g.decompressed_length (omega (arith, within)),
        )
        refl

  part_length :
      (ys : List ℕ)
      → g.decompressed_offset + g.decompressed_length ≤ length ys
      → length (take g.decompressed_length (drop g.decompressed_offset ys)) ≡ g.decompressed_length
  part_length ys within = omega (
    arith,
    length-take g.decompressed_length (drop g.decompressed_offset ys),
    length-drop g.decompressed_offset ys,
    within,
  )

  answered :
      {b : Block} (c : Block) (r : Option (List ℕ))
      → get_elem? store g.block ≡ some b
      → block_data b ≡ done r c
      → g.decompressed_offset + g.decompressed_length ≤ b.total_unpacked_size
      → IsRead b r c
      → Answer b c r
      → SegmentResult store g (part_of g r (set store g.block c))
  unfolding part_of
  answered c (some ys) found e within h (got good all same) =
      let fits : g.decompressed_offset + g.decompressed_length ≤ length ys =
        omega (arith, within, all) in
      rw (subspan_lem ys {s = set store g.block c} fits)
        (whole found e good (kept (some ys) found h) (part_length ys fits))
  answered c none found e within h (refused bad) = empty found e bad (kept none found h)

  called :
      {b : Block} (o : Outcome Block (Option (List ℕ)))
      → get_elem? store g.block ≡ some b
      → block_data b ≡ o
      → g.decompressed_offset + g.decompressed_length ≤ b.total_unpacked_size
      → Reads b o
      → SegmentResult store g (bind_outcome (embed (λ s c. set s g.block c) store o) (part_of g))
  called (done r c) found e within h = answered c r found e within h h.answer
  called (fail _ _) found e within h = absurd h
  called fault found e within h = undefined found e
  called exhausted found e within h = absurd h

  -- For a segment that lies in its block, over blocks at any point of their life: `data()` of the
  -- segment returns the part of the block's data that the segment names, of the segment's length,
  -- with the block's status Ok; or nothing, with another status. The blocks stay alive and keep
  -- their sizes. Nothing is read outside the block's data, unless the block's own decompression
  -- makes an access outside an array.
  pub segment_data_lem : Inside (sizes store) g → SegmentResult store g (segment_data g store)
  unfolding segment_data
  segment_data_lem i =
      let (b, found, size, life) = find_block store g.block alive i.there in
      rw found
        (called (block_data b) found refl (omega (arith, size, i.within)) (block_data-Reads b life))
