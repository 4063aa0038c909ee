-- ===== src/Command/Show/Total.antt =====
-- `handle_list` and `handle_view` as a whole: their totals, and that they come to an end.
use mathlib.Core.Path.{subst}
use cxx_unlzx.Base.{ℕ, ◌+◌, ◌^◌, ◌<◌, ◌≡◌, refl, sym, ◌∙◌, arith, List, [], ◌∷◌, ◌++◌, length, u64}
use cxx_unlzx.Base.Dict.{Dict, AllValues}
use cxx_unlzx.Exec.{Outcome, embed}
use cxx_unlzx.Exec.Ensures.{Ensures, Ensures-bind, Ensures-mono, Ensures-fault}
use cxx_unlzx.Block.{Block}
use cxx_unlzx.File.{Segment, LzxEntry, entry_unpack_size, segment_data}
use cxx_unlzx.File.Reads.{
  sizes, Inside, AllAlive, SegmentResult, whole, empty, undefined, segment_data_lem,
}
use cxx_unlzx.File.Broken.{Broken, broken_here, broken_later}
use cxx_unlzx.Archive.Bounds.{Fit}
use cxx_unlzx.Command.{Shell}
use cxx_unlzx.Command.Show.{
  Totals, list_entry, list_entries, handle_list, view_segments, view_entries, handle_view,
}
use cxx_unlzx.Command.Extract.Writes.{length_all}
use cxx_unlzx.Command.Extract.Verdict.{entry_unpack_size_lem}

abbrev pub all_lengths : Dict LzxEntry → ℕ
all_lengths [] = 0
all_lengths ((_, e) ∷ es) = length_all e.segments + all_lengths es

abbrev pub all_segments : Dict LzxEntry → ℕ
all_segments [] = 0
all_segments ((_, e) ∷ es) = length e.segments + all_segments es

-- The totals of `t` are those of `s` and the entries.
pub record Counted (es : Dict LzxEntry) (s t : Shell Totals) : Type 0 where
  pub same_store : t.store ≡ s.store
  pub unpack : t.own.total_unpack ≡ u64 (s.own.total_unpack + all_lengths es)
  pub files : t.own.total_files ≡ u64 (s.own.total_files + all_segments es)

list_entries_lem :
    (es : Dict LzxEntry) (s : Shell Totals)
    → s.own.total_unpack < 2 ^ 64
    → s.own.total_files < 2 ^ 64
    → Ensures (λ _ t. Counted es s t) (λ _. ⊥) ⊥ (list_entries es s)
unfolding list_entries list_entry
list_entries_lem [] s h k = record {
  same_store = refl;
  unpack = omega (arith, h);
  files = omega (arith, k);
}
list_entries_lem ((name, e) ∷ es) s h k =
    let unpack_small : u64 (s.own.total_unpack + entry_unpack_size e) < 2 ^ 64 = omega arith in
    let files_small : u64 (s.own.total_files + length e.segments) < 2 ^ 64 = omega arith in
    Ensures-mono (λ _ t. Counted es _ t) (λ _ t. Counted ((name, e) ∷ es) s t) (λ _. ⊥) ⊥ _
      (list_entries_lem es _ unpack_small files_small)
      (λ _ t c. record {
        same_store = c.same_store;
        unpack = c.unpack ∙ (omega (arith, entry_unpack_size_lem e));
        files = c.files ∙ (omega arith);
      })

-- With totals of 0 before, `handle_list` returns 0 and leaves the blocks alone. Its totals, modulo
-- 2 ^ 64, are the sum of the lengths of all segments of the entries it is given, and the number of
-- these segments.
pub handle_list_lem :
    (es : Dict LzxEntry) (s : Shell Totals)
    → s.own.total_unpack ≡ 0
    → s.own.total_files ≡ 0
    → Ensures (λ code t. (code ≡ 0) × Counted es s t) (λ _. ⊥) ⊥ (handle_list es s)
unfolding handle_list
handle_list_lem es s none_yet no_files =
    Ensures-bind (λ _ t. Counted es s t) (λ code t. (code ≡ 0) × Counted es s t) (λ _. ⊥) ⊥
      (list_entries es _) _
      (Ensures-mono (λ _ t. Counted es _ t) (λ _ t. Counted es s t) (λ _. ⊥) ⊥ _
        (list_entries_lem es _ (omega (arith, none_yet)) (omega (arith, no_files)))
        (λ _ t c. record { same_store = c.same_store; unpack = c.unpack; files = c.files }))
      (λ _ t c. (refl, record { same_store = c.same_store; unpack = c.unpack; files = c.files }))

abbrev pub segments_of : Dict LzxEntry → List Segment
segments_of [] = []
segments_of ((_, e) ∷ es) = e.segments ++ segments_of es

module _ (ns : List ℕ) where
  -- The blocks are alive and have the sizes `ns`.
  pub record Viewable (s : Shell ℕ) : Type 0 where
    pub alive : AllAlive s.store
    pub sized : sizes s.store ≡ ns

  -- The blocks after some segments, where an access outside an array in `later` segments is one in
  -- all the segments from `store` on.
  record Viewed (gs later : List Segment) (store : List Block) (s : Shell ℕ) : Type 0 where
    viewable : Viewable s
    breaks : Broken later s.store → Broken (gs ++ later) store

  viewed :
      (s : Shell ℕ) (g : Segment) (later : List Segment) (o : Outcome (List Block) (List ℕ))
      → Viewable s
      → segment_data g s.store ≡ o
      → SegmentResult s.store g o
      → Ensures
          (λ _ t. Viewed (g ∷ []) later s.store t)
          (λ _. ⊥)
          (Broken (g ∷ later) s.store)
          (embed (λ t store. record t { store = store }) s o)
  viewed s g later o h asked (whole _ _ _ kept _) = record {
    viewable = record { alive = kept.alive; sized = kept.same_sizes ∙ h.sized };
    breaks = broken_later asked;
  }
  viewed s g later o h asked (empty _ _ _ kept) = record {
    viewable = record { alive = kept.alive; sized = kept.same_sizes ∙ h.sized };
    breaks = broken_later asked;
  }
  viewed s g later o h asked (undefined found e) = broken_here found e

  view_segments_lem :
      (gs later : List Segment) (s : Shell ℕ)
      → Fit ns gs
      → Viewable s
      → Ensures
          (λ _ t. Viewed gs later s.store t)
          (λ _. ⊥)
          (Broken (gs ++ later) s.store)
          (view_segments gs s)
  unfolding view_segments
  view_segments_lem [] later s fit h = record { viewable = h; breaks = λ b. b }
  view_segments_lem (g ∷ gs) later s fit h =
      Ensures-bind (λ _ t. Viewed (g ∷ []) (gs ++ later) s.store t)
        (λ _ t. Viewed (g ∷ gs) later s.store t) (λ _. ⊥) (Broken (g ∷ gs ++ later) s.store)
        (embed (λ t store. record t { store = store }) s (segment_data g s.store)) _
        (viewed s g (gs ++ later) _ h refl
          (segment_data_lem s.store g h.alive (subst (λ ms. Inside ms g) (sym h.sized) fit.0)))
        (λ xs t k.
          Ensures-fault (λ _ u. Viewed (g ∷ gs) later s.store u) (λ _. ⊥)
            (Broken (gs ++ later) t.store) (Broken (g ∷ gs ++ later) s.store) _ k.breaks
            (Ensures-mono (λ _ u. Viewed gs later t.store u)
              (λ _ u. Viewed (g ∷ gs) later s.store u) (λ _. ⊥) (Broken (gs ++ later) t.store) _
              (view_segments_lem gs later _ fit.1
                (record { alive = k.viewable.alive; sized = k.viewable.sized }))
              (λ _ u v. record { viewable = v.viewable; breaks = λ b. k.breaks (v.breaks b) })))

  view_entries_lem :
      (es : Dict LzxEntry) (s : Shell ℕ)
      → AllValues (λ e. Fit ns e.segments) es
      → Viewable s
      → Ensures (λ _ t. Viewable t) (λ _. ⊥) (Broken (segments_of es) s.store) (view_entries es s)
  unfolding view_entries
  view_entries_lem [] s fit h = h
  view_entries_lem ((name, e) ∷ es) s fit h =
      Ensures-bind (λ _ t. Viewed e.segments (segments_of es) s.store t) (λ _ t. Viewable t)
        (λ _. ⊥) (Broken (e.segments ++ segments_of es) s.store) (view_segments e.segments _) _
        (view_segments_lem e.segments (segments_of es) _ fit.0
          (record { alive = h.alive; sized = h.sized }))
        (λ _ t k.
          Ensures-fault (λ _ u. Viewable u) (λ _. ⊥) (Broken (segments_of es) t.store)
            (Broken (e.segments ++ segments_of es) s.store) _ k.breaks
            (view_entries_lem es _ fit.1
              (record { alive = k.viewable.alive; sized = k.viewable.sized })))

  -- Over blocks that are alive, for entries whose segments lie in them: `handle_view` returns 0,
  -- unless the segments of the entries, asked for their data in order, come to one whose block is
  -- decompressed with an access outside an array.
  pub handle_view_lem :
      (es : Dict LzxEntry) (s : Shell ℕ)
      → AllValues (λ e. Fit ns e.segments) es
      → Viewable s
      → Ensures (λ code _. code ≡ 0) (λ _. ⊥) (Broken (segments_of es) s.store) (handle_view es s)
  unfolding handle_view
  handle_view_lem es s fit h =
      Ensures-bind (λ _ t. Viewable t) (λ code _. code ≡ 0) (λ _. ⊥)
        (Broken (segments_of es) s.store) (view_entries es s) _ (view_entries_lem es s fit h)
        (λ _ t _. refl)
