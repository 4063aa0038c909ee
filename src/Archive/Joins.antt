-- ===== src/Archive/Joins.antt =====
-- One member: what `add_member` does in each of its three cases.
use mathlib.Core.Option
use mathlib.Core.List.{append-nil}
use cxx_unlzx.Base.{
  ℕ, ◌+◌, ◌*◌, ◌^◌, ◌≤◌, ◌<◌, ◌≡◌, refl, sym, ap, ap₂, ◌∙◌, arith, false, Bool-cases, inl, inr,
  List, [], ◌∷◌, ◌++◌, length, ltb, u64,
}
use cxx_unlzx.Base.Dict.{
  Dict, lookup, try_emplace, lookup-try_emplace, try_emplace-IsSorted, or_new, IsSorted,
}
use cxx_unlzx.Exec.{Outcome, done}
use cxx_unlzx.Input.{over}
use cxx_unlzx.Handle.{Entry, pack_size, is_merged}
use cxx_unlzx.Block.{Block, new_block}
use cxx_unlzx.File.{Builder, new_builder}
use cxx_unlzx.Block.Life.{IsFresh}
use cxx_unlzx.Archive.{
  Listing, size_of, push_pending, close_group, add_merged, add_single, add_member,
}
use cxx_unlzx.Archive.Plan.{
  Member, Piece, total_of, laid, block_of, pieces, groups, of_name, first_named, grown, grow, left,
}
use cxx_unlzx.Archive.Adds.{
  waits, AllKnown, Adds, add_segment_at_lem, add_pending_lem, Adds-nil, Adds-AllKnown,
}
use cxx_unlzx.Archive.Known.{AllKnown-after, known_itself, AllKnown-snoc}
use cxx_unlzx.Archive.Tracks.{
  AllFresh-snoc, Tracks, packed_of, packed-IsValid, block_data_of_lem, total_of-snoc, waits-snoc,
}

-- What the member makes of the state: pieces, blocks, and who waits after it.
pub record JoinsAs (m : Member) (ps : List Piece) (bs : List Block) (w : List Member) (l : Listing)
    (o : Outcome Listing (Unit {0})) : Type 0 where
  pub state : Listing
  pub returns : o ≡ done tt state
  pub same_buffer : state.in_buffer ≡ l.in_buffer
  pub found :
      (j : List ℕ)
      → lookup j state.builders ≡ grown j (lookup j l.builders) (first_named j (m ∷ [])) ps
  pub more_blocks : state.blocks ≡ l.blocks ++ bs
  pub tracks : Tracks w state

abbrev pub Joins : List Member → Member → Listing → Outcome Listing (Unit {0}) → Type 0
Joins w m l = JoinsAs m (pieces (length l.blocks) w (m ∷ [])) (groups w (m ∷ [])) (left w m) l

module _ (w : List Member) (l : Listing) (e : Entry) (t : Tracks w l)
    (packed_small : pack_size e < 2 ^ 32)
    (room : (total_of w + size_of e) * 16 ≤ 2 ^ 32 * l.in_buffer.current_position) where
  abbrev here : Member
  here = record { entry = e; packed = packed_of e l.in_buffer }

  abbrev begun : Listing
  begun = record l { builders = try_emplace e.filename (new_builder e) l.builders }

  size_small : total_of w + size_of e < 2 ^ 63
  size_small = omega (arith, room, t.small, t.valid.inside)

  IsSorted-begun : IsSorted begun.builders
  IsSorted-begun = try_emplace-IsSorted e.filename (new_builder e) l.builders t.sorted

  all_known : AllKnown begun.builders (w ++ (here ∷ []))
  all_known =
      AllKnown-snoc w here begun.builders
        (AllKnown-after w e.filename (new_builder e) l.builders t.sorted t.known)
        (known_itself e.filename (new_builder e) l.builders t.sorted)

  found_begun :
      (j : List ℕ)
      → lookup j begun.builders ≡ or_new (lookup j l.builders) (first_named j (here ∷ []))
  unfolding first_named
  found_begun j = lookup-try_emplace j e.filename (new_builder e) l.builders t.sorted

  found_after :
      {ps : List Piece} {n : Dict Builder}
      → Adds ps begun.builders n
      → (j : List ℕ) → lookup j n ≡ grown j (lookup j l.builders) (first_named j (here ∷ [])) ps
  found_after {ps} a j = a.found j ∙ ap (Option.map (grow (of_name j ps))) (found_begun j)

  IsFresh-block : (group : List Member) → total_of group < 2 ^ 63 → IsFresh (block_of group here)
  IsFresh-block group small = record {
    valid = packed-IsValid e l.in_buffer t.valid;
    small = small;
    untouched = refl;
  }

  join_single :
      is_merged e ≡ false
      → JoinsAs here
          (laid (length l.blocks) 0 (here ∷ []))
          (new_block e (over (packed_of e l.in_buffer)) (size_of e) ∷ [])
          w
          l
          (add_single e begun)
  unfolding add_single
  join_single alone =
      let b = new_block e (over (packed_of e l.in_buffer)) (size_of e) in
      let shared = record begun { blocks = l.blocks ++ (b ∷ []) } in
      let done_at =
        add_segment_at_lem e.filename _ shared
          (known_itself e.filename (new_builder e) l.builders t.sorted) in
      record {
        state = record shared { builders = done_at.builders };
        returns =
            rw (block_data_of_lem e begun t.valid t.aligned (omega (arith, packed_small)))
              done_at.returns;
        same_buffer = refl;
        found = found_after done_at.adds;
        more_blocks = refl;
        tracks = record {
          valid = t.valid;
          aligned = t.aligned;
          small = t.small;
          sorted = done_at.adds.sorted IsSorted-begun;
          known =
              Adds-AllKnown w done_at.adds
                (AllKnown-after w e.filename (new_builder e) l.builders t.sorted t.known);
          pending = t.pending;
          offset = t.offset;
          bound = t.bound;
          fresh = AllFresh-snoc l.blocks b t.fresh (record {
            valid = packed-IsValid e l.in_buffer t.valid;
            small = omega (arith, size_small);
            untouched = refl;
          });
        };
      }

  -- The state after the member has been put to those that wait.
  abbrev pushed : Listing
  pushed = record begun {
    pending_merges = waits 0 (w ++ (here ∷ []));
    current_decompressed_offset = total_of (w ++ (here ∷ []));
  }

  push_lem : push_pending e begun ≡ pushed
  push_lem =
      ap₂ (λ p o. record begun { pending_merges = p; current_decompressed_offset = o })
        (ap₂ (λ p o. p ++ (record { filename = e.filename; offset = o; len = size_of e } ∷ []))
            t.pending (t.offset ∙ (let z : total_of w ≡ 0 + total_of w = omega arith in z))
          ∙ sym (waits-snoc 0 w here))
        (let c : u64 (l.current_decompressed_offset + size_of e) ≡ total_of w + size_of e =
            omega (arith, t.offset, size_small) in
          c ∙ sym (total_of-snoc w here))

  join_pending : JoinsAs here [] [] (w ++ (here ∷ [])) l (done tt (push_pending e begun))
  join_pending = rw push_lem (record {
    state = pushed;
    returns = refl;
    same_buffer = refl;
    found = found_after (Adds-nil begun.builders);
    more_blocks = sym (append-nil l.blocks);
    tracks = record {
      valid = t.valid;
      aligned = t.aligned;
      small = t.small;
      sorted = IsSorted-begun;
      known = all_known;
      pending = refl;
      offset = refl;
      bound = omega (arith, room, total_of-snoc w here);
      fresh = t.fresh;
    };
  })

  join_closing :
      JoinsAs here
        (laid (length l.blocks) 0 (w ++ (here ∷ [])))
        (block_of (w ++ (here ∷ [])) here ∷ [])
        []
        l
        (close_group e (push_pending e begun))
  unfolding close_group
  join_closing =
      let group = w ++ (here ∷ []) in
      let b = block_of group here in
      let shared = record pushed { blocks = l.blocks ++ (b ∷ []) } in
      let adding = add_pending_lem (length l.blocks) 0 group shared all_known in
      rw push_lem (record {
        state = record shared {
          builders = adding.builders;
          pending_merges = [];
          current_decompressed_offset = 0;
        };
        returns =
            rw
              (
                block_data_of_lem e pushed t.valid t.aligned (omega (arith, packed_small)),
                adding.returns,
              )
              refl;
        same_buffer = refl;
        found = found_after adding.adds;
        more_blocks = refl;
        tracks = record {
          valid = t.valid;
          aligned = t.aligned;
          small = t.small;
          sorted = adding.adds.sorted IsSorted-begun;
          known = tt;
          pending = refl;
          offset = refl;
          bound = omega arith;
          fresh =
              AllFresh-snoc l.blocks b t.fresh
                (IsFresh-block group (omega (arith, size_small, total_of-snoc w here)));
        };
      })

  -- The member joins as the plan says.
  pub add_member_lem : Joins w here l (add_member e l)
  unfolding add_member add_merged pieces groups left
  add_member_lem = elim (Bool-cases (is_merged e)) [
    | inr alone ↦ rw (alone, append-nil) (join_single alone)
    | inl merged ↦ elim (Bool-cases (ltb 0 (pack_size e))) [
      | inr none_yet ↦ rw (merged, none_yet) join_pending
      | inl closing ↦ rw (merged, closing, append-nil) join_closing
    ]
  ]
