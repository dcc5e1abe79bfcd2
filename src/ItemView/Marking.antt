-- ===== src/ItemView/Marking.antt =====
-- Selecting the items shown and marking the selection as read.
use feed_reader.Common.{
  ◌+◌, String, ◌≡◌, refl, ap, ◌∙◌, true, false, some, List, [], ◌∷◌, map, arith, if◌then◌else◌,
  ◌==◌, string_eq, nat_eq, ltb,
}
use feed_reader.Common.Int.{ℤ}
use feed_reader.Common.Lists.{length, includes, All}
use feed_reader.Common.Maps.{add, add_all, includes-add_all}
use feed_reader.Items.{Item}
use feed_reader.Items.Merge.{latest, HasDistinctIds}
use feed_reader.Items.Reads.{ItemRead, read_id, or_empty, update_item_read_status}
use feed_reader.Items.ReadRollback.{new_state, update_item_read_status_lem}
use feed_reader.ItemView.{
  ListState, filtered_items, item_id, is_all_selected, handle_toggle_all, handle_bulk_mark_as_read,
}
use feed_reader.ItemView.Clearing.{fresh-apart}

All-outside :
    (k : String) (s : List String) (items : List Item)
    → All (λ (i : Item). (k == i.id) ≡ false) items
    → All (λ (i : Item). includes s i.id ≡ false) items
    → All (λ (i : Item). includes (k ∷ s) i.id ≡ false) items
All-outside k s [] apart out = tt
All-outside k s (i ∷ items) (other, apart) (here, out) =
    (ground (arith, other, here), All-outside k s items apart out)

add-outside : (k : String) (s : List String) → includes s k ≡ false → add k s ≡ k ∷ s
unfolding add
add-outside k s h = rw h refl

length-add_all :
    (items : List Item) (s : List String)
    → HasDistinctIds item_id items
    → All (λ (i : Item). includes s i.id ≡ false) items
    → length (add_all (map item_id items) s) ≡ length items + length s
unfolding add_all
length-add_all [] s d out = omega arith
length-add_all (i ∷ items) s (fresh, d) (here, out) =
    ap (λ t. length (add_all (map item_id items) t)) (add-outside i.id s here)
    ∙ omega (
      arith,
      length-add_all items (i.id ∷ s) d
          (All-outside i.id s items (fresh-apart items i.id fresh) out),
    )

outside_none : (items : List Item) → All (λ (i : Item). includes [] i.id ≡ false) items
outside_none [] = tt
outside_none (i ∷ items) = (refl, outside_none items)

-- Checking the box that selects all selects exactly the items shown. Where no two of them share an
-- id, the box is then checked, unless no item is shown.
pub handle_toggle_all_lem :
    (items : List Item) (s : ListState) (id : String)
    → HasDistinctIds item_id (filtered_items items s)
    → (includes (handle_toggle_all true items s).selected_item_ids id
        ≡ includes (map item_id (filtered_items items s)) id)
      × (is_all_selected items (handle_toggle_all true items s)
          ≡ ltb 0 (length (filtered_items items s)))
unfolding handle_toggle_all is_all_selected filtered_items
handle_toggle_all_lem items s id distinct = (
  includes-add_all (map item_id (filtered_items items s)) id [] ∙ ground arith,
  ground (
    arith,
    length-add_all (filtered_items items s) [] distinct (outside_none (filtered_items items s)),
  ),
)

-- Marking a selection that is not empty, with cached read states that have distinct ids: if the
-- server accepts, the selected ids are read, every other id keeps its state, and the selection is
-- cleared. If it refuses, the handler throws, the selected ids have their old states again, and the
-- selection stays as the user has it by then. Either way the list is no longer marking.
pub handle_bulk_mark_as_read_lem :
    (now : ℤ) (meanwhile : List ItemRead → List ItemRead) (clicks : List String → List String)
    (s : ListState) (existing : List ItemRead) (k : String)
    → HasDistinctIds read_id existing
    → (length s.selected_item_ids == 0) ≡ false
    → let done = handle_bulk_mark_as_read now true (λ r. r) clicks s (some existing) in
      let failed = handle_bulk_mark_as_read now false meanwhile clicks s (some existing) in
      ((latest read_id k (or_empty done.1) ≡ (
          if includes s.selected_item_ids k
          then some (new_state true now k)
          else latest read_id k existing))
        × (done.0.selected_item_ids ≡ [])
        × (done.0.is_bulk_marking ≡ false)
        × (done.2 ≡ false))
      × ((latest read_id k (or_empty failed.1) ≡ (
            if includes s.selected_item_ids k
            then latest read_id k existing
            else latest read_id k (meanwhile (or_empty done.1))))
          × (failed.0.selected_item_ids ≡ clicks s.selected_item_ids)
          × (failed.0.is_bulk_marking ≡ false)
          × (failed.2 ≡ true))
unfolding handle_bulk_mark_as_read or_empty update_item_read_status
handle_bulk_mark_as_read_lem now meanwhile clicks s existing k distinct some_selected =
    let (shown, restored, thrown) =
      update_item_read_status_lem s.selected_item_ids true now existing meanwhile distinct k in
    rw some_selected ((shown, refl, refl, refl), (restored, refl, refl, refl))
