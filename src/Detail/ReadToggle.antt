-- ===== src/Detail/ReadToggle.antt =====
-- ItemDetailModal.tsx: the read state of the item shown, and the key and button that change it.
pub mod Rollback
use feed_reader.Common.{
  String, ◌≡◌, refl, ap, sym, ◌∙◌, Bool, true, false, not, Option, none, some, List, [], ◌∷◌,
  if◌then◌else◌, ◌==◌, ==_refl, ==_iff, string_eq, Bool-cases, inl, inr,
}
use feed_reader.Common.Int.{ℤ}
use feed_reader.Common.Lists.{find?}
use feed_reader.Common.Maps.{Dict, get, set, get-set}
use feed_reader.Items.{Item}
use feed_reader.Items.Merge.{latest, HasDistinctIds}
use feed_reader.Items.Reads.{ItemRead, read_id, or_empty, update_item_read_status}
use feed_reader.Items.ReadRollback.{
  new_state, find_read-latest, update_item_read_status-HasDistinctIds, update_item_read_status_lem,
}

-- What the modal announces: an empty text, or what became of the item.
pub data Announcement : Type 0 where
  silent marked_as_read marked_as_unread : Announcement

abbrev pub read_or : Option ItemRead → Bool → Bool
read_or none is_read = is_read
read_or (some r) is_read = r.is_read

-- `prioritizedItem`, of the cached item and the cached read states.
unfoldable pub prioritized_item : Option Item → Option (List ItemRead) → Option Item
unfolding or_empty
prioritized_item none reads = none
prioritized_item (some data_of) reads = some (record data_of {
  is_read = read_or (find? (λ (r : ItemRead). r.id == data_of.id) (or_empty reads)) data_of.is_read;
})

-- The caches that the handler changes, the items by the id of their query, and the announcement.
pub record ToggleState : Type 0 where
  pub cached_items : Dict Item
  pub cached_reads : Option (List ItemRead)
  pub announcement : Announcement

unfoldable pub put_read : Bool → String → Option Item → Dict Item → Dict Item
put_read is_read item_id none items = items
put_read is_read item_id (some old) items = set item_id (record old { is_read = is_read }) items

unfoldable pub with_is_read : Bool → String → Dict Item → Dict Item
unfolding put_read
with_is_read is_read item_id items = put_read is_read item_id (get item_id items) items

-- The handler once it has an item, `now` being the time. While the server is awaited others change
-- the cached read states by `meanwhile` and the cached items by `loads`; `later_id` is the prop
-- `itemId` when it has answered.
unfoldable pub toggle_item :
    Item
    → String
    → Option String
    → ℤ
    → Bool
    → (List ItemRead → List ItemRead)
    → (Dict Item → Dict Item)
    → ToggleState
    → ToggleState
unfolding with_is_read update_item_read_status
toggle_item current item_id later_id now accepted meanwhile loads s =
    let is_read = not current.is_read in
    let waiting = loads (with_is_read is_read item_id s.cached_items) in
    let (reads, thrown) =
      update_item_read_status (current.id ∷ []) is_read now accepted meanwhile s.cached_reads in
    if thrown
    then record s {
      cached_items = elim later_id [
        | none ↦ waiting
        | some id ↦ with_is_read current.is_read id waiting
      ];
      cached_reads = some reads;
    }
    else record {
      cached_items = waiting;
      cached_reads = some reads;
      announcement = if is_read then marked_as_read else marked_as_unread;
    }

-- `handleToggleRead` for the prop `itemId`, until the server has answered.
unfoldable pub handle_toggle_read :
    String
    → Option String
    → ℤ
    → Bool
    → (List ItemRead → List ItemRead)
    → (Dict Item → Dict Item)
    → ToggleState
    → ToggleState
unfolding prioritized_item toggle_item
handle_toggle_read item_id later_id now accepted meanwhile loads s =
    elim (prioritized_item (get item_id s.cached_items) s.cached_reads) [
      | none ↦ s
      | some current ↦
          if item_id == "end-of-list"
          then s
          else toggle_item current item_id later_id now accepted meanwhile loads s
    ]
