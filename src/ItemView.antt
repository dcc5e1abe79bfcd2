-- ===== src/ItemView.antt =====
-- ItemList.tsx, with the store of lib/item-store.ts and the search parameters of routes/_items.tsx: the
-- items that are cleared away, those that are selected, and the date filter.
pub mod Clearing
pub mod DateFilter
pub mod Marking
use feed_reader.Common.{
  String, ◌≡◌, refl, Bool, true, false, not, ◌&&◌, ◌||◌, Option, none, some, List, [], ◌∷◌, ◌++◌,
  map, if◌then◌else◌, ◌==◌, nat_eq, string_eq, ltb,
}
use feed_reader.Common.Int.{ℤ}
use feed_reader.Common.Lists.{length, filter, includes}
use feed_reader.Common.Maps.{Dict, get, set, set_all, add, remove, add_all, remove_all}
use feed_reader.Dates.{DateFilterValue}
use feed_reader.Items.{Item}
use feed_reader.Items.Reads.{ItemRead, update_item_read_status}
use feed_reader.Queries.ItemQueries.{filter_visible_list_items}

-- The state of the item store.
pub record ItemStoreState : Type 0 where
  pub show_read : Bool
  pub since : DateFilterValue
  pub transient_removed_ids : Dict Bool

-- The signals of the list, and the store; `selected_item_ids` is a set.
pub record ListState : Type 0 where
  pub store : ItemStoreState
  pub selected_item_ids : List String
  pub is_bulk_marking : Bool

unfoldable pub set_show_read : Bool → ItemStoreState → ItemStoreState
set_show_read show_read s = record s { show_read = show_read }

unfoldable pub set_date_filter : DateFilterValue → ItemStoreState → ItemStoreState
set_date_filter since s = record s { since = since }

-- `updates`, as its assignments in order.
unfoldable pub removals : List String → Dict Bool
removals [] = []
removals (id ∷ ids) = (id, true) ∷ removals ids

unfoldable pub add_transient_removed_ids : List String → ItemStoreState → ItemStoreState
unfolding removals set_all
add_transient_removed_ids ids s = record s {
  transient_removed_ids = set_all (removals ids) s.transient_removed_ids;
}

unfoldable pub clear_transient_removed_ids : ItemStoreState → ItemStoreState
clear_transient_removed_ids s = record s { transient_removed_ids = [] }

-- `filteredItems`, of the items with their read states.
unfoldable pub filtered_items : List Item → ListState → List Item
unfolding filter_visible_list_items
filtered_items items s = filter_visible_list_items items s.store.transient_removed_ids

abbrev pub item_id : Item → String
item_id item = item.id

unfoldable pub read_item_ids : List Item → ListState → List String
unfolding filtered_items
read_item_ids items s = map item_id (filter (λ (i : Item). i.is_read) (filtered_items items s))

unfoldable pub handle_clear_read_items : List Item → ListState → ListState
unfolding read_item_ids add_transient_removed_ids remove_all
handle_clear_read_items items s = record s {
  store = add_transient_removed_ids (read_item_ids items s) s.store;
  selected_item_ids = remove_all (read_item_ids items s) s.selected_item_ids;
}

unfoldable pub is_all_selected : List Item → ListState → Bool
is_all_selected items s =
    ltb 0 (length (filtered_items items s))
    && (length s.selected_item_ids == length (filtered_items items s))

unfoldable pub handle_toggle_all : Bool → List Item → ListState → ListState
unfolding filtered_items add_all
handle_toggle_all checked items s = record s {
  selected_item_ids = if checked then add_all (map item_id (filtered_items items s)) [] else [];
}

unfoldable pub handle_toggle_item : String → Bool → ListState → ListState
unfolding add remove
handle_toggle_item id selected s = record s {
  selected_item_ids =
      if selected then add id s.selected_item_ids else remove id s.selected_item_ids;
}

-- `handleBulkMarkAsRead`: the state, the cached read states, and whether it throws. `accepted` is the
-- server's answer; `meanwhile` and `clicks` are what others do to the read states and the user to
-- the selection while it is awaited.
unfoldable pub handle_bulk_mark_as_read :
    ℤ
    → Bool
    → (List ItemRead → List ItemRead)
    → (List String → List String)
    → ListState
    → Option (List ItemRead)
    → ListState × Option (List ItemRead) × Bool
unfolding update_item_read_status
handle_bulk_mark_as_read now accepted meanwhile clicks s cached =
    if length s.selected_item_ids == 0
    then (s, cached, false)
    else let (reads, thrown) =
        update_item_read_status s.selected_item_ids true now accepted meanwhile cached in
      (
        record s {
          selected_item_ids = if thrown then clicks s.selected_item_ids else [];
          is_bulk_marking = false;
        },
        some reads,
        thrown,
      )

-- The search parameters of the list's route.
pub record ItemsSearch : Type 0 where
  pub tag_id : Option String
  pub since : Option DateFilterValue
