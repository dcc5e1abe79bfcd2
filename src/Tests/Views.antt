-- ===== src/Tests/Views.antt =====
-- The lists on the screen at concrete inputs.
use feed_reader.Common.{
  ℕ, String, ◌≡◌, refl, Bool, true, false, not, ◌&&◌, ◌||◌, Option, none, some, List, [], ◌∷◌,
  if◌then◌else◌, ◌==◌, string_eq, nat_eq,
}
use feed_reader.Common.Int.{pos}
use feed_reader.Common.Lists.{includes, filter}
use feed_reader.Dates.{all_dates, days_30, days_7}
use feed_reader.Items.{Item}
use feed_reader.Items.Merge.{latest, HasDistinctIds}
use feed_reader.Items.Reads.{ItemRead, read_id, or_empty}
use feed_reader.Items.ReadRollback.{new_state}
use feed_reader.ItemView.{
  ListState, filtered_items, item_id, read_item_ids, handle_clear_read_items,
  handle_bulk_mark_as_read,
}
use feed_reader.ItemView.Clearing.{handle_clear_read_items_lem}
use feed_reader.ItemView.Marking.{handle_bulk_mark_as_read_lem}
use feed_reader.ItemView.DateFilter.{absent, text, chosen, chosen_lem}
use feed_reader.Queries.FeedQueries.{Feed}
use feed_reader.FeedView.{all_visible_selected, toggle_select_all}
use feed_reader.FeedView.Selecting.{toggle_select_all_lem}

abbrev item : String → Bool → Item
item id is_read = record {
  id = id;
  title = "";
  description = "";
  published_at = none;
  is_read = is_read;
  created_at = none;
  feed_id = "f";
  url = "";
  author = "";
  categories = "";
  image_url = "";
  content = "";
  feeds = none;
}

abbrev items : List Item
items = item "a" true ∷ item "b" false ∷ item "c" true ∷ []

abbrev listed : ListState
listed = record {
  store = record { show_read = true; since = days_7; transient_removed_ids = ("c", true) ∷ [] };
  selected_item_ids = "a" ∷ "b" ∷ [];
  is_bulk_marking = false;
}

listed-HasDistinctIds : HasDistinctIds item_id (filtered_items items listed)
unfolding filtered_items latest feed_reader.Queries.ItemQueries.filter_visible_list_items
    feed_reader.Common.Maps.get
listed-HasDistinctIds = (refl, (refl, tt))

-- "c" is gone already, and "a" goes.
handle_clear_read_items_example :
    (filtered_items items (handle_clear_read_items items listed)
      ≡ filter (λ (i : Item). not i.is_read) (filtered_items items listed))
    × ((id : String)
        → includes (handle_clear_read_items items listed).selected_item_ids id ≡ (
            not (includes (read_item_ids items listed) id) && includes listed.selected_item_ids id))
handle_clear_read_items_example = handle_clear_read_items_lem items listed listed-HasDistinctIds

abbrev reads : List ItemRead
reads = record { id = "a"; is_read = false; updated_at = pos 1 } ∷ []

reads-HasDistinctIds : HasDistinctIds read_id reads
unfolding latest
reads-HasDistinctIds = (refl, tt)

handle_bulk_mark_as_read_example :
    let done = handle_bulk_mark_as_read (pos 7) true (λ r. r) (λ ids. ids) listed (some reads) in
    let failed = handle_bulk_mark_as_read (pos 7) false (λ r. r) (λ ids. ids) listed (some reads) in
    ((latest read_id "a" (or_empty done.1) ≡ some (new_state true (pos 7) "a"))
      × (done.0.selected_item_ids ≡ [])
      × (done.0.is_bulk_marking ≡ false)
      × (done.2 ≡ false))
    × ((latest read_id "a" (or_empty failed.1) ≡ latest read_id "a" reads)
        × (failed.0.selected_item_ids ≡ "a" ∷ "b" ∷ [])
        × (failed.0.is_bulk_marking ≡ false)
        × (failed.2 ≡ true))
handle_bulk_mark_as_read_example =
    handle_bulk_mark_as_read_lem (pos 7) (λ r. r) (λ ids. ids) listed reads "a" reads-HasDistinctIds
      refl

-- "All Time" without a tag.
chosen_example :
    let (stored, search) =
      chosen all_dates (record { tag_id = absent; since = text "7d" }) listed.store in
    (stored.since ≡ days_30) × (search.since ≡ some days_30)
unfolding feed_reader.ItemView.DateFilter.since_param
chosen_example = chosen_lem all_dates (record { tag_id = absent; since = text "7d" }) listed.store

abbrev feed : String → Feed
feed id = record { id = id; title = id; last_fetched_at = none; next_fetch_at = none }

-- "x" is selected and not shown.
toggle_select_all_example :
    includes (toggle_select_all (feed "f" ∷ feed "g" ∷ []) ("x" ∷ "f" ∷ [])) "g"
    ≡ not (all_visible_selected (feed "f" ∷ feed "g" ∷ []) ("x" ∷ "f" ∷ []))
toggle_select_all_example = toggle_select_all_lem (feed "f" ∷ feed "g" ∷ []) ("x" ∷ "f" ∷ []) "g"
