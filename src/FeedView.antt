-- ===== src/FeedView.antt =====
-- FeedList.tsx: the feeds that are selected, the filter by tag, and the ignore windows shown with a
-- feed.
pub mod Selecting
pub mod Windows
use feed_reader.Common.{
  String, ◌≡◌, refl, Bool, true, false, not, ◌&&◌, ◌||◌, Option, none, some, List, [], ◌∷◌, ◌++◌,
  map, if◌then◌else◌, ◌==◌, nat_eq, string_eq, ltb,
}
use feed_reader.Common.Lists.{length, filter, includes, all, any}
use feed_reader.Queries.Counts.{Tag}
use feed_reader.Queries.FeedQueries.{
  Feed, TagChoice, any_tag, untagged, tagged, FeedSortOption, title_asc, title_desc, last_fetched,
  next_fetch,
}

abbrev pub feed_id : Feed → String
feed_id f = f.id

-- The selection is the array of its ids, in the order of selection.
unfoldable pub all_visible_selected : List Feed → List String → Bool
all_visible_selected feeds selected =
    if length feeds == 0 then false else all feeds (λ f. includes selected f.id)

unfoldable pub is_indeterminate : List Feed → List String → Bool
is_indeterminate feeds selected =
    let selected_count = length (filter (λ (f : Feed). includes selected f.id) feeds) in
    if length feeds == 0 then false else ltb 0 selected_count && ltb selected_count (length feeds)

-- The loop that pushes the feeds that are not selected.
unfoldable pub push_new : List Feed → List String → List String
push_new [] selected = selected
push_new (f ∷ feeds) selected =
    push_new feeds (if includes selected f.id then selected else selected ++ f.id ∷ [])

unfoldable pub toggle_select_all : List Feed → List String → List String
unfolding push_new
toggle_select_all feeds selected =
    if all_visible_selected feeds selected
    then filter (λ id. not (includes (map feed_id feeds) id)) selected
    else push_new feeds selected

unfoldable pub toggle_feed_selection : String → List String → List String
toggle_feed_selection id selected =
    if includes selected id then filter (λ u. not (u == id)) selected else selected ++ id ∷ []

-- The handlers of a row: a click, and a key.
unfoldable pub row_click : Bool → String → List String → List String
unfolding toggle_feed_selection
row_click read_only id selected = if read_only then selected else toggle_feed_selection id selected

unfoldable pub row_key : Bool → String → String → List String → List String
unfolding toggle_feed_selection
row_key read_only key id selected =
    if read_only
    then selected
    else if (key == "Enter") || (key == " ")
    then toggle_feed_selection id selected
    else selected

-- The filter by tag: the value of its `select`, and what its input event sets.
unfoldable pub select_value : TagChoice → String
select_value any_tag = "all"
select_value untagged = "untagged"
select_value (tagged tag_id) = tag_id

unfoldable pub on_filter_input : String → TagChoice
on_filter_input value =
    if value == "all" then any_tag else if value == "untagged" then untagged else tagged value

-- The effect that drops a filter by a tag that is gone.
unfoldable pub checked_choice : List Tag → Bool → TagChoice → TagChoice
checked_choice tags loading any_tag = any_tag
checked_choice tags loading untagged = untagged
checked_choice tags loading (tagged tag_id) =
    if length tags == 0
    then tagged tag_id
    else if not (any tags (λ t. t.id == tag_id)) && not loading
    then any_tag
    else tagged tag_id

unfoldable pub on_sort_input : String → FeedSortOption → FeedSortOption
on_sort_input value current =
    if value == "title_asc"
    then title_asc
    else if value == "title_desc"
    then title_desc
    else if value == "last_fetched"
    then last_fetched
    else if value == "next_fetch"
    then next_fetch
    else current

-- `handleDelete`: the error shown, from what `feedDelete` throws. `other` is a thrown value that is
-- no `Error`.
pub data Thrown : Type 0 where
  error : String → Thrown
  other : Thrown

unfoldable pub handle_delete : Option Thrown → Option String
handle_delete none = none
handle_delete (some (error message)) = some message
handle_delete (some other) = some "Failed to delete feed"

-- `feedIgnoreWindowsQuery` and `tagIgnoreWindowsQuery`.
pub record FeedIgnoreWindow : Type 0 where
  pub feed_id : String
  pub ignore_window_id : String

pub record TagIgnoreWindow : Type 0 where
  pub tag_id : String
  pub ignore_window_id : String

unfoldable pub direct_window_ids : String → List FeedIgnoreWindow → List String
direct_window_ids id links =
    map (λ (l : FeedIgnoreWindow). l.ignore_window_id)
      (filter (λ (l : FeedIgnoreWindow). l.feed_id == id) links)

unfoldable pub tag_window_ids : List String → List TagIgnoreWindow → List String
tag_window_ids tag_ids links =
    map (λ (l : TagIgnoreWindow). l.ignore_window_id)
      (filter (λ (l : TagIgnoreWindow). includes tag_ids l.tag_id) links)

-- `getIgnoreWindowsForFeed`, of windows with any further fields.
module _ {W : Type 0} (window_id : W → String) where
  unfoldable pub get_ignore_windows_for_feed :
      List W → List FeedIgnoreWindow → List TagIgnoreWindow → String → List String → List W
  unfolding direct_window_ids tag_window_ids
  get_ignore_windows_for_feed windows feed_links tag_links id tag_ids =
      if length windows == 0
      then []
      else filter
          (λ (w : W).
            includes (direct_window_ids id feed_links) (window_id w)
            || includes (tag_window_ids tag_ids tag_links) (window_id w))
          windows
