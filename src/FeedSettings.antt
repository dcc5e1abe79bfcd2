-- ===== src/FeedSettings.antt =====
-- lib/storage-utils.ts and lib/feed-store.ts: the sort order and the tag filter of the feeds, and how
-- the browser's storage keeps them.
pub mod Persistence
use feed_reader.Common.{
  String, ◌≡◌, refl, Bool, true, false, not, ◌&&◌, ◌||◌, Option, none, some, List, [], ◌∷◌,
  if◌then◌else◌, ◌==◌, string_eq,
}
use feed_reader.Common.Maps.{Dict, get, set, delete}
use feed_reader.Queries.FeedQueries.{
  TagChoice, any_tag, untagged, tagged, FeedSortOption, title_asc, title_desc, last_fetched,
  next_fetch,
}

abbrev pub feed_sort_by_key : String
feed_sort_by_key = "feed-reader:settings:feed-sort-by"

abbrev pub feed_tag_filter_key : String
feed_tag_filter_key = "feed-reader:settings:feed-tag-filter"

-- A value that is stored, as far as the store looks into it.
pub data Value : Type 0 where
  undefined null other : Value
  text : String → Value

-- `localStorage`: its items, and whether it can be written and read at all.
pub record Storage : Type 0 where
  pub items : Dict String
  pub writable : Bool
  pub readable : Bool

-- `JSON.stringify` and `JSON.parse` are the platform's; `none` stands for the `SyntaxError`.
module _ (stringify : Value → String) (parse : String → Option Value) where
  unfoldable pub set_storage_value : String → Value → Storage → Storage
  unfolding set delete
  set_storage_value key value s =
      if s.writable
      then elim value [
        | undefined ↦ record s { items = delete key s.items }
        | null ↦ record s { items = set key (stringify null) s.items }
        | other ↦ record s { items = set key (stringify other) s.items }
        | text t ↦ record s { items = set key (stringify (text t)) s.items }
      ]
      else s

  abbrev validated : Value → (Value → Bool) → Value → Value
  validated default validate value = if validate value then value else default

  abbrev parsed_or : Value → (Value → Bool) → Option Value → Value
  parsed_or default validate none = default
  parsed_or default validate (some value) = validated default validate value

  abbrev stored_or : Value → (Value → Bool) → Option String → Value
  stored_or default validate none = default
  stored_or default validate (some stored) = parsed_or default validate (parse stored)

  unfoldable pub get_storage_value : String → Value → (Value → Bool) → Storage → Value
  unfolding get
  get_storage_value key default validate s =
      if s.readable then stored_or default validate (get key s.items) else default

unfoldable pub is_feed_sort_by : Value → Bool
is_feed_sort_by (text t) =
    (t == "title_asc") || ((t == "title_desc") || ((t == "last_fetched") || (t == "next_fetch")))
is_feed_sort_by undefined = false
is_feed_sort_by null = false
is_feed_sort_by other = false

unfoldable pub is_tag_filter : Value → Bool
is_tag_filter (text t) = true
is_tag_filter undefined = true
is_tag_filter null = true
is_tag_filter other = false

pub record FeedStoreState : Type 0 where
  pub sort_by : FeedSortOption
  pub selected_tag_id : TagChoice

-- The values that the settings are in the program.
abbrev pub sort_value : FeedSortOption → Value
sort_value title_asc = text "title_asc"
sort_value title_desc = text "title_desc"
sort_value last_fetched = text "last_fetched"
sort_value next_fetch = text "next_fetch"

abbrev pub tag_value : TagChoice → Value
tag_value any_tag = undefined
tag_value untagged = null
tag_value (tagged id) = text id

abbrev pub sort_of : Value → FeedSortOption
sort_of (text t) =
    if t == "title_desc"
    then title_desc
    else if t == "last_fetched"
    then last_fetched
    else if t == "next_fetch"
    then next_fetch
    else title_asc
sort_of undefined = title_asc
sort_of null = title_asc
sort_of other = title_asc

abbrev pub choice_of : Value → TagChoice
choice_of (text id) = tagged id
choice_of undefined = any_tag
choice_of null = untagged
choice_of other = any_tag

module _ (stringify : Value → String) (parse : String → Option Value) where
  -- The state that `createFeedStore` begins with.
  unfoldable pub create_feed_store : Storage → FeedStoreState
  unfolding get_storage_value is_feed_sort_by is_tag_filter
  create_feed_store s = record {
    sort_by =
        sort_of
          (get_storage_value stringify parse feed_sort_by_key (text "title_asc") is_feed_sort_by s);
    selected_tag_id =
        choice_of (get_storage_value stringify parse feed_tag_filter_key undefined is_tag_filter s);
  }

  -- The effects that write the settings when they change.
  unfoldable pub persist_sort_by : FeedStoreState → Storage → Storage
  unfolding set_storage_value
  persist_sort_by state s =
      set_storage_value stringify parse feed_sort_by_key (sort_value state.sort_by) s

  unfoldable pub persist_tag_filter : FeedStoreState → Storage → Storage
  unfolding set_storage_value
  persist_tag_filter state s =
      set_storage_value stringify parse feed_tag_filter_key (tag_value state.selected_tag_id) s

unfoldable pub set_sort_by : FeedSortOption → FeedStoreState → FeedStoreState
set_sort_by sort_by s = record s { sort_by = sort_by }

unfoldable pub set_selected_tag_id : TagChoice → FeedStoreState → FeedStoreState
set_selected_tag_id tag_id s = record s { selected_tag_id = tag_id }
