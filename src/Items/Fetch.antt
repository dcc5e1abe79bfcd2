-- ===== src/Items/Fetch.antt =====
-- `getItemsQueryOptions(showRead, since).queryFn`: the pages of new items, the anchors, the merge.
use feed_reader.Common.{
  ℕ, zero, suc, ◌*◌, String, Bool, true, false, Option, none, some, List, [], ◌∷◌, ◌++◌, map,
  if◌then◌else◌, ◌==◌, string_eq,
}
use feed_reader.Common.Int.{ℤ, pos, ◌-ℤ◌, ltb_ℤ}
use Prim.Native.String
use feed_reader.Common.Maps.{Dict, get, set}
use feed_reader.Dates.{
  DateFilterValue, TimestampLike, timestamp, to_date, date_to_timestamp, get_published_since,
}
use feed_reader.Items.{Item, OpenApiItem, map_open_api_item}
use feed_reader.Items.Merge.{merge}

-- item-sync-state.ts. A key that is not in `last_fetched_map` is `undefined`, which `?? null` makes
-- `null`; no `null` is ever stored.
pub record SyncState : Type 0 where
  pub last_read_fetched : Option ℤ
  pub last_fetched_map : Dict ℤ
  pub last_items_synced_at : Option ℤ

-- The query parameters; `since` is the date whose ISO text is sent, and the page size is 1000.
pub record ListRequest : Type 0 where
  pub since : Option ℤ
  pub page_token : String
  pub is_read : Option Bool

pub record ListPage : Type 0 where
  pub items : List OpenApiItem
  pub next_page_token : String

-- `timestampToISOString(searchSince)`, as a date.
unfoldable pub since_value : (String → Option ℤ) → Option TimestampLike → Option ℤ
unfolding to_date
since_value parse_date none = none
since_value parse_date (some ts) = elim (to_date parse_date (timestamp ts)) [
  | none ↦ none
  | some d ↦ d
]

-- `searchSince`: the anchor, or the date of the filter.
unfoldable pub search_since : Option TimestampLike → Option ℤ → Option TimestampLike
search_since since_timestamp none = since_timestamp
search_since since_timestamp (some a) = some (date_to_timestamp a)

-- `showRead ? {} : { isRead: false }`
abbrev pub is_read_param : Bool → Option Bool
is_read_param true = none
is_read_param false = some false

-- The request for the first page: everything since the anchor, or since the filter's date if
-- nothing has been fetched.
unfoldable pub first_request :
    (String → Option ℤ) → ℤ → Bool → DateFilterValue → Option ℤ → ListRequest
unfolding since_value search_since get_published_since date_to_timestamp
first_request parse_date now show_read since last_fetched = record {
  since = since_value parse_date (search_since (get_published_since now since) last_fetched);
  page_token = "";
  is_read = is_read_param show_read;
}

-- `itemsList` is the API client: what it resolves to for a request, `none` where it rejects.
module _ (parse_date : String → Option ℤ) (items_list : ListRequest → Option ListPage) where
  -- The `do … while (pageToken)` loop. `none` where a request rejects or the fuel runs out.
  unfoldable pub fetch_pages : ℕ → ListRequest → List Item → Option (List Item)
  unfolding map_open_api_item
  fetch_pages zero request all_new_items = none
  fetch_pages (suc fuel) request all_new_items = elim (items_list request) [
    | none ↦ none
    | some page ↦
        let so_far = all_new_items ++ map (map_open_api_item parse_date) page.items in
        let rest = fetch_pages fuel (record request { page_token = page.next_page_token }) so_far in
        if page.next_page_token == "" then some so_far else rest
  ]

-- The times of the items that have a valid creation date.
unfoldable pub valid_dates : List Item → List ℤ
valid_dates [] = []
valid_dates (item ∷ items) = elim item.created_at [
  | some (some t) ↦ t ∷ valid_dates items
  | _ ↦ valid_dates items
]

-- `Math.max(...ts)` of a list that is not empty.
unfoldable pub larger : ℤ → ℤ → ℤ
larger t u = if ltb_ℤ t u then u else t

unfoldable pub max_time : ℤ → List ℤ → ℤ
unfolding larger
max_time t [] = t
max_time t (u ∷ us) = max_time (larger t u) us

-- The two anchors of the items, if the new items have valid dates: the anchor of the read states is
-- set five seconds before the newest item unless it is set or that time is not positive.
unfoldable pub read_anchor : Option ℤ → ℤ → Option ℤ
unfolding ◌-ℤ◌
read_anchor (some a) newest = some a
read_anchor none newest = if ltb_ℤ (pos 0) newest then some (newest -ℤ pos (5 * 1000)) else none

unfoldable pub anchor_time : Option ℤ → ℤ
anchor_time none = pos 0
anchor_time (some a) = a

unfoldable pub restore : String → Option ℤ → Dict ℤ → Dict ℤ
restore cache_key none m = m
restore cache_key (some a) m = set cache_key a m

-- What follows the last page. `last_fetched` is the anchor read when the query began; the state is
-- the one found when the last page has come.
unfoldable pub settle_dates : String → Option ℤ → List ℤ → SyncState → SyncState
unfolding read_anchor anchor_time restore max_time
settle_dates cache_key last_fetched [] s = record s {
  last_fetched_map = restore cache_key last_fetched s.last_fetched_map;
}
settle_dates cache_key last_fetched (t ∷ ts) s =
    let newest = max_time t ts in
    record s {
      last_read_fetched = read_anchor s.last_read_fetched newest;
      last_fetched_map =
          if ltb_ℤ (anchor_time last_fetched) newest
          then set cache_key newest s.last_fetched_map
          else restore cache_key last_fetched s.last_fetched_map;
    }

unfoldable pub settle : ℤ → String → Option ℤ → List Item → SyncState → SyncState
unfolding settle_dates valid_dates
settle sync_time cache_key last_fetched all_new_items s =
    settle_dates cache_key last_fetched (valid_dates all_new_items)
      (record s { last_items_synced_at = some sync_time })

unfoldable pub existing_data : Option (List Item) → Option ℤ → List Item
existing_data cached none = []
existing_data none (some a) = []
existing_data (some items) (some a) = items

abbrev show_text : Bool → String
show_text true = "true"
show_text false = "false"

abbrev filter_text : DateFilterValue → String
filter_text DateFilterValue.all_dates = "all"
filter_text DateFilterValue.hours_24 = "24h"
filter_text DateFilterValue.days_7 = "7d"
filter_text DateFilterValue.days_30 = "30d"
filter_text DateFilterValue.days_90 = "90d"
filter_text DateFilterValue.days_365 = "365d"

-- The key of the anchor of a filter, `${showRead}-${since}`.
unfoldable pub cache_key_of : Bool → DateFilterValue → String
cache_key_of show_read since =
    String.◌++◌ (show_text show_read) (String.◌++◌ "-" (filter_text since))

-- What `queryFn` does when its loop has ended.
unfoldable pub finish_query :
    ℤ
    → String
    → Option ℤ
    → List Item
    → SyncState
    → Option (List Item)
    → Option (SyncState × List Item)
unfolding settle
finish_query sync_time cache_key last_fetched existing s none = none
finish_query sync_time cache_key last_fetched existing s (some fresh) = some (
  settle sync_time cache_key last_fetched fresh s,
  merge (λ (item : Item). item.id) existing fresh,
)

module _ (parse_date : String → Option ℤ) (items_list : ListRequest → Option ListPage) where
  -- `queryFn` of the options made at time `now` for a filter. `cached` is the query's data when it
  -- begins, `meanwhile` what other queries do to the anchors until the last page has come, and
  -- `sync_time` the time then. `none` where the query rejects, which leaves the anchors alone.
  unfoldable pub query_fn :
      ℕ
      → ℤ
      → Bool
      → DateFilterValue
      → Option (List Item)
      → ℤ
      → (SyncState → SyncState)
      → SyncState
      → Option (SyncState × List Item)
  unfolding fetch_pages existing_data first_request finish_query
  query_fn fuel now show_read since cached sync_time meanwhile s =
      let cache_key = cache_key_of show_read since in
      let last_fetched = get cache_key s.last_fetched_map in
      finish_query sync_time cache_key last_fetched (existing_data cached last_fetched)
        (meanwhile s)
        (fetch_pages parse_date items_list fuel
          (first_request parse_date now show_read since last_fetched) [])
