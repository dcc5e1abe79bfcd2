-- ===== src/Tests/Sync.antt =====
-- The query of items at a concrete server.
use feed_reader.Common.{
  String, ◌≡◌, refl, true, false, Option, none, some, List, [], ◌∷◌, arith, if◌then◌else◌, ◌==◌,
  string_eq,
}
use feed_reader.Common.Int.{ℤ, pos}
use feed_reader.Common.Maps.{get}
use feed_reader.Dates.{all_dates}
use feed_reader.Items.{Item, OpenApiItem, map_open_api_item}
use feed_reader.Items.Fetch.{SyncState, ListRequest, ListPage, fetch_pages, cache_key_of, query_fn}
use feed_reader.Items.Paging.{Serves, last, more, items_of, fetch_pages_complete}
use feed_reader.Items.Requests.{asked}
use feed_reader.Items.Resolves.{IsSynced, query_fn-IsSynced}

abbrev parse_date : String → Option ℤ
parse_date text = if text == "t5" then some (pos 5) else none

abbrev api_item : String → String → OpenApiItem
api_item id created_at = record {
  id = id;
  title = "";
  description = "";
  published_at = none;
  is_read = false;
  created_at = created_at;
  feed_id = "f";
  url = "";
  author = "";
  categories = "";
  image_url = "";
  content = "";
  feeds = none;
}

-- Two pages of one item each.
abbrev items_list : ListRequest → Option ListPage
items_list request =
    if request.page_token == ""
    then some (record { items = api_item "a" "t5" ∷ []; next_page_token = "2" })
    else some (record { items = api_item "b" "" ∷ []; next_page_token = "" })

abbrev pages : List ListPage
pages =
    record { items = api_item "a" "t5" ∷ []; next_page_token = "2" }
    ∷ record { items = api_item "b" "" ∷ []; next_page_token = "" }
    ∷ []

abbrev first_ask : ListRequest
first_ask = record { since = none; page_token = ""; is_read = none }

served : Serves parse_date items_list first_ask pages
served = more refl (λ e. cc) (last refl refl)

fetch_pages_complete_example :
    fetch_pages parse_date items_list 2 first_ask [] ≡ some (items_of parse_date items_list pages)
fetch_pages_complete_example = fetch_pages_complete parse_date items_list served 2 [] (omega arith)

abbrev fetched : List Item
fetched =
    map_open_api_item parse_date (api_item "a" "t5")
    ∷ map_open_api_item parse_date (api_item "b" "")
    ∷ []

abbrev key : String
key = "true-all"

abbrev anchored : SyncState
anchored = record {
  last_read_fetched = some (pos 2);
  last_fetched_map = (key, pos 3) ∷ [];
  last_items_synced_at = none;
}

abbrev synced : SyncState
synced = record {
  last_read_fetched = some (pos 2);
  last_fetched_map = (key, pos 5) ∷ [];
  last_items_synced_at = some (pos 9);
}

ran :
    query_fn parse_date items_list 2 (pos 9) true all_dates none (pos 9) (λ s. s) anchored
    ≡ some (synced, fetched)
unfolding query_fn get feed_reader.Items.Merge.merge cache_key_of
ran = refl

served_since :
    Serves parse_date items_list
      (asked (pos 9) true all_dates (get (cache_key_of true all_dates) anchored.last_fetched_map))
      pages
unfolding get cache_key_of
served_since = more refl (λ e. cc) (last refl refl)

query_fn-IsSynced_example :
    (after : SyncState) × (items : List Item) × (query_fn parse_date items_list 2
        (pos 9)
        true
        all_dates
        (some fetched)
        (pos 9)
        (λ s. s)
        anchored
      ≡ some (after, items))
    × IsSynced
        (some fetched)
        (cache_key_of true all_dates)
        (get (cache_key_of true all_dates) anchored.last_fetched_map)
        (items_of parse_date items_list pages)
        anchored
        after
        items
query_fn-IsSynced_example =
    query_fn-IsSynced parse_date items_list 2 (pos 9) true all_dates (some fetched) (pos 9) (λ s. s)
      anchored pages served_since (omega arith)
