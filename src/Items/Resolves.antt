-- ===== src/Items/Resolves.antt =====
-- What a query of items does where the server's pages end.
use feed_reader.Common.{
  ◌≤◌, ℕ, String, ◌≡◌, ◌≢◌, refl, ap, ◌∙◌, Bool, Option, none, some, List, [], ==_refl, ==_ne,
  string_eq,
}
use feed_reader.Common.Int.{ℤ}
use feed_reader.Common.Lists.{length}
use feed_reader.Common.Maps.{get, or_else}
use feed_reader.Items.{Item}
use feed_reader.Items.Fetch.{
  SyncState, ListRequest, ListPage, settle, fetch_pages, existing_data, cache_key_of, query_fn,
  finish_query,
}
use feed_reader.Items.Merge.{merge, merge_lem, latest, HasDistinctIds}
use feed_reader.Items.Paging.{Serves, items_of, fetch_pages_complete}
use feed_reader.Dates.{DateFilterValue}
use feed_reader.Items.Anchors.{
  Moves, created, next_anchor-Moves, get-settle, settle-read_kept, valid_dates-created,
}
use feed_reader.Items.Requests.{asked, first_request-asked}

-- The cached item under an id. Without an anchor the cached items are not used.
abbrev pub known : String → Option ℤ → Option (List Item) → Option Item
known k none cached = none
known k (some a) none = none
known k (some a) (some items) = latest (λ (i : Item). i.id) k items

-- What a query has done that began with the query's data `cached` and the anchor `last_fetched` under
-- its filter's key. `fresh` are the items of the pages, and `before` is the state in which the last
-- page arrived.
pub record IsSynced (cached : Option (List Item)) (key : String) (last_fetched : Option ℤ)
    (fresh : List Item) (before after : SyncState) (items : List Item) : Type 0 where
  pub anchor :
      Moves last_fetched
        (get key before.last_fetched_map)
        (created fresh)
        (get key after.last_fetched_map)
  pub other_anchors :
      (j : String) → key ≢ j → get j after.last_fetched_map ≡ get j before.last_fetched_map
  pub read_anchor_kept :
      (r : ℤ) → before.last_read_fetched ≡ some r → after.last_read_fetched ≡ some r
  pub distinct : HasDistinctIds (λ (i : Item). i.id) items
  pub latest_items :
      (k : String)
      → latest (λ (i : Item). i.id) k items
        ≡ or_else (latest (λ (i : Item). i.id) k fresh) (known k last_fetched cached)

existing_data-known :
    (k : String) (cached : Option (List Item)) (last_fetched : Option ℤ)
    → latest (λ (i : Item). i.id) k (existing_data cached last_fetched)
      ≡ known k last_fetched cached
unfolding existing_data latest
existing_data-known k none none = refl
existing_data-known k (some items) none = refl
existing_data-known k none (some a) = refl
existing_data-known k (some items) (some a) = refl

settled-IsSynced :
    (cached : Option (List Item)) (key : String) (last_fetched : Option ℤ) (fresh : List Item)
    (sync_time : ℤ) (before : SyncState)
    → IsSynced cached key last_fetched fresh before
        (settle sync_time key last_fetched fresh before)
        (merge (λ (i : Item). i.id) (existing_data cached last_fetched) fresh)
settled-IsSynced cached key last_fetched fresh sync_time before =
    let merged = merge_lem (λ (i : Item). i.id) (existing_data cached last_fetched) fresh in
    record {
      anchor =
          rw
            (
              get-settle sync_time key last_fetched fresh before key,
              ==_refl key,
              valid_dates-created fresh,
            )
            (next_anchor-Moves last_fetched _ (created fresh));
      other_anchors =
          λ j ne. get-settle sync_time key last_fetched fresh before j ∙ rw (==_ne key j ne);
      read_anchor_kept = λ r was. settle-read_kept sync_time key last_fetched fresh before r was;
      distinct = merged.0;
      latest_items = λ k. rw (← existing_data-known k cached last_fetched) (merged.1 k);
    }

module _ (parse_date : String → Option ℤ) (items_list : ListRequest → Option ListPage) where
  -- Let the server's chain of pages end that begins with the request for the items since the anchor of
  -- the filter or, without an anchor, since the days of the filter before now, and for unread items
  -- alone unless read ones are shown. Then the query resolves within as many turns as there are pages.
  -- Its result has each id once, under it the last item of the pages or else, if there was an anchor,
  -- the cached one; the anchor of the filter is the later of the old one and the newest creation date
  -- (or that date, if there was no anchor and it is positive); no other filter's anchor changes, nor
  -- does the anchor of the read states once it is set.
  pub query_fn-IsSynced :
      (fuel : ℕ) (now : ℤ) (show_read : Bool) (since : DateFilterValue)
      (cached : Option (List Item)) (sync_time : ℤ) (meanwhile : SyncState → SyncState)
      (s : SyncState) (pages : List ListPage)
      → Serves parse_date items_list
          (asked now show_read since (get (cache_key_of show_read since) s.last_fetched_map))
          pages
      → length pages ≤ fuel
      → (after : SyncState) × (items : List Item) × (query_fn parse_date items_list fuel now
            show_read since cached sync_time meanwhile s
          ≡ some (after, items))
        × IsSynced cached
            (cache_key_of show_read since)
            (get (cache_key_of show_read since) s.last_fetched_map)
            (items_of parse_date items_list pages)
            (meanwhile s)
            after
            items
  unfolding query_fn finish_query
  query_fn-IsSynced fuel now show_read since cached sync_time meanwhile s pages served h =
      let key = cache_key_of show_read since in
      let last_fetched = get key s.last_fetched_map in
      let fresh = items_of parse_date items_list pages in
      let finish =
        finish_query sync_time key last_fetched (existing_data cached last_fetched) (meanwhile s) in
      (
        settle sync_time key last_fetched fresh (meanwhile s),
        merge (λ (i : Item). i.id) (existing_data cached last_fetched) fresh,
        ap (λ (request : ListRequest). finish (fetch_pages parse_date items_list fuel request []))
              (first_request-asked parse_date now show_read since last_fetched)
            ∙ ap finish (fetch_pages_complete parse_date items_list served fuel [] h),
        settled-IsSynced cached key last_fetched fresh sync_time (meanwhile s),
      )
