-- ===== src/Items/Reads.antt =====
-- `itemReadQueryOptions` and `updateItemReadStatus`: the read states kept beside the items.
use feed_reader.Common.{
  ℕ, zero, suc, String, Bool, true, false, Option, none, some, List, [], ◌∷◌, ◌++◌, map,
  if◌then◌else◌, ◌==◌, string_eq,
}
use feed_reader.Common.Int.{ℤ, ltb_ℤ}
use feed_reader.Common.Lists.{includes, filter, find?}
use feed_reader.Common.Maps.{Dict, set, delete, values}
use feed_reader.Items.Merge.{put_all, merge}
use feed_reader.Items.Fetch.{SyncState}

pub record ItemRead : Type 0 where
  pub id : String
  pub is_read : Bool
  pub updated_at : ℤ

abbrev pub read_id : ItemRead → String
read_id r = r.id

-- The schema `ItemRead` of the API.
pub record OpenApiItemRead : Type 0 where
  pub item_id : String
  pub is_read : Bool
  pub updated_at : String

-- The query parameters but the page size, 1000; `since` is the date whose ISO text is sent.
pub record ReadsRequest : Type 0 where
  pub since : Option ℤ
  pub page_token : String

pub record ReadsPage : Type 0 where
  pub item_reads : List OpenApiItemRead
  pub next_page_token : String

-- The local variables of the loop over the pages.
pub record Progress : Type 0 where
  pub all_new_reads : List ItemRead
  pub max_server_updated_at : Option ℤ

-- A date that does not parse counts as the anchor.
abbrev updated_time : Option ℤ → ℤ → ℤ
updated_time none anchor = anchor
updated_time (some t) anchor = t

unfoldable pub later_of : Option ℤ → ℤ → Option ℤ
later_of none t = some t
later_of (some m) t = if ltb_ℤ m t then some t else some m

module _ (parse_date : String → Option ℤ) (anchor : ℤ) where
  unfoldable pub take_read : Progress → OpenApiItemRead → Progress
  unfolding later_of
  take_read p ir =
      let t = updated_time (parse_date ir.updated_at) anchor in
      record {
        all_new_reads =
            p.all_new_reads
            ++ record { id = ir.item_id; is_read = ir.is_read; updated_at = t } ∷ [];
        max_server_updated_at = later_of p.max_server_updated_at t;
      }

  unfoldable pub take_reads : Progress → List OpenApiItemRead → Progress
  unfolding take_read
  take_reads p [] = p
  take_reads p (ir ∷ irs) = take_reads (take_read p ir) irs

  -- Only the first request carries the anchor.
  abbrev pub reads_request : String → ReadsRequest
  reads_request page_token = record {
    since = if page_token == "" then some anchor else none;
    page_token = page_token;
  }

  -- The `do … while (pageToken)` loop; `none` where a request rejects or the fuel runs out.
  unfoldable pub fetch_reads :
      (ReadsRequest → Option ReadsPage) → ℕ → String → Progress → Option Progress
  unfolding take_reads
  fetch_reads item_reads_list zero page_token p = none
  fetch_reads item_reads_list (suc fuel) page_token p =
      elim (item_reads_list (reads_request page_token)) [
        | none ↦ none
        | some page ↦
            let p' = take_reads p page.item_reads in
            let rest = fetch_reads item_reads_list fuel page.next_page_token p' in
            if page.next_page_token == "" then some p' else rest
      ]

-- The anchor moves forward to the newest time, never back.
unfoldable pub advance : ℤ → Option ℤ → SyncState → SyncState
advance anchor none s = s
advance anchor (some t) s = if ltb_ℤ anchor t then record s { last_read_fetched = some t } else s

unfoldable pub or_empty : Option (List ItemRead) → List ItemRead
or_empty none = []
or_empty (some reads) = reads

unfoldable pub finish_reads :
    ℤ → List ItemRead → SyncState → Option Progress → Option (SyncState × List ItemRead)
unfolding advance
finish_reads anchor existing s none = none
finish_reads anchor existing s (some p) =
    some (advance anchor p.max_server_updated_at s, merge read_id existing p.all_new_reads)

-- `itemReadQueryOptions.queryFn`. `cached` is the query's data when it begins, `s` the anchors
-- then, `meanwhile` what others do to them until the last page has come.
module _ (parse_date : String → Option ℤ) (item_reads_list : ReadsRequest → Option ReadsPage) where
  unfoldable pub reads_query_fn :
      ℕ
      → Option (List ItemRead)
      → (SyncState → SyncState)
      → SyncState
      → Option (SyncState × List ItemRead)
  unfolding fetch_reads finish_reads or_empty
  reads_query_fn fuel cached meanwhile s = elim s.last_read_fetched [
    | none ↦ some (s, [])
    | some anchor ↦ finish_reads anchor (or_empty cached) (meanwhile s) (
        fetch_reads parse_date anchor item_reads_list fuel ""
          (record { all_new_reads = []; max_server_updated_at = none }))
  ]

-- The optimistic update: `now` is the time of the change.
unfoldable pub mark_reads : List String → Bool → ℤ → Dict ItemRead → Dict ItemRead
mark_reads [] is_read now m = m
mark_reads (id ∷ ids) is_read now m =
    mark_reads ids is_read now (set id (record { id = id; is_read = is_read; updated_at = now }) m)

-- One turn of the rollback: a previous state goes back, a new one goes.
unfoldable pub put_back : String → Option ItemRead → Dict ItemRead → Dict ItemRead
put_back id none m = m
put_back id (some state) m = set id state m

unfoldable pub restore_reads : List ItemRead → List String → Dict ItemRead → Dict ItemRead
unfolding put_back
restore_reads previous [] m = m
restore_reads previous (id ∷ ids) m = restore_reads previous ids (
    if includes (map read_id previous) id
    then put_back id (find? (λ s. s.id == id) previous) m
    else delete id m)

-- The cached read states after `updateItemReadStatus`, and whether it throws. `accepted` is the
-- server's answer, `meanwhile` what others do to the cached read states while it is awaited.
unfoldable pub update_item_read_status :
    List String
    → Bool
    → ℤ
    → Bool
    → (List ItemRead → List ItemRead)
    → Option (List ItemRead)
    → List ItemRead × Bool
unfolding mark_reads restore_reads or_empty
update_item_read_status ids is_read now accepted meanwhile cached =
    let previous = filter (λ d. includes ids d.id) (or_empty cached) in
    let marked = values (mark_reads ids is_read now (put_all read_id (or_empty cached) [])) in
    let waiting = meanwhile marked in
    if accepted
    then (waiting, false)
    else (values (restore_reads previous ids (put_all read_id waiting [])), true)
