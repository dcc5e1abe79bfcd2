-- ===== src/Tests/Reading.antt =====
-- Read states and the state of fetches at concrete inputs.
use feed_reader.Common.{
  ℕ, String, ◌≡◌, refl, arith, true, false, Bool, Option, none, some, List, [], ◌∷◌, ◌++◌,
  Bool-cases, inl, inr, if◌then◌else◌, ◌==◌, string_eq,
}
use feed_reader.Common.Int.{ℤ, pos}
use feed_reader.Common.Maps.{Dict, get, or_else}
use feed_reader.Items.{Item}
use feed_reader.Items.Merge.{latest, HasDistinctIds}
use feed_reader.Items.Fetch.{SyncState}
use feed_reader.Items.Reads.{
  ItemRead, read_id, ReadsRequest, ReadsPage, reads_query_fn, update_item_read_status,
}
use feed_reader.Items.ReadPaging.{last_reads}
use feed_reader.Items.ReadSync.{IsReadSynced, reads_query_fn_lem}
use feed_reader.Items.ReadRollback.{new_state, update_item_read_status_lem}
use feed_reader.FetchingState.{
  FetchingState, resolved, is_fetching, error, start_fetching, refresh_feeds,
}
use feed_reader.FetchingState.Laws.{refresh_feeds_lem}

abbrev read_at : String → Bool → ℕ → ItemRead
read_at id is_read time = record { id = id; is_read = is_read; updated_at = pos time }

abbrev read : String → Bool → ItemRead
read id is_read = read_at id is_read 1

abbrev reads : List ItemRead
reads = read "a" false ∷ read "b" true ∷ []

reads-HasDistinctIds : HasDistinctIds read_id reads
unfolding latest
reads-HasDistinctIds = (refl, (refl, tt))

abbrev changed_reads : List ItemRead
changed_reads = (update_item_read_status ("a" ∷ "c" ∷ []) true (pos 7) true (λ r. r) (some reads)).0

-- The server refuses: "c" had no state, and loses it again.
update_item_read_status_example :
    (latest read_id "c" changed_reads ≡ some (new_state true (pos 7) "c"))
    × (latest read_id "c"
          (update_item_read_status ("a" ∷ "c" ∷ []) true (pos 7) false (λ r. r) (some reads)).0
        ≡ none)
    × ((update_item_read_status ("a" ∷ "c" ∷ []) true (pos 7) false (λ r. r) (some reads)).1 ≡ true)
unfolding latest
update_item_read_status_example =
    update_item_read_status_lem ("a" ∷ "c" ∷ []) true (pos 7) reads (λ r. r) reads-HasDistinctIds
      "c"

abbrev item : String → Item
item id = record {
  id = id;
  title = "";
  description = "";
  published_at = none;
  is_read = false;
  created_at = none;
  feed_id = "f";
  url = "";
  author = "";
  categories = "";
  image_url = "";
  content = "";
  feeds = none;
}

abbrev items : List Item
items = item "a" ∷ item "b" ∷ []

abbrev parse_date : String → Option ℤ
parse_date text = if text == "t5" then some (pos 5) else none

abbrev item_reads_list : ReadsRequest → Option ReadsPage
item_reads_list request = some (record {
  item_reads = record { item_id = "a"; is_read = true; updated_at = "t5" } ∷ [];
  next_page_token = "";
})

abbrev before : SyncState
before = record {
  last_read_fetched = some (pos 3);
  last_fetched_map = [];
  last_items_synced_at = none;
}

abbrev reads_page : ReadsPage
reads_page = record {
  item_reads = record { item_id = "a"; is_read = true; updated_at = "t5" } ∷ [];
  next_page_token = "";
}

reads_query_fn_example :
    (after : SyncState) × (synced : List ItemRead) × (reads_query_fn parse_date item_reads_list 1
        (some reads)
        (λ s. s)
        before
      ≡ some (after, synced))
    × IsReadSynced (pos 3) (some reads) (read_at "a" true 5 ∷ []) before after synced
reads_query_fn_example =
    reads_query_fn_lem parse_date item_reads_list 1 (some reads) (λ s. s) before (pos 3)
      (reads_page ∷ []) refl refl (last_reads refl refl) (omega arith)

abbrev merge_store : Dict String → Dict String → Dict String
merge_store prev next = next ++ prev

get-merge_store :
    (prev next : Dict String) (k : String)
    → get k (merge_store prev next) ≡ or_else (get k next) (get k prev)
unfolding get
get-merge_store prev [] k = refl
get-merge_store prev ((j, v) ∷ next) k = elim (Bool-cases (j == k)) [
  | inl e ↦ rw e refl
  | inr e ↦ rw e (get-merge_store prev next k)
]

-- The feed failed before: the refresh succeeds, and the old error stays.
abbrev failed_before : FetchingState
failed_before = record { fetching_feed_ids = []; errors = ("a", "offline") ∷ [] }

refresh_feeds_example :
    let outcome = resolved (record { feed_id = "a"; error_message = none } ∷ []) in
    let before = start_fetching merge_store ("a" ∷ []) failed_before in
    let (after, invalidated, threw) =
      refresh_feeds merge_store ("a" ∷ []) outcome (λ s. s) failed_before in
    (error before "a" ≡ error failed_before "a")
    × (is_fetching after "a" ≡ false)
    × (error after "a" ≡ or_else none (error before "a"))
    × (threw ≡ false)
    × (invalidated ≡ (if threw then [] else "feeds" ∷ "items" ∷ "tags" ∷ "item-reads" ∷ []))
refresh_feeds_example =
    refresh_feeds_lem merge_store (record { merges = get-merge_store }) ("a" ∷ [])
      (resolved (record { feed_id = "a"; error_message = none } ∷ [])) (λ s. s) failed_before "a"
