-- ===== src/Tests/Lists.antt =====
-- The queries at concrete lists.
use feed_reader.Prefetch.{get_prefetch_ids}
use feed_reader.Prefetch.Window.{get_prefetch_ids_lem}
use feed_reader.Common.{
  ℕ, String, ◌≡◌, refl, true, false, Option, none, some, List, [], ◌∷◌, map, leb, if◌then◌else◌,
  nat_eq,
}
use feed_reader.Common.Int.{ℤ, pos}
use feed_reader.Items.{Item}
use feed_reader.Items.Reads.{ItemRead}
use feed_reader.Queries.ItemQueries.{
  FeedTag, Caches, QueryOptions, weak_get, read_map, select, sort_items, get_items_with_read_state,
}
use feed_reader.Queries.CacheLaws.{IsCoherent, shown, get_items_with_read_state_lem}
use feed_reader.Queries.FeedQueries.{Feed}

abbrev item : String → Option (Option ℤ) → Item
item id published_at = record {
  id = id;
  title = "";
  description = "";
  published_at = published_at;
  is_read = false;
  created_at = none;
  feed_id = "f";
  url = "";
  author = "";
  categories = "";
  image_url = "";
  content = "";
  feeds = none;
}

-- The objects at three places: item 1 is older than item 0, item 2 has no date.
abbrev heap : ℕ → Item
heap n =
    if leb n 0
    then item "a" (some (some (pos 20)))
    else if leb n 1
    then item "b" (some (some (pos 10)))
    else item "c" none

abbrev arrays : ℕ → List ℕ
arrays n = 0 ∷ 1 ∷ 2 ∷ []

abbrev empty : Caches
empty = record { merged_item_cache = []; sorted_items_cache = [] }

empty-IsCoherent : IsCoherent heap arrays empty
unfolding weak_get
empty-IsCoherent = record { merged_right = λ k e found. cc; sorted_right = λ k l found. cc }

abbrev reads : List ItemRead
reads = record { id = "b"; is_read = true; updated_at = pos 1 } ∷ []

abbrev links : List FeedTag
links =
    record { id = "1"; feed_id = "f"; tag_id = "t" }
    ∷ record { id = "2"; feed_id = "g"; tag_id = "u" }
    ∷ []

abbrev unread_of_tag : QueryOptions
unread_of_tag = record { tag_id = some "t"; item_id = none; unread_only = true }

get_items_with_read_state_example :
    IsCoherent heap arrays
      (get_items_with_read_state heap 7 (arrays 7) reads links unread_of_tag empty).0
    × ((get_items_with_read_state heap 7 (arrays 7) reads links unread_of_tag empty).1
        ≡ select links unread_of_tag
            (map (shown heap (read_map reads [])) (sort_items heap (arrays 7))))
get_items_with_read_state_example =
    get_items_with_read_state_lem heap arrays 7 (arrays 7) reads links unread_of_tag empty refl
      empty-IsCoherent

abbrev feeds : List Feed
feeds =
    record { id = "f"; title = "F"; last_fetched_at = some (some (pos 3)); next_fetch_at = none }
    ∷ record { id = "h"; title = "H"; last_fetched_at = none; next_fetch_at = none }
    ∷ []

get_prefetch_ids_example :
    get_prefetch_ids (pos 1) ("a" ∷ "b" ∷ "c" ∷ "d" ∷ []) ≡ some ("c" ∷ "d" ∷ [])
get_prefetch_ids_example = get_prefetch_ids_lem (pos 1) ("a" ∷ "b" ∷ "c" ∷ "d" ∷ [])
