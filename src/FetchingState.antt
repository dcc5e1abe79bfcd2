-- ===== src/FetchingState.antt =====
-- frontend/src/lib/fetching-state.ts, and `refreshFeeds` of frontend/src/lib/feed-db.ts, which
-- drives it.
pub mod Laws
use feed_reader.Common.{
  String, Bool, true, false, not, ◌&&◌, ◌||◌, Option, none, some, List, [], ◌∷◌, map, if◌then◌else◌,
  ◌==◌, string_eq,
}
use feed_reader.Common.Lists.{includes}
use feed_reader.Common.Maps.{Dict, get, set, delete, add_all, remove_all}

pub record FetchingState : Type 0 where
  pub fetching_feed_ids : List String
  pub errors : Dict String

pub record FetchResult : Type 0 where
  pub feed_id : String
  pub error_message : Option String

abbrev pub init : FetchingState
init = record { fetching_feed_ids = []; errors = [] }

pub is_fetching : FetchingState → String → Bool
is_fetching s id = includes s.fetching_feed_ids id

pub error : FetchingState → String → Option String
error s id = get id s.errors

delete_all : List String → Dict String → Dict String
delete_all [] m = m
delete_all (id ∷ ids) m = delete_all ids (delete id m)

-- An empty message is falsy, and clears the error.
note_error : String → Option String → Dict String → Dict String
note_error id none m = delete id m
note_error id (some message) m = if message == "" then delete id m else set id message m

note_all : List FetchResult → Dict String → Dict String
unfolding note_error
note_all [] m = m
note_all (r ∷ rs) m = note_all rs (note_error r.feed_id r.error_message m)

-- What the request of `feedsRefresh` comes to: the results, or the message of what was thrown.
pub data Outcome : Type 0 where
  resolved : List FetchResult → Outcome
  rejected : String → Outcome

failed : String → List String → List FetchResult
failed message [] = []
failed message (id ∷ ids) =
    record { feed_id = id; error_message = some message } ∷ failed message ids

-- `merge_store prev next` is what the store setter of Solid makes of an object `prev` and the object
-- `next` that a function gives for it. A `Set` is replaced.
module _ (merge_store : Dict String → Dict String → Dict String) where
  -- The errors of the ids are left out of the object that the setter merges.
  pub start_fetching : List String → FetchingState → FetchingState
  unfolding delete_all
  start_fetching ids s = record {
    fetching_feed_ids = add_all ids s.fetching_feed_ids;
    errors = merge_store s.errors (delete_all ids s.errors);
  }

  note_results : Option (List FetchResult) → Dict String → Dict String
  unfolding note_all
  note_results none m = m
  note_results (some rs) m = merge_store m (note_all rs m)

  pub finish_fetching : List String → Option (List FetchResult) → FetchingState → FetchingState
  unfolding note_results
  finish_fetching ids results s = record {
    fetching_feed_ids = remove_all ids s.fetching_feed_ids;
    errors = note_results results s.errors;
  }

  -- What `refreshFeeds` does when its request settles: the new state, the invalidated query keys,
  -- and whether it throws.
  pub settle_refresh : List String → Outcome → FetchingState → FetchingState × List String × Bool
  unfolding finish_fetching failed
  settle_refresh ids (resolved results) s =
      (finish_fetching ids (some results) s, "feeds" ∷ "items" ∷ "tags" ∷ "item-reads" ∷ [], false)
  settle_refresh ids (rejected message) s =
      (finish_fetching ids (some (failed message ids)) s, [], true)

  -- A whole call, with what other calls do to the state between its two halves.
  pub refresh_feeds :
      List String
      → Outcome
      → (FetchingState → FetchingState)
      → FetchingState
      → FetchingState × List String × Bool
  unfolding start_fetching settle_refresh
  refresh_feeds ids outcome meanwhile s =
      settle_refresh ids outcome (meanwhile (start_fetching ids s))
