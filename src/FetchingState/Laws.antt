-- ===== src/FetchingState/Laws.antt =====
-- What a refresh leaves behind.
use feed_reader.Common.{
  String, ◌≡◌, refl, ap, ◌∙◌, true, false, not, ◌&&◌, ◌||◌, Option, none, some, List, [], ◌∷◌,
  arith, if◌then◌else◌, ◌==◌, string_eq,
}
use feed_reader.Common.Lists.{includes}
use feed_reader.Common.Maps.{
  Dict, get, delete, or_else, get-set, get-delete, includes-add_all, includes-remove_all,
}
use feed_reader.FetchingState.{
  FetchingState, FetchResult, Outcome, resolved, rejected, is_fetching, error, delete_all,
  start_fetching, note_error, note_all, note_results, finish_fetching, failed, settle_refresh,
  refresh_feeds,
}

get-delete_all :
    (ids : List String) (m : Dict String) (j : String)
    → get j (delete_all ids m) ≡ (if includes ids j then none else get j m)
unfolding delete_all
get-delete_all [] m j = refl
get-delete_all (id ∷ ids) m j =
    ground (arith, get-delete_all ids (delete id m) j, get-delete id j m)

-- The message that a result records, if it is not empty.
abbrev pub shown : Option String → Option String
shown none = none
shown (some message) = if message == "" then none else some message

-- The error of a feed after a list of results, from the error that it had: the last result for the
-- feed decides.
abbrev pub error_after : List FetchResult → String → Option String → Option String
error_after [] j old = old
error_after (r ∷ rs) j old =
    error_after rs j (if r.feed_id == j then shown r.error_message else old)

get-note_error :
    (id : String) (e : Option String) (m : Dict String) (j : String)
    → get j (note_error id e m) ≡ (if id == j then shown e else get j m)
unfolding note_error
get-note_error id none m j = get-delete id j m
get-note_error id (some message) m j = ground (arith, get-delete id j m, get-set id j message m)

get-note_all :
    (rs : List FetchResult) (m : Dict String) (j : String)
    → get j (note_all rs m) ≡ error_after rs j (get j m)
unfolding note_all
get-note_all [] m j = refl
get-note_all (r ∷ rs) m j =
    get-note_all rs (note_error r.feed_id r.error_message m) j
    ∙ ap (error_after rs j) (get-note_error r.feed_id r.error_message m j)

error_after-failed :
    (ids : List String) (message : String) (j : String) (old : Option String)
    → error_after (failed message ids) j old
      ≡ (if includes ids j then shown (some message) else old)
unfolding failed
error_after-failed [] message j old = refl
error_after-failed (id ∷ ids) message j old =
    ground (arith, error_after-failed ids message j (if id == j then shown (some message) else old))

-- The documented behaviour of Solid's setter: objects are merged shallowly, so that a field that the
-- new object lacks stays.
pub record IsMerge (merge_store : Dict String → Dict String → Dict String) : Type 0 where
  pub merges :
      (prev next : Dict String) (k : String)
      → get k (merge_store prev next) ≡ or_else (get k next) (get k prev)

-- The errors that a settled request leaves, from those that it found.
abbrev pub error_of : List String → Outcome → String → Option String → Option String
error_of ids (resolved results) j old = or_else (error_after results j old) old
error_of ids (rejected message) j old =
    if includes ids j then or_else (shown (some message)) old else old

or_else-delete :
    (ids : List String) (m : Dict String) (j : String)
    → or_else (get j (delete_all ids m)) (get j m) ≡ get j m
or_else-delete ids m j = rw (get-delete_all ids m j) (ground (arith, or_else-same (get j m)))
  where
    or_else-same : (o : Option String) → or_else o o ≡ o
    or_else-same none = refl
    or_else-same (some a) = refl

module _ (merge_store : Dict String → Dict String → Dict String) (laws : IsMerge merge_store) where
  -- While a refresh runs, its feeds and those already being fetched are marked. No error goes.
  pub start_fetching_lem :
      (ids : List String) (s : FetchingState) (j : String)
      → (is_fetching (start_fetching merge_store ids s) j ≡ (includes ids j || is_fetching s j))
        × (error (start_fetching merge_store ids s) j ≡ error s j)
  unfolding start_fetching is_fetching error
  start_fetching_lem ids s j = (
    includes-add_all ids j s.fetching_feed_ids,
    laws.merges s.errors (delete_all ids s.errors) j ∙ or_else-delete ids s.errors j,
  )

  error_of-rejected :
      (ids : List String) (message j : String) (old : Option String)
      → or_else (error_after (failed message ids) j old) old ≡ error_of ids (rejected message) j old
  error_of-rejected ids message j none =
      rw (error_after-failed ids message j none)
        (ground (arith, or_else-none (shown (some message))))
    where
      or_else-none : (o : Option String) → or_else o none ≡ o
      or_else-none none = refl
      or_else-none (some a) = refl
  error_of-rejected ids message j (some old) =
      rw (error_after-failed ids message j (some old)) (ground arith)

  -- However its request ends, and whatever other calls do meanwhile, a refresh leaves none of its
  -- feeds marked as being fetched and every other mark as it was. An error, once shown, is only ever
  -- replaced: a feed has the message that the last result for it reports or, when the request itself
  -- failed, that failure for each of its feeds, and without such a message it keeps the error that it
  -- had, whatever the refresh began with. The call throws and invalidates nothing exactly if the
  -- request failed.
  pub refresh_feeds_lem :
      (ids : List String) (outcome : Outcome) (meanwhile : FetchingState → FetchingState)
      (s : FetchingState) (j : String)
      → let before = meanwhile (start_fetching merge_store ids s) in
        let (after, invalidated, threw) = refresh_feeds merge_store ids outcome meanwhile s in
        (error (start_fetching merge_store ids s) j ≡ error s j)
        × (is_fetching after j ≡ (not (includes ids j) && is_fetching before j))
        × (error after j ≡ error_of ids outcome j (error before j))
        × (threw ≡ elim outcome [ resolved _ ↦ false | rejected _ ↦ true ])
        × (invalidated ≡ (if threw then [] else "feeds" ∷ "items" ∷ "tags" ∷ "item-reads" ∷ []))
  unfolding refresh_feeds settle_refresh finish_fetching is_fetching error note_results
  refresh_feeds_lem ids (resolved results) meanwhile s j =
      let before = meanwhile (start_fetching merge_store ids s) in
      (
        (start_fetching_lem ids s j).1,
        includes-remove_all ids j before.fetching_feed_ids,
        laws.merges before.errors (note_all results before.errors) j
            ∙ rw (get-note_all results before.errors j) refl,
        refl,
        refl,
      )
  refresh_feeds_lem ids (rejected message) meanwhile s j =
      let before = meanwhile (start_fetching merge_store ids s) in
      (
        (start_fetching_lem ids s j).1,
        includes-remove_all ids j before.fetching_feed_ids,
        laws.merges before.errors (note_all (failed message ids) before.errors) j
            ∙ rw (get-note_all (failed message ids) before.errors j)
                (error_of-rejected ids message j (get j before.errors)),
        refl,
        refl,
      )
