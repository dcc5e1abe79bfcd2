-- ===== src/Mocks/FeedHandlers.antt =====
-- handlers.stateful.ts: the handlers of /tags, /feeds and /feed-tags. A request's JSON body is the
-- arguments; an absent list is `none`; a new id and the time are given.
use feed_reader.Common.{
  ℕ, ◌+◌, String, if◌then◌else◌, Bool, true, not, ◌&&◌, Option, none, some, List, [], ◌∷◌, ◌++◌,
  map, ◌==◌, string_eq,
}
use feed_reader.Common.Lists.{filter, any, find?, includes}
use feed_reader.Mocks.Store.{
  list_or_empty, matches, Db, Collection, TagJson, FeedJson, FeedIgnoreWindowJson,
  TagIgnoreWindowJson, create, now, has_tag, find_or_unknown_tag, update_each,
  recalculate_feed_counts,
}

pub record FeedTagJson : Type 0 where
  pub feed_id : String
  pub tag_id : String

abbrev text_or : String → Option String → String
text_or other none = other
text_or other (some text) = if text == "" then other else text

unfoldable list_tags_of : FeedJson → List FeedTagJson
list_tags_of feed = map (λ (tag : TagJson). record { feed_id = feed.id; tag_id = tag.id }) feed.tags

unfoldable pub list_feed_tags : List FeedJson → List FeedTagJson
unfolding list_tags_of
list_feed_tags [] = []
list_feed_tags (feed ∷ feeds) = list_tags_of feed ++ list_feed_tags feeds

unfoldable total_unread : List TagJson → ℕ → ℕ
total_unread [] total = total
total_unread (tag ∷ tags) total = total_unread tags (total + tag.unread_count)

-- GET /tags
unfoldable pub get_tags : Db → List TagJson × ℕ
unfolding total_unread
get_tags db = (db.tags, total_unread db.tags 0)

-- POST /tags
unfoldable pub post_tag : String → String → Db → Db × TagJson
post_tag random_uuid name db =
    let tag : TagJson = record {
      id = random_uuid;
      name = name;
      created_at = now;
      updated_at = now;
      unread_count = 0;
      feed_count = 0;
    } in
    (record db { tags = create tag db.tags }, tag)

-- GET /feeds
unfoldable pub get_feeds : Option String → Db → List FeedJson
get_feeds none db = db.feeds
get_feeds (some tag_id) db = if tag_id == "" then db.feeds else filter (has_tag tag_id) db.feeds

-- The tags of a feed without one of them, and with changes.
abbrev pub without_tag : String → FeedJson → FeedJson → FeedJson
without_tag id feed draft = record draft {
  tags = filter (λ (t : TagJson). not (t.id == id)) feed.tags;
}

unfoldable pub push_tags : List TagJson → List String → List TagJson → List TagJson
unfolding find_or_unknown_tag
push_tags known [] next_tags = next_tags
push_tags known (tag_id ∷ ids) next_tags = push_tags known ids (
    if any next_tags (λ (t : TagJson). t.id == tag_id)
    then next_tags
    else create (find_or_unknown_tag known tag_id) next_tags)

unfoldable pub next_tags_of : List TagJson → List String → List String → List TagJson → List TagJson
unfolding push_tags
next_tags_of known add_tag_ids remove_tag_ids tags =
    push_tags known add_tag_ids (filter (λ (t : TagJson). not (includes remove_tag_ids t.id)) tags)

module _ (c : Collection) where
  -- DELETE /tags/:id
  unfoldable pub delete_tag : String → Db → Db
  unfolding recalculate_feed_counts update_each
  delete_tag id db =
      if any db.tags (λ (t : TagJson). t.id == id)
      then recalculate_feed_counts c (record db {
        tags = c.delete (λ (t : TagJson). t.id == id) db.tags;
        tag_ignore_windows =
            c.delete_many (λ (w : TagIgnoreWindowJson). w.tag_id == id) db.tag_ignore_windows;
        feeds = update_each c (λ (f : FeedJson). f.id) (without_tag id) db.feeds db.feeds;
      })
      else db

  -- POST /feeds
  unfoldable pub post_feed :
      String → String → Option String → Option (List String) → Db → Db × FeedJson
  unfolding recalculate_feed_counts find_or_unknown_tag
  post_feed random_uuid url title tag_ids db =
      let feed : FeedJson = record {
        id = random_uuid;
        url = url;
        link = "";
        title = text_or "New Feed" title;
        last_fetched_at = now;
        next_fetch_at = none;
        created_at = now;
        updated_at = now;
        tags = map (find_or_unknown_tag db.tags) (list_or_empty tag_ids);
        unread_count = 0;
      } in
      (recalculate_feed_counts c (record db { feeds = create feed db.feeds }), feed)

  -- DELETE /feeds/:id
  unfoldable pub delete_feed : String → Db → Db
  unfolding recalculate_feed_counts
  delete_feed id db =
      if any db.feeds (λ (f : FeedJson). f.id == id)
      then recalculate_feed_counts c (record db {
        feeds = c.delete (λ (f : FeedJson). f.id == id) db.feeds;
        feed_ignore_windows =
            c.delete_many (λ (w : FeedIgnoreWindowJson). w.feed_id == id) db.feed_ignore_windows;
      })
      else db

  -- POST /feeds/suspend: `next_fetch_at` is the time when the suspension ends.
  unfoldable pub suspend : String → List String → Db → Db
  suspend next_fetch_at [] db = db
  suspend next_fetch_at (id ∷ ids) db = suspend next_fetch_at ids (
      if any db.feeds (λ (f : FeedJson). f.id == id)
      then record db {
        feeds =
            c.update (λ (f : FeedJson). f.id == id)
              (λ f. record f { next_fetch_at = some next_fetch_at }) db.feeds;
      }
      else db)

  unfoldable pub manage_feed : List String → List String → String → Db → Db
  unfolding next_tags_of
  manage_feed add_tag_ids remove_tag_ids feed_id db =
      elim (find? (λ (f : FeedJson). f.id == feed_id) db.feeds) [
        | none ↦ db
        | some feed ↦ record db {
          feeds =
              c.update (λ (f : FeedJson). f.id == feed_id)
                (λ draft. record draft {
                  tags = next_tags_of db.tags add_tag_ids remove_tag_ids feed.tags;
                })
                db.feeds;
        }
      ]

  unfoldable pub manage_feeds : List String → List String → List String → Db → Db
  unfolding manage_feed
  manage_feeds add_tag_ids remove_tag_ids [] db = db
  manage_feeds add_tag_ids remove_tag_ids (feed_id ∷ ids) db =
      manage_feeds add_tag_ids remove_tag_ids ids
        (manage_feed add_tag_ids remove_tag_ids feed_id db)

  -- POST /feed-tags/manage
  unfoldable pub manage_feed_tags :
      Option (List String) → Option (List String) → Option (List String) → Db → Db
  unfolding manage_feeds recalculate_feed_counts
  manage_feed_tags feed_ids add_tag_ids remove_tag_ids db = recalculate_feed_counts c (
      manage_feeds (list_or_empty add_tag_ids) (list_or_empty remove_tag_ids)
        (list_or_empty feed_ids) db)

-- POST /feeds/refresh: every feed is refreshed, with no new items.
unfoldable pub post_refresh : Option (List String) → List (String × Bool × ℕ)
post_refresh ids = map (λ id. (id, true, 0)) (list_or_empty ids)

-- GET /feed-tags
unfoldable pub get_feed_tags : Option String → Option String → Db → List FeedTagJson
unfolding list_feed_tags
get_feed_tags feed_id tag_id db =
    filter (λ (ft : FeedTagJson). matches feed_id ft.feed_id && matches tag_id ft.tag_id)
      (list_feed_tags db.feeds)
