-- ===== src/Mocks/WindowHandlers.antt =====
-- handlers.stateful.ts: the handlers of /ignore-windows, /feed-ignore-windows and
-- /tag-ignore-windows.
use feed_reader.Common.{
  ℕ, String, if◌then◌else◌, Bool, ◌&&◌, Option, none, some, List, [], ◌∷◌, ◌==◌, string_eq,
}
use feed_reader.Common.Lists.{filter, any, find?}
use feed_reader.Mocks.Store.{
  list_or_empty, matches, Db, Collection, IgnoreWindowJson, FeedIgnoreWindowJson,
  TagIgnoreWindowJson, create, now,
}

-- The body of a PUT: the fields that it gives.
pub record WindowPatch : Type 0 where
  pub id : Option String
  pub name : Option String
  pub start_time : Option String
  pub end_time : Option String
  pub days_of_week : Option (List ℕ)
  pub timezone : Option String
  pub created_at : Option String

pub record WindowBody : Type 0 where
  pub name : String
  pub start_time : String
  pub end_time : String
  pub days_of_week : List ℕ
  pub timezone : String

abbrev given_or : {A : Type 0} → Option A → A → A
given_or none a = a
given_or (some b) a = b

unfoldable pub patch_window : WindowPatch → String → IgnoreWindowJson → IgnoreWindowJson
patch_window body updated_at draft = record draft {
  id = given_or body.id draft.id;
  name = given_or body.name draft.name;
  start_time = given_or body.start_time draft.start_time;
  end_time = given_or body.end_time draft.end_time;
  days_of_week = given_or body.days_of_week draft.days_of_week;
  timezone = given_or body.timezone draft.timezone;
  created_at = given_or body.created_at draft.created_at;
  updated_at = updated_at;
}

-- POST /ignore-windows
unfoldable pub post_ignore_window : String → WindowBody → Db → Db × IgnoreWindowJson
post_ignore_window random_uuid body db =
    let window : IgnoreWindowJson = record {
      id = random_uuid;
      name = body.name;
      start_time = body.start_time;
      end_time = body.end_time;
      days_of_week = body.days_of_week;
      timezone = body.timezone;
      created_at = now;
      updated_at = now;
    } in
    (record db { ignore_windows = create window db.ignore_windows }, window)

-- The tests of the links.
abbrev pub is_feed_link : String → String → FeedIgnoreWindowJson → Bool
is_feed_link feed_id window_id link =
    (link.feed_id == feed_id) && (link.ignore_window_id == window_id)

abbrev pub is_tag_link : String → String → TagIgnoreWindowJson → Bool
is_tag_link tag_id window_id link = (link.tag_id == tag_id) && (link.ignore_window_id == window_id)

abbrev pub feed_link : String → String → FeedIgnoreWindowJson
feed_link feed_id window_id = record { feed_id = feed_id; ignore_window_id = window_id }

abbrev pub tag_link : String → String → TagIgnoreWindowJson
tag_link tag_id window_id = record { tag_id = tag_id; ignore_window_id = window_id }

module _ (c : Collection) where
  -- PUT /ignore-windows/:id; `none` is the answer 404.
  unfoldable pub put_ignore_window :
      String → WindowPatch → String → Db → Db × Option (Option IgnoreWindowJson)
  unfolding patch_window
  put_ignore_window id body updated_at db =
      if any db.ignore_windows (λ (w : IgnoreWindowJson). w.id == id)
      then (let windows =
            c.update (λ (w : IgnoreWindowJson). w.id == id) (patch_window body updated_at)
              db.ignore_windows in
          (
            record db { ignore_windows = windows },
            some (find? (λ (w : IgnoreWindowJson). w.id == id) windows),
          ))
      else (db, none)

  -- DELETE /ignore-windows/:id
  unfoldable pub delete_ignore_window : String → Db → Db
  delete_ignore_window id db =
      if any db.ignore_windows (λ (w : IgnoreWindowJson). w.id == id)
      then record db {
        ignore_windows = c.delete (λ (w : IgnoreWindowJson). w.id == id) db.ignore_windows;
        feed_ignore_windows =
            c.delete_many (λ (w : FeedIgnoreWindowJson). w.ignore_window_id == id)
              db.feed_ignore_windows;
        tag_ignore_windows =
            c.delete_many (λ (w : TagIgnoreWindowJson). w.ignore_window_id == id)
              db.tag_ignore_windows;
      }
      else db

  -- The loops of the two `manage` handlers, over the links of either kind: `is o w` tests a link, and
  -- `link o w` makes one.
  module _ {Link : Type 0} (is : String → String → Link → Bool)
      (link : String → String → Link) where
    unfoldable pub remove_links : String → List String → List Link → List Link
    remove_links owner [] links = links
    remove_links owner (remove_id ∷ ids) links =
        remove_links owner ids (c.delete_many (is owner remove_id) links)

    unfoldable pub add_links : String → List String → List Link → List Link
    add_links owner [] links = links
    add_links owner (add_id ∷ ids) links =
        add_links owner ids
          (if any links (is owner add_id) then links else create (link owner add_id) links)

    unfoldable pub manage_links : List String → List String → List String → List Link → List Link
    unfolding remove_links add_links
    manage_links add_ids remove_ids [] links = links
    manage_links add_ids remove_ids (owner ∷ owners) links =
        manage_links add_ids remove_ids owners
          (add_links owner add_ids (remove_links owner remove_ids links))

  -- POST /feed-ignore-windows/manage
  unfoldable pub manage_feed_ignore_windows :
      Option (List String) → Option (List String) → Option (List String) → Db → Db
  unfolding manage_links
  manage_feed_ignore_windows feed_ids add_ids remove_ids db = record db {
    feed_ignore_windows =
        manage_links is_feed_link feed_link (list_or_empty add_ids) (list_or_empty remove_ids)
          (list_or_empty feed_ids) db.feed_ignore_windows;
  }

  -- POST /tag-ignore-windows/manage
  unfoldable pub manage_tag_ignore_windows :
      Option (List String) → Option (List String) → Option (List String) → Db → Db
  unfolding manage_links
  manage_tag_ignore_windows tag_ids add_ids remove_ids db = record db {
    tag_ignore_windows =
        manage_links is_tag_link tag_link (list_or_empty add_ids) (list_or_empty remove_ids)
          (list_or_empty tag_ids) db.tag_ignore_windows;
  }

-- GET /feed-ignore-windows
unfoldable pub get_feed_ignore_windows :
    Option String → Option String → Db → List FeedIgnoreWindowJson
get_feed_ignore_windows feed_id window_id db =
    filter
      (λ (link : FeedIgnoreWindowJson).
        matches feed_id link.feed_id && matches window_id link.ignore_window_id)
      db.feed_ignore_windows

-- GET /tag-ignore-windows
unfoldable pub get_tag_ignore_windows :
    Option String → Option String → Db → List TagIgnoreWindowJson
get_tag_ignore_windows tag_id window_id db =
    filter
      (λ (link : TagIgnoreWindowJson).
        matches tag_id link.tag_id && matches window_id link.ignore_window_id)
      db.tag_ignore_windows
