-- ===== src/Tests/Server.antt =====
-- The server in the browser, with the package's documented behaviour, at a concrete database.
use feed_reader.Common.{
  String, ◌≡◌, refl, false, not, map, if◌then◌else◌, ◌++◌, Option, none, some, [], ◌∷◌, arith,
  string_eq,
}
use feed_reader.Common.Int.{ℤ, pos}
use feed_reader.Common.Lists.{filter}
use feed_reader.Mocks.Store.{Collection, Db, TagJson, FeedJson, ItemJson, IgnoreWindowJson, now}
use feed_reader.Mocks.Collections.{delete_first}
use feed_reader.Mutations.{tag_insert, feeds, invalidated, has_key}
use feed_reader.Mutations.Freshness.{serve as mutated, left_stale, serve-Unchanged}
use feed_reader.Mocks.WindowHandlers.{feed_link, tag_link}
use feed_reader.Mocks.ItemHandlers.{PageQuery, post_status, status_time}
use feed_reader.Mocks.Pages.{read_all, read_all_lem}

abbrev stored : Collection
stored = record {
  delete = λ p xs. delete_first p xs;
  delete_many = λ p xs. filter (λ x. not (p x)) xs;
  update = λ p f xs. map (λ x. if p x then f x else x) xs;
}

abbrev tech : TagJson
tech = record {
  id = "tech";
  name = "Tech";
  created_at = now;
  updated_at = now;
  unread_count = 0;
  feed_count = 1;
}

abbrev feed : FeedJson
feed = record {
  id = "1";
  url = "u";
  link = "";
  title = "Feed";
  last_fetched_at = now;
  next_fetch_at = none;
  created_at = now;
  updated_at = now;
  tags = tech ∷ [];
  unread_count = 0;
}

abbrev item : String → ItemJson
item id = record {
  id = id;
  url = none;
  title = "";
  description = none;
  published_at = now;
  feed_id = none;
  is_read = false;
  author = none;
  content = none;
  image_url = none;
  categories = none;
  created_at = now;
}

abbrev night : IgnoreWindowJson
night = record {
  id = "w";
  name = "Night";
  start_time = "22:00";
  end_time = "06:00";
  days_of_week = 1 ∷ [];
  timezone = "UTC";
  created_at = now;
  updated_at = now;
}

abbrev db : Db
db = record {
  tags = tech ∷ [];
  feeds = feed ∷ [];
  items = item "a" ∷ item "b" ∷ item "c" ∷ [];
  url_rules = [];
  block_rules = [];
  ignore_windows = night ∷ [];
  feed_ignore_windows = feed_link "1" "w" ∷ [];
  tag_ignore_windows = tag_link "tech" "w" ∷ [];
  item_reads = [];
}

abbrev no_dates : String → Option ℤ
no_dates s = none

abbrev two_at_a_time : PageQuery
two_at_a_time = record { page_token = none; page_size = some (pos 2); is_read = none; since = none }

read_all_example : read_all no_dates 3 two_at_a_time db ≡ item "a" ∷ item "b" ∷ item "c" ∷ []
unfolding feed_reader.Mocks.ItemHandlers.published_since feed_reader.Mocks.ItemHandlers.with_state
read_all_example = read_all_lem no_dates 3 0 1 two_at_a_time db refl refl (omega arith)

adds_tag : has_key (invalidated (tag_insert "news") ++ left_stale (tag_insert "news")) feeds ≡ false
unfolding invalidated
adds_tag = refl

serve-Unchanged_example : (mutated stored "new" "later" (tag_insert "news") db).feeds ≡ db.feeds
serve-Unchanged_example = serve-Unchanged stored "new" "later" (tag_insert "news") db feeds adds_tag
