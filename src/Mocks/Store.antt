-- ===== src/Mocks/Store.antt =====
-- handlers.stateful.ts and db.ts: the records that the server keeps, its collections, and the counts
-- of feeds that it keeps with the tags. A count is a decimal number in a string; it is a number here.
use feed_reader.Common.{
  some, none, true, ℕ, String, if◌then◌else◌, Bool, Option, List, [], ◌∷◌, ◌++◌, ◌==◌, string_eq,
}
use feed_reader.Common.Int.{ℤ}
use feed_reader.Common.Lists.{filter, length, any}
use feed_reader.Common.Maps.{Dict}

pub record TagJson : Type 0 where
  pub id : String
  pub name : String
  pub created_at : String
  pub updated_at : String
  pub unread_count : ℕ
  pub feed_count : ℕ

pub record FeedJson : Type 0 where
  pub id : String
  pub url : String
  pub link : String
  pub title : String
  pub last_fetched_at : String
  pub next_fetch_at : Option String
  pub created_at : String
  pub updated_at : String
  pub tags : List TagJson
  pub unread_count : ℕ

pub record ItemJson : Type 0 where
  pub id : String
  pub url : Option String
  pub title : String
  pub description : Option String
  pub published_at : String
  pub feed_id : Option String
  pub is_read : Bool
  pub author : Option String
  pub content : Option String
  pub image_url : Option String
  pub categories : Option String
  pub created_at : String

-- The time is an ISO text in the answer.
pub record ItemReadJson : Type 0 where
  pub item_id : String
  pub is_read : Bool
  pub updated_at : ℤ

pub record UrlRuleJson : Type 0 where
  pub id : String
  pub domain : String
  pub rule_type : String
  pub pattern_text : String

pub record BlockRuleJson : Type 0 where
  pub id : String
  pub rule_type : String
  pub value : String
  pub domain : Option String

pub record IgnoreWindowJson : Type 0 where
  pub id : String
  pub name : String
  pub start_time : String
  pub end_time : String
  pub days_of_week : List ℕ
  pub timezone : String
  pub created_at : String
  pub updated_at : String

pub record FeedIgnoreWindowJson : Type 0 where
  pub feed_id : String
  pub ignore_window_id : String

pub record TagIgnoreWindowJson : Type 0 where
  pub tag_id : String
  pub ignore_window_id : String

-- The collections of `db`, and `itemReads`.
pub record Db : Type 0 where
  pub tags : List TagJson
  pub feeds : List FeedJson
  pub items : List ItemJson
  pub url_rules : List UrlRuleJson
  pub block_rules : List BlockRuleJson
  pub ignore_windows : List IgnoreWindowJson
  pub feed_ignore_windows : List FeedIgnoreWindowJson
  pub tag_ignore_windows : List TagIgnoreWindowJson
  pub item_reads : Dict (Bool × ℤ)

-- `delete`, `deleteMany` and `update` of the package @msw/data, which the code calls with a test of
-- the records. `update` returns a promise that `db` drops: here it stands for the records as the next
-- call finds them, changed or not yet, and no law is assumed of it. The relation of the feeds to the
-- tags, which `create` leaves empty, is not modelled: a feed has its own copies of its tags.
pub record Collection : Type 1 where
  pub delete : {A : Type 0} → (A → Bool) → List A → List A
  pub delete_many : {A : Type 0} → (A → Bool) → List A → List A
  pub update : {A : Type 0} → (A → Bool) → (A → A) → List A → List A

-- `create` appends the record.
abbrev pub create : {A : Type 0} → A → List A → List A
create a records = records ++ (a ∷ [])

abbrev pub now : String
now = "2026-03-01T00:00:00.000Z"

-- `ids || []`
abbrev pub list_or_empty : Option (List String) → List String
list_or_empty none = []
list_or_empty (some ids) = ids

-- A missing parameter of a query asks for everything.
abbrev pub matches : Option String → String → Bool
matches none id = true
matches (some wanted) id = id == wanted

abbrev pub has_tag : String → FeedJson → Bool
has_tag id feed = any feed.tags (λ (t : TagJson). t.id == id)

-- The count that a tag gets.
abbrev pub feed_count_of : List FeedJson → TagJson → ℕ
feed_count_of feeds tag = length (filter (has_tag tag.id) feeds)

unfoldable pub find_or_unknown_tag : List TagJson → String → TagJson
find_or_unknown_tag [] id = record {
  id = id;
  name = "Unknown";
  created_at = now;
  updated_at = now;
  unread_count = 0;
  feed_count = 0;
}
find_or_unknown_tag (tag ∷ tags) id = if tag.id == id then tag else find_or_unknown_tag tags id

module _ (c : Collection) where
  -- The loops that give each record of `records` a new value by its id.
  unfoldable pub update_each : {A : Type 0} → (A → String) → (A → A → A) → List A → List A → List A
  update_each id change [] records = records
  update_each id change (a ∷ rest) records =
      update_each id change rest (c.update (λ b. id b == id a) (change a) records)

  unfoldable pub recalculate_feed_counts : Db → Db
  unfolding update_each
  recalculate_feed_counts db = record db {
    tags =
        update_each (λ (t : TagJson). t.id)
          (λ tag draft. record draft { feed_count = feed_count_of db.feeds tag }) db.tags db.tags;
  }
