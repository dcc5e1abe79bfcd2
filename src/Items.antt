-- ===== src/Items.antt =====
-- frontend/src/lib/item-db.ts, item-read-db.ts and item-sync-state.ts: the items, their read states,
-- and the anchors up to which both have been fetched. A date is `none` where the field is
-- `undefined`; texts of dates go through the platform's parser.
pub mod Merge
pub mod Fetch
pub mod Paging
pub mod Anchors
pub mod Requests
pub mod Resolves
pub mod Status
pub mod Reads
pub mod ReadRollback
pub mod ReadPaging
pub mod ReadSync
use feed_reader.Common.{String, Bool, Option, none, some, List, map}
use feed_reader.Common.Int.{ℤ}
use feed_reader.Dates.{DateLike, undefined, text, to_date}

pub record ItemFeed : Type 0 where
  pub id : String
  pub title : String

-- `Item`, which extends `ListItem`; `listed` items are used at their `ListItem` fields.
pub record Item : Type 0 where
  pub id : String
  pub title : String
  pub description : String
  pub published_at : Option (Option ℤ)
  pub is_read : Bool
  pub created_at : Option (Option ℤ)
  pub feed_id : String
  pub url : String
  pub author : String
  pub categories : String
  pub image_url : String
  pub content : String
  pub feeds : Option (List ItemFeed)

-- The schema `Item` of the API: dates are texts.
pub record OpenApiItem : Type 0 where
  pub id : String
  pub title : String
  pub description : String
  pub published_at : Option String
  pub is_read : Bool
  pub created_at : String
  pub feed_id : String
  pub url : String
  pub author : String
  pub categories : String
  pub image_url : String
  pub content : String
  pub feeds : Option (List ItemFeed)

abbrev date_text : Option String → DateLike
date_text none = undefined
date_text (some s) = text s

unfoldable pub map_open_api_item : (String → Option ℤ) → OpenApiItem → Item
unfolding to_date
map_open_api_item parse_date item = record {
  id = item.id;
  title = item.title;
  description = item.description;
  published_at = to_date parse_date (date_text item.published_at);
  is_read = item.is_read;
  created_at = to_date parse_date (text item.created_at);
  feed_id = item.feed_id;
  url = item.url;
  author = item.author;
  categories = item.categories;
  image_url = item.image_url;
  content = item.content;
  feeds = item.feeds;
}
