-- ===== src/Queries/FeedQueries.antt =====
-- feed-queries.ts: the tags with their feed counts, and the feeds of a tag in the chosen order.
use mathlib.Core.List.{Perm}
use feed_reader.Common.{
  ℕ, String, ◌≡◌, fun_ext, ap, Bool, true, false, not, ◌&&◌, Option, none, some, List, [], map,
  arith, if◌then◌else◌, ◌==◌, string_eq, leb,
}
use feed_reader.Common.Int.{ℤ, pos, ltb_ℤ}
use feed_reader.Common.Lists.{filter, includes}
use feed_reader.Common.Maps.{get}
use feed_reader.Common.Sorting.{sort, IsOrder, IsSorted, sort-perm, sort-IsSorted, filter-sort}
use feed_reader.Queries.ItemQueries.{FeedTag, feeds_with_tag, time_or}
use feed_reader.Queries.Counts.{Tag, nat_or_zero, tally, count, tally_empty}

abbrev pub count_or : Option ℕ → ℕ → ℕ
count_or none n = n
count_or (some m) n = m

-- `getTagsWithFeedCount`: a count that the server sent wins.
unfoldable pub get_tags_with_feed_count : List Tag → List FeedTag → List Tag
unfolding tally
get_tags_with_feed_count tags feed_tags =
    let feed_counts = tally (map (λ (ft : FeedTag). ft.tag_id) feed_tags) [] in
    map
      (λ (tag : Tag). record tag {
        feed_count = some (count_or tag.feed_count (nat_or_zero (get tag.id feed_counts)));
      })
      tags

-- `compare(a, b) <= 0` for `b.feedCount - a.feedCount`.
abbrev pub count_ge : Tag → Tag → Bool
count_ge a b = leb (nat_or_zero b.feed_count) (nat_or_zero a.feed_count)

unfoldable pub get_tag_picker : List Tag → List Tag
unfolding sort
get_tag_picker tags_with_count = sort count_ge tags_with_count

-- Without a count from the server a tag gets the number of its links to feeds; the other fields and
-- the order of the tags stay.
pub get_tags_with_feed_count_lem :
    (tags : List Tag) (feed_tags : List FeedTag)
    → get_tags_with_feed_count tags feed_tags
      ≡ map
          (λ (tag : Tag). record tag {
            feed_count = some (
                count_or tag.feed_count
                  (count tag.id (map (λ (ft : FeedTag). ft.tag_id) feed_tags)));
          })
          tags
unfolding get_tags_with_feed_count
get_tags_with_feed_count_lem tags feed_tags =
    ap (λ (counted : Tag → Tag). map counted tags)
      (fun_ext λ tag i. record {
        id = tag.id;
        name = tag.name;
        unread_count = tag.unread_count;
        feed_count = some (
            count_or tag.feed_count
              (tally_empty (map (λ (ft : FeedTag). ft.tag_id) feed_tags) tag.id i));
      })

leb_total : (a b : ℕ) → leb a b ≡ false → leb b a ≡ true
leb_total a b h = ground arith

leb_trans : (a b c : ℕ) → leb a b ≡ true → leb b c ≡ true → leb a c ≡ true
leb_trans a b c h k = ground arith

-- The tags to pick from are the given ones, from the most feeds to the fewest; tags with as many
-- feeds keep their order.
pub get_tag_picker_lem :
    (tags : List Tag)
    → IsSorted count_ge (get_tag_picker tags)
      × Perm (get_tag_picker tags) tags
      × ((n : ℕ)
          → filter
              (λ (t : Tag). leb (nat_or_zero t.feed_count) n && leb n (nat_or_zero t.feed_count))
              (get_tag_picker tags)
            ≡ filter
                (λ (t : Tag). leb (nat_or_zero t.feed_count) n && leb n (nat_or_zero t.feed_count))
                tags)
unfolding get_tag_picker
get_tag_picker_lem tags = (
  sort-IsSorted count_ge
      (record {
        total = λ a b h. leb_total _ _ h;
        trans = λ a b c h k.
            leb_trans (nat_or_zero c.feed_count) (nat_or_zero b.feed_count)
              (nat_or_zero a.feed_count) k h;
      })
      tags,
  sort-perm count_ge tags,
  λ n. filter-sort count_ge _ (λ a b h k. ground arith) tags,
)

-- `Feed` of feed-db.ts, less the fields that the queries do not read.
pub record Feed : Type 0 where
  pub id : String
  pub title : String
  pub last_fetched_at : Option (Option ℤ)
  pub next_fetch_at : Option (Option ℤ)

pub data FeedSortOption : Type 0 where
  title_asc title_desc last_fetched next_fetch : FeedSortOption

-- `options.tagId`: `undefined`, `null` or a string.
pub data TagChoice : Type 0 where
  any_tag untagged : TagChoice
  tagged : String → TagChoice

-- The filter by tag; an empty string is falsy.
unfoldable pub choose_feeds : List FeedTag → TagChoice → List Feed → List Feed
unfolding feeds_with_tag
choose_feeds feed_tags any_tag feeds = feeds
choose_feeds feed_tags untagged feeds =
    filter (λ (f : Feed). not (includes (map (λ (ft : FeedTag). ft.feed_id) feed_tags) f.id)) feeds
choose_feeds feed_tags (tagged tag_id) feeds =
    if tag_id == ""
    then feeds
    else filter (λ (f : Feed). includes (feeds_with_tag tag_id feed_tags) f.id) feeds

-- `a.localeCompare(b)` depends on the browser's locale: `title_le a b` says that it is at most 0.
module _ (title_le : String → String → Bool) where
  by_time : ℤ → ℤ → Feed → Feed → Bool
  by_time time_a time_b a b =
      if ltb_ℤ time_a time_b
      then true
      else if ltb_ℤ time_b time_a
      then false
      else title_le a.title b.title

  -- `compare(a, b) <= 0` for the comparison of the `sort`; `none` is a missing option.
  unfoldable pub feed_le : Option FeedSortOption → Feed → Feed → Bool
  unfolding by_time
  feed_le (some title_desc) a b = title_le b.title a.title
  feed_le (some last_fetched) a b =
      by_time (time_or (pos 0) a.last_fetched_at) (time_or (pos 0) b.last_fetched_at) a b
  feed_le (some next_fetch) a b =
      by_time (time_or (pos 0) a.next_fetch_at) (time_or (pos 0) b.next_fetch_at) a b
  feed_le _ a b = title_le a.title b.title

  unfoldable pub get_feed_list :
      List Feed → List FeedTag → TagChoice → Option FeedSortOption → List Feed
  unfolding sort choose_feeds feed_le
  get_feed_list feeds feed_tags tag_id sort_by =
      sort (feed_le sort_by) (choose_feeds feed_tags tag_id feeds)

-- How two feeds compare by a time and then by title.
time_title_le : ℤ → ℤ → Bool → Bool
time_title_le s t le = if ltb_ℤ s t then true else if ltb_ℤ t s then false else le

time_title_total :
    (s t : ℤ) (le ge : Bool)
    → (le ≡ false → ge ≡ true)
    → time_title_le s t le ≡ false
    → time_title_le t s ge ≡ true
unfolding time_title_le
time_title_total s t le ge total h = ground arith

time_title_trans :
    (s t u : ℤ) (ab bc ac : Bool)
    → (ab ≡ true → bc ≡ true → ac ≡ true)
    → time_title_le s t ab ≡ true
    → time_title_le t u bc ≡ true
    → time_title_le s u ac ≡ true
unfolding time_title_le
time_title_trans s t u ab bc ac trans h k = ground arith

module _ (title_le : String → String → Bool) (order : IsOrder title_le) where
  -- What a locale's comparison of titles is assumed to be, the order by time inherits.
  by_time-IsOrder : (time : Feed → ℤ) → IsOrder (λ a b. by_time title_le (time a) (time b) a b)
  unfolding by_time time_title_le
  by_time-IsOrder time = record {
    total = λ a b h.
        time_title_total (time a) (time b) (title_le a.title b.title) (title_le b.title a.title)
          (order.total a.title b.title) h;
    trans = λ a b c h k.
        time_title_trans (time a) (time b) (time c) (title_le a.title b.title)
          (title_le b.title c.title) (title_le a.title c.title)
          (order.trans a.title b.title c.title) h k;
  }

  feed_le-IsOrder : (sort_by : Option FeedSortOption) → IsOrder (feed_le title_le sort_by)
  unfolding feed_le
  feed_le-IsOrder none = record {
    total = λ a b. order.total a.title b.title;
    trans = λ a b c. order.trans a.title b.title c.title;
  }
  feed_le-IsOrder (some title_asc) = record {
    total = λ a b. order.total a.title b.title;
    trans = λ a b c. order.trans a.title b.title c.title;
  }
  feed_le-IsOrder (some title_desc) = record {
    total = λ a b. order.total b.title a.title;
    trans = λ a b c h k. order.trans c.title b.title a.title k h;
  }
  feed_le-IsOrder (some last_fetched) = by_time-IsOrder (λ f. time_or (pos 0) f.last_fetched_at)
  feed_le-IsOrder (some next_fetch) = by_time-IsOrder (λ f. time_or (pos 0) f.next_fetch_at)

  -- If the locale orders titles, the feeds shown are those that the tag selects (those with no tag
  -- at all, where that is asked), each once for each time it is in the list, in the chosen order.
  pub get_feed_list_lem :
      (feeds : List Feed) (feed_tags : List FeedTag) (tag_id : TagChoice)
      (sort_by : Option FeedSortOption)
      → IsSorted (feed_le title_le sort_by) (get_feed_list title_le feeds feed_tags tag_id sort_by)
        × Perm
            (get_feed_list title_le feeds feed_tags tag_id sort_by)
            (choose_feeds feed_tags tag_id feeds)
  unfolding get_feed_list
  get_feed_list_lem feeds feed_tags tag_id sort_by = (
    sort-IsSorted (feed_le title_le sort_by) (feed_le-IsOrder sort_by)
        (choose_feeds feed_tags tag_id feeds),
    sort-perm (feed_le title_le sort_by) (choose_feeds feed_tags tag_id feeds),
  )
