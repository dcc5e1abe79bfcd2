-- ===== src/Queries/ItemQueries.antt =====
-- item-queries.ts. The two caches are keyed by the identity of objects, so an item and an array of
-- items are references here, with the objects they stand for on a heap; a merged item is its value.
-- An invalid date does not occur, since `toDate` drops it, and counts as no date.
use feed_reader.Common.{
  ℕ, String, Bool, true, false, not, Option, none, some, List, [], ◌∷◌, if◌then◌else◌, ◌==◌, nat_eq,
  string_eq,
}
use feed_reader.Common.Int.{ℤ, pos, ltb_ℤ}
use feed_reader.Common.Lists.{filter, includes}
use feed_reader.Common.Maps.{Dict, get, set}
use feed_reader.Common.Sorting.{sort}
use feed_reader.Items.{Item}
use feed_reader.Items.Reads.{ItemRead}

-- `FeedTag` of feed-db.ts.
pub record FeedTag : Type 0 where
  pub id : String
  pub feed_id : String
  pub tag_id : String

-- A `WeakMap`: the entry in front is the last one written.
abbrev pub WeakMap : Type 0 → Type 0
WeakMap V = List (ℕ × V)

unfoldable pub weak_get : {V : Type 0} → ℕ → WeakMap V → Option V
weak_get k [] = none
weak_get k ((j, v) ∷ m) = if j == k then some v else weak_get k m

pub record CachedMerge : Type 0 where
  pub is_read : Bool
  pub merged : Item

pub record Caches : Type 0 where
  pub merged_item_cache : WeakMap CachedMerge
  pub sorted_items_cache : WeakMap (List ℕ)

pub record QueryOptions : Type 0 where
  pub tag_id : Option String
  pub item_id : Option String
  pub unread_only : Bool

-- `date?.getTime() ?? missing`
abbrev pub time_or : ℤ → Option (Option ℤ) → ℤ
time_or missing (some (some t)) = t
time_or missing (some none) = missing
time_or missing none = missing

abbrev pub max_safe_integer : ℤ
max_safe_integer = pos 9_007_199_254_740_991

-- `compare(a, b) <= 0` for the comparison of the `sort`.
unfoldable pub item_le : Item → Item → Bool
item_le a b =
    let time_a = time_or max_safe_integer a.published_at in
    let time_b = time_or max_safe_integer b.published_at in
    if ltb_ℤ time_a time_b
    then true
    else if ltb_ℤ time_b time_a
    then false
    else not (ltb_ℤ (time_or (pos 0) b.created_at) (time_or (pos 0) a.created_at))

-- `readMap`: the last read state of each item.
unfoldable pub read_map : List ItemRead → Dict Bool → Dict Bool
unfolding set
read_map [] m = m
read_map (r ∷ rs) m = read_map rs (set r.id r.is_read m)

abbrev pub bool_or : Option Bool → Bool → Bool
bool_or none b = b
bool_or (some a) b = a

-- An empty string and a missing option are both falsy.
unfoldable pub given : Option String → Option String
given none = none
given (some s) = if s == "" then none else some s

unfoldable pub by_item : Option String → List Item → List Item
by_item none items = items
by_item (some id) items = filter (λ (i : Item). i.id == id) items

-- The ids of the feeds that carry the tag.
unfoldable pub feeds_with_tag : String → List FeedTag → List String
feeds_with_tag tag_id [] = []
feeds_with_tag tag_id (ft ∷ fts) =
    if ft.tag_id == tag_id
    then ft.feed_id ∷ feeds_with_tag tag_id fts
    else feeds_with_tag tag_id fts

unfoldable pub by_tag : List FeedTag → Option String → List Item → List Item
unfolding feeds_with_tag
by_tag feed_tags none items = items
by_tag feed_tags (some tag_id) items =
    filter (λ (i : Item). includes (feeds_with_tag tag_id feed_tags) i.feed_id) items

unfoldable pub by_unread : Bool → List Item → List Item
by_unread false items = items
by_unread true items = filter (λ (i : Item). not i.is_read) items

unfoldable pub select : List FeedTag → QueryOptions → List Item → List Item
unfolding given by_item by_tag by_unread
select feed_tags options items =
    by_unread options.unread_only
      (by_tag feed_tags (given options.tag_id) (by_item (given options.item_id) items))

-- `===` of two Booleans.
abbrev pub same_bool : Bool → Bool → Bool
same_bool true b = b
same_bool false b = not b

module _ (heap : ℕ → Item) where
  unfoldable pub sort_items : List ℕ → List ℕ
  unfolding sort item_le
  sort_items items = sort (λ a b. item_le (heap a) (heap b)) items

  -- `sortedItemsCache`: the array at `list` holds `items`.
  unfoldable pub sorted_items : ℕ → List ℕ → Caches → Caches × List ℕ
  unfolding sort_items weak_get
  sorted_items list items c = elim (weak_get list c.sorted_items_cache) [
    | some cached ↦ (c, cached)
    | none ↦
        let fresh = sort_items items in
        (record c { sorted_items_cache = (list, fresh) ∷ c.sorted_items_cache }, fresh)
  ]

  unfoldable pub fresh_merge : ℕ → Bool → Caches → Caches × Item
  fresh_merge item is_read c =
      let merged = record (heap item) { is_read = is_read } in
      (
        record c {
          merged_item_cache =
              (item, record { is_read = is_read; merged = merged }) ∷ c.merged_item_cache;
        },
        merged,
      )

  -- The merged object of an item: the cached one if its read state is still right.
  unfoldable pub merge_item : Dict Bool → ℕ → Caches → Caches × Item
  unfolding weak_get fresh_merge get
  merge_item reads item c =
      let is_read = bool_or (get (heap item).id reads) (heap item).is_read in
      elim (weak_get item c.merged_item_cache) [
        | none ↦ fresh_merge item is_read c
        | some cached ↦
            if same_bool cached.is_read is_read
            then (c, cached.merged)
            else fresh_merge item is_read c
      ]

  unfoldable pub merge_items : Dict Bool → List ℕ → Caches → Caches × List Item
  unfolding merge_item
  merge_items reads [] c = (c, [])
  merge_items reads (item ∷ items) c =
      let (c_next, merged) = merge_item reads item c in
      let (c_last, rest) = merge_items reads items c_next in (c_last, merged ∷ rest)

  unfoldable pub get_items_with_read_state :
      ℕ → List ℕ → List ItemRead → List FeedTag → QueryOptions → Caches → Caches × List Item
  unfolding sorted_items read_map merge_items select
  get_items_with_read_state list [] reads feed_tags options c = (c, [])
  get_items_with_read_state list (item ∷ items) reads feed_tags options c =
      let (c_next, sorted) = sorted_items list (item ∷ items) c in
      let (c_last, result) = merge_items (read_map reads []) sorted c_next in
      (c_last, select feed_tags options result)

-- `filterVisibleListItems`; `transient_removed_ids` maps ids to `true`.
unfoldable pub filter_visible_list_items : List Item → Dict Bool → List Item
filter_visible_list_items items transient_removed_ids =
    filter (λ (i : Item). not (bool_or (get i.id transient_removed_ids) false)) items
