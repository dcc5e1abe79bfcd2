-- ===== src/Queries/Counts.antt =====
-- The order of the items, and the unread counts of item-queries.ts.
use mathlib.Core.List.{Perm}
use feed_reader.Common.{
  ℕ, suc, ◌+◌, String, ◌≡◌, fun_ext, ap, Bool, true, false, not, Option, none, some, List, [], ◌∷◌,
  map, arith, if◌then◌else◌, ◌==◌, ==_iff, string_eq,
}
use feed_reader.Common.Int.{ℤ, pos, ltb_ℤ}
use feed_reader.Common.Lists.{filter, length}
use feed_reader.Common.Maps.{Dict, get, set, get-set}
use feed_reader.Common.Sorting.{IsOrder, IsSorted, sort-perm, sort-IsSorted, filter-sort}
use feed_reader.Items.{Item}
use feed_reader.Queries.ItemQueries.{
  FeedTag, item_le, time_or, max_safe_integer, feeds_with_tag, sort_items,
}

-- `Tag` of tag-db.ts; a count of `none` is `undefined`.
pub record Tag : Type 0 where
  pub id : String
  pub name : String
  pub unread_count : Option ℕ
  pub feed_count : Option ℕ

pub record TagUnreadCount : Type 0 where
  pub id : String
  pub name : String
  pub unread_count : ℕ

abbrev pub nat_or_zero : Option ℕ → ℕ
nat_or_zero none = 0
nat_or_zero (some n) = n

-- `map.set(key, (map.get(key) ?? 0) + 1)` for each key.
unfoldable pub tally : List String → Dict ℕ → Dict ℕ
unfolding set get
tally [] m = m
tally (k ∷ ks) m = tally ks (set k (nat_or_zero (get k m) + 1) m)

-- The loop that adds up the counts of the matched feeds.
unfoldable pub add_counts : Dict ℕ → List String → ℕ → ℕ
unfolding get
add_counts m [] total = total
add_counts m (feed_id ∷ ids) total = add_counts m ids (total + nat_or_zero (get feed_id m))

unfoldable pub get_tag_unread_counts : List Tag → List FeedTag → List Item → List TagUnreadCount
unfolding tally add_counts feeds_with_tag
get_tag_unread_counts tags feed_tags unread_items =
    let unread_count_by_feed = tally (map (λ (i : Item). i.feed_id) unread_items) [] in
    map
      (λ (tag : Tag). record {
        id = tag.id;
        name = tag.name;
        unread_count = add_counts unread_count_by_feed (feeds_with_tag tag.id feed_tags) 0;
      })
      tags

-- `getTotalUnreadCount`
unfoldable pub get_total_unread_count : List Item → ℕ
get_total_unread_count unread_items = length unread_items

-- How often a string stands in a list.
abbrev pub count : String → List String → ℕ
count k [] = 0
count k (j ∷ js) = if j == k then suc (count k js) else count k js

get-tally :
    (ks : List String) (m : Dict ℕ) (k : String)
    → nat_or_zero (get k (tally ks m)) ≡ count k ks + nat_or_zero (get k m)
unfolding tally
get-tally [] m k = omega arith
get-tally (j ∷ ks) m k = ground (
  arith,
  get-tally ks (set j (nat_or_zero (get j m) + 1) m) k,
  get-set j k (nat_or_zero (get j m) + 1) m,
  ==_iff j k,
)

-- The number of pairs of a feed of the list and an occurrence of it among the keys.
abbrev pub pairs : List String → List String → ℕ
pairs [] keys = 0
pairs (feed_id ∷ ids) keys = count feed_id keys + pairs ids keys

pub tally_empty :
    (keys : List String) (k : String) → nat_or_zero (get k (tally keys [])) ≡ count k keys
unfolding get
tally_empty keys k = omega (arith, get-tally keys [] k)

add_counts-pairs :
    (keys ids : List String) (total : ℕ)
    → add_counts (tally keys []) ids total ≡ total + pairs ids keys
unfolding add_counts
add_counts-pairs keys [] total = omega arith
add_counts-pairs keys (feed_id ∷ ids) total = omega (
  arith,
  add_counts-pairs keys ids (total + nat_or_zero (get feed_id (tally keys []))),
  tally_empty keys feed_id,
)

add_counts_zero : (keys ids : List String) → add_counts (tally keys []) ids 0 ≡ pairs ids keys
add_counts_zero keys ids = omega (arith, add_counts-pairs keys ids 0)

-- The count shown for a tag is the number of pairs of a link from the tag to a feed and an unread
-- item of that feed; the tags keep their order.
pub get_tag_unread_counts_lem :
    (tags : List Tag) (feed_tags : List FeedTag) (unread_items : List Item)
    → get_tag_unread_counts tags feed_tags unread_items
      ≡ map
          (λ (tag : Tag). record {
            id = tag.id;
            name = tag.name;
            unread_count =
                pairs
                  (feeds_with_tag tag.id feed_tags)
                  (map (λ (i : Item). i.feed_id) unread_items);
          })
          tags
unfolding get_tag_unread_counts
get_tag_unread_counts_lem tags feed_tags unread_items =
    ap (λ (count : Tag → TagUnreadCount). map count tags)
      (fun_ext λ tag i. record {
        id = tag.id;
        name = tag.name;
        unread_count =
            add_counts_zero (map (λ (j : Item). j.feed_id) unread_items)
              (feeds_with_tag tag.id feed_tags) i;
      })

abbrev order_le : ℤ → ℤ → ℤ → ℤ → Bool
order_le a b c d = if ltb_ℤ a b then true else if ltb_ℤ b a then false else not (ltb_ℤ d c)

order_le_total : (a b c d : ℤ) → order_le a b c d ≡ false → order_le b a d c ≡ true
order_le_total a b c d h = ground arith

order_le_trans :
    (a b e c d f : ℤ) → order_le a b c d ≡ true → order_le b e d f ≡ true → order_le a e c f ≡ true
order_le_trans a b e c d f h k = ground arith

abbrev published : Item → ℤ
published i = time_or max_safe_integer i.published_at

abbrev created : Item → ℤ
created i = time_or (pos 0) i.created_at

item_le-IsOrder : (heap : ℕ → Item) → IsOrder (λ a b. item_le (heap a) (heap b))
unfolding item_le
item_le-IsOrder heap = record {
  total = λ a b h.
      order_le_total (published (heap a)) (published (heap b)) (created (heap a)) (created (heap b))
        h;
  trans = λ a b c h k.
      order_le_trans (published (heap a)) (published (heap b)) (published (heap c))
        (created (heap a)) (created (heap b)) (created (heap c)) h k;
}

-- The sorted items are the given ones, from the earliest publication on and without a date last,
-- then by creation; items that a test selects and that the dates do not tell apart keep their order.
pub sort_items_lem :
    (heap : ℕ → Item) (items : List ℕ) (p : ℕ → Bool)
    (alike : (a b : ℕ) → p a ≡ true → p b ≡ true → item_le (heap a) (heap b) ≡ true)
    → IsSorted (λ a b. item_le (heap a) (heap b)) (sort_items heap items)
      × Perm (sort_items heap items) items
      × (filter p (sort_items heap items) ≡ filter p items)
unfolding sort_items
sort_items_lem heap items p alike =
    (sort-IsSorted _ (item_le-IsOrder heap) items, sort-perm _ items, filter-sort _ p alike items)
