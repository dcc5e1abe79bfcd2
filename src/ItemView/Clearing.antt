-- ===== src/ItemView/Clearing.antt =====
-- What clearing the read items away leaves on the list and in the selection.
use feed_reader.Common.{
  String, ◌≡◌, refl, ap, ◌∙◌, Option-cases, Bool, true, false, not, ◌&&◌, none, some, List, [], ◌∷◌,
  map, arith, if◌then◌else◌, ◌==◌, ==_iff, ==_refl, string_eq, nat_eq, Bool-cases, inl, inr,
}
use feed_reader.Common.Lists.{filter, includes, All}
use feed_reader.Common.Maps.{
  Dict, get, get_last, set_all, get-set_all, includes-remove_all, or_else,
}
use feed_reader.Items.{Item}
use feed_reader.Items.Merge.{latest, HasDistinctIds}
use feed_reader.Queries.ItemQueries.{filter_visible_list_items, bool_or}
use feed_reader.ItemView.{
  ListState, removals, add_transient_removed_ids, filtered_items, item_id, read_item_ids,
  handle_clear_read_items,
}

get_last-removals :
    (ids : List String) (k : String)
    → get_last k (removals ids) ≡ (if includes ids k then some true else none)
unfolding get_last removals
get_last-removals [] k = refl
get_last-removals (id ∷ ids) k = ground (arith, get_last-removals ids k)

removed-add :
    (ids : List String) (m : Dict Bool) (k : String)
    → not (bool_or (get k (set_all (removals ids) m)) false)
      ≡ (not (bool_or (get k m) false) && not (includes ids k))
removed-add ids m k =
    rw (get-set_all (removals ids) k m, get_last-removals ids k)
      (elim (Bool-cases (includes ids k)) [
        | inl e ↦ rw e (ground arith)
        | inr e ↦ rw e (ground arith)
      ])

filter-and :
    (p q r : Item → Bool) (items : List Item)
    → ((i : Item) → r i ≡ (p i && q i))
    → filter r items ≡ filter q (filter p items)
filter-and p q r [] h = refl
filter-and p q r (i ∷ items) h = ground (arith, h i, filter-and p q r items h)

filter-agree :
    (p q : Item → Bool) (items : List Item)
    → All (λ i. p i ≡ q i) items
    → filter p items ≡ filter q items
filter-agree p q [] all = refl
filter-agree p q (i ∷ items) (here, all) = ground (arith, here, filter-agree p q items all)

-- What is left is what was shown and is not one of the cleared ids.
filtered_items-clear :
    (items : List Item) (s : ListState)
    → filtered_items items (handle_clear_read_items items s)
      ≡ filter (λ (i : Item). not (includes (read_item_ids items s) i.id)) (filtered_items items s)
unfolding filtered_items handle_clear_read_items add_transient_removed_ids filter_visible_list_items
filtered_items-clear items s =
    filter-and _ (λ (i : Item). not (includes (read_item_ids items s) i.id)) _ items
      (λ i. removed-add (read_item_ids items s) s.store.transient_removed_ids i.id)

read_ids : List Item → List String
read_ids items = map item_id (filter (λ (i : Item). i.is_read) items)

latest-fresh :
    (i : Item) (items : List Item) (k : String)
    → latest item_id k (i ∷ items) ≡ none
    → ((i.id == k) ≡ false) × (latest item_id k items ≡ none)
unfolding latest
latest-fresh i items k h = elim (Option-cases (latest item_id k items)) [
  | inl e ↦ elim (Bool-cases (i.id == k)) [ inl f ↦ cc (rw (e, f, or_else) at h) | inr f ↦ (f, e) ]
  | inr (a, e) ↦ cc (rw (e, or_else) at h)
]

read_ids-fresh :
    (items : List Item) (k : String)
    → latest item_id k items ≡ none
    → includes (read_ids items) k ≡ false
unfolding latest read_ids
read_ids-fresh [] k h = refl
read_ids-fresh (i ∷ items) k h =
    let (apart, fresh) = latest-fresh i items k h in
    ground (arith, read_ids-fresh items k fresh, apart)

pub fresh-apart :
    (items : List Item) (k : String)
    → latest item_id k items ≡ none
    → All (λ (i : Item). (k == i.id) ≡ false) items
unfolding latest
fresh-apart [] k h = tt
fresh-apart (i ∷ items) k h =
    let (apart, fresh) = latest-fresh i items k h in
    (ground (arith, apart, ==_iff i.id k, ==_iff k i.id), fresh-apart items k fresh)

All-widen :
    (x : Item) (all items : List Item)
    → All (λ (i : Item). (x.id == i.id) ≡ false) items
    → All (λ (i : Item). includes (read_ids all) i.id ≡ i.is_read) items
    → All (λ (i : Item). includes (read_ids (x ∷ all)) i.id ≡ i.is_read) items
unfolding read_ids
All-widen x all [] apart h = tt
All-widen x all (i ∷ items) (other, apart) (here, h) =
    (ground (arith, here, other), All-widen x all items apart h)

read_ids-exact :
    (items : List Item)
    → HasDistinctIds item_id items
    → All (λ (i : Item). includes (read_ids items) i.id ≡ i.is_read) items
unfolding read_ids
read_ids-exact [] d = tt
read_ids-exact (i ∷ items) (fresh, d) = (
  ground (arith, read_ids-fresh items i.id fresh, ==_refl i.id),
  All-widen i items items (fresh-apart items i.id fresh) (read_ids-exact items d),
)

agree :
    (items : List Item) (ids : List String)
    → All (λ (i : Item). includes ids i.id ≡ i.is_read) items
    → All (λ (i : Item). not (includes ids i.id) ≡ not i.is_read) items
agree [] ids all = tt
agree (i ∷ items) ids (here, all) = (ap not here, agree items ids all)

-- Clearing away the read items leaves exactly the unread items on the list, in their order, where no
-- two items shown share an id. Of the selection it drops the ids of the items cleared away, and
-- keeps every other.
pub handle_clear_read_items_lem :
    (items : List Item) (s : ListState)
    → HasDistinctIds item_id (filtered_items items s)
    → (filtered_items items (handle_clear_read_items items s)
        ≡ filter (λ (i : Item). not i.is_read) (filtered_items items s))
      × ((id : String)
          → includes (handle_clear_read_items items s).selected_item_ids id
            ≡ (not (includes (read_item_ids items s) id) && includes s.selected_item_ids id))
unfolding handle_clear_read_items read_item_ids read_ids
handle_clear_read_items_lem items s distinct = (
  filtered_items-clear items s
      ∙ filter-agree _ _ (filtered_items items s) (
          agree (filtered_items items s) (read_item_ids items s)
            (read_ids-exact (filtered_items items s) distinct)),
  λ id. includes-remove_all (read_item_ids items s) id s.selected_item_ids,
)
