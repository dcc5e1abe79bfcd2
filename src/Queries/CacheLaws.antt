-- ===== src/Queries/CacheLaws.antt =====
-- The caches of `getItemsWithReadState` are invisible in its results.
use feed_reader.Common.{
  ℕ, ◌≡◌, refl, ap, ap₂, sym, ◌∙◌, inl, inr, Bool, true, false, some, List, [], ◌∷◌, map, arith,
  ◌==◌, ==_iff, nat_eq, string_eq, Bool-cases, Option-cases, some_inj,
}
use feed_reader.Common.Maps.{Dict, get}
use feed_reader.Items.{Item}
use feed_reader.Items.Reads.{ItemRead}
use feed_reader.Queries.ItemQueries.{
  FeedTag, weak_get, CachedMerge, Caches, QueryOptions, read_map, bool_or, by_item, by_tag,
  by_unread, select, sort_items, sorted_items, fresh_merge, same_bool, merge_item, merge_items,
  get_items_with_read_state,
}

select-nil : (feed_tags : List FeedTag) (options : QueryOptions) → select feed_tags options [] ≡ []
unfolding select by_item by_tag by_unread
select-nil feed_tags options = ground arith

abbrev as_read : Item → Bool → Item
as_read item is_read = record item { is_read = is_read }

eq_of_same_bool : (a b : Bool) → same_bool a b ≡ true → a ≡ b
eq_of_same_bool true b h = sym h
eq_of_same_bool false true h = cc
eq_of_same_bool false false h = refl

module _ (heap : ℕ → Item) where
  -- The item as it is shown: its read state is the one recorded for its id, or else its own.
  abbrev pub shown : Dict Bool → ℕ → Item
  shown reads item = record (heap item) {
    is_read = bool_or (get (heap item).id reads) (heap item).is_read;
  }

  module _ (arrays : ℕ → List ℕ) where
    -- Every cached object is what would be computed afresh.
    pub record IsCoherent (c : Caches) : Type 0 where
      pub merged_right :
          (k : ℕ) (e : CachedMerge)
          → weak_get k c.merged_item_cache ≡ some e
          → e.merged ≡ record (heap k) { is_read = e.is_read }
      pub sorted_right :
          (k : ℕ) (l : List ℕ)
          → weak_get k c.sorted_items_cache ≡ some l
          → l ≡ sort_items heap (arrays k)

    fresh_merge-IsCoherent :
        (item : ℕ) (is_read : Bool) (c : Caches)
        → IsCoherent c
        → IsCoherent (fresh_merge heap item is_read c).0
    unfolding fresh_merge weak_get
    fresh_merge-IsCoherent item is_read c h = record {
      merged_right = λ k e found. elim (Bool-cases (item == k)) [
        | inl same ↦
            let entry = some_inj (rw same at found) in
            let key = (==_iff item k).0 same in
            sym (ap (λ (r : CachedMerge). r.merged) entry)
            ∙ (λ i. as_read (heap (key i)) (ap (λ (r : CachedMerge). r.is_read) entry i))
        | inr other ↦ h.merged_right k e (rw other at found)
      ];
      sorted_right = h.sorted_right;
    }

    merge_item_lem :
        (reads : Dict Bool) (item : ℕ) (c : Caches)
        → IsCoherent c
        → IsCoherent (merge_item heap reads item c).0
          × ((merge_item heap reads item c).1 ≡ shown reads item)
    unfolding merge_item
    merge_item_lem reads item c h = elim (Option-cases (weak_get item c.merged_item_cache)) [
      | inl miss ↦ rw (miss, merge_item) (fresh_merge-IsCoherent item _ c h, refl)
      | inr (e, hit) ↦
          let is_read = bool_or (get (heap item).id reads) (heap item).is_read in
          elim (Bool-cases (same_bool e.is_read is_read)) [
            | inl same ↦
                rw (hit, merge_item)
                  (rw same (
                    h,
                    h.merged_right item e hit
                        ∙ ap (as_read (heap item)) (eq_of_same_bool e.is_read is_read same),
                  ))
            | inr other ↦
                rw (hit, merge_item) (rw other (fresh_merge-IsCoherent item is_read c h, refl))
          ]
    ]

    merge_items_lem :
        (reads : Dict Bool) (items : List ℕ) (c : Caches)
        → IsCoherent c
        → IsCoherent (merge_items heap reads items c).0
          × ((merge_items heap reads items c).1 ≡ map (shown reads) items)
    unfolding merge_items
    merge_items_lem reads [] c h = (h, refl)
    merge_items_lem reads (item ∷ items) c h =
        let (kept, here) = merge_item_lem reads item c h in
        let (still, there) = merge_items_lem reads items (merge_item heap reads item c).0 kept in
        (still, ap₂ ◌∷◌ here there)

    sorted_items_lem :
        (list : ℕ) (items : List ℕ) (c : Caches)
        → arrays list ≡ items
        → IsCoherent c
        → IsCoherent (sorted_items heap list items c).0
          × ((sorted_items heap list items c).1 ≡ sort_items heap items)
    unfolding sorted_items weak_get
    sorted_items_lem list items c held h =
        elim (Option-cases (weak_get list c.sorted_items_cache)) [
          | inl miss ↦
              rw (miss, sorted_items)
                (
                  record {
                    merged_right = h.merged_right;
                    sorted_right = λ k l found. elim (Bool-cases (list == k)) [
                      | inl same ↦
                          sym (some_inj (rw same at found))
                          ∙ ap (sort_items heap) (sym held ∙ ap arrays ((==_iff list k).0 same))
                      | inr other ↦ h.sorted_right k l (rw other at found)
                    ];
                  },
                  refl,
                )
          | inr (l, hit) ↦
              rw (hit, sorted_items) (h, h.sorted_right list l hit ∙ ap (sort_items heap) held)
        ]

    -- Whatever the caches hold from earlier calls, the items shown are those of the array sorted by
    -- date, each with the read state recorded last for its id or else its own, and then selected
    -- by the options; and the caches hold again only what would be computed afresh.
    pub get_items_with_read_state_lem :
        (list : ℕ) (items : List ℕ) (reads : List ItemRead) (feed_tags : List FeedTag)
        (options : QueryOptions) (c : Caches)
        → arrays list ≡ items
        → IsCoherent c
        → IsCoherent (get_items_with_read_state heap list items reads feed_tags options c).0
          × ((get_items_with_read_state heap list items reads feed_tags options c).1
              ≡ select feed_tags options (map (shown (read_map reads [])) (sort_items heap items)))
    unfolding get_items_with_read_state
    get_items_with_read_state_lem list [] reads feed_tags options c held h =
        (h, sym (select-nil feed_tags options))
    get_items_with_read_state_lem list (item ∷ items) reads feed_tags options c held h =
        let (kept, sorted) = sorted_items_lem list (item ∷ items) c held h in
        let after = (sorted_items heap list (item ∷ items) c).0 in
        let order = (sorted_items heap list (item ∷ items) c).1 in
        let (still, merged) = merge_items_lem (read_map reads []) order after kept in
        (
          still,
          ap (select feed_tags options) (merged ∙ ap (map (shown (read_map reads []))) sorted),
        )
