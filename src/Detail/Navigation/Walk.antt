-- ===== src/Detail/Navigation/Walk.antt =====
-- What going back and forth, and reading the list through to its end, does.
use feed_reader.Common.{
  ℕ, zero, suc, String, ◌≡◌, refl, ap, sym, false, Option, none, some, List, [], ◌∷◌, ◌++◌, arith,
  ◌==◌, string_eq, Bool-cases, Option-cases, inl, inr,
}
use feed_reader.Common.Lists.{length, get_elem?, drop}
use feed_reader.Detail.Navigation.{
  View, Effect, mark_read, navigate, end_of_list, is_end_of_list, last_item, mark_current_as_read,
  handle_next, handle_prev,
}
use feed_reader.Detail.Navigation.Steps.{
  IsListing, Shows, ends_at, link_to, marks, navigate_to-id, named, handle_next_lem,
  handle_prev-shown,
}

-- The router shows the item that a link names; the list stays as it is.
abbrev pub at_item : View → Option String → View
at_item v id = record {
  item_id = id;
  tag_id = v.tag_id;
  since = v.since;
  filtered_items = v.filtered_items;
  read_only = v.read_only;
}

abbrev pub follow : View → List Effect → View
follow v [] = v
follow v (mark_read id ∷ effects) = follow v effects
follow v (navigate link ∷ effects) =
    follow
      (record {
        item_id = some link.to_item;
        tag_id = link.tag_id;
        since = link.since;
        filtered_items = v.filtered_items;
        read_only = v.read_only;
      })
      effects

-- The ids that handlers mark as read.
abbrev pub marked : List Effect → List String
marked [] = []
marked (mark_read id ∷ effects) = id ∷ marked effects
marked (navigate link ∷ effects) = marked effects

follow-marks :
    (v w : View) (id to : String)
    → follow w (marks v id ++ (link_to w to ∷ [])) ≡ at_item w (some to)
follow-marks v w id to = elim (Bool-cases v.read_only) [ inl e ↦ rw e refl | inr e ↦ rw e refl ]

shown_again : (v : View) (id : String) → v.item_id ≡ some id → at_item v (some id) ≡ v
shown_again v id h = sym (ap (at_item v) h)

last_item-get :
    (items : List String) (i : ℕ) (id : String)
    → get_elem? items i ≡ some id
    → get_elem? items (suc i) ≡ none
    → last_item items ≡ some id
last_item-get items i id h end = ground (arith, ends_at items i id h end)

handle_prev-end :
    (v : View) (id : String)
    → last_item v.filtered_items ≡ some id
    → (id == "") ≡ false
    → handle_prev (at_item v (some end_of_list)) ≡ link_to v id ∷ []
unfolding handle_prev mark_current_as_read is_end_of_list
handle_prev-end v id e h = elim (Bool-cases v.read_only) [
  | inl r ↦ rw (r, e) (navigate_to-id v id h)
  | inr r ↦ rw (r, e) (navigate_to-id v id h)
]

-- Going to the next item and back again shows the same item.
pub handle_prev-handle_next :
    (v : View) (i : ℕ) (id : String)
    → IsListing v.filtered_items
    → Shows v i id
    → follow (follow v (handle_next v)) (handle_prev (follow v (handle_next v))) ≡ v
handle_prev-handle_next v i id listing at =
    elim (Option-cases (get_elem? v.filtered_items (suc i))) [
      | inl e ↦
          rw
            (
              handle_next_lem v i id listing at,
              e,
              follow-marks v v id end_of_list,
              handle_prev-end v id (last_item-get v.filtered_items i id at.listed e)
                  (named v i id listing at).0,
            )
            (shown_again v id at.shown)
      | inr (next, e) ↦
          rw
            (
              handle_next_lem v i id listing at,
              e,
              follow-marks v v id next,
              handle_prev-shown (at_item v (some next)) (suc i) next listing
                  (record { shown = refl; listed = e }) id at.listed (named v i id listing at).0,
              follow-marks (at_item v (some next)) (at_item v (some next)) next id,
            )
            (shown_again v id at.shown)
    ]

-- Pressing "next" a number of times: the ids marked as read on the way, and the view at the end.
abbrev pub read_through : ℕ → View → List String × View
read_through zero v = ([], v)
read_through (suc n) v =
    let (ids, end) = read_through n (follow v (handle_next v)) in
    (marked (handle_next v) ++ ids, end)

marked-marks :
    (v w : View) (id to : String)
    → v.read_only ≡ false
    → marked (marks v id ++ (link_to w to ∷ [])) ≡ id ∷ []
marked-marks v w id to h = rw h refl

drop-get :
    (items rest : List String) (i : ℕ) (id : String)
    → drop i items ≡ id ∷ rest
    → (get_elem? items i ≡ some id) × (drop (suc i) items ≡ rest)
drop-get [] rest zero id h = cc
drop-get [] rest (suc i) id h = cc
drop-get (x ∷ items) rest zero id h = (cc, cc)
drop-get (x ∷ items) rest (suc i) id h = drop-get items rest i id h

get-end : (items : List String) (i : ℕ) → drop i items ≡ [] → get_elem? items i ≡ none
get-end [] i h = refl
get-end (x ∷ items) zero h = cc
get-end (x ∷ items) (suc i) h = get-end items i h

-- From an item of a listing that is not read-only, pressing "next" once for it and once for each
-- item behind it marks exactly these items as read, in order, and ends at the end of the list.
pub read_through-end :
    (v : View) (i : ℕ) (id : String) (rest : List String)
    → IsListing v.filtered_items
    → v.read_only ≡ false
    → v.item_id ≡ some id
    → drop i v.filtered_items ≡ id ∷ rest
    → read_through (suc (length rest)) v ≡ (id ∷ rest, at_item v (some end_of_list))
read_through-end v i id [] listing writes shown rows =
    let (at, after) = drop-get v.filtered_items [] i id rows in
    rw
      (
        handle_next_lem v i id listing (record { shown = shown; listed = at }),
        get-end v.filtered_items (suc i) after,
        follow-marks v v id end_of_list,
        marked-marks v v id end_of_list writes,
      )
      refl
read_through-end v i id (next ∷ rest) listing writes shown rows =
    let (at, after) = drop-get v.filtered_items (next ∷ rest) i id rows in
    let (next_at, _) = drop-get v.filtered_items rest (suc i) next after in
    rw
      (
        handle_next_lem v i id listing (record { shown = shown; listed = at }),
        next_at,
        follow-marks v v id next,
        marked-marks v v id next writes,
      )
      (ap (λ r. (id ∷ r.0, r.1))
        (read_through-end (at_item v (some next)) (suc i) next rest listing writes refl after))
