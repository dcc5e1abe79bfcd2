-- ===== src/Detail/Inputs/Presses.antt =====
-- The keys of the detail view as the route gives it its props: where they lead in the list.
use feed_reader.Common.{
  ℕ, suc, ◌≡◌, refl, ap, String, Bool, true, false, not, ◌&&◌, Option, some, List, [], ◌∷◌, ◌++◌,
  arith, if◌then◌else◌, ◌==◌, nat_eq, string_eq, Bool-cases, Option-cases, inl, inr,
}
use feed_reader.Common.Lists.{get_elem?, All, length}
use feed_reader.Detail.Navigation.{
  is_end_of_list, navigate_to, get_link_props, handle_navigate_next, move_next, next_item, is_last,
  current_index, View, Effect, end_of_list, handle_next, handle_prev, handle_skip_next,
  prev_item_id, next_item_id,
}
use feed_reader.Detail.Navigation.Steps.{
  IsServerId, All-get, IsListing, Shows, or_end, link_to, marks, next_item_id-shown,
  is_end_of_list-shown, handle_next_lem,
}
use feed_reader.Detail.Navigation.Walk.{marked}
use feed_reader.Detail.Inputs.{
  Props, Action, go_prev, go_next, toggle_read, ignored, skip, is_end, Container, Touch, Target,
  truthy, can_swipe_up, on_touch_start, is_at_bottom, is_at_bottom_boundary, on_swipe_up,
  on_swipe_left, on_swipe_right, is_prev_key, is_next_key, handle_key, handle_key_down, takes_text,
}

-- The props that `ItemDetailRouteView` gives the view.
unfoldable pub props_of : View → Props
props_of v = record {
  item_id = v.item_id;
  prev_item_id = prev_item_id v;
  next_item_id = next_item_id v;
  has_prev = true;
  has_next = true;
  has_skip = true;
}

-- The callbacks that it gives for the actions that navigate.
unfoldable pub perform : View → Action → List Effect
perform v go_prev = handle_prev v
perform v go_next = handle_next v
perform v (skip animate) = handle_skip_next v
perform v toggle_read = []
perform v ignored = []

guards : (a b e : Bool) → (a && (b && not e)) ≡ true → (a ≡ true) × (b ≡ true) × (e ≡ false)
guards a b e h = (ground arith, ground arith, ground arith)

-- With the text not at its end, a touch of one finger that the boundary test lets swipe up is low
-- enough for the swipe's own test: where an item can be skipped, the swipe skips it.
pub on_swipe_up-on_touch_start :
    (p : Props) (c : Container) (y : ℕ) (touch : Touch)
    → can_swipe_up p ≡ true
    → is_at_bottom c ≡ false
    → is_at_bottom_boundary (some c) (on_touch_start p (some c) (y ∷ []) touch) ≡ true
    → on_swipe_up p (some c) (on_touch_start p (some c) (y ∷ []) touch) ≡ skip true
unfolding on_swipe_up on_touch_start is_at_bottom_boundary can_swipe_up
on_swipe_up-on_touch_start p c y touch can middle boundary =
    let (given, next, here) = guards p.has_skip (truthy p.next_item_id) (is_end p) can in
    rw (given, next, here) (ground (arith, rw (here, middle) at boundary))

and_last : (a b c : Bool) → (not a && (b && c)) ≡ (b && (c && not a))
and_last a b c = ground arith

-- The keys for the next and the previous item do what the swipes do.
key-swipe :
    (read_only : Bool) (p : Props) (key : String)
    → (is_prev_key key ≡ true → handle_key read_only p key ≡ on_swipe_right p)
      × (is_prev_key key ≡ false
          → is_next_key key ≡ true
          → handle_key read_only p key ≡ on_swipe_left p)
unfolding handle_key on_swipe_right on_swipe_left
key-swipe read_only p key = (
  λ h. rw h refl,
  λ h k.
      rw (h, k)
        (ap (λ b. if b then go_next else ignored)
          (and_last (is_end p) p.has_next (truthy p.next_item_id))),
)

or_end-named :
    (items : List String) (i : ℕ)
    → All IsServerId items
    → (or_end (get_elem? items i) == "") ≡ false
or_end-named items i named = elim (Option-cases (get_elem? items i)) [
  | inl e ↦ rw e refl
  | inr (id, e) ↦ rw e (All-get IsServerId items i id named e).0
]

module _ (v : View) (i : ℕ) (id : String) (listing : IsListing v.filtered_items)
    (at : Shows v i id) where
  -- A key for the next item, pressed on no text field while the route shows an item of its list,
  -- is never ignored: it marks the item as read, unless the page is read-only, and leads to the
  -- item behind it, or from the last one to the end of the list.
  pub next_key_lem :
      (target : Target) (key : String)
      → takes_text target ≡ false
      → is_prev_key key ≡ false
      → is_next_key key ≡ true
      → perform v (handle_key_down v.read_only (props_of v) (some target) key)
        ≡ marks v id ++ (link_to v (or_end (get_elem? v.filtered_items (suc i))) ∷ [])
  unfolding perform handle_key_down handle_key props_of is_end_of_list
  next_key_lem target key types prev next =
      rw
        (
          types,
          prev,
          next,
          next_item_id-shown v i id listing at,
          is_end_of_list-shown v i id listing at,
          or_end-named v.filtered_items (suc i) listing.named,
        )
        (handle_next_lem v i id listing at)

-- Skipping marks nothing as read.
marked-navigate_to : (v : View) (target : Option String) → marked (navigate_to v target) ≡ []
unfolding navigate_to
marked-navigate_to v target = elim (Option-cases (get_link_props v target)) [
  | inl e ↦ rw (e, marked) refl
  | inr (link, e) ↦ rw (e, marked) refl
]

marked-handle_skip_next : (v : View) → marked (handle_skip_next v) ≡ []
unfolding handle_skip_next handle_navigate_next move_next
marked-handle_skip_next v = elim (Bool-cases (is_end_of_list v)) [
  | inl e ↦ rw e refl
  | inr e ↦ elim (Option-cases (next_item v)) [
    | inr (id, f) ↦ rw (e, f) (marked-navigate_to v (some id))
    | inl f ↦ elim (Bool-cases (is_last (length v.filtered_items) (current_index v))) [
      | inl g ↦ rw (e, f, g) (marked-navigate_to v (some end_of_list))
      | inr g ↦ rw (e, f, g) refl
    ]
  ]
]
