-- ===== src/Detail/Navigation/Steps.antt =====
-- Where the handlers lead from an item of the list, and what reading the list through does.
use mathlib.Core.Path.{subst}
use feed_reader.Common.{
  ℕ, zero, suc, ◌-◌, ◌≤◌, ◌<◌, String, ◌≡◌, refl, sym, ◌∙◌, true, false, Option, none, some, List,
  [], ◌∷◌, ◌++◌, arith, if◌then◌else◌, ltb, ◌==◌, ==_refl, nat_eq, string_eq, Bool-cases,
  Option-cases, some_inj, inl, inr,
}
use feed_reader.Common.Lists.{length, get_elem?, All}
use feed_reader.Detail.Navigation.{
  View, Effect, mark_read, navigate, end_of_list, is_end_of_list, find_index, current_index_of,
  current_index, item_before, item_after, prev_item, next_item, get_link_props, navigate_to,
  mark_current_as_read, is_last, move_next, handle_navigate_next, handle_next, handle_prev,
  next_item_id,
}

-- No two items share an id.
abbrev pub AreDistinctIds : List String → Type 0
AreDistinctIds [] = Unit
AreDistinctIds (x ∷ xs) = All (λ y. (x == y) ≡ false) xs × AreDistinctIds xs

-- An id that a server gives: not empty, and not the name of the end of the list.
abbrev pub IsServerId : String → Type 0
IsServerId id = ((id == "") ≡ false) × ((id == end_of_list) ≡ false)

pub record IsListing (items : List String) : Type 0 where
  pub distinct : AreDistinctIds items
  pub named : All IsServerId items

-- The view shows the item at an index of the list.
pub record Shows (v : View) (i : ℕ) (id : String) : Type 0 where
  pub shown : v.item_id ≡ some id
  pub listed : get_elem? v.filtered_items i ≡ some id

pub All-get :
    (P : String → Type 0) (xs : List String) (i : ℕ) (x : String)
    → All P xs
    → get_elem? xs i ≡ some x
    → P x
All-get P [] i x all h = cc
All-get P (y ∷ xs) zero x (here, all) h = subst P (some_inj h) here
All-get P (y ∷ xs) (suc i) x (here, all) h = All-get P xs i x all h

get-lt : (xs : List String) (i : ℕ) (x : String) → get_elem? xs i ≡ some x → i < length xs
get-lt [] i x h = cc
get-lt (y ∷ xs) zero x h = omega arith
get-lt (y ∷ xs) (suc i) x h = omega (arith, get-lt xs i x h)

get-past : (xs : List String) (i : ℕ) → length xs ≤ i → get_elem? xs i ≡ none
get-past [] i h = refl
get-past (y ∷ xs) zero h = absurd (omega (arith, h))
get-past (y ∷ xs) (suc i) h = get-past xs i (omega (arith, h))

get-within : (xs : List String) (i : ℕ) → i < length xs → (x : String) × (get_elem? xs i ≡ some x)
get-within [] i h = absurd (omega (arith, h))
get-within (y ∷ xs) zero h = (y, refl)
get-within (y ∷ xs) (suc i) h = get-within xs i (omega (arith, h))

-- An item of a list with distinct ids is found at its index.
find_index-get :
    (items : List String) (i : ℕ) (id : String)
    → AreDistinctIds items
    → get_elem? items i ≡ some id
    → find_index id items ≡ some i
unfolding find_index
find_index-get [] i id distinct h = cc
find_index-get (item ∷ items) zero id (other, distinct) h = rw (some_inj h, ==_refl id)
find_index-get (item ∷ items) (suc i) id (other, distinct) h =
    rw (All-get (λ y. (item == y) ≡ false) items i id other h, find_index-get items i id distinct h)

current_index_lem :
    (v : View) (i : ℕ) (id : String)
    → IsListing v.filtered_items
    → Shows v i id
    → current_index v ≡ some i
unfolding current_index current_index_of
current_index_lem v i id listing at =
    rw (at.shown, (All-get IsServerId v.filtered_items i id listing.named at.listed).0)
      (find_index-get v.filtered_items i id listing.distinct at.listed)

-- What stands behind an item, and whether it is the last.
item_after-get :
    (items : List String) (i : ℕ)
    → i < length items
    → item_after items (some i) ≡ get_elem? items (suc i)
item_after-get items i h = elim (Bool-cases (ltb i (length items - 1))) [
  | inl e ↦ rw e
  | inr e ↦ rw e (sym (get-past items (suc i) (ground arith)))
]

pub ends_at :
    (items : List String) (i : ℕ) (id : String)
    → get_elem? items i ≡ some id
    → get_elem? items (suc i) ≡ none
    → length items ≡ suc i
ends_at items i id h end = elim (Bool-cases (ltb (suc i) (length items))) [
  | inl e ↦ let (x, found) = get-within items (suc i) (ground arith) in cc (sym found ∙ end)
  | inr e ↦ ground (arith, get-lt items i id h)
]

is_last-get :
    (items : List String) (i : ℕ)
    → i < length items
    → get_elem? items (suc i) ≡ none
    → is_last (length items) (some i) ≡ true
is_last-get items i h end =
    let (x, found) = get-within items i h in ground (arith, ends_at items i x found end)

not-last-get :
    (items : List String) (i : ℕ) (next : String)
    → get_elem? items (suc i) ≡ some next
    → is_last (length items) (some i) ≡ false
not-last-get items i next h = ground (arith, get-lt items (suc i) next h)

-- The id behind an item: the next item's, or the end of the list.
abbrev pub or_end : Option String → String
or_end none = end_of_list
or_end (some id) = id

abbrev pub link_to : View → String → Effect
link_to v id = navigate (record { to_item = id; tag_id = v.tag_id; since = v.since })

abbrev pub marks : View → String → List Effect
marks v id = if v.read_only then [] else mark_read id ∷ []

pub navigate_to-id :
    (v : View) (id : String) → (id == "") ≡ false → navigate_to v (some id) ≡ link_to v id ∷ []
unfolding navigate_to get_link_props
navigate_to-id v id h = rw (h, navigate_to) refl

-- Every handler, where the item at `i` of the list is shown.
module _ (v : View) (i : ℕ) (id : String) (listing : IsListing v.filtered_items)
    (at : Shows v i id) where
  pub named : IsServerId id
  named = All-get IsServerId v.filtered_items i id listing.named at.listed

  pub is_end_of_list-shown : is_end_of_list v ≡ false
  unfolding is_end_of_list
  is_end_of_list-shown = rw at.shown (named.1)

  mark_current_as_read-shown : mark_current_as_read v ≡ marks v id
  unfolding mark_current_as_read
  mark_current_as_read-shown = rw (at.shown, named.0, named.1) refl

  next_item-shown : next_item v ≡ get_elem? v.filtered_items (suc i)
  unfolding next_item
  next_item-shown =
      rw (current_index_lem v i id listing at)
        (item_after-get v.filtered_items i (get-lt v.filtered_items i id at.listed))

  move_next-shown : move_next v ≡ link_to v (or_end (get_elem? v.filtered_items (suc i))) ∷ []
  unfolding move_next
  move_next-shown = elim (Option-cases (get_elem? v.filtered_items (suc i))) [
    | inl e ↦
        rw
          (
            is_end_of_list-shown,
            next_item-shown,
            e,
            current_index_lem v i id listing at,
            is_last-get v.filtered_items i (get-lt v.filtered_items i id at.listed) e,
          )
          (navigate_to-id v end_of_list refl)
    | inr (next, e) ↦
        rw (is_end_of_list-shown, next_item-shown, e)
          (navigate_to-id v next
            (All-get IsServerId v.filtered_items (suc i) next listing.named e).0)
  ]

  pub handle_next_lem :
      handle_next v ≡ marks v id ++ (link_to v (or_end (get_elem? v.filtered_items (suc i))) ∷ [])
  unfolding handle_next handle_navigate_next
  handle_next_lem = rw (mark_current_as_read-shown, move_next-shown) refl

  prev_item-shown : prev_item v ≡ item_before v.filtered_items (some i)
  unfolding prev_item
  prev_item-shown = rw (current_index_lem v i id listing at) refl

  pub next_item_id-shown : next_item_id v ≡ some (or_end (get_elem? v.filtered_items (suc i)))
  unfolding next_item_id
  next_item_id-shown = elim (Option-cases (get_elem? v.filtered_items (suc i))) [
    | inl e ↦
        rw
          (
            is_end_of_list-shown,
            next_item-shown,
            e,
            current_index_lem v i id listing at,
            is_last-get v.filtered_items i (get-lt v.filtered_items i id at.listed) e,
          )
          refl
    | inr (next, e) ↦
        rw
          (
            is_end_of_list-shown,
            next_item-shown,
            e,
            current_index_lem v i id listing at,
            not-last-get v.filtered_items i next e,
          )
          refl
  ]

  -- With an item before the one shown, the handler goes back to it.
  pub handle_prev-shown :
      (before : String)
      → item_before v.filtered_items (some i) ≡ some before
      → (before == "") ≡ false
      → handle_prev v ≡ marks v id ++ (link_to v before ∷ [])
  unfolding handle_prev
  handle_prev-shown before e h =
      rw
        (
          mark_current_as_read-shown,
          is_end_of_list-shown,
          prev_item-shown,
          e,
          navigate_to-id v before h,
        )
        refl
