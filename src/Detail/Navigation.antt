-- ===== src/Detail/Navigation.antt =====
-- ItemDetailRouteView.tsx: which item is shown next, and what is marked as read on the way. A list
-- of items is the list of their ids.
pub mod Steps
pub mod Walk
use feed_reader.Common.{
  ℕ, zero, suc, ◌+◌, ◌-◌, String, Bool, true, false, not, ◌&&◌, ◌||◌, Option, none, some, List, [],
  ◌∷◌, ◌++◌, if◌then◌else◌, ltb, ◌==◌, nat_eq, string_eq,
}
use feed_reader.Common.Lists.{length, get_elem?}
use feed_reader.Dates.{DateFilterValue}

-- The props of the component, and what it reads from the queries.
pub record View : Type 0 where
  pub item_id : Option String
  pub tag_id : Option String
  pub since : Option DateFilterValue
  pub filtered_items : List String
  pub read_only : Bool

-- The arguments of `navigate` to an item.
pub record Link : Type 0 where
  pub to_item : String
  pub tag_id : Option String
  pub since : Option DateFilterValue

-- What a handler does: it calls `updateItemReadStatus([id], true)`, or it navigates.
pub data Effect : Type 0 where
  mark_read : String → Effect
  navigate : Link → Effect

abbrev pub end_of_list : String
end_of_list = "end-of-list"

abbrev pub is_id : String → Option String → Bool
is_id id none = false
is_id id (some other) = other == id

unfoldable pub is_end_of_list : View → Bool
is_end_of_list v = is_id end_of_list v.item_id

-- `items.findIndex((i) => i.id === id)`; `none` is -1.
unfoldable pub find_index : String → List String → Option ℕ
find_index id [] = none
find_index id (item ∷ items) =
    if item == id
    then some 0
    else elim (find_index id items) [ none ↦ none | some i ↦ some (suc i) ]

unfoldable pub current_index_of : Option String → List String → Option ℕ
unfolding find_index
current_index_of none items = none
current_index_of (some id) items = if id == "" then none else find_index id items

unfoldable pub current_index : View → Option ℕ
unfolding current_index_of
current_index v = current_index_of v.item_id v.filtered_items

abbrev pub item_before : List String → Option ℕ → Option String
item_before items none = none
item_before items (some zero) = none
item_before items (some (suc i)) = get_elem? items i

abbrev pub item_after : List String → Option ℕ → Option String
item_after items none = none
item_after items (some i) = if ltb i (length items - 1) then get_elem? items (suc i) else none

unfoldable pub prev_item : View → Option String
unfolding current_index
prev_item v = item_before v.filtered_items (current_index v)

unfoldable pub next_item : View → Option String
unfolding current_index
next_item v = item_after v.filtered_items (current_index v)

abbrev pub last_item : List String → Option String
last_item items = if length items == 0 then none else get_elem? items (length items - 1)

-- `getLinkProps`; an empty id is falsy.
unfoldable pub get_link_props : View → Option String → Option Link
get_link_props v none = none
get_link_props v (some id) =
    if id == "" then none else some (record { to_item = id; tag_id = v.tag_id; since = v.since })

unfoldable pub navigate_to : View → Option String → List Effect
unfolding get_link_props
navigate_to v target = elim (get_link_props v target) [ none ↦ [] | some link ↦ navigate link ∷ [] ]

abbrev marked_id : Option String → List Effect
marked_id none = []
marked_id (some id) = if (id == "") || (id == end_of_list) then [] else mark_read id ∷ []

unfoldable pub mark_current_as_read : View → List Effect
mark_current_as_read v = if v.read_only then [] else marked_id v.item_id

abbrev pub is_last : ℕ → Option ℕ → Bool
is_last len none = false
is_last len (some i) = not (len == 0) && (i == len - 1)

unfoldable pub move_next : View → List Effect
unfolding is_end_of_list next_item current_index navigate_to
move_next v = if is_end_of_list v then [] else elim (next_item v) [
  | some id ↦ navigate_to v (some id)
  | none ↦
      if is_last (length v.filtered_items) (current_index v)
      then navigate_to v (some end_of_list)
      else []
]

unfoldable pub handle_navigate_next : Bool → View → List Effect
unfolding mark_current_as_read move_next
handle_navigate_next mark_as_read v =
    (if mark_as_read then mark_current_as_read v else []) ++ move_next v

unfoldable pub handle_next : View → List Effect
unfolding handle_navigate_next
handle_next v = handle_navigate_next true v

unfoldable pub handle_skip_next : View → List Effect
unfolding handle_navigate_next
handle_skip_next v = handle_navigate_next false v

unfoldable pub handle_prev : View → List Effect
unfolding mark_current_as_read is_end_of_list prev_item navigate_to
handle_prev v =
    mark_current_as_read v
    ++ navigate_to v (if is_end_of_list v then last_item v.filtered_items else prev_item v)

-- The ids that the modal is given.
unfoldable pub prev_item_id : View → Option String
unfolding is_end_of_list prev_item
prev_item_id v = if is_end_of_list v then last_item v.filtered_items else prev_item v

unfoldable pub next_item_id : View → Option String
unfolding is_end_of_list next_item current_index
next_item_id v =
    if not (is_end_of_list v) && is_last (length v.filtered_items) (current_index v)
    then some end_of_list
    else next_item v
