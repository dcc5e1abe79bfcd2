-- ===== src/Prefetch.antt =====
-- frontend/src/lib/item-prefetch.ts: the items to fetch ahead of the one that is shown.
pub mod Window
use feed_reader.Common.{
  ℕ, zero, suc, ◌+◌, ◌-◌, min, String, Option, none, some, List, [], ◌∷◌, if◌then◌else◌, leb,
}
use feed_reader.Common.Int.{ℤ, pos, negsuc}
use feed_reader.Common.Lists.{length, get_elem?}

abbrev push_id : Option String → Option (List String) → Option (List String)
push_id none ids = none
push_id (some id) none = none
push_id (some id) (some ids) = some (id ∷ ids)

-- The `for` loop from index `i` to index `last`; `none` where it reads past the end of the array or
-- the fuel runs out. An item is its id.
unfoldable pub push_ids : ℕ → ℕ → ℕ → List String → Option (List String)
push_ids zero i last all_items = none
push_ids (suc fuel) i last all_items =
    let rest = push_ids fuel (suc i) last all_items in
    if leb i last then push_id (get_elem? all_items i) rest else some []

abbrev pub prefetch_window : ℕ
prefetch_window = 5

unfoldable pub get_prefetch_ids : ℤ → List String → Option (List String)
unfolding push_ids
get_prefetch_ids (negsuc n) all_items = some []
get_prefetch_ids (pos current_index) all_items =
    if leb (length all_items) current_index
    then some []
    else push_ids (suc prefetch_window) (suc current_index)
        (min (length all_items - 1) (current_index + prefetch_window)) all_items
