-- ===== src/Items/Status.antt =====
-- `updateItemStatus`: an optimistic change of the cached list, undone if the server refuses.
use feed_reader.Common.{
  String, ◌≡◌, refl, Bool, true, false, Option, none, some, List, [], ◌∷◌, arith, if◌then◌else◌,
  ◌==◌, ==_iff, string_eq,
}
use feed_reader.Common.Lists.{includes}
use feed_reader.Items.{Item}

-- The loop over the copied list; `ids` is the `Set` made from the argument.
pub mark : List String → Bool → List Item → List Item
mark ids is_read [] = []
mark ids is_read (item ∷ items) =
    (if includes ids item.id then record item { is_read = is_read } else item)
    ∷ mark ids is_read items

-- `if (!old) return old`
pub mark_cached : List String → Bool → Option (List Item) → Option (List Item)
unfolding mark
mark_cached ids is_read none = none
mark_cached ids is_read (some items) = some (mark ids is_read items)

-- The `catch`: `previousData` goes back if there was any.
roll_back : Option (List Item) → Option (List Item) → Option (List Item)
roll_back none cached = cached
roll_back (some previous) cached = some previous

-- The cached list under the query's key before the call, while it waits and after it, and whether
-- it throws. `accepted` is the server's answer; `meanwhile` is what others do to the cached list.
pub update_item_status :
    List String
    → Bool
    → Bool
    → (Option (List Item) → Option (List Item))
    → Option (List Item)
    → Option (List Item) × Bool
unfolding mark_cached roll_back
update_item_status ids is_read accepted meanwhile cached =
    let waiting = meanwhile (mark_cached ids is_read cached) in
    if accepted then (waiting, false) else (roll_back cached waiting, true)

-- The read state that an item has in the list, the first one with the id.
abbrev pub read_state : String → List Item → Option Bool
read_state k [] = none
read_state k (item ∷ items) = if item.id == k then some item.is_read else read_state k items

abbrev pub marked : Bool → Bool → Option Bool → Option Bool
marked named is_read none = none
marked named is_read (some old) = if named then some is_read else some old

read_state-mark :
    (ids : List String) (is_read : Bool) (items : List Item) (k : String)
    → read_state k (mark ids is_read items) ≡ marked (includes ids k) is_read (read_state k items)
unfolding mark
read_state-mark ids is_read [] k = refl
read_state-mark ids is_read (item ∷ items) k =
    ground (arith, ==_iff item.id k, read_state-mark ids is_read items k)

abbrev pub cached_state : String → Option (List Item) → Option Bool
cached_state k none = none
cached_state k (some items) = read_state k items

cached_state-mark_cached :
    (ids : List String) (is_read : Bool) (cached : Option (List Item)) (k : String)
    → cached_state k (mark_cached ids is_read cached)
      ≡ marked (includes ids k) is_read (cached_state k cached)
unfolding mark_cached
cached_state-mark_cached ids is_read none k = refl
cached_state-mark_cached ids is_read (some items) k = read_state-mark ids is_read items k

-- If the server accepts the change, and nobody else writes the cached list meanwhile, each named
-- item that is there has the new read state and every other item its old one; if the server refuses
-- it, the call throws and a list that was cached stands as it was before the call, whatever others
-- wrote meanwhile.
pub update_item_status_lem :
    (ids : List String) (is_read : Bool) (items : List Item)
    (meanwhile : Option (List Item) → Option (List Item))
    → ((k : String)
        → cached_state k (update_item_status ids is_read true (λ c. c) (some items)).0
          ≡ marked (includes ids k) is_read (read_state k items))
      × (update_item_status ids is_read false meanwhile (some items) ≡ (some items, true))
unfolding update_item_status
update_item_status_lem ids is_read items meanwhile =
    (λ k. cached_state-mark_cached ids is_read (some items) k, refl)
