-- ===== src/LinkForm.antt =====
-- ManageTagsModal.tsx and ManageIgnoreWindowsModal.tsx: the tags or windows to add to and to remove
-- from a choice of feeds or tags.
use feed_reader.Common.{
  String, ◌≡◌, refl, Bool, false, not, ◌&&◌, ◌||◌, Option, none, some, List, [], ◌∷◌, ◌++◌, arith,
  if◌then◌else◌, ◌==◌, ==_iff, nat_eq, string_eq, Bool-cases, inl, inr,
}
use feed_reader.Common.Lists.{length, filter, includes}

-- The two arrays of ids.
pub record LinkState : Type 0 where
  pub add_ids : List String
  pub remove_ids : List String

unfoldable pub no_links : LinkState
no_links = record { add_ids = []; remove_ids = [] }

unfoldable pub without : String → List String → List String
without id ids = filter (λ t. not (t == id)) ids

unfoldable pub toggle_add : String → LinkState → LinkState
unfolding without
toggle_add id s =
    if includes s.add_ids id
    then record s { add_ids = without id s.add_ids }
    else record { add_ids = s.add_ids ++ id ∷ []; remove_ids = without id s.remove_ids }

unfoldable pub toggle_remove : String → LinkState → LinkState
unfolding without
toggle_remove id s =
    if includes s.remove_ids id
    then record s { remove_ids = without id s.remove_ids }
    else record { add_ids = without id s.add_ids; remove_ids = s.remove_ids ++ id ∷ [] }

-- What the mutation is called with.
pub record LinkRequest : Type 0 where
  pub target_ids : List String
  pub add_ids : List String
  pub remove_ids : List String

-- `handleSave`: the request, the state afterwards, and whether `onClose` is called. `accepted` is the
-- server's answer; the ids of the feeds or tags may be missing.
unfoldable pub handle_save :
    Option (List String) → Bool → LinkState → LinkRequest × LinkState × Bool
unfolding no_links
handle_save targets accepted s = (
  record {
    target_ids = elim targets [ none ↦ [] | some ids ↦ ids ];
    add_ids = s.add_ids;
    remove_ids = s.remove_ids;
  },
  if accepted then no_links else s,
  accepted,
)

unfoldable pub is_save_disabled : Bool → LinkState → Bool
is_save_disabled is_pending s =
    is_pending || ((length s.add_ids == 0) && (length s.remove_ids == 0))

-- A click of the user on one of the two boxes of an id.
pub data Click : Type 0 where
  add remove : String → Click

abbrev pub click : Click → LinkState → LinkState
click (add id) s = toggle_add id s
click (remove id) s = toggle_remove id s

abbrev pub clicks : List Click → LinkState → LinkState
clicks [] s = s
clicks (c ∷ cs) s = clicks cs (click c s)

pub includes-without :
    (id : String) (ids : List String) (k : String)
    → includes (without id ids) k ≡ (includes ids k && not (id == k))
unfolding without
includes-without id [] k = refl
includes-without id (j ∷ ids) k =
    ground (arith, includes-without id ids k, ==_iff j id, ==_iff id k, ==_iff j k)

pub includes-push :
    (ids : List String) (id k : String)
    → includes (ids ++ id ∷ []) k ≡ (includes ids k || (id == k))
includes-push [] id k = ground arith
includes-push (j ∷ ids) id k = ground (arith, includes-push ids id k)

-- No id is both to add and to remove.
abbrev pub IsApart : LinkState → Type 0
IsApart s = (k : String) → (includes s.add_ids k && includes s.remove_ids k) ≡ false

toggle_add-IsApart : (id : String) (s : LinkState) → IsApart s → IsApart (toggle_add id s)
unfolding toggle_add
toggle_add-IsApart id s apart k = elim (Bool-cases (includes s.add_ids id)) [
  | inl e ↦ rw (e, includes-without id s.add_ids k) (ground (arith, apart k))
  | inr e ↦
      rw (e, includes-push s.add_ids id k, includes-without id s.remove_ids k)
        (ground (arith, apart k))
]

toggle_remove-IsApart : (id : String) (s : LinkState) → IsApart s → IsApart (toggle_remove id s)
unfolding toggle_remove
toggle_remove-IsApart id s apart k = elim (Bool-cases (includes s.remove_ids id)) [
  | inl e ↦ rw (e, includes-without id s.remove_ids k) (ground (arith, apart k))
  | inr e ↦
      rw (e, includes-push s.remove_ids id k, includes-without id s.add_ids k)
        (ground (arith, apart k))
]

clicks-IsApart_from : (cs : List Click) (s : LinkState) → IsApart s → IsApart (clicks cs s)
clicks-IsApart_from [] s apart = apart
clicks-IsApart_from (add id ∷ cs) s apart =
    clicks-IsApart_from cs (toggle_add id s) (toggle_add-IsApart id s apart)
clicks-IsApart_from (remove id ∷ cs) s apart =
    clicks-IsApart_from cs (toggle_remove id s) (toggle_remove-IsApart id s apart)

-- Whatever the user clicks from the state that the form opens with, no id is both to add and to
-- remove.
pub clicks-IsApart : (cs : List Click) → IsApart (clicks cs no_links)
unfolding no_links
clicks-IsApart cs = clicks-IsApart_from cs no_links (λ k. refl)
