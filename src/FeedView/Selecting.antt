-- ===== src/FeedView/Selecting.antt =====
-- What the box that selects all, and the boxes of the rows, do to the selection.
use feed_reader.Common.{
  suc_nonzero, String, ◌≡◌, refl, ap, ap₂, ◌∙◌, Bool, false, not, ◌&&◌, ◌||◌, List, [], ◌∷◌, ◌++◌,
  map, arith, if◌then◌else◌, ◌==◌, ==_iff, nat_eq, string_eq, ltb, Bool-cases, inl, inr,
}
use feed_reader.Common.Lists.{length, filter, includes, all, any, length-filter-le}
use feed_reader.Queries.FeedQueries.{Feed, TagChoice, any_tag, untagged, tagged}
use feed_reader.FeedView.{
  feed_id, all_visible_selected, is_indeterminate, push_new, toggle_select_all,
  toggle_feed_selection, select_value, on_filter_input,
}

includes-append :
    (xs ys : List String) (k : String) → includes (xs ++ ys) k ≡ (includes xs k || includes ys k)
includes-append [] ys k = refl
includes-append (x ∷ xs) ys k = ground (arith, includes-append xs ys k)

includes-keep :
    (p : String → Bool) (xs : List String) (k : String)
    → includes (filter p xs) k ≡ (includes xs k && p k)
includes-keep p [] k = refl
includes-keep p (x ∷ xs) k = elim (Bool-cases (x == k)) [
  | inl e ↦ ground (arith, e, includes-keep p xs k, ap p ((==_iff x k).0 e))
  | inr e ↦ ground (arith, e, includes-keep p xs k)
]

includes-push_new :
    (feeds : List Feed) (selected : List String) (k : String)
    → includes (push_new feeds selected) k ≡ (includes selected k || includes (map feed_id feeds) k)
unfolding push_new
includes-push_new [] selected k = ground arith
includes-push_new (f ∷ feeds) selected k = elim (Bool-cases (includes selected f.id)) [
  | inl e ↦ rw e (
      includes-push_new feeds selected k ∙ elim (Bool-cases (f.id == k)) [
        | inl g ↦ ground (arith, g, ap (includes selected) ((==_iff f.id k).0 g), e)
        | inr g ↦ ground (arith, g)
      ])
  | inr e ↦ rw e (
      includes-push_new feeds (selected ++ f.id ∷ []) k
      ∙ ground (arith, includes-append selected (f.id ∷ []) k))
]

-- Pressing the box that selects all touches only the feeds shown: if all of them are selected none
-- of them is afterwards, and otherwise all of them are. Every feed that is not shown stays as it was.
pub toggle_select_all_lem :
    (feeds : List Feed) (selected : List String) (k : String)
    → includes (toggle_select_all feeds selected) k ≡ (
        if includes (map feed_id feeds) k
        then not (all_visible_selected feeds selected)
        else includes selected k)
unfolding toggle_select_all
toggle_select_all_lem feeds selected k = elim (Bool-cases (all_visible_selected feeds selected)) [
  | inl e ↦
      rw e (includes-keep (λ id. not (includes (map feed_id feeds) id)) selected k ∙ ground arith)
  | inr e ↦ rw e (includes-push_new feeds selected k ∙ ground arith)
]

-- The box of a row changes the selection of its feed and of no other.
pub toggle_feed_selection_lem :
    (id : String) (selected : List String) (k : String)
    → includes (toggle_feed_selection id selected) k
      ≡ (if id == k then not (includes selected id) else includes selected k)
unfolding toggle_feed_selection
toggle_feed_selection_lem id selected k = elim (Bool-cases (includes selected id)) [
  | inl e ↦
      rw e
        (includes-keep (λ u. not (u == id)) selected k ∙ ground (arith, ==_iff k id, ==_iff id k))
  | inr e ↦ rw e (
      includes-append selected (id ∷ []) k
      ∙ elim (Bool-cases (id == k)) [ inl g ↦ ground (arith, g) | inr g ↦ ground (arith, g) ])
]

count-any : (p : Feed → Bool) (feeds : List Feed) → ltb 0 (length (filter p feeds)) ≡ any feeds p
count-any p [] = ground arith
count-any p (f ∷ feeds) = ground (arith, count-any p feeds)

count-all :
    (p : Feed → Bool) (feeds : List Feed)
    → ltb (length (filter p feeds)) (length feeds) ≡ any feeds (λ f. not (p f))
count-all p [] = ground arith
count-all p (f ∷ feeds) = ground (arith, count-all p feeds, length-filter-le p feeds)

all-any : (p : Feed → Bool) (feeds : List Feed) → all feeds p ≡ not (any feeds (λ f. not (p f)))
all-any p [] = refl
all-any p (f ∷ feeds) = ground (arith, all-any p feeds)

-- The box that selects all is shown as half checked exactly if some of the feeds shown are selected
-- and some are not, and as checked exactly if there are feeds shown and all of them are selected.
pub is_indeterminate_lem :
    (feeds : List Feed) (selected : List String)
    → (is_indeterminate feeds selected ≡ (
        any feeds (λ f. includes selected f.id) && any feeds (λ f. not (includes selected f.id))))
      × (all_visible_selected feeds selected ≡ (
          any feeds (λ f. includes selected f.id)
          && not (any feeds (λ f. not (includes selected f.id)))))
unfolding is_indeterminate all_visible_selected
is_indeterminate_lem [] selected = (refl, refl)
is_indeterminate_lem (f ∷ feeds) selected = (
  rw (suc_nonzero (length feeds)) (
      ap₂ (λ a b. a && b) (count-any (λ f. includes selected f.id) (f ∷ feeds))
        (count-all (λ f. includes selected f.id) (f ∷ feeds))),
  rw (suc_nonzero (length feeds))
      (all-any (λ f. includes selected f.id) (f ∷ feeds) ∙ ground arith),
)

-- No tag has the name of another choice as its id.
abbrev pub IsPlain : TagChoice → Type 0
IsPlain any_tag = Unit
IsPlain untagged = Unit
IsPlain (tagged tag_id) = ((tag_id == "all") ≡ false) × ((tag_id == "untagged") ≡ false)

-- A choice of the filter shows as the value that chooses it again, where the id of a tag is neither
-- "all" nor "untagged".
pub on_filter_input-select_value :
    (choice : TagChoice) → IsPlain choice → on_filter_input (select_value choice) ≡ choice
unfolding on_filter_input select_value
on_filter_input-select_value any_tag plain = refl
on_filter_input-select_value untagged plain = refl
on_filter_input-select_value (tagged tag_id) (not_all, not_untagged) =
    rw (not_all, not_untagged) refl
