-- ===== src/ItemView/DateFilter.antt =====
-- routes/_items.tsx and DateFilterSelector.tsx: the date filter in the URL and in the store.
use feed_reader.Common.{
  String, ◌≡◌, refl, Bool, true, false, ◌||◌, ◌∙◌, Option, none, some, if◌then◌else◌, ◌==◌,
  string_eq, Bool-cases, inl, inr,
}
use feed_reader.Dates.{DateFilterValue, all_dates, hours_24, days_7, days_30, days_90, days_365}
use feed_reader.ItemView.{ItemStoreState, ItemsSearch, set_date_filter}

-- A search parameter as the router parses it.
pub data Param : Type 0 where
  absent not_text : Param
  text : String → Param

pub record RawSearch : Type 0 where
  pub tag_id : Param
  pub since : Param

abbrev pub filter_text : DateFilterValue → String
filter_text all_dates = "all"
filter_text hours_24 = "24h"
filter_text days_7 = "7d"
filter_text days_30 = "30d"
filter_text days_90 = "90d"
filter_text days_365 = "365d"

-- `isValidDateFilter`, with the value that the text names.
unfoldable pub date_filter_of : String → Option DateFilterValue
date_filter_of t =
    if t == "all"
    then some all_dates
    else if t == "24h"
    then some hours_24
    else if t == "7d"
    then some days_7
    else if t == "30d"
    then some days_30
    else if t == "90d"
    then some days_90
    else if t == "365d"
    then some days_365
    else none

abbrev pub text_param : Param → Option String
text_param absent = none
text_param not_text = none
text_param (text t) = some t

unfoldable pub since_param : Param → Option DateFilterValue
unfolding date_filter_of
since_param absent = none
since_param not_text = none
since_param (text t) = date_filter_of t

-- `since ?? (tagId ? undefined : "30d")`
unfoldable pub default_since : Option String → Option DateFilterValue → Option DateFilterValue
default_since tag_id (some since) = some since
default_since none none = some days_30
default_since (some tag_id) none = if tag_id == "" then some days_30 else none

unfoldable pub validate_search : RawSearch → ItemsSearch
unfolding since_param default_since
validate_search raw = record {
  tag_id = text_param raw.tag_id;
  since = default_since (text_param raw.tag_id) (since_param raw.since);
}

-- The change event of the selector: what `onSelect` is called with, if it is.
unfoldable pub on_select : String → Option DateFilterValue
unfolding date_filter_of
on_select value = date_filter_of value

abbrev pub since_text : DateFilterValue → Param
since_text all_dates = absent
since_text hours_24 = text "24h"
since_text days_7 = text "7d"
since_text days_30 = text "30d"
since_text days_90 = text "90d"
since_text days_365 = text "365d"

-- `handleDateFilterSelect`: the store, and the search that it navigates to.
unfoldable pub handle_date_filter_select :
    DateFilterValue → RawSearch → ItemStoreState → ItemStoreState × RawSearch
unfolding set_date_filter
handle_date_filter_select value raw store =
    (set_date_filter value store, record raw { since = since_text value })

-- What the effect does with the prop `dateFilter`, which is the search's `since`.
unfoldable pub date_filter_changed : Option DateFilterValue → ItemStoreState → ItemStoreState
unfolding set_date_filter
date_filter_changed none store = store
date_filter_changed (some since) store = set_date_filter since store

abbrev pub same_since : Option DateFilterValue → Option DateFilterValue → Bool
same_since none none = true
same_since none (some g) = false
same_since (some f) none = false
same_since (some f) (some g) = filter_text f == filter_text g

-- A filter that is chosen while the search is `raw`: the store, and the search that the route then
-- has. The effect runs again only if the prop is another one than before.
unfoldable pub chosen : DateFilterValue → RawSearch → ItemStoreState → ItemStoreState × ItemsSearch
unfolding handle_date_filter_select date_filter_changed validate_search
chosen value raw store =
    let (stored, search) = handle_date_filter_select value raw store in
    let old = (validate_search raw).since in
    let new = validate_search search in
    (if same_since old new.since then stored else date_filter_changed new.since stored, new)

abbrev pub names_tag : Option String → Bool
names_tag none = false
names_tag (some tag_id) = if tag_id == "" then false else true

-- The search names the last 30 days, or no filter.
abbrev pub has_default : Param → Bool
has_default p = elim (since_param p) [ none ↦ true | some f ↦ filter_text f == "30d" ]

-- The filter of the store after a choice, and the one that the search stands for.
abbrev pub stored_since : Bool → Bool → DateFilterValue → DateFilterValue
stored_since names default all_dates = if names || default then all_dates else days_30
stored_since names default hours_24 = hours_24
stored_since names default days_7 = days_7
stored_since names default days_30 = days_30
stored_since names default days_90 = days_90
stored_since names default days_365 = days_365

abbrev pub searched_since : Bool → DateFilterValue → Option DateFilterValue
searched_since names all_dates = if names then none else some days_30
searched_since names hours_24 = some hours_24
searched_since names days_7 = some days_7
searched_since names days_30 = some days_30
searched_since names days_90 = some days_90
searched_since names days_365 = some days_365

abbrev effect : Option DateFilterValue → Option DateFilterValue → ItemStoreState → ItemStoreState
effect old new stored = if same_since old new then stored else date_filter_changed new stored

effect-set :
    (old : Option DateFilterValue) (value : DateFilterValue) (store : ItemStoreState)
    → (effect old (some value) (set_date_filter value store)).since ≡ value
unfolding date_filter_changed set_date_filter
effect-set old value store = elim (Bool-cases (same_since old (some value))) [
  | inl e ↦ rw e refl
  | inr e ↦ rw e refl
]

default_since-names :
    (tag_id : Option String)
    → default_since tag_id none ≡ (if names_tag tag_id then none else some days_30)
unfolding default_since
default_since-names none = refl
default_since-names (some tag_id) = elim (Bool-cases (tag_id == "")) [
  | inl e ↦ rw e refl
  | inr e ↦ rw e refl
]

abbrev default_of : Bool → Option DateFilterValue
default_of names = if names then none else some days_30

effect-all_same :
    (names : Bool) (store : ItemStoreState)
    → (effect (default_of names) (default_of names) (set_date_filter all_dates store)).since
      ≡ all_dates
unfolding date_filter_changed set_date_filter
effect-all_same true store = refl
effect-all_same false store = refl

effect-all :
    (names : Bool) (f : DateFilterValue) (store : ItemStoreState)
    → (effect (some f) (default_of names) (set_date_filter all_dates store)).since
      ≡ stored_since names (filter_text f == "30d") all_dates
unfolding date_filter_changed set_date_filter
effect-all true f store = refl
effect-all false f store = elim (Bool-cases (filter_text f == "30d")) [
  | inl e ↦ rw e refl
  | inr e ↦ rw e refl
]

chosen-all :
    (tag_id : Option String) (old : Option DateFilterValue) (store : ItemStoreState)
    → (effect
        (default_since tag_id old)
        (default_since tag_id none)
        (set_date_filter all_dates store)).since
      ≡ stored_since
          (names_tag tag_id)
          (elim old [ none ↦ true | some f ↦ filter_text f == "30d" ])
          all_dates
unfolding default_since
chosen-all tag_id none store =
    rw (default_since-names tag_id)
      (effect-all_same (names_tag tag_id) store ∙ always (names_tag tag_id))
  where
    always : (b : Bool) → all_dates ≡ stored_since b true all_dates
    always true = refl
    always false = refl
chosen-all tag_id (some f) store =
    rw (default_since-names tag_id) (effect-all (names_tag tag_id) f store)

-- Choosing a date filter sets it and has the search name it, but for "All Time" without a tag in the
-- search: then the search names the last 30 days, and so does the store, unless the search did so
-- before; in that case the store has all dates, though the search still names the last 30 days.
pub chosen_lem :
    (value : DateFilterValue) (raw : RawSearch) (store : ItemStoreState)
    → let names = names_tag (text_param raw.tag_id) in
      let (stored, search) = chosen value raw store in
      (stored.since ≡ stored_since names (has_default raw.since) value)
      × (search.since ≡ searched_since names value)
unfolding chosen handle_date_filter_select validate_search since_param default_since
chosen_lem all_dates raw store = (
  chosen-all (text_param raw.tag_id) (since_param raw.since) store,
  default_since-names (text_param raw.tag_id),
)
chosen_lem hours_24 raw store = (effect-set (validate_search raw).since hours_24 store, refl)
chosen_lem days_7 raw store = (effect-set (validate_search raw).since days_7 store, refl)
chosen_lem days_30 raw store = (effect-set (validate_search raw).since days_30 store, refl)
chosen_lem days_90 raw store = (effect-set (validate_search raw).since days_90 store, refl)
chosen_lem days_365 raw store = (effect-set (validate_search raw).since days_365 store, refl)
