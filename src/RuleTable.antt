-- ===== src/RuleTable.antt =====
-- routes/block-rules.tsx and BlockRulesFilterBar.tsx: the block rules that are listed, their order, and
-- the form that adds one. Texts are lists of UTF-16 code units.
use mathlib.Core.List.{Perm}
use feed_reader.Common.{
  ◌≡◌, refl, Bool, true, false, ◌&&◌, ◌||◌, Option, none, some, List, [], ◌∷◌, if◌then◌else◌, ◌==◌,
  nat_eq, list_eq,
}
use feed_reader.Common.Lists.{filter, includes}
use feed_reader.Common.Sorting.{sort, IsOrder, IsSorted, sort-perm, sort-IsSorted}
use feed_reader.Common.Text.{Text, codes}
use feed_reader.Csv.Rules.{valid_types, rule_error}

pub record ItemBlockRule : Type 0 where
  pub id : Text
  pub rule_type : Text
  pub value : Text
  pub domain : Option Text

pub data SortField : Type 0 where
  by_rule_type by_value by_domain : SortField

pub data SortDirection : Type 0 where
  asc desc : SortDirection

-- The signals that filter and sort.
pub record TableState : Type 0 where
  pub type_filter : Option Text
  pub domain_filter : Option Text
  pub sort_field : Option SortField
  pub sort_direction : SortDirection

abbrev or_blank : Option Text → Text
or_blank none = []
or_blank (some t) = t

-- `a[field] || ""`
unfoldable pub field_of : SortField → ItemBlockRule → Text
field_of by_rule_type r = r.rule_type
field_of by_value r = r.value
field_of by_domain r = or_blank r.domain

abbrev pub has_domain : Text → ItemBlockRule → Bool
has_domain domain r = elim r.domain [ none ↦ false | some d ↦ d == domain ]

unfoldable pub by_type : Option Text → List ItemBlockRule → List ItemBlockRule
by_type none rules = rules
by_type (some t) rules =
    if t == [] then rules else filter (λ (r : ItemBlockRule). r.rule_type == t) rules

unfoldable pub by_domain_filter : Option Text → List ItemBlockRule → List ItemBlockRule
by_domain_filter none rules = rules
by_domain_filter (some d) rules = if d == [] then rules else filter (has_domain d) rules

unfoldable pub shown_rules : TableState → List ItemBlockRule → List ItemBlockRule
unfolding by_type by_domain_filter
shown_rules s rules = by_domain_filter s.domain_filter (by_type s.type_filter rules)

-- `text_le a b` is `a.localeCompare(b) <= 0`.
module _ (text_le : Text → Text → Bool) where
  -- `compare(a, b) <= 0` for the comparison of the `sort`.
  unfoldable pub rule_le : SortField → SortDirection → ItemBlockRule → ItemBlockRule → Bool
  unfolding field_of
  rule_le field asc a b = text_le (field_of field a) (field_of field b)
  rule_le field desc a b = text_le (field_of field b) (field_of field a)

  unfoldable pub rules_query : TableState → List ItemBlockRule → List ItemBlockRule
  unfolding shown_rules rule_le sort
  rules_query s rules = elim s.sort_field [
    | none ↦ shown_rules s rules
    | some field ↦ sort (rule_le field s.sort_direction) (shown_rules s rules)
  ]

abbrev pub same_field : SortField → SortField → Bool
same_field by_rule_type by_rule_type = true
same_field by_rule_type _ = false
same_field by_value by_value = true
same_field by_value _ = false
same_field by_domain by_domain = true
same_field by_domain _ = false

abbrev pub flip : SortDirection → SortDirection
flip asc = desc
flip desc = asc

unfoldable pub toggle_sort : Option SortField → TableState → TableState
toggle_sort none s = record s { sort_field = none; sort_direction = asc }
toggle_sort (some field) s =
    if elim s.sort_field [ none ↦ false | some current ↦ same_field current field ]
    then record s { sort_direction = flip s.sort_direction }
    else record s { sort_field = some field; sort_direction = asc }

-- The filter bar: the value of a `select`, and what its input event sets.
unfoldable pub filter_value : Text → Option Text → Text
filter_value all_name none = all_name
filter_value all_name (some t) = if t == [] then all_name else t

unfoldable pub on_filter : Text → Text → Option Text
on_filter all_name value = if value == all_name then none else some value

-- The form: its signals, and the rule that `handleSubmit` adds, if it adds one.
pub record RuleForm : Type 0 where
  pub rule_type : Text
  pub value : Text
  pub domain : Text

pub record NewRule : Type 0 where
  pub rule_type : Text
  pub value : Text
  pub domain : Option Text

unfoldable pub handle_submit : RuleForm → Option NewRule
handle_submit f =
    if f.value == []
    then none
    else if ((f.rule_type == codes "user_domain") || (f.rule_type == codes "domain"))
        && (f.domain == [])
    then none
    else some (record {
      rule_type = f.rule_type;
      value = f.value;
      domain = if f.domain == [] then none else some f.domain;
    })

-- The state of the form when the addition has succeeded.
unfoldable pub rule_added : RuleForm → RuleForm
rule_added f = record f { value = []; domain = [] }

rule_error-none :
    (rule_type value domain : Text)
    → includes valid_types rule_type ≡ true
    → (value == []) ≡ false
    → ((rule_type == codes "user_domain") && (domain == [])) ≡ false
    → rule_error rule_type value domain [] ≡ none
unfolding rule_error
rule_error-none rule_type value domain known v d = rw (known, v, d) refl

pick_none :
    (a b c d : Bool) (r s : NewRule)
    → (if a then none else if (b || c) && d then none else some s) ≡ some r
    → (a ≡ false) × ((b && d) ≡ false) × (s ≡ r)
pick_none true b c d r s h = cc
pick_none false true c true r s h = cc
pick_none false true c false r s h = (refl, refl, cc)
pick_none false false true true r s h = cc
pick_none false false true false r s h = (refl, refl, cc)
pick_none false false false true r s h = (refl, refl, cc)
pick_none false false false false r s h = (refl, refl, cc)

blank_again : (t : Text) → or_blank (if t == [] then none else some t) ≡ t
blank_again [] = refl
blank_again (c ∷ t) = refl

-- A rule of a known type that the form adds passes the checks of the import of CSV rules too, in a
-- row with no further columns.
pub handle_submit-rule_error :
    (f : RuleForm) (r : NewRule)
    → includes valid_types f.rule_type ≡ true
    → handle_submit f ≡ some r
    → rule_error r.rule_type r.value (or_blank r.domain) [] ≡ none
unfolding handle_submit
handle_submit-rule_error f r known h =
    let (v, d, same) =
      pick_none (f.value == []) (f.rule_type == codes "user_domain") (f.rule_type == codes "domain")
        (f.domain == []) r _ h in
    rw⁻¹ same (rw (blank_again f.domain) (rule_error-none f.rule_type f.value f.domain known v d))

module _ (text_le : Text → Text → Bool) (order : IsOrder text_le) where
  rule_le-IsOrder :
      (field : SortField) (direction : SortDirection) → IsOrder (rule_le text_le field direction)
  unfolding rule_le
  rule_le-IsOrder field asc = record {
    total = λ a b h. order.total (field_of field a) (field_of field b) h;
    trans = λ a b c h k. order.trans (field_of field a) (field_of field b) (field_of field c) h k;
  }
  rule_le-IsOrder field desc = record {
    total = λ a b h. order.total (field_of field b) (field_of field a) h;
    trans = λ a b c h k. order.trans (field_of field c) (field_of field b) (field_of field a) k h;
  }

  -- The rules listed are those that pass both filters, each as often as it is stored. Where a column
  -- is chosen they stand in its order, or in the reverse of it, by an order of texts.
  pub rules_query_lem :
      (s : TableState) (field : SortField) (rules : List ItemBlockRule)
      → s.sort_field ≡ some field
      → Perm (rules_query text_le s rules) (shown_rules s rules)
        × IsSorted (rule_le text_le field s.sort_direction) (rules_query text_le s rules)
  unfolding rules_query
  rules_query_lem s field rules h = rw h (
    sort-perm (rule_le text_le field s.sort_direction) (shown_rules s rules),
    sort-IsSorted (rule_le text_le field s.sort_direction) (rule_le-IsOrder field s.sort_direction)
        (shown_rules s rules),
  )
