-- ===== src/Csv/Rules.antt =====
-- `parseCSVBlockRules`.
use feed_reader.Common.{
  ◌≡◌, refl, Bool, true, false, not, ◌&&◌, Option, none, some, List, [], ◌∷◌, map, if◌then◌else◌,
  ◌==◌, nat_eq, list_eq,
}
use feed_reader.Common.Lists.{any, all, includes, get_elem?, drop}
use feed_reader.Common.Text.{Text, codes, trim}
use feed_reader.Csv.Scan.{parse_csv_rows}

-- The texts of `result.error`.
pub data RuleError : Type 0 where
  too_many_columns invalid_rule_type missing_value missing_domain : RuleError

pub record ParsedBlockRule : Type 0 where
  pub rule_type : Text
  pub value : Text
  pub domain : Option Text
  pub is_valid : Bool
  pub error : Option RuleError

abbrev pub valid_types : List Text
valid_types = codes "user" ∷ codes "domain" ∷ codes "user_domain" ∷ codes "keyword" ∷ []

-- A missing column is `undefined`, which `|| ""` and the tests for a falsy value treat as "".
abbrev pub or_empty : Option Text → Text
or_empty none = []
or_empty (some t) = t

-- `if (domain) … else if (ruleType === "domain") …`
unfoldable pub rule_domain : Text → Option Text → Option Text → Option Text
rule_domain rule_type value (some (c ∷ cs)) = some (c ∷ cs)
rule_domain rule_type value _ = if rule_type == codes "domain" then value else none

-- The chain of validations; `none` when every test passes.
unfoldable pub rule_error : Text → Text → Text → List Text → Option RuleError
rule_error rule_type value domain extra =
    if any extra (λ p. not (p == []))
    then some too_many_columns
    else if not (includes valid_types rule_type)
    then some invalid_rule_type
    else if value == []
    then some missing_value
    else if (rule_type == codes "user_domain") && (domain == [])
    then some missing_domain
    else none

unfoldable pub is_none {ℓ} : {A : Type ℓ} → Option A → Bool
is_none none = true
is_none (some _) = false

-- The rule read from the trimmed fields of one row.
unfoldable pub block_rule : List Text → ParsedBlockRule
unfolding rule_domain rule_error is_none
block_rule parts =
    let rule_type = or_empty (get_elem? parts 0) in
    let value = get_elem? parts 1 in
    let domain = get_elem? parts 2 in
    let error = rule_error rule_type (or_empty value) (or_empty domain) (drop 3 parts) in
    record {
      rule_type = rule_type;
      value = or_empty value;
      domain = rule_domain rule_type value domain;
      is_valid = is_none error;
      error = error;
    }

-- The loop over the rows: blank rows are skipped.
unfoldable pub rules_of_rows : List (List Text) → List ParsedBlockRule
rules_of_rows [] = []
rules_of_rows (raw ∷ rows) =
    let parts = map trim raw in
    if all parts (λ p. p == []) then rules_of_rows rows else block_rule parts ∷ rules_of_rows rows

unfoldable pub parse_csv_block_rules : Text → List ParsedBlockRule
unfolding parse_csv_rows rules_of_rows block_rule trim
parse_csv_block_rules csv = rules_of_rows (parse_csv_rows csv)

block_rules_test :
    map
      (λ (r : ParsedBlockRule). r.error)
      (parse_csv_block_rules (codes "domain, a.com \n ,\nuser_domain,bob\nnope,x,y,z"))
    ≡ none ∷ some missing_domain ∷ some too_many_columns ∷ []
unfolding parse_csv_block_rules
block_rules_test = refl
