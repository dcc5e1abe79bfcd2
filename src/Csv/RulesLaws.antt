-- ===== src/Csv/RulesLaws.antt =====
-- When a row is a valid block rule, and rules printed as CSV read back.
use feed_reader.Common.{
  ◌≡◌, refl, ap, ap₂, ◌∙◌, ◌≢◌, ◌↔◌, ◌⊎◌, Bool, true, false, not, ◌&&◌, Option, none, some, List,
  [], ◌∷◌, map, arith, if◌then◌else◌, ◌==◌, ==_iff, nat_eq, list_eq,
}
use feed_reader.Common.Lists.{All, any, all, includes, get_elem?, drop}
use feed_reader.Common.Text.{Text, codes, trim}
use feed_reader.Csv.RoundTrip.{LineEnd, Row, print_rows, all_fields, parse_csv_rows-print_rows}
use feed_reader.Csv.Rules.{
  ParsedBlockRule, RuleError, too_many_columns, invalid_rule_type, missing_value, missing_domain,
  valid_types, or_empty, rule_domain, rule_error, is_none, block_rule, rules_of_rows,
  parse_csv_block_rules,
}

-- The four rule types.
abbrev pub IsRuleType : Text → Type 0
IsRuleType t =
    (t ≡ codes "user") ⊎ (t ≡ codes "domain") ⊎ (t ≡ codes "user_domain") ⊎ (t ≡ codes "keyword")

includes_four :
    (a b c d t : Text)
    → (includes (a ∷ b ∷ c ∷ d ∷ []) t ≡ true) ↔ ((t ≡ a) ⊎ (t ≡ b) ⊎ (t ≡ c) ⊎ (t ≡ d))
includes_four a b c d t = ground (arith, ==_iff a t, ==_iff b t, ==_iff c t, ==_iff d t)

IsRuleType-iff : (t : Text) → (includes valid_types t ≡ true) ↔ IsRuleType t
IsRuleType-iff t =
    includes_four (codes "user") (codes "domain") (codes "user_domain") (codes "keyword") t

no_extra_iff : (ps : List Text) → (any ps (λ p. not (p == [])) ≡ false) ↔ All (λ p. p ≡ []) ps
no_extra_iff [] = ground arith
no_extra_iff (p ∷ ps) = ground (arith, ==_iff p [], no_extra_iff ps)

-- What the columns of a row must be, by position.
pub record IsRuleRow (parts : List Text) : Type 0 where
  pub no_extra : All (λ p. p ≡ []) (drop 3 parts)
  pub has_type : IsRuleType (or_empty (get_elem? parts 0))
  pub has_value : or_empty (get_elem? parts 1) ≢ []
  pub has_domain :
      or_empty (get_elem? parts 0) ≡ codes "user_domain" → or_empty (get_elem? parts 2) ≢ []

-- The chain of tests for any answers of the five tests.
first_error_iff :
    (extra known empty needs missing : Bool)
    → ((if extra
          then some too_many_columns
          else if not known
          then some invalid_rule_type
          else if empty
          then some missing_value
          else if needs && missing
          then some missing_domain
          else none)
        ≡ none)
      ↔ ((extra ≡ false) × (known ≡ true) × (empty ≡ false) × (needs ≡ true → missing ≡ false))
first_error_iff extra known empty needs missing = ground arith

-- A failed test for equality.
ne_iff {ℓ} : {A : Type ℓ} (b : Bool) (x y : A) → (b ≡ true) ↔ (x ≡ y) → (b ≡ false) ↔ (x ≢ y)
ne_iff true x y h = (λ e. cc, λ n. absurd (n (h.0 refl)))
ne_iff false x y h = (λ e p. cc (h.1 p), λ n. refl)

rule_error_iff :
    (t v d : Text) (extra : List Text)
    → (rule_error t v d extra ≡ none)
      ↔ (All (λ p. p ≡ []) extra × IsRuleType t × (v ≢ []) × (t ≡ codes "user_domain" → d ≢ []))
unfolding rule_error
rule_error_iff t v d extra =
    let tests =
      first_error_iff (any extra (λ p. not (p == []))) (includes valid_types t) (v == [])
        (t == codes "user_domain") (d == []) in
    let empty = ne_iff (v == []) v [] (==_iff v []) in
    let missing = ne_iff (d == []) d [] (==_iff d []) in
    let needs = ==_iff t (codes "user_domain") in
    (
      λ e.
          let (a, b, c, f) = tests.0 e in
          (
            (no_extra_iff extra).0 a,
            (IsRuleType-iff t).0 b,
            empty.0 c,
            λ p. missing.0 (f (needs.1 p)),
          ),
      λ (a, b, c, f). tests.1 (
        (no_extra_iff extra).1 a,
        (IsRuleType-iff t).1 b,
        empty.1 c,
        λ p. missing.1 (f (needs.0 p)),
      ),
    )

is_none_iff : (o : Option RuleError) → (is_none o ≡ true) ↔ (o ≡ none)
unfolding is_none
is_none_iff none = ground arith
is_none_iff (some e) = ground arith

-- A row is accepted exactly if its type is one of the four, its value is not empty, a `user_domain`
-- rule has a domain, and every column after the third is empty.
pub block_rule-valid_iff :
    (parts : List Text) → ((block_rule parts).is_valid ≡ true) ↔ IsRuleRow parts
unfolding block_rule
block_rule-valid_iff parts =
    let value = or_empty (get_elem? parts 1) in
    let domain = or_empty (get_elem? parts 2) in
    let tests = rule_error_iff (or_empty (get_elem? parts 0)) value domain (drop 3 parts) in
    let known = is_none_iff (block_rule parts).error in
    (
      λ e.
          let (a, b, c, f) = tests.0 (known.0 e) in
          record { no_extra = a; has_type = b; has_value = c; has_domain = f },
      λ r. known.1 (tests.1 (r.no_extra, r.has_type, r.has_value, r.has_domain)),
    )

-- A rule as a user writes it: three columns, the domain possibly empty.
pub record BlockRule : Type 0 where
  pub rule_type : Text
  pub value : Text
  pub domain : Text

abbrev pub columns : BlockRule → List Text
columns r = r.rule_type ∷ r.value ∷ r.domain ∷ []

-- No column is changed by `trim`, and the row is one that the parser accepts.
pub record IsWritable (r : BlockRule) : Type 0 where
  pub trimmed : map trim (columns r) ≡ columns r
  pub accepted : IsRuleRow (columns r)

abbrev pub row_of : BlockRule → Row
row_of r = (r.rule_type, r.value ∷ r.domain ∷ [])

abbrev pub rows_of : List (LineEnd × BlockRule) → List (LineEnd × Row)
rows_of [] = []
rows_of ((e, r) ∷ rs) = (e, row_of r) ∷ rows_of rs

-- What the parser makes of an accepted rule.
abbrev pub accepted_rule : BlockRule → ParsedBlockRule
accepted_rule r = record {
  rule_type = r.rule_type;
  value = r.value;
  domain =
      if not (r.domain == [])
      then some r.domain
      else if r.rule_type == codes "domain"
      then some r.value
      else none;
  is_valid = true;
  error = none;
}

abbrev accepted_rules : List (LineEnd × BlockRule) → List ParsedBlockRule
accepted_rules [] = []
accepted_rules ((_, r) ∷ rs) = accepted_rule r ∷ accepted_rules rs

abbrev AllWritable : List (LineEnd × BlockRule) → Type 0
AllWritable [] = Unit
AllWritable ((_, r) ∷ rs) = IsWritable r × AllWritable rs

rule_domain-columns :
    (t v d : Text)
    → rule_domain t (some v) (some d)
      ≡ (if not (d == []) then some d else if t == codes "domain" then some v else none)
unfolding rule_domain
rule_domain-columns t v [] = refl
rule_domain-columns t v (_ ∷ _) = refl

block_rule-columns : (r : BlockRule) → IsWritable r → block_rule (columns r) ≡ accepted_rule r
unfolding block_rule
block_rule-columns r w =
    let a = w.accepted in
    let passes =
      (rule_error_iff r.rule_type r.value r.domain []).1
        (a.no_extra, a.has_type, a.has_value, a.has_domain) in
    let named = rule_domain-columns r.rule_type r.value r.domain in
    λ i. record {
      rule_type = r.rule_type;
      value = r.value;
      domain = named i;
      is_valid = is_none (passes i);
      error = passes i;
    }

not_blank : (a b c : Bool) → b ≡ false → (a && (b && (c && true))) ≡ false
not_blank a b c h = ground arith

rules_of_rows-row :
    (raw parts : List Text) (rows : List (List Text))
    → map trim raw ≡ parts
    → all parts (λ p. p == []) ≡ false
    → rules_of_rows (raw ∷ rows) ≡ block_rule parts ∷ rules_of_rows rows
unfolding rules_of_rows
rules_of_rows-row raw parts rows e h = rw (e, h)

rules_of_rows-writable :
    (rs : List (LineEnd × BlockRule))
    → AllWritable rs
    → rules_of_rows (all_fields (rows_of rs)) ≡ accepted_rules rs
unfolding rules_of_rows
rules_of_rows-writable [] w = refl
rules_of_rows-writable ((_, r) ∷ rs) (w, ws) =
    let empty = ne_iff (r.value == []) r.value [] (==_iff r.value []) in
    let kept =
      not_blank (r.rule_type == []) (r.value == []) (r.domain == [])
        (empty.1 w.accepted.has_value) in
    rules_of_rows-row (columns r) (columns r) (all_fields (rows_of rs)) w.trimmed kept
    ∙ ap₂ ◌∷◌ (block_rule-columns r w) (rules_of_rows-writable rs ws)

-- Rules written as quoted CSV rows, with LF, CR or CRLF between them, read back as the same rules,
-- all valid and in order, when each is an acceptable rule whose columns need no trimming; a `domain`
-- rule with no domain column gets its value for its domain.
pub parse_csv_block_rules-print_rows :
    (r : BlockRule) (rs : List (LineEnd × BlockRule))
    → IsWritable r
    → AllWritable rs
    → parse_csv_block_rules (print_rows (row_of r) (rows_of rs))
      ≡ accepted_rule r ∷ accepted_rules rs
unfolding parse_csv_block_rules
parse_csv_block_rules-print_rows r rs w ws =
    ap rules_of_rows (parse_csv_rows-print_rows (row_of r) (rows_of rs)).0
    ∙ rules_of_rows-writable ((LineEnd.lf, r) ∷ rs) (w, ws)
