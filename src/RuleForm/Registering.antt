-- ===== src/RuleForm/Registering.antt =====
-- What is registered of a CSV text, and what the modal shows then.
use feed_reader.Common.{
  ◌≤◌, ◌≡◌, refl, ap, ◌∙◌, Bool, true, false, not, ◌&&◌, none, some, List, [], ◌∷◌, map, arith,
  ◌==◌, ==_iff, nat_eq, list_eq, Bool-cases, inl, inr,
}
use feed_reader.Common.Lists.{length, filter, includes, any, all, length-filter-le}
use feed_reader.Common.Text.{Text}
use feed_reader.Csv.Rules.{ParsedBlockRule, parse_csv_block_rules}
use feed_reader.RuleForm.{
  BulkState, rule_input, rule_key, unique_rules, valid_rules, registered, failed, settle,
  handle_register, handle_text_change, take_text,
}

-- The rules have pairwise different keys, all of them other than the given ones.
abbrev pub has_new_keys : List Text → List ParsedBlockRule → Bool
has_new_keys keys [] = true
has_new_keys keys (r ∷ rules) =
    not (includes keys (rule_key r)) && has_new_keys (rule_key r ∷ keys) rules

abbrev pub has_rule_of : Text → List ParsedBlockRule → Bool
has_rule_of key rules = any rules (λ r. rule_key r == key)

unique_rules-new :
    (keys : List Text) (rules : List ParsedBlockRule)
    → has_new_keys keys (unique_rules keys rules) ≡ true
unfolding unique_rules
unique_rules-new keys [] = refl
unique_rules-new keys (r ∷ rules) =
    ground (arith, unique_rules-new keys rules, unique_rules-new (rule_key r ∷ keys) rules)

unique_rules-has :
    (keys : List Text) (rules : List ParsedBlockRule) (key : Text)
    → has_rule_of key (unique_rules keys rules) ≡ (has_rule_of key rules && not (includes keys key))
unfolding unique_rules
unique_rules-has keys [] key = refl
unique_rules-has keys (r ∷ rules) key = elim (Bool-cases (includes keys (rule_key r))) [
  | inl e ↦ rw e (
      unique_rules-has keys rules key ∙ elim (Bool-cases (rule_key r == key)) [
        | inl g ↦ ground (arith, g, e, ap (includes keys) ((==_iff (rule_key r) key).0 g))
        | inr g ↦ rw g refl
      ])
  | inr e ↦ elim (Bool-cases (rule_key r == key)) [
    | inl g ↦ ground (arith, g, e, ap (includes keys) ((==_iff (rule_key r) key).0 g))
    | inr g ↦ ground (arith, g, e, unique_rules-has (rule_key r ∷ keys) rules key)
  ]
]

unique_rules-valid :
    (keys : List Text) (rules : List ParsedBlockRule)
    → all rules (λ r. r.is_valid) ≡ true
    → all (unique_rules keys rules) (λ r. r.is_valid) ≡ true
unfolding unique_rules
unique_rules-valid keys [] h = refl
unique_rules-valid keys (r ∷ rules) h =
    ground (arith, unique_rules-valid keys rules, unique_rules-valid (rule_key r ∷ keys) rules, h)

length-unique_rules :
    (keys : List Text) (rules : List ParsedBlockRule)
    → length (unique_rules keys rules) ≤ length rules
unfolding unique_rules
length-unique_rules keys [] = omega arith
length-unique_rules keys (r ∷ rules) =
    ground (arith, length-unique_rules keys rules, length-unique_rules (rule_key r ∷ keys) rules)

all-filter :
    (rules : List ParsedBlockRule)
    → all (filter (λ (r : ParsedBlockRule). r.is_valid) rules) (λ r. r.is_valid) ≡ true
all-filter [] = refl
all-filter (r ∷ rules) = ground (arith, all-filter rules)

-- The rules to register are valid, no two of them share a key, and they have a rule of every key that
-- a valid rule of the text has, and of no other. They are no more than the rules of the text.
pub valid_rules_lem :
    (s : BulkState) (key : Text)
    → (all (valid_rules s) (λ r. r.is_valid) ≡ true)
      × (has_new_keys [] (valid_rules s) ≡ true)
      × (has_rule_of key (valid_rules s)
          ≡ has_rule_of key (filter (λ (r : ParsedBlockRule). r.is_valid) s.parsed_rules))
      × (length (valid_rules s) ≤ length s.parsed_rules)
unfolding valid_rules
valid_rules_lem s key =
    let valid = filter (λ (r : ParsedBlockRule). r.is_valid) s.parsed_rules in
    (
      unique_rules-valid [] valid (all-filter s.parsed_rules),
      unique_rules-new [] valid,
      unique_rules-has [] valid key ∙ ground arith,
      omega (
        arith,
        length-unique_rules [] valid,
        length-filter-le (λ (r : ParsedBlockRule). r.is_valid) s.parsed_rules,
      ),
    )

-- Registering a text with a valid rule gives the server the inputs of its valid rules. If that
-- succeeds the modal is emptied and counts these rules among those of the text; if it fails the text
-- and its rules stay and the error shows.
pub handle_register_lem :
    (text message : Text) (s : BulkState)
    → let typed = handle_text_change text s in
      (length (valid_rules typed) == 0) ≡ false
      → let typed = handle_text_change text s in
        (handle_register registered (λ t. t) typed ≡ (
          map rule_input (valid_rules typed),
          record {
            registration_result = some (record {
              success = length (valid_rules typed);
              total = length (parse_csv_block_rules text);
            });
            csv_text = [];
            parsed_rules = [];
            error = none;
          },
        ))
        × (handle_register (failed message) (λ t. t) typed ≡ (
          map rule_input (valid_rules typed),
          record {
            registration_result = none;
            csv_text = text;
            parsed_rules = parse_csv_block_rules text;
            error = some message;
          },
        ))
unfolding handle_register handle_text_change take_text settle
handle_register_lem text message s h = rw h (refl, refl)
