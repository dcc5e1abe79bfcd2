-- ===== src/RuleForm.antt =====
-- BulkAddBlockRulesModal.tsx: the rules of a CSV text that are added at once.
pub mod Keys
pub mod Registering
use feed_reader.Common.{
  ℕ, ◌≡◌, refl, Bool, true, false, not, ◌&&◌, ◌||◌, Option, none, some, List, [], ◌∷◌, ◌++◌, map,
  if◌then◌else◌, ◌==◌, nat_eq, list_eq,
}
use feed_reader.Common.Lists.{length, filter, includes}
use feed_reader.Common.Text.{Text, codes}
use feed_reader.Csv.Rules.{ParsedBlockRule, parse_csv_block_rules, or_empty}

pub record RegistrationResult : Type 0 where
  pub success : ℕ
  pub total : ℕ

-- The signals of the modal.
pub record BulkState : Type 0 where
  pub registration_result : Option RegistrationResult
  pub csv_text : Text
  pub parsed_rules : List ParsedBlockRule
  pub error : Option Text

unfoldable pub rule_key : ParsedBlockRule → Text
rule_key r = r.rule_type ++ b'|' ∷ (r.value ++ b'|' ∷ or_empty r.domain)

-- The loop that fills `uniqueMap`, after the rules with these keys: the first rule of a key stays.
unfoldable pub unique_rules : List Text → List ParsedBlockRule → List ParsedBlockRule
unique_rules keys [] = []
unique_rules keys (r ∷ rules) =
    if includes keys (rule_key r)
    then unique_rules keys rules
    else r ∷ unique_rules (rule_key r ∷ keys) rules

unfoldable pub valid_rules : BulkState → List ParsedBlockRule
unfolding unique_rules
valid_rules s = unique_rules [] (filter (λ (r : ParsedBlockRule). r.is_valid) s.parsed_rules)

unfoldable pub take_text : Text → BulkState
unfolding parse_csv_block_rules
take_text text = record {
  registration_result = none;
  csv_text = text;
  parsed_rules = parse_csv_block_rules text;
  error = none;
}

unfoldable pub handle_text_change : Text → BulkState → BulkState
unfolding take_text
handle_text_change text s = take_text text

-- The file that is chosen, and its text; `unreadable` stands for a rejected `file.text()`.
pub data Chosen : Type 0 where
  no_file unreadable : Chosen
  file_text : Text → Chosen

unfoldable pub handle_file_change : Chosen → BulkState → BulkState
unfolding take_text
handle_file_change no_file s = s
handle_file_change unreadable s = record s {
  error = some (codes "Failed to read the file. Please try again.");
}
handle_file_change (file_text text) s = take_text text

-- A rule as `onRegister` takes it.
pub record RuleInput : Type 0 where
  pub rule_type : Text
  pub value : Text
  pub domain : Option Text

abbrev pub rule_input : ParsedBlockRule → RuleInput
rule_input r = record { rule_type = r.rule_type; value = r.value; domain = r.domain }

-- What `onRegister` comes to; `other` is a thrown value that is no `Error`.
pub data Outcome : Type 0 where
  registered : Outcome
  failed : Text → Outcome
  other : Outcome

unfoldable pub settle : ℕ → ℕ → Outcome → BulkState → BulkState
settle success total registered s = record {
  registration_result = some (record { success = success; total = total });
  csv_text = [];
  parsed_rules = [];
  error = s.error;
}
settle success total (failed message) s = record s { error = some message }
settle success total other s = record s {
  error = some (codes "Bulk registration failed. Please try again.");
}

-- `handleRegister`: the rules given to `onRegister`, none if it is not called, and the state when it
-- has settled; `meanwhile` is what the user does to the state before.
unfoldable pub handle_register :
    Outcome → (BulkState → BulkState) → BulkState → List RuleInput × BulkState
unfolding valid_rules settle
handle_register outcome meanwhile s =
    let rules = valid_rules s in
    if length rules == 0 then ([], s) else (
      map rule_input rules,
      settle (length rules) (length s.parsed_rules) outcome (meanwhile (record s { error = none })),
    )

-- `handleClose`: the state, and whether `onClose` is called.
unfoldable pub handle_close : Bool → BulkState → BulkState × Bool
handle_close is_pending s = if is_pending then (s, false) else (
  record { registration_result = none; csv_text = []; parsed_rules = []; error = none },
  true,
)
