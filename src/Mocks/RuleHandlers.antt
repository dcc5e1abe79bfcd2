-- ===== src/Mocks/RuleHandlers.antt =====
-- handlers.stateful.ts: the handlers of /url-rules and /block-rules.
use feed_reader.Common.{
  ℕ, suc, String, if◌then◌else◌, Option, none, some, List, [], ◌∷◌, ◌==◌, string_eq, ◌||◌,
}
use feed_reader.Common.Lists.{any, includes}
use feed_reader.Mocks.Store.{Db, Collection, UrlRuleJson, BlockRuleJson, create}

pub record UrlRuleBody : Type 0 where
  pub domain : String
  pub rule_type : String
  pub pattern_text : String

pub record BlockRuleBody : Type 0 where
  pub rule_type : String
  pub value : String
  pub domain : Option String

-- POST /url-rules; `none` is the answer 400.
unfoldable pub post_url_rule : String → UrlRuleBody → Db → Db × Option UrlRuleJson
post_url_rule random_id body db =
    let rule : UrlRuleJson = record {
      id = random_id;
      domain = body.domain;
      rule_type = body.rule_type;
      pattern_text = body.pattern_text;
    } in
    if (body.rule_type == "subdomain") || (body.rule_type == "path")
    then (record db { url_rules = create rule db.url_rules }, some rule)
    else (db, none)

abbrev pub block_types : List String
block_types = "user" ∷ "domain" ∷ "user_domain" ∷ "keyword" ∷ []

-- The index of the first rule whose type is not known, from the index of the first rule on.
unfoldable pub invalid_index : ℕ → List BlockRuleBody → Option ℕ
invalid_index i [] = none
invalid_index i (rule ∷ rules) =
    if includes block_types rule.rule_type then invalid_index (suc i) rules else some i

-- The rules are stored with the ids that `random_id` gives, one after the other.
unfoldable pub create_rules :
    (ℕ → String) → ℕ → List BlockRuleBody → List BlockRuleJson → List BlockRuleJson
create_rules random_id i [] stored = stored
create_rules random_id i (rule ∷ rules) stored = create_rules random_id (suc i) rules (
    create
      (record {
        id = random_id i;
        rule_type = rule.rule_type;
        value = rule.value;
        domain = rule.domain;
      })
      stored)

abbrev rules_or_empty : Option (List BlockRuleBody) → List BlockRuleBody
rules_or_empty none = []
rules_or_empty (some rules) = rules

-- POST /block-rules; `some i` is the answer 400 for the rule at index i.
unfoldable pub post_block_rules : (ℕ → String) → Option (List BlockRuleBody) → Db → Db × Option ℕ
unfolding invalid_index create_rules
post_block_rules random_id body db = elim (invalid_index 0 (rules_or_empty body)) [
  | some i ↦ (db, some i)
  | none ↦ (
    record db { block_rules = create_rules random_id 0 (rules_or_empty body) db.block_rules },
    none,
  )
]

module _ (c : Collection) where
  -- DELETE /url-rules/:id
  unfoldable pub delete_url_rule : String → Db → Db
  delete_url_rule id db =
      if any db.url_rules (λ (rule : UrlRuleJson). rule.id == id)
      then record db { url_rules = c.delete (λ (rule : UrlRuleJson). rule.id == id) db.url_rules }
      else db

  -- DELETE /block-rules/:id
  unfoldable pub delete_block_rule : String → Db → Db
  delete_block_rule id db =
      if any db.block_rules (λ (rule : BlockRuleJson). rule.id == id)
      then record db {
        block_rules = c.delete (λ (rule : BlockRuleJson). rule.id == id) db.block_rules;
      }
      else db
