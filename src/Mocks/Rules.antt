-- ===== src/Mocks/Rules.antt =====
-- POST /block-rules, on both branches.
use feed_reader.Common.{
  ℕ, suc, ◌+◌, String, ◌≡◌, refl, ap, sym, ◌∙◌, Bool, true, false, none, some, List, [], ◌∷◌, ◌++◌,
  arith, Bool-cases, inl, inr, append-nil, append_assoc, string_eq,
}
use feed_reader.Common.Lists.{all, take, get_elem?, includes}
use feed_reader.Mocks.Store.{Db, BlockRuleJson}
use feed_reader.Mocks.RuleHandlers.{
  BlockRuleBody, block_types, invalid_index, create_rules, post_block_rules,
}

abbrev pub is_known : BlockRuleBody → Bool
is_known rule = includes block_types rule.rule_type

-- The records of the rules, with their ids.
abbrev pub records : (ℕ → String) → ℕ → List BlockRuleBody → List BlockRuleJson
records random_id i [] = []
records random_id i (rule ∷ rules) =
    record {
      id = random_id i;
      rule_type = rule.rule_type;
      value = rule.value;
      domain = rule.domain;
    }
    ∷ records random_id (suc i) rules

create_rules_lem :
    (random_id : ℕ → String) (i : ℕ) (rules : List BlockRuleBody) (stored : List BlockRuleJson)
    → create_rules random_id i rules stored ≡ stored ++ records random_id i rules
unfolding create_rules
create_rules_lem random_id i [] stored = sym (append-nil stored)
create_rules_lem random_id i (rule ∷ rules) stored =
    create_rules_lem random_id (suc i) rules _ ∙ append_assoc stored _ _

-- What an answer of the check says.
abbrev pub FirstUnknown : List BlockRuleBody → ℕ → Type 0
FirstUnknown rules i =
    (all (take i rules) is_known ≡ true)
    × ((rule : BlockRuleBody) × (get_elem? rules i ≡ some rule) × (is_known rule ≡ false))

invalid_index-known :
    (i : ℕ) (rules : List BlockRuleBody) → all rules is_known ≡ true → invalid_index i rules ≡ none
unfolding invalid_index
invalid_index-known i [] h = refl
invalid_index-known i (rule ∷ rules) h = elim (Bool-cases (is_known rule)) [
  | inl e ↦ rw e (invalid_index-known (suc i) rules (rw e at h))
  | inr e ↦ cc (rw e at h)
]

invalid_index-unknown :
    (i : ℕ) (rules : List BlockRuleBody)
    → all rules is_known ≡ false
    → (j : ℕ) × (invalid_index i rules ≡ some (j + i)) × FirstUnknown rules j
unfolding invalid_index
invalid_index-unknown i [] h = cc
invalid_index-unknown i (rule ∷ rules) h = elim (Bool-cases (is_known rule)) [
  | inl e ↦
      let (j, found, (before, unknown)) = invalid_index-unknown (suc i) rules (rw e at h) in
      let next : j + suc i ≡ suc j + i = omega arith in
      (suc j, rw e (found ∙ ap some next), (rw e before, unknown))
  | inr e ↦ let here : i ≡ 0 + i = omega arith in (0, rw e (ap some here), (refl, (rule, refl, e)))
]

-- Rules whose types are all known are stored behind the others, in order.
pub post_block_rules-known :
    (random_id : ℕ → String) (rules : List BlockRuleBody) (db : Db)
    → all rules is_known ≡ true
    → post_block_rules random_id (some rules) db
      ≡ (record db { block_rules = db.block_rules ++ records random_id 0 rules }, none)
unfolding post_block_rules
post_block_rules-known random_id rules db known = rw (
  invalid_index-known 0 rules known,
  post_block_rules,
  create_rules_lem random_id 0 rules db.block_rules,
)

-- If a rule's type is not known, the answer names the first such rule, and nothing is stored.
pub post_block_rules-unknown :
    (random_id : ℕ → String) (rules : List BlockRuleBody) (db : Db)
    → all rules is_known ≡ false
    → (i : ℕ) × (post_block_rules random_id (some rules) db ≡ (db, some i)) × FirstUnknown rules i
unfolding post_block_rules
post_block_rules-unknown random_id rules db unknown =
    let (i, found, first) = invalid_index-unknown 0 rules unknown in
    let at : i + 0 ≡ i = omega arith in (i, rw (found ∙ ap some at, post_block_rules), first)
