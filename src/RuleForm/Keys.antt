-- ===== src/RuleForm/Keys.antt =====
-- The keys by which rules that are the same are told.
use feed_reader.Common.{
  ℕ, ◌≡◌, refl, ap, ◌≢◌, true, false, Option, none, some, [], ◌∷◌, ◌++◌, append_assoc, arith,
  ==_refl, nat_eq, list_eq,
}
use feed_reader.Common.Lists.{includes}
use feed_reader.Common.Text.{Text}
use feed_reader.Csv.Rules.{ParsedBlockRule, or_empty}
use feed_reader.RuleForm.{BulkState, rule_key, unique_rules, valid_rules}

abbrev pub valid_rule : Text → Text → Option Text → ParsedBlockRule
valid_rule rule_type value domain = record {
  rule_type = rule_type;
  value = value;
  domain = domain;
  is_valid = true;
  error = none;
}

unique_rules-second :
    (r s : ParsedBlockRule) → rule_key r ≡ rule_key s → unique_rules [] (r ∷ s ∷ []) ≡ r ∷ []
unfolding unique_rules
unique_rules-second r s e = rw (e, ==_refl (rule_key s)) refl

-- Of two valid rules of one type, of which one has a bar in its value where the other has one in its
-- domain, only the first is kept, though neither their values nor their domains are the same.
pub valid_rules-bar :
    (s : BulkState) (rule_type a b c : Text)
    → s.parsed_rules
      ≡ valid_rule rule_type (a ++ b'|' ∷ b) (some c)
        ∷ valid_rule rule_type a (some (b ++ b'|' ∷ c))
        ∷ []
    → valid_rules s ≡ valid_rule rule_type (a ++ b'|' ∷ b) (some c) ∷ []
unfolding valid_rules rule_key
valid_rules-bar s rule_type a b c e = rw e (
    unique_rules-second (valid_rule rule_type (a ++ b'|' ∷ b) (some c))
      (valid_rule rule_type a (some (b ++ b'|' ∷ c)))
      (ap (λ (t : Text). rule_type ++ b'|' ∷ t) (append_assoc a (b'|' ∷ b) (b'|' ∷ c))))

no_bar : (d : ℕ) (b : Text) → includes (d ∷ b) b'|' ≡ false → b'|' ≢ d
no_bar d b k e = ground (arith, k, e)

no_bar_rest : (d : ℕ) (b : Text) → includes (d ∷ b) b'|' ≡ false → includes b b'|' ≡ false
no_bar_rest d b k = ground (arith, k)

cut :
    (a b s t : Text)
    → includes a b'|' ≡ false
    → includes b b'|' ≡ false
    → a ++ b'|' ∷ s ≡ b ++ b'|' ∷ t
    → (a ≡ b) × (s ≡ t)
cut [] [] s t h k e = (refl, cc)
cut [] (d ∷ b) s t h k e = absurd (no_bar d b k cc)
cut (c ∷ a) [] s t h k e = absurd (no_bar c a h cc)
cut (c ∷ a) (d ∷ b) s t h k e =
    let (first, rest) = cut a b s t (no_bar_rest c a h) (no_bar_rest d b k) cc in (cc, rest)

-- Where neither the types nor the values have a bar, rules with one key agree in type and value, and
-- in domain but for an empty one.
pub rule_key-inj :
    (r s : ParsedBlockRule)
    → includes r.rule_type b'|' ≡ false
    → includes s.rule_type b'|' ≡ false
    → includes r.value b'|' ≡ false
    → includes s.value b'|' ≡ false
    → rule_key r ≡ rule_key s
    → (r.rule_type ≡ s.rule_type) × (r.value ≡ s.value) × (or_empty r.domain ≡ or_empty s.domain)
unfolding rule_key
rule_key-inj r s rt st rv sv e =
    let (types, rest) = cut r.rule_type s.rule_type _ _ rt st e in
    let (values, domains) = cut r.value s.value _ _ rv sv rest in (types, values, domains)
