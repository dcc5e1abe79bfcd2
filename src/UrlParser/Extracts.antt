-- ===== src/UrlParser/Extracts.antt =====
-- When the parser extracts a user: the first rule that reads one.
use feed_reader.Common.{
  ◌≡◌, ◌↔◌, ◌⊎◌, inl, inr, sym, ◌∙◌, Bool, true, Option, none, some, List, [], ◌∷◌, ◌++◌, arith,
  if◌then◌else◌, ◌==◌, ==_iff, ==_ne, nat_eq, list_eq, Option-cases,
}
use feed_reader.Common.Text.{Text, codes}
use feed_reader.UrlParser.{
  UrlParsingRule, ExtractedUserInfo, Url, by_subdomain, by_path, apply_rule, or_next, first_match,
  extract_user_info,
}
use feed_reader.UrlParser.Readings.{
  Reads, subdomain, path, by_subdomain-reads, by_subdomain-found, by_path-reads, by_path-found,
}

abbrev by_type :
    Bool → Bool → Option ExtractedUserInfo → Option ExtractedUserInfo → Option ExtractedUserInfo
by_type a b x y = if a then x else if b then y else none

by_type-some :
    (a b : Bool) (x y : Option ExtractedUserInfo) (info : ExtractedUserInfo)
    → by_type a b x y ≡ some info
    → ((a ≡ true) × (x ≡ some info)) ⊎ ((b ≡ true) × (y ≡ some info))
by_type-some a b x y info e = ground arith

apply_rule-Reads :
    (url : Url) (rule : UrlParsingRule) (info : ExtractedUserInfo)
    → apply_rule url rule ≡ some info
    → Reads url rule info
unfolding apply_rule
apply_rule-Reads url rule info e =
    elim (by_type-some (rule.rule_type == codes "subdomain") (rule.rule_type == codes "path")
      (by_subdomain url.hostname rule.pattern) (by_path (url.hostname ++ url.pathname) rule.pattern)
      info e) [
        | inl (kind, found) ↦
            let (split, some_user, no_dot, domain) =
              by_subdomain-reads url.hostname rule.pattern info found in
            subdomain ((==_iff _ _).0 kind) split some_user no_dot domain
        | inr (kind, found) ↦
            let (rest, (split, some_user, no_slash, at, domain)) =
              by_path-reads (url.hostname ++ url.pathname) rule.pattern info found in
            path rest ((==_iff _ _).0 kind) split some_user no_slash at domain
      ]

apply_rule-found :
    (url : Url) (rule : UrlParsingRule) (info : ExtractedUserInfo)
    → Reads url rule info
    → apply_rule url rule ≡ some info
unfolding apply_rule
apply_rule-found url rule info (subdomain kind split some_user no_dot domain) =
    rw ((==_iff rule.rule_type (codes "subdomain")).1 kind)
      (by_subdomain-found url.hostname rule.pattern info (split, some_user, no_dot, domain))
apply_rule-found url rule info (path rest kind split some_user no_slash at domain) =
    rw (==_ne rule.rule_type (codes "subdomain") (λ e. cc (sym kind ∙ e))) (
      rw ((==_iff rule.rule_type (codes "path")).1 kind) (
        by_path-found (url.hostname ++ url.pathname) rule.pattern info rest
          (split, some_user, no_slash, at, domain)))

-- The first rule of the list that reads a user gives the answer.
pub data ReadsFirst (url : Url) (info : ExtractedUserInfo) : List UrlParsingRule → Type 0 where
  here :
      {rule : UrlParsingRule} {rules : List UrlParsingRule}
      → Reads url rule info
      → ReadsFirst url info (rule ∷ rules)
  later :
      {rule : UrlParsingRule} {rules : List UrlParsingRule}
      → ((other : ExtractedUserInfo) → ¬ Reads url rule other)
      → ReadsFirst url info rules
      → ReadsFirst url info (rule ∷ rules)

first_match-reads :
    (url : Url) (rules : List UrlParsingRule) (info : ExtractedUserInfo)
    → first_match url rules ≡ some info
    → ReadsFirst url info rules
unfolding first_match or_next
first_match-reads url [] info e = cc
first_match-reads url (rule ∷ rules) info e = elim (Option-cases (apply_rule url rule)) [
  | inl f ↦
      later (λ other r. cc (sym (apply_rule-found url rule other r) ∙ f))
        (first_match-reads url rules info (rw (f, or_next) at e))
  | inr (found, f) ↦ here (apply_rule-Reads url rule info (f ∙ (rw (f, or_next) at e)))
]

first_match-found :
    (url : Url) (info : ExtractedUserInfo) (rules : List UrlParsingRule)
    → ReadsFirst url info rules
    → first_match url rules ≡ some info
unfolding first_match or_next
first_match-found url info rules (here {rule = rule} r) =
    rw (apply_rule-found url rule info r, or_next)
first_match-found url info rules (later {rule = rule} {rules = more} none_here r) =
    elim (Option-cases (apply_rule url rule)) [
      | inl f ↦ rw (f, or_next) (first_match-found url info more r)
      | inr (found, f) ↦ absurd (none_here found (apply_rule-Reads url rule found f))
    ]

module _ (new_url : Text → Option Url) where
  -- The parser returns a user and a domain exactly if the text is a URL and the first of the rules
  -- that can read any user from it reads these: for a subdomain rule the host is the user, a dot
  -- and the pattern, for a path rule the host and path are the pattern, a slash, the user, and
  -- nothing or a slash with whatever follows.
  pub extract_user_info_iff :
      (rules : List UrlParsingRule) (url_str : Text) (info : ExtractedUserInfo)
      → (extract_user_info new_url rules url_str ≡ some info)
        ↔ ((url : Url) × (new_url url_str ≡ some url) × ReadsFirst url info rules)
  unfolding extract_user_info
  extract_user_info_iff rules url_str info = (
    λ e. elim (Option-cases (new_url url_str)) [
      | inl f ↦ cc (rw (f, extract_user_info) at e)
      | inr (url, f) ↦ (url, f, first_match-reads url rules info (rw (f, extract_user_info) at e))
    ],
    λ (url, f, r). rw (f, extract_user_info) (first_match-found url info rules r),
  )
