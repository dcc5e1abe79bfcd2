-- ===== src/UrlParser.antt =====
-- frontend/src/lib/url-parser.ts: the user and the domain that URL parsing rules read from a URL.
pub mod Readings
pub mod Extracts
use feed_reader.Common.{
  ℕ, ◌+◌, ◌-◌, ◌≡◌, refl, Bool, true, false, not, ◌&&◌, Option, none, some, List, [], ◌∷◌, ◌++◌,
  if◌then◌else◌, ◌==◌, nat_eq, list_eq,
}
use feed_reader.Common.Lists.{length, take, drop, includes}
use feed_reader.Common.Text.{Text, codes, starts_with, ends_with, before}

pub record UrlParsingRule : Type 0 where
  pub rule_type : Text
  pub pattern : Text

pub record ExtractedUserInfo : Type 0 where
  pub user : Text
  pub domain : Text

-- The parts of a `URL` that the parser reads.
pub record Url : Type 0 where
  pub hostname : Text
  pub pathname : Text

-- The `subdomain` branch of the loop's body; `none` goes on with the next rule.
unfoldable pub by_subdomain : Text → Text → Option ExtractedUserInfo
by_subdomain hostname pattern =
    let user = take (length hostname - (length pattern + 1)) hostname in
    if ends_with hostname (b'.' ∷ pattern) && (not (user == []) && not (includes user b'.'))
    then some (record { user = user; domain = pattern })
    else none

-- The `path` branch.
unfoldable pub by_path : Text → Text → Option ExtractedUserInfo
by_path full_path pattern =
    let user = before b'/' (drop (length pattern + 1) full_path) in
    if starts_with full_path (pattern ++ b'/' ∷ []) && not (user == [])
    then some (record { user = user; domain = before b'/' pattern })
    else none

-- The body of the loop.
unfoldable pub apply_rule : Url → UrlParsingRule → Option ExtractedUserInfo
unfolding by_subdomain by_path
apply_rule url rule =
    if rule.rule_type == codes "subdomain"
    then by_subdomain url.hostname rule.pattern
    else if rule.rule_type == codes "path"
    then by_path (url.hostname ++ url.pathname) rule.pattern
    else none

or_next : Option ExtractedUserInfo → Option ExtractedUserInfo → Option ExtractedUserInfo
or_next (some info) rest = some info
or_next none rest = rest

unfoldable pub first_match : Url → List UrlParsingRule → Option ExtractedUserInfo
unfolding apply_rule or_next
first_match url [] = none
first_match url (rule ∷ rules) = or_next (apply_rule url rule) (first_match url rules)

-- `new URL` is the platform's; `none` stands for the `TypeError` that an invalid URL raises.
module _ (new_url : Text → Option Url) where
  unfoldable pub extract_user_info : List UrlParsingRule → Text → Option ExtractedUserInfo
  unfolding first_match
  extract_user_info rules url_str = elim (new_url url_str) [
    | none ↦ none
    | some url ↦ first_match url rules
  ]
