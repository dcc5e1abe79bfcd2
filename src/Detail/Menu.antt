-- ===== src/Detail/Menu.antt =====
-- ItemDetailModal.tsx: the block rules that the menu of the detail view offers, and the layout of its
-- images. Texts are lists of UTF-16 code units.
pub mod Offers
use feed_reader.Common.{
  ℕ, ◌+◌, ◌*◌, ◌≡◌, refl, Bool, true, false, not, ◌&&◌, Option, none, some, List, [], ◌∷◌, ◌++◌,
  if◌then◌else◌, ltb, leb, ◌==◌, nat_eq, list_eq,
}
use feed_reader.Common.Lists.{drop}
use feed_reader.Common.Text.{Text, codes, starts_with}
use feed_reader.UrlParser.{Url, UrlParsingRule, ExtractedUserInfo, extract_user_info}

pub record BlockRuleInput : Type 0 where
  pub rule_type : Text
  pub value : Text
  pub domain : Option Text

unfoldable pub without_www : Text → Text
without_www hostname = if starts_with hostname (codes "www.") then drop 4 hostname else hostname

-- An entry of the menu: its label, and the rules of the mutation that a click starts, or the close
-- of the view.
pub data MenuAction : Type 0 where
  block : Text → List BlockRuleInput → MenuAction
  close : MenuAction

unfoldable pub domain_action : Text → MenuAction
domain_action hostname =
    block (codes "Block Domain (" ++ hostname ++ codes ")")
      (record { rule_type = codes "domain"; value = hostname; domain = some hostname } ∷ [])

unfoldable pub user_domain_action : ExtractedUserInfo → MenuAction
user_domain_action info =
    block (codes "Block User (@" ++ info.domain ++ codes ")") (
      record { rule_type = codes "user_domain"; value = info.user; domain = some info.domain } ∷ [])

unfoldable pub user_action : ExtractedUserInfo → MenuAction
user_action info =
    block (codes "Block User (" ++ info.user ++ codes ")")
      (record { rule_type = codes "user"; value = info.user; domain = some info.domain } ∷ [])

unfoldable pub block_actions : Text → Option ExtractedUserInfo → List MenuAction
unfolding domain_action user_domain_action user_action
block_actions hostname info =
    (if hostname == [] then [] else domain_action hostname ∷ [])
    ++ elim info [ none ↦ [] | some i ↦ user_domain_action i ∷ user_action i ∷ [] ]

-- `url` is that of the item, none while it has not loaded.
module _ (new_url : Text → Option Url) where
  unfoldable pub extract_hostname : Text → Text
  unfolding without_www
  extract_hostname url =
      if url == []
      then []
      else elim (new_url url) [ none ↦ [] | some parts ↦ without_www parts.hostname ]

  unfoldable pub extracted_info : List UrlParsingRule → Option Text → Option ExtractedUserInfo
  extracted_info rules none = none
  extracted_info rules (some url) = if url == [] then none else extract_user_info new_url rules url

  unfoldable pub hostname_of : Option Text → Text
  unfolding extract_hostname
  hostname_of none = []
  hostname_of (some url) = if url == [] then [] else extract_hostname url

  unfoldable pub menu_actions : Bool → List UrlParsingRule → Option Text → List MenuAction
  unfolding hostname_of extracted_info block_actions
  menu_actions read_only rules url =
      (if read_only then [] else block_actions (hostname_of url) (extracted_info rules url))
      ++ close ∷ []

or_blank : Option Text → Text
or_blank none = []
or_blank (some t) = t

unfoldable pub success_message_of : BlockRuleInput → Text
unfolding or_blank
success_message_of rule =
    if rule.rule_type == codes "domain"
    then codes "Blocked domain: " ++ rule.value
    else if rule.rule_type == codes "user_domain"
    then codes "Blocked user @ domain: " ++ rule.value ++ codes "@" ++ or_blank rule.domain
    else if rule.rule_type == codes "user"
    then codes "Blocked user: " ++ rule.value
    else codes "Block rule added successfully"

unfoldable pub format_block_rule_success_message : List BlockRuleInput → Text
unfolding success_message_of
format_block_rule_success_message [] = codes "Block rule added successfully"
format_block_rule_success_message (rule ∷ rules) = success_message_of rule

-- The layout of an image, from its natural width and height.
pub data Layout : Type 0 where
  hero icon other : Layout

unfoldable pub layout_of : ℕ → ℕ → Layout
layout_of width height =
    if height == 0
    then other
    else if ltb (11 * height) (10 * width)
    then hero
    else if leb (9 * height) (10 * width) && leb (10 * width) (11 * height)
    then icon
    else other
