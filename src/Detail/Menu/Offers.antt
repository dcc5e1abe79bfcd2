-- ===== src/Detail/Menu/Offers.antt =====
-- What the menu offers, and when.
use feed_reader.Common.{
  append_assoc, ◌≡◌, refl, ◌≢◌, true, false, Option, none, some, List, [], ◌∷◌, ◌++◌, if◌then◌else◌,
  ◌==◌, nat_eq, list_eq,
}
use feed_reader.Common.Lists.{All, includes}
use feed_reader.Common.Text.{Text}
use feed_reader.Csv.Rules.{valid_types}
use feed_reader.UrlParser.{Url, UrlParsingRule, ExtractedUserInfo}
use feed_reader.UrlParser.Readings.{subdomain, path}
use feed_reader.UrlParser.Extracts.{ReadsFirst, here, later, extract_user_info_iff}
use feed_reader.Detail.Menu.{
  BlockRuleInput, MenuAction, block, close, domain_action, user_domain_action, user_action,
  block_actions, extracted_info, hostname_of, menu_actions,
}

-- A rule whose type is one of those that an import takes, with a value.
abbrev pub IsBlockable : BlockRuleInput → Type 0
IsBlockable rule = (includes valid_types rule.rule_type ≡ true) × ((rule.value == []) ≡ false)

-- The entry starts a mutation that adds one such rule, or closes the view.
abbrev pub IsOffer : MenuAction → Type 0
IsOffer (block label []) = ⊥
IsOffer (block label (rule ∷ [])) = IsBlockable rule
IsOffer (block label (rule ∷ other ∷ rules)) = ⊥
IsOffer close = Unit

pub block_actions-IsOffer :
    (hostname : Text) (info : Option ExtractedUserInfo)
    → ((i : ExtractedUserInfo) → info ≡ some i → (i.user == []) ≡ false)
    → All IsOffer (block_actions hostname info)
unfolding block_actions domain_action user_domain_action user_action
block_actions-IsOffer [] none named = tt
block_actions-IsOffer [] (some i) named = ((refl, named i refl), ((refl, named i refl), tt))
block_actions-IsOffer (c ∷ cs) none named = ((refl, refl), tt)
block_actions-IsOffer (c ∷ cs) (some i) named =
    ((refl, refl), ((refl, named i refl), ((refl, named i refl), tt)))

nonempty : (t : Text) → t ≢ [] → (t == []) ≡ false
nonempty [] h = absurd (h refl)
nonempty (c ∷ t) h = refl

ReadsFirst-user :
    (url : Url) (info : ExtractedUserInfo) (rules : List UrlParsingRule)
    → ReadsFirst url info rules
    → (info.user == []) ≡ false
ReadsFirst-user url info rules (here (subdomain _ _ some_user _ _)) = nonempty info.user some_user
ReadsFirst-user url info rules (here (path _ _ _ some_user _ _ _)) = nonempty info.user some_user
ReadsFirst-user url info rules (later {rules = more} _ r) = ReadsFirst-user url info more r

All-append : {A : Type 0} (P : A → Type 0) (xs ys : List A) → All P xs → All P ys → All P (xs ++ ys)
All-append P [] ys all more = more
All-append P (x ∷ xs) ys (one, all) more = (one, All-append P xs ys all more)

domain_actions : Text → List MenuAction
domain_actions hostname = if hostname == [] then [] else domain_action hostname ∷ []

menu_end :
    (hostname : Text) (read : Option ExtractedUserInfo) (info : ExtractedUserInfo)
    → read ≡ some info
    → block_actions hostname read ++ (close ∷ [])
      ≡ domain_actions hostname ++ (user_domain_action info ∷ user_action info ∷ close ∷ [])
unfolding block_actions domain_actions
menu_end hostname read info e = rw e (
    append_assoc (domain_actions hostname) (user_domain_action info ∷ user_action info ∷ [])
      (close ∷ []))

module _ (new_url : Text → Option Url) (rules : List UrlParsingRule) where
  extracted_info-user :
      (url : Option Text) (info : ExtractedUserInfo)
      → extracted_info new_url rules url ≡ some info
      → (info.user == []) ≡ false
  unfolding extracted_info
  extracted_info-user none info e = cc
  extracted_info-user (some []) info e = cc
  extracted_info-user (some (c ∷ cs)) info e =
      let (url, _, first) = (extract_user_info_iff new_url rules (c ∷ cs) info).0 e in
      ReadsFirst-user url info rules first

  -- The menu only closes the view on a read-only page. On any other, each of its entries closes the
  -- view or blocks by one rule, of a type that an import takes and with a value that is not empty.
  pub menu_actions-IsOffer :
      (url : Option Text)
      → (menu_actions new_url true rules url ≡ close ∷ [])
        × All IsOffer (menu_actions new_url false rules url)
  unfolding menu_actions
  menu_actions-IsOffer url = (
    refl,
    All-append IsOffer (block_actions (hostname_of new_url url) (extracted_info new_url rules url))
        (close ∷ [])
        (block_actions-IsOffer (hostname_of new_url url) (extracted_info new_url rules url)
          (extracted_info-user url))
        (tt, tt),
  )

  -- Where the URL parsing rules read a user from the item's URL, the menu ends with the entry that
  -- blocks that user on the domain read, the one that blocks the user everywhere, and the close.
  menu_actions-user :
      (url : Option Text) (info : ExtractedUserInfo)
      → extracted_info new_url rules url ≡ some info
      → menu_actions new_url false rules url
        ≡ domain_actions (hostname_of new_url url)
          ++ (user_domain_action info ∷ user_action info ∷ close ∷ [])
  unfolding menu_actions
  menu_actions-user url info e =
      menu_end (hostname_of new_url url) (extracted_info new_url rules url) info e
