-- ===== src/Mutations.antt =====
-- The mutations of feed-db.ts, tag-db.ts, block-db.ts and ignore-window-db.ts: the cached queries that
-- each invalidates when the server has accepted it.
pub mod Freshness
use feed_reader.Common.{
  ℕ, String, Bool, true, false, ◌||◌, Option, none, some, List, [], ◌∷◌, if◌then◌else◌, ◌==◌,
  nat_eq,
}
use feed_reader.Common.Lists.{any}

-- The keys of the queries, without further parameters.
pub data QueryKey : Type 0 where
  feeds tags feed_tags items item_reads url_rules block_rules : QueryKey
  ignore_windows feed_ignore_windows tag_ignore_windows : QueryKey

-- The mutations, with the arguments of their functions.
pub data Mutation : Type 0 where
  manage_feed_tags : (feed_ids add_tag_ids remove_tag_ids : List String) → Mutation
  suspend_feeds : (feed_ids : List String) (suspend_seconds : ℕ) → Mutation
  feed_insert : (url : String) (tag_ids : List String) → Mutation
  feed_delete : (id : String) → Mutation
  tag_insert : (name : String) → Mutation
  tag_delete : (id : String) → Mutation
  url_parsing_rule_insert : (domain rule_type pattern_text : String) → Mutation
  url_parsing_rule_delete : (id : String) → Mutation
  item_block_rule_delete : (id : String) → Mutation
  ignore_window_delete : (id : String) → Mutation
  manage_feed_ignore_windows : (feed_ids add_ids remove_ids : List String) → Mutation
  manage_tag_ignore_windows : (tag_ids add_ids remove_ids : List String) → Mutation

unfoldable pub invalidated : Mutation → List QueryKey
invalidated (manage_feed_tags feed_ids add_tag_ids remove_tag_ids) = feeds ∷ tags ∷ feed_tags ∷ []
invalidated (suspend_feeds feed_ids suspend_seconds) = feeds ∷ []
invalidated (feed_insert url tag_ids) = feeds ∷ tags ∷ feed_tags ∷ []
invalidated (feed_delete id) = feeds ∷ tags ∷ feed_tags ∷ []
invalidated (tag_insert name) = tags ∷ []
invalidated (tag_delete id) = tags ∷ []
invalidated (url_parsing_rule_insert domain rule_type pattern_text) = url_rules ∷ []
invalidated (url_parsing_rule_delete id) = url_rules ∷ []
invalidated (item_block_rule_delete id) = block_rules ∷ []
invalidated (ignore_window_delete id) =
    ignore_windows ∷ feed_ignore_windows ∷ tag_ignore_windows ∷ []
invalidated (manage_feed_ignore_windows feed_ids add_ids remove_ids) =
    feed_ignore_windows ∷ feeds ∷ []
invalidated (manage_tag_ignore_windows tag_ids add_ids remove_ids) = tag_ignore_windows ∷ tags ∷ []

-- The queries that the call invalidates, and whether it throws: nothing comes after a refusal.
unfoldable pub mutate : Bool → Mutation → List QueryKey × Bool
unfolding invalidated
mutate accepted m = if accepted then (invalidated m, false) else ([], true)

abbrev pub key_code : QueryKey → ℕ
key_code feeds = 0
key_code tags = 1
key_code feed_tags = 2
key_code items = 3
key_code item_reads = 4
key_code url_rules = 5
key_code block_rules = 6
key_code ignore_windows = 7
key_code feed_ignore_windows = 8
key_code tag_ignore_windows = 9

abbrev pub has_key : List QueryKey → QueryKey → Bool
has_key keys k = any keys (λ j. key_code j == key_code k)
