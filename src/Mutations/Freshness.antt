-- ===== src/Mutations/Freshness.antt =====
-- The mutations against the server of the tests: which cached answers they leave out of date.
use feed_reader.Common.{
  String, ◌≡◌, refl, ◌∙◌, Bool, true, false, ◌||◌, Option, none, some, List, [], ◌∷◌, ◌++◌,
  if◌then◌else◌, ◌==◌, nat_eq, string_eq, Bool-cases, inl, inr,
}
use feed_reader.Common.Lists.{any, find?}
use feed_reader.Mocks.Store.{
  Db, Collection, TagJson, FeedJson, UrlRuleJson, BlockRuleJson, IgnoreWindowJson,
  recalculate_feed_counts,
}
use feed_reader.Mocks.FeedHandlers.{
  next_tags_of, post_tag, delete_tag, post_feed, delete_feed, suspend, manage_feed, manage_feeds,
  manage_feed_tags,
}
use feed_reader.Mocks.RuleHandlers.{post_url_rule, delete_url_rule, delete_block_rule}
use feed_reader.Mocks.WindowHandlers.{
  delete_ignore_window, manage_feed_ignore_windows, manage_tag_ignore_windows,
}
use feed_reader.Mutations.{
  QueryKey, feeds, tags, feed_tags, items, item_reads, url_rules, block_rules, ignore_windows,
  feed_ignore_windows, tag_ignore_windows, Mutation, invalidated, has_key,
}
use feed_reader.Mutations.{
  manage_feed_tags as tags_managed, suspend_feeds, feed_insert, feed_delete, tag_insert, tag_delete,
  url_parsing_rule_insert, url_parsing_rule_delete, item_block_rule_delete, ignore_window_delete,
  manage_feed_ignore_windows as feed_windows_managed,
  manage_tag_ignore_windows as tag_windows_managed,
}

-- What the server does with the request of a mutation. `random` is the id that it makes, and
-- `next_fetch_at` the time when a suspension ends.
abbrev pub serve : Collection → String → String → Mutation → Db → Db
serve c random next_fetch_at (tags_managed feed_ids add_tag_ids remove_tag_ids) db =
    manage_feed_tags c (some feed_ids) (some add_tag_ids) (some remove_tag_ids) db
serve c random next_fetch_at (suspend_feeds feed_ids suspend_seconds) db =
    suspend c next_fetch_at feed_ids db
serve c random next_fetch_at (feed_insert url tag_ids) db =
    (post_feed c random url none (some tag_ids) db).0
serve c random next_fetch_at (feed_delete id) db = delete_feed c id db
serve c random next_fetch_at (tag_insert name) db = (post_tag random name db).0
serve c random next_fetch_at (tag_delete id) db = delete_tag c id db
serve c random next_fetch_at (url_parsing_rule_insert domain rule_type pattern_text) db =
    (post_url_rule random
      (record { domain = domain; rule_type = rule_type; pattern_text = pattern_text }) db).0
serve c random next_fetch_at (url_parsing_rule_delete id) db = delete_url_rule c id db
serve c random next_fetch_at (item_block_rule_delete id) db = delete_block_rule c id db
serve c random next_fetch_at (ignore_window_delete id) db = delete_ignore_window c id db
serve c random next_fetch_at (feed_windows_managed feed_ids add_ids remove_ids) db =
    manage_feed_ignore_windows c (some feed_ids) (some add_ids) (some remove_ids) db
serve c random next_fetch_at (tag_windows_managed tag_ids add_ids remove_ids) db =
    manage_tag_ignore_windows c (some tag_ids) (some add_ids) (some remove_ids) db

-- The records behind the answer to a query are the same. Those of the links between feeds and tags
-- stand with the feeds.
abbrev pub Unchanged : QueryKey → Db → Db → Type 0
Unchanged feeds a b = a.feeds ≡ b.feeds
Unchanged tags a b = a.tags ≡ b.tags
Unchanged feed_tags a b = a.feeds ≡ b.feeds
Unchanged items a b = a.items ≡ b.items
Unchanged item_reads a b = a.item_reads ≡ b.item_reads
Unchanged url_rules a b = a.url_rules ≡ b.url_rules
Unchanged block_rules a b = a.block_rules ≡ b.block_rules
Unchanged ignore_windows a b = a.ignore_windows ≡ b.ignore_windows
Unchanged feed_ignore_windows a b = a.feed_ignore_windows ≡ b.feed_ignore_windows
Unchanged tag_ignore_windows a b = a.tag_ignore_windows ≡ b.tag_ignore_windows

-- The queries that a mutation can leave out of date.
abbrev pub left_stale : Mutation → List QueryKey
left_stale (suspend_feeds feed_ids suspend_seconds) = feed_tags ∷ []
left_stale (feed_delete id) = feed_ignore_windows ∷ []
left_stale (tag_delete id) = feeds ∷ feed_tags ∷ tag_ignore_windows ∷ []
left_stale _ = []

abbrev Kept : Bool → Type 0 → Type 0
Kept true P = Unit
Kept false P = P

abbrev KeptBut : List QueryKey → Db → Db → Type 0
KeptBut keys a b =
    Kept (has_key keys feeds) (a.feeds ≡ b.feeds)
    × Kept (has_key keys tags) (a.tags ≡ b.tags)
    × Kept (has_key keys feed_tags) (a.feeds ≡ b.feeds)
    × Kept (has_key keys items) (a.items ≡ b.items)
    × Kept (has_key keys item_reads) (a.item_reads ≡ b.item_reads)
    × Kept (has_key keys url_rules) (a.url_rules ≡ b.url_rules)
    × Kept (has_key keys block_rules) (a.block_rules ≡ b.block_rules)
    × Kept (has_key keys ignore_windows) (a.ignore_windows ≡ b.ignore_windows)
    × Kept (has_key keys feed_ignore_windows) (a.feed_ignore_windows ≡ b.feed_ignore_windows)
    × Kept (has_key keys tag_ignore_windows) (a.tag_ignore_windows ≡ b.tag_ignore_windows)

kept_at : (b : Bool) (P : Type 0) → Kept b P → b ≡ false → P
kept_at true P k h = cc
kept_at false P k h = k

kept_key :
    (keys : List QueryKey) (a b : Db)
    → KeptBut keys a b
    → (k : QueryKey) → has_key keys k ≡ false
    → Unchanged k a b
kept_key keys a b (p, _, _, _, _, _, _, _, _, _) feeds h = kept_at _ _ p h
kept_key keys a b (_, p, _, _, _, _, _, _, _, _) tags h = kept_at _ _ p h
kept_key keys a b (_, _, p, _, _, _, _, _, _, _) feed_tags h = kept_at _ _ p h
kept_key keys a b (_, _, _, p, _, _, _, _, _, _) items h = kept_at _ _ p h
kept_key keys a b (_, _, _, _, p, _, _, _, _, _) item_reads h = kept_at _ _ p h
kept_key keys a b (_, _, _, _, _, p, _, _, _, _) url_rules h = kept_at _ _ p h
kept_key keys a b (_, _, _, _, _, _, p, _, _, _) block_rules h = kept_at _ _ p h
kept_key keys a b (_, _, _, _, _, _, _, p, _, _) ignore_windows h = kept_at _ _ p h
kept_key keys a b (_, _, _, _, _, _, _, _, p, _) feed_ignore_windows h = kept_at _ _ p h
kept_key keys a b (_, _, _, _, _, _, _, _, _, p) tag_ignore_windows h = kept_at _ _ p h

-- Only the feeds change.
FeedsOnly : Db → Db → Type 0
FeedsOnly a b = KeptBut (feeds ∷ feed_tags ∷ []) a b

FeedsOnly-trans : (a b d : Db) → FeedsOnly a b → FeedsOnly b d → FeedsOnly a d
unfolding FeedsOnly
FeedsOnly-trans a b d (_, p1, _, p2, p3, p4, p5, p6, p7, p8)
      (_, q1, _, q2, q3, q4, q5, q6, q7, q8) =
    (tt, p1 ∙ q1, tt, p2 ∙ q2, p3 ∙ q3, p4 ∙ q4, p5 ∙ q5, p6 ∙ q6, p7 ∙ q7, p8 ∙ q8)

FeedsOnly-if :
    (b : Bool) (fs : List FeedJson) (db : Db)
    → FeedsOnly (if b then record db { feeds = fs } else db) db
unfolding FeedsOnly
FeedsOnly-if true fs db = (tt, refl, tt, refl, refl, refl, refl, refl, refl, refl)
FeedsOnly-if false fs db = (tt, refl, tt, refl, refl, refl, refl, refl, refl, refl)

FeedsOnly-elim :
    (o : Option FeedJson) (fs : FeedJson → List FeedJson) (db : Db)
    → FeedsOnly (elim o [ none ↦ db | some feed ↦ record db { feeds = fs feed } ]) db
unfolding FeedsOnly
FeedsOnly-elim none fs db = (tt, refl, tt, refl, refl, refl, refl, refl, refl, refl)
FeedsOnly-elim (some feed) fs db = (tt, refl, tt, refl, refl, refl, refl, refl, refl, refl)

suspend-FeedsOnly :
    (c : Collection) (next_fetch_at : String) (ids : List String) (db : Db)
    → FeedsOnly (suspend c next_fetch_at ids db) db
unfolding suspend
suspend-FeedsOnly c t [] db = FeedsOnly-if false [] db
suspend-FeedsOnly c t (id ∷ ids) db =
    FeedsOnly-trans _ _ db (suspend-FeedsOnly c t ids _)
      (FeedsOnly-if (any db.feeds (λ (f : FeedJson). f.id == id)) _ db)

manage_feeds-FeedsOnly :
    (c : Collection) (add remove ids : List String) (db : Db)
    → FeedsOnly (manage_feeds c add remove ids db) db
unfolding manage_feeds manage_feed
manage_feeds-FeedsOnly c add remove [] db = FeedsOnly-if false [] db
manage_feeds-FeedsOnly c add remove (id ∷ ids) db =
    FeedsOnly-trans _ _ db (manage_feeds-FeedsOnly c add remove ids _) (
      FeedsOnly-elim (find? (λ (f : FeedJson). f.id == id) db.feeds)
        (λ feed.
          c.update (λ (f : FeedJson). f.id == id)
            (λ draft. record draft { tags = next_tags_of db.tags add remove feed.tags }) db.feeds)
        db)

url_rules-if :
    (b : Bool) (rs : List UrlRuleJson) (r : Option UrlRuleJson) (db : Db)
    → KeptBut
        (url_rules ∷ [])
        (if◌then◌else◌ {A = Db × Option UrlRuleJson} b
          (record db { url_rules = rs }, r)
          (db, none)).0
        db
url_rules-if true rs r db = (refl, refl, refl, refl, refl, tt, refl, refl, refl, refl)
url_rules-if false rs r db = (refl, refl, refl, refl, refl, tt, refl, refl, refl, refl)

kept :
    (c : Collection) (random next_fetch_at : String) (m : Mutation) (db : Db)
    → KeptBut (invalidated m ++ left_stale m) (serve c random next_fetch_at m db) db
unfolding invalidated post_tag delete_tag post_feed delete_feed manage_feed_tags
    recalculate_feed_counts post_url_rule delete_url_rule delete_block_rule delete_ignore_window
    manage_feed_ignore_windows manage_tag_ignore_windows FeedsOnly
kept c random t (tags_managed feed_ids add_tag_ids remove_tag_ids) db =
    let (_, _, _, p, q, r, s, u, v, w) =
      manage_feeds-FeedsOnly c add_tag_ids remove_tag_ids feed_ids db in
    (tt, tt, tt, p, q, r, s, u, v, w)
kept c random t (suspend_feeds feed_ids suspend_seconds) db = suspend-FeedsOnly c t feed_ids db
kept c random t (feed_insert url tag_ids) db =
    (tt, tt, tt, refl, refl, refl, refl, refl, refl, refl)
kept c random t (feed_delete id) db =
    elim (Bool-cases (any db.feeds (λ (f : FeedJson). f.id == id))) [
      | inl e ↦ rw e (tt, tt, tt, refl, refl, refl, refl, refl, tt, refl)
      | inr e ↦ rw e (tt, tt, tt, refl, refl, refl, refl, refl, tt, refl)
    ]
kept c random t (tag_insert name) db = (refl, tt, refl, refl, refl, refl, refl, refl, refl, refl)
kept c random t (tag_delete id) db = elim (Bool-cases (any db.tags (λ (g : TagJson). g.id == id))) [
  | inl e ↦ rw e (tt, tt, tt, refl, refl, refl, refl, refl, refl, tt)
  | inr e ↦ rw e (tt, tt, tt, refl, refl, refl, refl, refl, refl, tt)
]
kept c random t (url_parsing_rule_insert domain rule_type pattern_text) db =
    url_rules-if ((rule_type == "subdomain") || (rule_type == "path")) _ _ db
kept c random t (url_parsing_rule_delete id) db =
    elim (Bool-cases (any db.url_rules (λ (g : UrlRuleJson). g.id == id))) [
      | inl e ↦ rw e (refl, refl, refl, refl, refl, tt, refl, refl, refl, refl)
      | inr e ↦ rw e (refl, refl, refl, refl, refl, tt, refl, refl, refl, refl)
    ]
kept c random t (item_block_rule_delete id) db =
    elim (Bool-cases (any db.block_rules (λ (g : BlockRuleJson). g.id == id))) [
      | inl e ↦ rw e (refl, refl, refl, refl, refl, refl, tt, refl, refl, refl)
      | inr e ↦ rw e (refl, refl, refl, refl, refl, refl, tt, refl, refl, refl)
    ]
kept c random t (ignore_window_delete id) db =
    elim (Bool-cases (any db.ignore_windows (λ (g : IgnoreWindowJson). g.id == id))) [
      | inl e ↦ rw e (refl, refl, refl, refl, refl, refl, refl, tt, tt, tt)
      | inr e ↦ rw e (refl, refl, refl, refl, refl, refl, refl, tt, tt, tt)
    ]
kept c random t (feed_windows_managed feed_ids add_ids remove_ids) db =
    (tt, refl, refl, refl, refl, refl, refl, refl, tt, refl)
kept c random t (tag_windows_managed tag_ids add_ids remove_ids) db =
    (refl, tt, refl, refl, refl, refl, refl, refl, refl, tt)

-- A mutation that the server of the tests carries out leaves unchanged every answer whose query it
-- does not invalidate, except that the end of a suspension stands with the feeds behind the links,
-- that the deletion of a feed takes the feed's links to windows along, and that the deletion of a tag
-- takes the tag off the feeds and its links to windows along.
pub serve-Unchanged :
    (c : Collection) (random next_fetch_at : String) (m : Mutation) (db : Db) (k : QueryKey)
    → has_key (invalidated m ++ left_stale m) k ≡ false
    → Unchanged k (serve c random next_fetch_at m db) db
serve-Unchanged c random next_fetch_at m db k h =
    kept_key (invalidated m ++ left_stale m) (serve c random next_fetch_at m db) db
      (kept c random next_fetch_at m db) k h
