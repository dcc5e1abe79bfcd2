-- ===== src/Mocks/ItemHandlers.antt =====
-- handlers.stateful.ts: the handlers of /items and /item-reads. The numbers of a query are given as
-- `Number.parseInt` reads them: `none` is NaN.
use feed_reader.Common.{
  ℕ, ◌-◌, String, if◌then◌else◌, Bool, true, false, Option, none, some, List, [], ◌∷◌, map, ◌==◌,
  string_eq,
}
use Prim.Native.String
use feed_reader.Common.Int.{ℤ, pos, negsuc, ◌+ℤ◌, ltb_ℤ}
use feed_reader.Common.Lists.{filter, length, any, take, drop}
use feed_reader.Common.Maps.{set}
use feed_reader.Common.Sorting.{sort}
use feed_reader.Mocks.Store.{Db, Collection, ItemJson, ItemReadJson, now}

-- A query; a missing or an empty page token is `none`, and `since` is `none` if it is missing or is
-- not a date.
pub record PageQuery : Type 0 where
  pub page_token : Option (Option ℤ)
  pub page_size : Option ℤ
  pub is_read : Option Bool
  pub since : Option ℤ

-- A page; `none` is the empty token.
pub record Page (A : Type 0) : Type 0 where
  pub entries : List A
  pub next_page_token : Option ℤ

-- The index that `slice` makes of a number.
abbrev pub slice_index : ℕ → ℤ → ℕ
slice_index len (pos n) = n
slice_index len (negsuc n) = len - n - 1

-- `xs.slice(start, stop)`
unfoldable pub slice : {A : Type 0} → ℤ → ℤ → List A → List A
slice start stop xs =
    let from = slice_index (length xs) start in
    take (slice_index (length xs) stop - from) (drop from xs)

abbrev pub start_of : Option (Option ℤ) → ℤ
start_of none = pos 0
start_of (some none) = pos 0
start_of (some (some start)) = start

-- `xs.slice(start, start + pageSize)` and the token of the page behind it.
unfoldable pub page_of : {A : Type 0} → ℤ → Option ℤ → List A → Page A
unfolding slice
page_of start none xs = record { entries = []; next_page_token = none }
page_of start (some page_size) xs = record {
  entries = slice start (start +ℤ page_size) xs;
  next_page_token =
      if ltb_ℤ (start +ℤ page_size) (pos (length xs)) then some (start +ℤ page_size) else none;
}

abbrev same_bool : Bool → Bool → Bool
same_bool true b = b
same_bool false true = false
same_bool false false = true

unfoldable pub with_state : Option Bool → List ItemJson → List ItemJson
with_state none items = items
with_state (some is_read) items = filter (λ (item : ItemJson). same_bool item.is_read is_read) items

abbrev later_than : ℤ → Option ℤ → Bool
later_than since none = false
later_than since (some time) = ltb_ℤ since time

unfoldable pub published_since : (String → Option ℤ) → Option ℤ → List ItemJson → List ItemJson
published_since parse_date none items = items
published_since parse_date (some since) items =
    filter (λ (item : ItemJson). later_than since (parse_date item.published_at)) items

-- GET /items
unfoldable pub list_items : (String → Option ℤ) → PageQuery → Db → Page ItemJson
unfolding with_state published_since page_of
list_items parse_date query db =
    page_of (start_of query.page_token) query.page_size
      (published_since parse_date query.since (with_state query.is_read db.items))

unfoldable pub find_item : String → List ItemJson → ItemJson
find_item id [] = record {
  id = id;
  url = some (String.◌++◌ "https://example.com/item" id);
  title = String.◌++◌ "Item " id;
  description = some (String.◌++◌ "<p>Full content for item " (String.◌++◌ id "</p>"));
  published_at = now;
  feed_id = none;
  is_read = false;
  author = some "Mock Author";
  content = none;
  image_url = none;
  categories = none;
  created_at = now;
}
find_item id (item ∷ items) = if item.id == id then item else find_item id items

-- GET /items/:id
unfoldable pub get_item : String → Db → ItemJson
unfolding find_item
get_item id db = find_item id db.items

-- 2026-03-01T00:00:00Z
abbrev pub status_time : ℤ
status_time = pos 1772323200000

-- POST /items/status
module _ (c : Collection) where
  unfoldable pub set_status : Bool → List String → Db → Db
  unfolding set
  set_status is_read [] db = db
  set_status is_read (id ∷ ids) db = set_status is_read ids (record db {
    items =
        if any db.items (λ (item : ItemJson). item.id == id)
        then c.update (λ (item : ItemJson). item.id == id)
            (λ item. record item { is_read = is_read }) db.items
        else db.items;
    item_reads = set id (is_read, status_time) db.item_reads;
  })

  unfoldable pub post_status : Option (List String) → Option Bool → Db → Db
  unfolding set_status
  post_status none is_read db = db
  post_status (some ids) none db = db
  post_status (some ids) (some is_read) db = set_status is_read ids db

abbrev read_json : String × (Bool × ℤ) → ItemReadJson
read_json (id, (is_read, time)) = record { item_id = id; is_read = is_read; updated_at = time }

-- The comparison of two reads; `id_le` is the locale's comparison of their ids.
unfoldable pub read_le : (String → String → Bool) → ItemReadJson → ItemReadJson → Bool
read_le id_le a b =
    if ltb_ℤ a.updated_at b.updated_at
    then true
    else if ltb_ℤ b.updated_at a.updated_at
    then false
    else id_le a.item_id b.item_id

unfoldable pub reads_from : PageQuery → List ItemReadJson → List ItemReadJson
unfolding slice
reads_from query reads = elim query.page_token [
  | some token ↦ slice (start_of (some token)) (pos (length reads)) reads
  | none ↦ elim query.since [
    | none ↦ reads
    | some since ↦ filter (λ (r : ItemReadJson). ltb_ℤ since r.updated_at) reads
  ]
]

abbrev page_of_reads : ℤ → Option ℤ → List ItemReadJson → Page ItemReadJson
page_of_reads start none reads = record { entries = []; next_page_token = none }
page_of_reads start (some page_size) reads = record {
  entries = slice (pos 0) page_size reads;
  next_page_token =
      if ltb_ℤ page_size (pos (length reads)) then some (start +ℤ page_size) else none;
}

-- GET /item-reads
unfoldable pub list_item_reads : (String → String → Bool) → PageQuery → Db → Page ItemReadJson
unfolding sort read_le reads_from slice
list_item_reads id_le query db =
    page_of_reads (start_of query.page_token) query.page_size
      (reads_from query (sort (read_le id_le) (map read_json db.item_reads)))
