-- ===== src/Mocks/Pages.antt =====
-- The pages of /items, read one after the other as the client reads them.
use feed_reader.Common.{
  ℕ, zero, suc, ◌+◌, ◌-◌, ◌≤◌, String, if◌then◌else◌, ◌≡◌, refl, ap, ap₂, sym, ◌∙◌, false, Option,
  none, some, List, [], ◌∷◌, ◌++◌, arith, Bool-cases, inl, inr, ltb,
}
use feed_reader.Common.Int.{ℤ, pos, ◌+ℤ◌}
use feed_reader.Common.Lists.{length, take, drop}
use feed_reader.Mocks.Store.{Db, ItemJson}
use feed_reader.Mocks.ItemHandlers.{
  PageQuery, Page, page_of, slice, start_of, list_items, with_state, published_since,
}

take-drop : {A : Type 0} (n : ℕ) (xs : List A) → take n xs ++ drop n xs ≡ xs
take-drop zero xs = refl
take-drop (suc n) [] = refl
take-drop (suc n) (x ∷ xs) = ap (λ ys. x ∷ ys) (take-drop n xs)

drop-nil : {A : Type 0} (n : ℕ) → drop {A = A} n [] ≡ []
drop-nil zero = refl
drop-nil (suc n) = refl

drop-drop : {A : Type 0} (m n : ℕ) (xs : List A) → drop n (drop m xs) ≡ drop (m + n) xs
drop-drop zero n xs = let sum : n ≡ 0 + n = omega arith in ap (λ k. drop k xs) sum
drop-drop (suc m) n [] = drop-nil n ∙ sym (drop-nil (suc m + n))
drop-drop (suc m) n (x ∷ xs) =
    let sum : suc (m + n) ≡ suc m + n = omega arith in
    drop-drop m n xs ∙ ap (λ k. drop k (x ∷ xs)) sum

drop-all : {A : Type 0} (n : ℕ) (xs : List A) → length xs ≤ n → drop n xs ≡ []
drop-all zero [] h = refl
drop-all zero (x ∷ xs) h = absurd (omega arith)
drop-all (suc n) [] h = refl
drop-all (suc n) (x ∷ xs) h = drop-all n xs (omega arith)

-- The page behind a token, as the client's loop asks for it: the query with that token.
abbrev pub turn_to : PageQuery → ℤ → PageQuery
turn_to query token = record query { page_token = some (some token) }

-- The items of the page that answers the query and of the pages behind it, `fuel` pages at most.
unfoldable pub read_all : (String → Option ℤ) → ℕ → PageQuery → Db → List ItemJson
unfolding list_items
read_all parse_date zero query db = []
read_all parse_date (suc fuel) query db =
    let page = list_items parse_date query db in
    page.entries ++ elim page.next_page_token [
      | none ↦ []
      | some token ↦ read_all parse_date fuel (turn_to query token) db
    ]

-- The items that a query is about.
abbrev pub selected : (String → Option ℤ) → PageQuery → Db → List ItemJson
selected parse_date query db =
    published_since parse_date query.since (with_state query.is_read db.items)

-- What the loop does with a page.
abbrev after : (String → Option ℤ) → ℕ → PageQuery → Db → Page ItemJson → List ItemJson
after parse_date fuel query db page = page.entries ++ elim page.next_page_token [
  | none ↦ []
  | some token ↦ read_all parse_date fuel (turn_to query token) db
]

add_pos : (a b : ℕ) → pos a +ℤ pos b ≡ pos (a + b)
unfolding ◌+ℤ◌
add_pos a b = ground arith

page_of_lem :
    {A : Type 0} (start size : ℕ) (xs : List A)
    → page_of (pos start) (some (pos (suc size))) xs ≡ record {
      entries = take (suc size) (drop start xs);
      next_page_token =
          if ltb (start + suc size) (length xs) then some (pos (start + suc size)) else none;
    }
unfolding page_of slice
page_of_lem start size xs =
    let width : start + suc size - start ≡ suc size = omega arith in
    let past_end : ltb (start + suc size + 0) (length xs + 0) ≡ ltb (start + suc size) (length xs) =
      ground arith in
    rw (add_pos start (suc size)) λ i. record {
      entries = take (width i) (drop start xs);
      next_page_token = if past_end i then some (pos (start + suc size)) else none;
    }

past : (a b n : ℕ) → ltb (a + b) n ≡ false → n ≤ a + b
past a b n h = ground arith

-- With a page size of at least 1, the pages from a start on, put together, are the selected items
-- from that start on, if there is fuel for as many pages as there are items.
pub read_all_lem :
    (parse_date : String → Option ℤ) (fuel start size : ℕ) (query : PageQuery) (db : Db)
    → start_of query.page_token ≡ pos start
    → query.page_size ≡ some (pos (suc size))
    → length (selected parse_date query db) ≤ fuel + start
    → read_all parse_date fuel query db ≡ drop start (selected parse_date query db)
unfolding read_all list_items
read_all_lem parse_date zero start size query db at wide h =
    sym (drop-all start (selected parse_date query db) (omega (arith, h)))
read_all_lem parse_date (suc fuel) start size query db at wide h =
    let xs = selected parse_date query db in
    ap₂ (λ s w. after parse_date fuel query db (page_of s w xs)) at wide
    ∙ ap (after parse_date fuel query db) (page_of_lem start size xs)
    ∙ elim (Bool-cases (ltb (start + suc size) (length xs))) [
      | inl e ↦ rw e (
          ap (λ ys. take (suc size) (drop start xs) ++ ys)
            (read_all_lem parse_date fuel (start + suc size) size
                (turn_to query (pos (start + suc size))) db refl wide (omega (arith, h))
              ∙ sym (drop-drop start (suc size) xs))
          ∙ take-drop (suc size) (drop start xs))
      | inr e ↦ rw e (
          ap (λ ys. take (suc size) (drop start xs) ++ ys)
            (sym (
              drop-drop start (suc size) xs
              ∙ drop-all (start + suc size) xs (past start (suc size) (length xs) e)))
          ∙ take-drop (suc size) (drop start xs))
    ]
