-- ===== src/Categories.antt =====
-- `normalizeCategories` of frontend/src/lib/item-utils.ts. Texts are lists of UTF-16 code units.
pub mod Names
pub mod Lists
use feed_reader.Common.{
  ◌-◌, Bool, not, ◌&&◌, Option, none, some, List, [], ◌∷◌, ◌++◌, map, if◌then◌else◌, ◌==◌, nat_eq,
  list_eq, leb,
}
use feed_reader.Common.Lists.{length, take, drop, filter}
use feed_reader.Common.Text.{Text, trim, starts_with, ends_with, split}

-- `s.slice(0, -1)`
abbrev pub drop_last : Text → Text
drop_last s = take (length s - 1) s

abbrev pub is_quoted : Text → Bool
is_quoted s = leb 2 (length s) && (starts_with s (b'"' ∷ []) && ends_with s (b'"' ∷ []))

unfoldable pub normalize_value : Text → Text
unfolding trim
normalize_value value =
    let value_trimmed = trim value in
    if is_quoted value_trimmed then trim (drop_last (drop 1 value_trimmed)) else value_trimmed

-- The last two calls of both ways.
unfoldable pub clean : List Text → List Text
unfolding normalize_value
clean values = filter (λ v. not (v == [])) (map normalize_value values)

-- `filter` and `flatMap`; `none` is null.
unfoldable pub split_values : List (Option Text) → List Text
split_values [] = []
split_values (none ∷ values) = split_values values
split_values (some value ∷ values) = split b',' value ++ split_values values

unfoldable pub without_brackets : Text → Text
without_brackets s =
    let opened = if starts_with s (b'[' ∷ []) then drop 1 s else s in
    if ends_with opened (b']' ∷ []) then drop_last opened else opened

-- `parse_array text` is the array that `JSON.parse` reads, each value by `String`, null as `none`; it
-- is `none` itself where a call throws or the value is no array.
module _ (parse_array : Text → Option (List (Option Text))) where
  unfoldable pub normalize_categories : Text → List Text
  unfolding clean split_values without_brackets trim
  normalize_categories categories =
      if categories == []
      then []
      else let trimmed = trim categories in
        let fallback = clean (split b',' (without_brackets trimmed)) in
        if starts_with trimmed (b'[' ∷ []) && ends_with trimmed (b']' ∷ [])
        then elim (parse_array trimmed) [
          | none ↦ fallback
          | some values ↦ clean (split_values values)
        ]
        else fallback
