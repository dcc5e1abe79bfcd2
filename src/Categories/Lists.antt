-- ===== src/Categories/Lists.antt =====
-- Lists of names in brackets, as feeds write them, and what `normalizeCategories` reads from them.
use feed_reader.Common.{
  ◌≡◌, refl, ap, ◌∙◌, Bool, true, false, Option, none, some, List, [], ◌∷◌, ◌++◌, map, arith,
  if◌then◌else◌, nat_eq, list_eq, leb, ◌⊎◌, inl, inr, Bool-cases,
}
use feed_reader.Common.Lists.{length, All}
use feed_reader.Common.Text.{Text, trim, split}
use feed_reader.Common.Trimming.{
  Lacks, All-append, trim-between, split-one, split-append, take-more, ends_with-more, length-more,
}
use feed_reader.Categories.{
  is_quoted, normalize_value, clean, split_values, without_brackets, normalize_categories,
}
use feed_reader.Categories.Names.{IsName}

-- A name to write, in quotes or not.
pub record Written : Type 0 where
  pub in_quotes : Bool
  pub name : Text

abbrev pub quoted : Text → Text
quoted v = b'"' ∷ v ++ b'"' ∷ []

abbrev pub print_name : Written → Text
print_name w = if w.in_quotes then quoted w.name else w.name

abbrev pub join_names : Written → List Written → Text
join_names w [] = print_name w
join_names w (x ∷ ws) = print_name w ++ b',' ∷ join_names x ws

abbrev pub print_list : Written → List Written → Text
print_list w ws = b'[' ∷ join_names w ws ++ b']' ∷ []

abbrev pub name_of : Written → Text
name_of w = w.name

-- A name that does not come with quotes of its own.
abbrev pub IsWritable : Written → Type 0
IsWritable w = IsName w.name × (is_quoted w.name ≡ false)

is_quoted-quoted : (v : Text) → is_quoted (quoted v) ≡ true
is_quoted-quoted v =
    let long : leb 2 (length (quoted v)) ≡ true = rw (length-more v b'"') (ground arith) in
    rw (long, ends_with-more (b'"' ∷ v) b'"') refl

normalize_value-quoted : (v : Text) → trim v ≡ v → normalize_value (quoted v) ≡ v
unfolding normalize_value
normalize_value-quoted v trimmed =
    rw (trim-between b'"' b'"' v refl refl, is_quoted-quoted v)
      (ap trim (take-more v b'"') ∙ trimmed)

normalize_value-name : (v : Text) → trim v ≡ v → is_quoted v ≡ false → normalize_value v ≡ v
unfolding normalize_value
normalize_value-name v trimmed bare = rw (trimmed, bare) refl

normalize_value-print_name : (w : Written) → IsWritable w → normalize_value (print_name w) ≡ w.name
normalize_value-print_name w (named, bare) = elim (Bool-cases w.in_quotes) [
  | inl e ↦ rw e (normalize_value-quoted w.name named.trimmed)
  | inr e ↦ rw e (normalize_value-name w.name named.trimmed bare)
]

print_name-Lacks : (w : Written) → IsWritable w → Lacks b',' (print_name w)
print_name-Lacks w (named, bare) = elim (Bool-cases w.in_quotes) [
  | inl e ↦ rw e (refl, All-append _ w.name (b'"' ∷ []) named.one (refl, tt))
  | inr e ↦ rw e named.one
]

split-join_names :
    (w : Written) (ws : List Written)
    → All IsWritable (w ∷ ws)
    → split b',' (join_names w ws) ≡ map print_name (w ∷ ws)
split-join_names w [] (h, all) = split-one b',' (print_name w) (print_name-Lacks w h)
split-join_names w (x ∷ ws) (h, all) =
    split-append b',' (print_name w) (join_names x ws) (print_name-Lacks w h)
    ∙ ap (λ (ps : List Text). print_name w ∷ ps) (split-join_names x ws all)

-- Texts that normalize to the names given are cleaned to these names.
clean-names :
    (text_of : Written → Text) (ws : List Written)
    → All (λ w. IsName w.name × (normalize_value (text_of w) ≡ w.name)) ws
    → clean (map text_of ws) ≡ map name_of ws
unfolding clean
clean-names text_of [] all = refl
clean-names text_of (w ∷ ws) ((named, e), all) =
    rw (e, named.filled) (ap (λ (vs : List Text). w.name ∷ vs) (clean-names text_of ws all))

printed :
    (ws : List Written)
    → All IsWritable ws
    → All (λ w. IsName w.name × (normalize_value (print_name w) ≡ w.name)) ws
printed [] all = tt
printed (w ∷ ws) (h, all) = ((h.0, normalize_value-print_name w h), printed ws all)

bare_names :
    (ws : List Written)
    → All IsWritable ws
    → All (λ w. IsName w.name × (normalize_value (name_of w) ≡ w.name)) ws
bare_names [] all = tt
bare_names (w ∷ ws) ((named, bare), all) =
    ((named, normalize_value-name w.name named.trimmed bare), bare_names ws all)

abbrev pub json_values : List Written → List (Option Text)
json_values ws = map (λ (w : Written). some w.name) ws

split_values-json_values :
    (ws : List Written) → All IsWritable ws → split_values (json_values ws) ≡ map name_of ws
unfolding split_values
split_values-json_values [] all = refl
split_values-json_values (w ∷ ws) ((named, bare), all) =
    rw (split-one b',' w.name named.one)
      (ap (λ (vs : List Text). w.name ∷ vs) (split_values-json_values ws all))

without_brackets-print_list :
    (w : Written) (ws : List Written) → without_brackets (print_list w ws) ≡ join_names w ws
unfolding without_brackets
without_brackets-print_list w ws =
    rw (ends_with-more (join_names w ws) b']') (take-more (join_names w ws) b']')

-- Names written as a list in brackets, each with or without quotes around it, read back in order,
-- if none of them is empty, has a comma, space around it or quotes of its own: both where the text
-- does not parse as JSON and where it parses as an array of these names.
pub normalize_categories-print_list :
    (parse_array : Text → Option (List (Option Text))) (w : Written) (ws : List Written)
    → All IsWritable (w ∷ ws)
    → (parse_array (print_list w ws) ≡ none)
      ⊎ (parse_array (print_list w ws) ≡ some (json_values (w ∷ ws)))
    → normalize_categories parse_array (print_list w ws) ≡ map name_of (w ∷ ws)
unfolding normalize_categories
normalize_categories-print_list parse_array w ws all (inl unparsed) =
    rw
      (
        trim-between b'[' b']' (join_names w ws) refl refl,
        ends_with-more (b'[' ∷ join_names w ws) b']',
        unparsed,
      )
      (rw
        (
          trim-between b'[' b']' (join_names w ws) refl refl,
          without_brackets-print_list w ws,
          split-join_names w ws all,
        )
        (clean-names print_name (w ∷ ws) (printed (w ∷ ws) all)))
normalize_categories-print_list parse_array w ws all (inr parsed) =
    rw
      (
        trim-between b'[' b']' (join_names w ws) refl refl,
        ends_with-more (b'[' ∷ join_names w ws) b']',
        parsed,
        split_values-json_values (w ∷ ws) all,
      )
      (clean-names name_of (w ∷ ws) (bare_names (w ∷ ws) all))
