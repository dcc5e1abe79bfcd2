-- ===== src/Categories/Names.antt =====
-- The names that `normalizeCategories` returns.
use feed_reader.Common.{
  ◌≡◌, false, ◌&&◌, Option, none, some, List, [], ◌∷◌, ◌++◌, ◌==◌, nat_eq, list_eq, Bool-cases,
  Option-cases, inl, inr,
}
use feed_reader.Common.Lists.{drop, All}
use feed_reader.Common.Text.{Text, trim, starts_with, ends_with, split}
use feed_reader.Common.Trimming.{Lacks, All-drop, All-take, All-trim, trim-trim, split-Lacks}
use feed_reader.Categories.{
  drop_last, is_quoted, normalize_value, clean, split_values, without_brackets,
  normalize_categories,
}

-- A name with something in it, no space around it and no comma.
pub record IsName (v : Text) : Type 0 where
  pub filled : (v == []) ≡ false
  pub trimmed : trim v ≡ v
  pub one : Lacks b',' v

normalize_value-trim : (v : Text) → trim (normalize_value v) ≡ normalize_value v
unfolding normalize_value
normalize_value-trim v = elim (Bool-cases (is_quoted (trim v))) [
  | inl e ↦ rw e (trim-trim (drop_last (drop 1 (trim v))))
  | inr e ↦ rw e (trim-trim v)
]

normalize_value-Lacks : (v : Text) → Lacks b',' v → Lacks b',' (normalize_value v)
unfolding normalize_value
normalize_value-Lacks v lacks = elim (Bool-cases (is_quoted (trim v))) [
  | inl e ↦ rw e (
      All-trim _ (drop_last (drop 1 (trim v)))
        (All-take _ _ (drop 1 (trim v)) (All-drop _ 1 (trim v) (All-trim _ v lacks))))
  | inr e ↦ rw e (All-trim _ v lacks)
]

clean-IsName : (values : List Text) → All (Lacks b',') values → All IsName (clean values)
unfolding clean
clean-IsName [] all = tt
clean-IsName (v ∷ values) (lacks, all) = elim (Bool-cases (normalize_value v == [])) [
  | inl e ↦ rw e (clean-IsName values all)
  | inr e ↦ rw e (
    record { filled = e; trimmed = normalize_value-trim v; one = normalize_value-Lacks v lacks },
    clean-IsName values all,
  )
]

All-more : (s t : List Text) → All (Lacks b',') s → All (Lacks b',') t → All (Lacks b',') (s ++ t)
All-more [] t all more = more
All-more (v ∷ s) t (h, all) more = (h, All-more s t all more)

split_values-Lacks : (values : List (Option Text)) → All (Lacks b',') (split_values values)
unfolding split_values
split_values-Lacks [] = tt
split_values-Lacks (none ∷ values) = split_values-Lacks values
split_values-Lacks (some v ∷ values) =
    All-more (split b',' v) (split_values values) (split-Lacks b',' v) (split_values-Lacks values)

-- Every category returned is a name, whatever the text holds and however it is parsed.
pub normalize_categories-IsName :
    (parse_array : Text → Option (List (Option Text))) (categories : Text)
    → All IsName (normalize_categories parse_array categories)
unfolding normalize_categories
normalize_categories-IsName parse_array categories =
    let trimmed = trim categories in
    let fallback = clean-IsName _ (split-Lacks b',' (without_brackets trimmed)) in
    elim (Bool-cases (categories == [])) [
      | inl e ↦ rw e tt
      | inr e ↦
          rw e
            (elim (Bool-cases (starts_with trimmed (b'[' ∷ []) && ends_with trimmed (b']' ∷ []))) [
              | inr f ↦ rw f fallback
              | inl f ↦ rw f (elim (Option-cases (parse_array trimmed)) [
                | inl p ↦ rw p fallback
                | inr (values, p) ↦ rw p (clean-IsName _ (split_values-Lacks values))
              ])
            ])
    ]
