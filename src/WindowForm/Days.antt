-- ===== src/WindowForm/Days.antt =====
-- The days of an ignore window that the form's boxes select.
use feed_reader.Common.{
  ℕ, ◌≡◌, refl, ◌∙◌, Bool, true, not, ◌&&◌, ◌||◌, List, [], ◌∷◌, ◌++◌, arith, if◌then◌else◌, leb,
  ◌==◌, nat_eq, Bool-cases, inl, inr,
}
use feed_reader.Common.Lists.{filter, includes, All}
use feed_reader.Common.Sorting.{includes-sort, sort-IsSorted, IsSorted, IsOrder}
use feed_reader.WindowForm.{toggle_day}

includes-append :
    (xs ys : List ℕ) (k : ℕ) → includes (xs ++ ys) k ≡ (includes xs k || includes ys k)
includes-append [] ys k = refl
includes-append (x ∷ xs) ys k = ground (arith, includes-append xs ys k)

includes-drop :
    (day : ℕ) (xs : List ℕ) (k : ℕ)
    → includes (filter (λ d. not (d == day)) xs) k ≡ (includes xs k && not (k == day))
includes-drop day [] k = refl
includes-drop day (x ∷ xs) k = ground (arith, includes-drop day xs k)

All-filter : (P : ℕ → Type 0) (p : ℕ → Bool) (xs : List ℕ) → All P xs → All P (filter p xs)
All-filter P p [] all = tt
All-filter P p (x ∷ xs) (here, all) = elim (Bool-cases (p x)) [
  | inl e ↦ rw e (here, All-filter P p xs all)
  | inr e ↦ rw e (All-filter P p xs all)
]

filter-IsSorted : (p : ℕ → Bool) (xs : List ℕ) → IsSorted leb xs → IsSorted leb (filter p xs)
filter-IsSorted p [] s = tt
filter-IsSorted p (x ∷ xs) (least, s) = elim (Bool-cases (p x)) [
  | inl e ↦ rw e (All-filter (λ y. leb x y ≡ true) p xs least, filter-IsSorted p xs s)
  | inr e ↦ rw e (filter-IsSorted p xs s)
]

leb-IsOrder : IsOrder leb
leb-IsOrder = record { total = λ a b h. ground arith; trans = λ a b c h k. ground arith }

-- The box of a day changes whether that day is selected and no other; days that stand in order
-- still do.
pub toggle_day_lem :
    (day : ℕ) (days : List ℕ) (k : ℕ)
    → IsSorted leb days
    → IsSorted leb (toggle_day day days)
      × (includes (toggle_day day days) k
          ≡ (if day == k then not (includes days day) else includes days k))
unfolding toggle_day
toggle_day_lem day days k sorted = elim (Bool-cases (includes days day)) [
  | inl e ↦
      rw e
        (filter-IsSorted (λ d. not (d == day)) days sorted, includes-drop day days k ∙ ground arith)
  | inr e ↦ rw e (
    sort-IsSorted leb leb-IsOrder (days ++ day ∷ []),
    includes-sort leb (days ++ day ∷ []) k ∙ includes-append days (day ∷ []) k ∙ ground arith,
  )
]
