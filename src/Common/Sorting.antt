-- ===== src/Common/Sorting.antt =====
-- `Array.prototype.sort`: the language makes it stable, so its result is that of an insertion sort.
use mathlib.Core.List.{List, [], ◌∷◌, Perm}
use mathlib.Core.List.Perm
use mathlib.Core.Bool.{Bool, true, false, ◌||◌}
use mathlib.Core.Logic.{inl, inr}
use mathlib.Core.Path.{◌≡◌, refl, ap, ◌∙◌}
use native.Mathlib.Omega.{arith}
use feed_reader.Common.Tests.{if◌then◌else◌, Bool-cases, Eq, ◌==◌}
use feed_reader.Common.Lists.{All, filter, includes}

module _ {ℓ} {A : Type ℓ} (le : A → A → Bool) where
  insert_sorted : A → List A → List A
  insert_sorted x [] = x ∷ []
  insert_sorted x (y ∷ ys) = if le x y then x ∷ y ∷ ys else y ∷ insert_sorted x ys

  -- `xs.sort(compare)`, where `le a b` is `compare(a, b) <= 0`.
  unfoldable pub sort : List A → List A
  unfolding insert_sorted
  sort [] = []
  sort (x ∷ xs) = insert_sorted x (sort xs)

  insert_sorted-perm : (x : A) (ys : List A) → Perm (insert_sorted x ys) (x ∷ ys)
  unfolding insert_sorted
  insert_sorted-perm x [] = Perm.refl _
  insert_sorted-perm x (y ∷ ys) = elim (Bool-cases (le x y)) [
    | inl e ↦ rw e (Perm.refl _)
    | inr e ↦ rw e (Perm.trans (Perm.cons y (insert_sorted-perm x ys)) (Perm.swap x y ys))
  ]

  -- Sorting only moves elements.
  pub sort-perm : (xs : List A) → Perm (sort xs) xs
  unfolding sort
  sort-perm [] = Perm.refl _
  sort-perm (x ∷ xs) = Perm.trans (insert_sorted-perm x (sort xs)) (Perm.cons x (sort-perm xs))

  -- Each element is no greater than any that stands behind it.
  abbrev pub IsSorted : List A → Type 0
  IsSorted [] = Unit
  IsSorted (x ∷ xs) = All (λ y. le x y ≡ true) xs × IsSorted xs

  pub record IsOrder : Type ℓ where
    pub total : (a b : A) → le a b ≡ false → le b a ≡ true
    pub trans : (a b c : A) → le a b ≡ true → le b c ≡ true → le a c ≡ true

  module _ (order : IsOrder) where
    All-below :
        (x y : A) (ys : List A)
        → le x y ≡ true
        → All (λ z. le y z ≡ true) ys
        → All (λ z. le x z ≡ true) ys
    All-below x y [] h all = tt
    All-below x y (z ∷ ys) h (here, there) = (order.trans x y z h here, All-below x y ys h there)

    All-insert :
        (w x : A) (ys : List A)
        → le w x ≡ true
        → All (λ z. le w z ≡ true) ys
        → All (λ z. le w z ≡ true) (insert_sorted x ys)
    unfolding insert_sorted
    All-insert w x [] h all = (h, tt)
    All-insert w x (y ∷ ys) h (here, there) = elim (Bool-cases (le x y)) [
      | inl e ↦ rw e (h, (here, there))
      | inr e ↦ rw e (here, All-insert w x ys h there)
    ]

    insert_sorted-IsSorted : (x : A) (ys : List A) → IsSorted ys → IsSorted (insert_sorted x ys)
    unfolding insert_sorted
    insert_sorted-IsSorted x [] s = (tt, tt)
    insert_sorted-IsSorted x (y ∷ ys) (least, s) = elim (Bool-cases (le x y)) [
      | inl e ↦ rw e ((e, All-below x y ys e least), (least, s))
      | inr e ↦ rw e (All-insert y x ys (order.total x y e) least, insert_sorted-IsSorted x ys s)
    ]

    pub sort-IsSorted : (xs : List A) → IsSorted (sort xs)
    unfolding sort
    sort-IsSorted [] = tt
    sort-IsSorted (x ∷ xs) = insert_sorted-IsSorted x (sort xs) (sort-IsSorted xs)

  module _ (p : A → Bool) (alike : (a b : A) → p a ≡ true → p b ≡ true → le a b ≡ true) where
    filter-insert : (x : A) (ys : List A) → filter p (insert_sorted x ys) ≡ filter p (x ∷ ys)
    unfolding insert_sorted
    filter-insert x [] = refl
    filter-insert x (y ∷ ys) = ground (arith, filter-insert x ys, alike x y)

    -- Elements that compare as equal keep their order.
    pub filter-sort : (xs : List A) → filter p (sort xs) ≡ filter p xs
    unfolding sort
    filter-sort [] = refl
    filter-sort (x ∷ xs) = filter-insert x (sort xs) ∙ ground (arith, filter-sort xs)

module _ {ℓ} {A : Type ℓ} ⦃e : Eq A⦄ (le : A → A → Bool) where
  includes-insert :
      (x : A) (ys : List A) (k : A)
      → includes (insert_sorted le x ys) k ≡ ((x == k) || includes ys k)
  unfolding insert_sorted
  includes-insert x [] k = refl
  includes-insert x (y ∷ ys) k = ground (arith, includes-insert x ys k)

  -- Sorting keeps the members of a list.
  pub includes-sort : (xs : List A) (k : A) → includes (sort le xs) k ≡ includes xs k
  unfolding sort
  includes-sort [] k = refl
  includes-sort (x ∷ xs) k =
      includes-insert x (sort le xs) k ∙ ap (λ b. (x == k) || b) (includes-sort xs k)
