-- ===== src/Items/Merge.antt =====
-- The merge of fetched values into cached ones: both go through a `Map` keyed by their ids.
use feed_reader.Common.{
  String, ◌≡◌, refl, ap, ◌∙◌, false, Option, none, some, List, [], ◌∷◌, arith, if◌then◌else◌, ◌==◌,
  ==_iff, string_eq,
}
use feed_reader.Common.Maps.{Dict, get, set, values, or_else, get-set}

pub or_else-none {ℓ} : {A : Type ℓ} (o : Option A) → or_else o none ≡ o
or_else-none none = refl
or_else-none (some a) = refl

module _ {ℓ} {A : Type ℓ} (id : A → String) where
  abbrev pub entries : List A → Dict A
  entries [] = []
  entries (a ∷ as') = (id a, a) ∷ entries as'

  -- `for (const a of as) map.set(a.id, a)`
  unfoldable pub put_all : List A → Dict A → Dict A
  unfolding set
  put_all [] m = m
  put_all (a ∷ as') m = put_all as' (set (id a) a m)

  -- `Array.from(map.values())` after both loops.
  unfoldable pub merge : List A → List A → List A
  unfolding put_all
  merge existing fresh = values (put_all fresh (put_all existing []))

  -- The last value of a list with the id.
  unfoldable pub latest : String → List A → Option A
  latest k [] = none
  latest k (a ∷ as') = or_else (latest k as') (if id a == k then some a else none)

  -- No id stands twice in the list.
  abbrev pub HasDistinctIds : List A → Type ℓ
  HasDistinctIds [] = Unit
  HasDistinctIds (a ∷ as') = (latest (id a) as' ≡ none) × HasDistinctIds as'

  -- Every entry is filed under its own id, once.
  abbrev pub IsFiled : Dict A → Type ℓ
  IsFiled [] = Unit
  IsFiled ((k, a) ∷ m) = (id a ≡ k) × (get k m ≡ none) × IsFiled m

  set-none :
      (k j : String) (a : A) (m : Dict A)
      → get j m ≡ none
      → (k == j) ≡ false
      → get j (set k a m) ≡ none
  set-none k j a m h e = get-set k j a m ∙ ground arith

  pub set-IsFiled : (a : A) (m : Dict A) → IsFiled m → IsFiled (set (id a) a m)
  unfolding set get
  set-IsFiled a [] f = (refl, refl, tt)
  set-IsFiled a ((k, b) ∷ m) (same, fresh, f) =
      ground
        (arith, ==_iff k (id a), ==_iff (id a) k, set-none (id a) k a m fresh, set-IsFiled a m f)

  pub put_all-IsFiled : (as' : List A) (m : Dict A) → IsFiled m → IsFiled (put_all as' m)
  unfolding put_all
  put_all-IsFiled [] m f = f
  put_all-IsFiled (a ∷ as') m f = put_all-IsFiled as' (set (id a) a m) (set-IsFiled a m f)

  pub get-put_all :
      (as' : List A) (k : String) (m : Dict A)
      → get k (put_all as' m) ≡ or_else (latest k as') (get k m)
  unfolding put_all latest
  get-put_all [] k m = refl
  get-put_all (a ∷ as') k m =
      ground (arith, get-put_all as' k (set (id a) a m), get-set (id a) k a m)

  pub latest-values : (k : String) (m : Dict A) → IsFiled m → latest k (values m) ≡ get k m
  unfolding latest get
  latest-values k [] f = refl
  latest-values k ((j, a) ∷ m) (same, fresh, f) =
      ground (arith, ==_iff j k, ==_iff (id a) k, latest-values k m f)

  pub values-HasDistinctIds : (m : Dict A) → IsFiled m → HasDistinctIds (values m)
  values-HasDistinctIds [] f = tt
  values-HasDistinctIds ((j, a) ∷ m) (same, fresh, f) =
      (latest-values (id a) m f ∙ rw same fresh, values-HasDistinctIds m f)

  -- The merged list has each id once, and under an id the last fetched value or, if none was
  -- fetched, the last cached one.
  pub merge_lem :
      (existing fresh : List A)
      → HasDistinctIds (merge existing fresh)
        × ((k : String)
            → latest k (merge existing fresh) ≡ or_else (latest k fresh) (latest k existing))
  unfolding merge get
  merge_lem existing fresh =
      let old = put_all existing [] in
      let filed = put_all-IsFiled fresh old (put_all-IsFiled existing [] tt) in
      (
        values-HasDistinctIds (put_all fresh old) filed,
        λ k.
            latest-values k (put_all fresh old) filed
            ∙ get-put_all fresh k old
            ∙ ap (or_else (latest k fresh))
                (get-put_all existing k [] ∙ or_else-none (latest k existing)),
      )
