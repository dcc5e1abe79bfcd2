-- ===== src/Prefetch/Window.antt =====
-- Which ids are fetched ahead.
use feed_reader.Common.{
  ℕ, zero, suc, ◌+◌, ◌-◌, ◌≤◌, ◌<◌, min, String, ◌≡◌, refl, ap, sym, ◌∙◌, true, false, some, List,
  [], ◌∷◌, arith, leb, Bool-cases, inl, inr,
}
use feed_reader.Common.Int.{ℤ, pos, negsuc}
use feed_reader.Common.Lists.{length, get_elem?, take, drop}
use feed_reader.Prefetch.{push_ids, get_prefetch_ids}

take-all : (n : ℕ) (xs : List String) → length xs ≤ n → take n xs ≡ xs
take-all zero [] h = refl
take-all zero (x ∷ xs) h = absurd (omega arith)
take-all (suc n) [] h = refl
take-all (suc n) (x ∷ xs) h = ap (λ ys. x ∷ ys) (take-all n xs (omega (arith, h)))

length-drop : (n : ℕ) (xs : List String) → length (drop n xs) ≡ length xs - n
length-drop zero xs = omega arith
length-drop (suc n) [] = omega arith
length-drop (suc n) (x ∷ xs) = omega (arith, length-drop n xs)

-- An index in range reads the head of what is left behind it.
get_elem?-drop :
    (i : ℕ) (xs : List String)
    → i < length xs
    → (x : String) × (get_elem? xs i ≡ some x) × (drop i xs ≡ x ∷ drop (suc i) xs)
get_elem?-drop i [] h = absurd (omega (arith, h))
get_elem?-drop zero (x ∷ xs) h = (x, refl, refl)
get_elem?-drop (suc i) (x ∷ xs) h = get_elem?-drop i xs (omega (arith, h))

leb-false : (a b : ℕ) → leb a b ≡ false → b < a
leb-false a b h = ground arith

leb-true : (a b : ℕ) → leb a b ≡ true → a ≤ b
leb-true a b h = ground arith

push_ids_lem :
    (fuel i last count : ℕ) (xs : List String)
    → last < length xs
    → count + i ≡ suc last
    → count < fuel
    → push_ids fuel i last xs ≡ some (take count (drop i xs))
unfolding push_ids
push_ids_lem zero i last count xs h k more = absurd (omega (arith, more))
push_ids_lem (suc fuel) i last zero xs h k more = elim (Bool-cases (leb i last)) [
  | inl e ↦ absurd (omega (arith, leb-true i last e, k))
  | inr e ↦ rw e
]
push_ids_lem (suc fuel) i last (suc count) xs h k more =
    let (x, found, split) = get_elem?-drop i xs (omega (arith, h, k)) in
    let rest = push_ids_lem fuel (suc i) last count xs h (omega (arith, k)) (omega (arith, more)) in
    elim (Bool-cases (leb i last)) [
      | inl e ↦ rw (e, found, rest, split)
      | inr e ↦ absurd (omega (arith, leb-false i last e, k))
    ]

drop-past : (n : ℕ) (xs : List String) → length xs ≤ n → drop n xs ≡ []
drop-past zero [] h = refl
drop-past zero (x ∷ xs) h = absurd (omega (arith, h))
drop-past (suc n) [] h = refl
drop-past (suc n) (x ∷ xs) h = drop-past n xs (omega (arith, h))

-- The bound of the loop cuts off what the window does, or nothing.
take-window :
    (n : ℕ) (xs : List String)
    → n < length xs
    → take (min (length xs - 1) (n + 5) - n) (drop (suc n) xs) ≡ take 5 (drop (suc n) xs)
take-window n xs h =
    let ys = drop (suc n) xs in
    let left = length-drop (suc n) xs in
    elim (Bool-cases (leb (n + 5) (length xs - 1))) [
      | inl e ↦
          let all_five : min (length xs - 1) (n + 5) - n ≡ 5 =
            omega (arith, leb-true (n + 5) (length xs - 1) e) in
          ap (λ k. take k ys) all_five
      | inr e ↦
          take-all (min (length xs - 1) (n + 5) - n) ys
            (omega (arith, left, leb-false (n + 5) (length xs - 1) e))
          ∙ sym (take-all 5 ys (omega (arith, left, leb-false (n + 5) (length xs - 1) e)))
    ]

-- The ids to prefetch are those of the five items behind the one that is shown, as far as there are
-- so many; with an index out of range there are none.
pub get_prefetch_ids_lem :
    (current_index : ℤ) (all_items : List String)
    → get_prefetch_ids current_index all_items
      ≡ some (elim current_index [ pos n ↦ take 5 (drop (suc n) all_items) | negsuc n ↦ [] ])
unfolding get_prefetch_ids
get_prefetch_ids_lem (negsuc n) xs = refl
get_prefetch_ids_lem (pos n) xs = elim (Bool-cases (leb (length xs) n)) [
  | inl e ↦
      let beyond : length xs ≤ suc n = omega (arith, leb-true (length xs) n e) in
      rw (e, drop-past (suc n) xs beyond)
  | inr e ↦
      let inside = leb-false (length xs) n e in
      rw e (
        push_ids_lem 6 (suc n) (min (length xs - 1) (n + 5)) (min (length xs - 1) (n + 5) - n) xs
          (omega (arith, inside)) (omega (arith, inside)) (omega (arith, inside))
        ∙ ap some (take-window n xs inside))
]
