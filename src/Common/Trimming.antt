-- ===== src/Common/Trimming.antt =====
-- What `trim`, `slice` and `split` do to texts that are put together.
use mathlib.Core.List.{reverse, reverse-cons, reverse-append, reverse-reverse}
use feed_reader.Common.Tests.{leb, ◌==◌, nat_eq, list_eq, ==_refl, Bool-cases}
use Prim.Native.Nat.{ℕ, zero, suc, ◌-◌}
use mathlib.Core.Path.{◌≡◌, refl, ap, ◌∙◌}
use mathlib.Core.Logic.{◌⊎◌, inl, inr}
use mathlib.Core.Bool.{true, false}
use mathlib.Core.List.{List, [], ◌∷◌, ◌++◌}
use native.Mathlib.Omega.{arith}
use feed_reader.Common.Lists.{length, take, drop, All}
use feed_reader.Common.Text.{Text, trim, trim_start, split, split_cons, ends_with, is_space}

pub take-length-append : (s t : Text) → take (length s) (s ++ t) ≡ s
take-length-append [] t = refl
take-length-append (c ∷ s) t = ap (λ (u : Text). c ∷ u) (take-length-append s t)

pub drop-length-append : (s t : Text) → drop (length s) (s ++ t) ≡ t
drop-length-append [] t = refl
drop-length-append (c ∷ s) t = drop-length-append s t

pub length-more : (s : Text) (d : ℕ) → length (s ++ d ∷ []) ≡ suc (length s)
length-more [] d = refl
length-more (c ∷ s) d = ap suc (length-more s d)

length-before : (s : Text) (d : ℕ) → length (s ++ d ∷ []) - 1 ≡ length s
length-before s d = omega (arith, length-more s d)

-- `s.slice(0, -1)` and `s.endsWith(d)` of a text whose last unit is `d`.
pub take-more : (s : Text) (d : ℕ) → take (length (s ++ d ∷ []) - 1) (s ++ d ∷ []) ≡ s
take-more s d = ap (λ n. take n (s ++ d ∷ [])) (length-before s d) ∙ take-length-append s (d ∷ [])

pub ends_with-more : (s : Text) (d : ℕ) → ends_with (s ++ d ∷ []) (d ∷ []) ≡ true
ends_with-more s d =
    let last : drop (length (s ++ d ∷ []) - 1) (s ++ d ∷ []) ≡ d ∷ [] =
      ap (λ n. drop n (s ++ d ∷ [])) (length-before s d) ∙ drop-length-append s (d ∷ []) in
    let long : leb 1 (length (s ++ d ∷ [])) ≡ true = rw (length-more s d) (ground arith) in
    rw (long, last) (ground arith)

trim_start-first :
    (s : Text)
    → (trim_start s ≡ []) ⊎ ((c : ℕ) × (t : Text) × (is_space c ≡ false) × (trim_start s ≡ c ∷ t))
unfolding trim_start
trim_start-first [] = inl refl
trim_start-first (c ∷ s) = elim (Bool-cases (is_space c)) [
  | inl e ↦ rw e (trim_start-first s)
  | inr e ↦ rw e (inr (c, s, e, refl))
]

trim_start-kept : (c : ℕ) (s : Text) → is_space c ≡ false → trim_start (c ∷ s) ≡ c ∷ s
unfolding trim_start
trim_start-kept c s h = rw h refl

trim_start-trim_start : (s : Text) → trim_start (trim_start s) ≡ trim_start s
unfolding trim_start
trim_start-trim_start s = elim (trim_start-first s) [
  | inl e ↦ rw e refl
  | inr (c, t, h, e) ↦ rw e (trim_start-kept c t h)
]

trim_start-more :
    (s : Text) (c : ℕ) → is_space c ≡ false → trim_start (s ++ c ∷ []) ≡ trim_start s ++ c ∷ []
unfolding trim_start
trim_start-more [] c h = rw h refl
trim_start-more (d ∷ s) c h = elim (Bool-cases (is_space d)) [
  | inl e ↦ rw e (trim_start-more s c h)
  | inr e ↦ rw e refl
]

-- `trimEnd`
abbrev trim_end : Text → Text
trim_end s = reverse (trim_start (reverse s))

trim_end-cons : (c : ℕ) (s : Text) → is_space c ≡ false → trim_end (c ∷ s) ≡ c ∷ trim_end s
trim_end-cons c s h =
    ap (λ (t : Text). reverse (trim_start t)) (reverse-cons c s)
    ∙ ap reverse (trim_start-more (reverse s) c h)
    ∙ reverse-append (trim_start (reverse s)) (c ∷ [])

trim_end-more : (s : Text) (d : ℕ) → is_space d ≡ false → trim_end (s ++ d ∷ []) ≡ s ++ d ∷ []
trim_end-more s d h =
    ap (λ (t : Text). reverse (trim_start t)) (reverse-append s (d ∷ []))
    ∙ ap reverse (trim_start-kept d (reverse s) h)
    ∙ reverse-cons d (reverse s)
    ∙ ap (λ (t : Text). t ++ d ∷ []) (reverse-reverse s)

trim_end-trim_end : (s : Text) → trim_end (trim_end s) ≡ trim_end s
trim_end-trim_end s =
    ap (λ (t : Text). reverse (trim_start t)) (reverse-reverse (trim_start (reverse s)))
    ∙ ap reverse (trim_start-trim_start (reverse s))

-- A text between two units that are no spaces is its own `trim`.
pub trim-between :
    (c d : ℕ) (s : Text)
    → is_space c ≡ false
    → is_space d ≡ false
    → trim (c ∷ s ++ d ∷ []) ≡ c ∷ s ++ d ∷ []
unfolding trim
trim-between c d s hc hd =
    ap trim_end (trim_start-kept c (s ++ d ∷ []) hc) ∙ trim_end-more (c ∷ s) d hd

pub trim-trim : (s : Text) → trim (trim s) ≡ trim s
unfolding trim trim_start
trim-trim s = elim (trim_start-first s) [
  | inl e ↦ rw e refl
  | inr (c, t, h, e) ↦
      rw (e, trim_end-cons c t h, trim_start-kept c (trim_end t) h)
        (trim_end-cons c (trim_end t) h ∙ ap (λ (u : Text). c ∷ u) (trim_end-trim_end t))
]

-- What holds of every unit holds of every unit of a part.
module _ (P : ℕ → Type 0) where
  pub All-drop : (n : ℕ) (s : Text) → All P s → All P (drop n s)
  All-drop zero s all = all
  All-drop (suc n) [] all = tt
  All-drop (suc n) (c ∷ s) (h, all) = All-drop n s all

  pub All-take : (n : ℕ) (s : Text) → All P s → All P (take n s)
  All-take zero s all = tt
  All-take (suc n) [] all = tt
  All-take (suc n) (c ∷ s) (h, all) = (h, All-take n s all)

  pub All-append : (s t : Text) → All P s → All P t → All P (s ++ t)
  All-append [] t all more = more
  All-append (c ∷ s) t (h, all) more = (h, All-append s t all more)

  All-reverse : (s : Text) → All P s → All P (reverse s)
  All-reverse [] all = tt
  All-reverse (c ∷ s) (h, all) =
      rw (reverse-cons c s) (All-append (reverse s) (c ∷ []) (All-reverse s all) (h, tt))

  All-trim_start : (s : Text) → All P s → All P (trim_start s)
  unfolding trim_start
  All-trim_start [] all = tt
  All-trim_start (c ∷ s) (h, all) = elim (Bool-cases (is_space c)) [
    | inl e ↦ rw e (All-trim_start s all)
    | inr e ↦ rw e (h, all)
  ]

  pub All-trim : (s : Text) → All P s → All P (trim s)
  unfolding trim
  All-trim s all =
      All-reverse (trim_start (reverse (trim_start s))) (
        All-trim_start (reverse (trim_start s)) (All-reverse (trim_start s) (All-trim_start s all)))

-- The separator is not in the text.
abbrev pub Lacks : ℕ → Text → Type 0
Lacks sep = All (λ c. (c == sep) ≡ false)

split_cons-Lacks :
    (sep c : ℕ) (ps : List Text)
    → (c == sep) ≡ false
    → All (Lacks sep) ps
    → All (Lacks sep) (split_cons c ps)
split_cons-Lacks sep c [] h all = ((h, tt), tt)
split_cons-Lacks sep c (p ∷ ps) h (lacks, all) = ((h, lacks), all)

-- No part has the separator.
pub split-Lacks : (sep : ℕ) (s : Text) → All (Lacks sep) (split sep s)
split-Lacks sep [] = (tt, tt)
split-Lacks sep (c ∷ s) = elim (Bool-cases (c == sep)) [
  | inl e ↦ rw e (tt, split-Lacks sep s)
  | inr e ↦ rw e (split_cons-Lacks sep c (split sep s) e (split-Lacks sep s))
]

pub split-one : (sep : ℕ) (p : Text) → Lacks sep p → split sep p ≡ p ∷ []
split-one sep [] lacks = refl
split-one sep (c ∷ p) (h, lacks) = rw (h, split-one sep p lacks) refl

pub split-append : (sep : ℕ) (p s : Text) → Lacks sep p → split sep (p ++ sep ∷ s) ≡ p ∷ split sep s
split-append sep [] s lacks = rw (==_refl sep) refl
split-append sep (c ∷ p) s (h, lacks) = rw (h, split-append sep p s lacks) refl
