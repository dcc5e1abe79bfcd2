-- ===== src/Common/Maps.antt =====
-- JavaScript's `Map`, `Set` and plain objects used as dictionaries, keyed by strings. A map is the
-- list of its entries in the order of insertion.
use Prim.Native.String.{String}
use mathlib.Core.Path.{◌≡◌, refl}
use mathlib.Core.Logic.{inl, inr}
use mathlib.Core.Bool.{not, ◌&&◌, ◌||◌}
use mathlib.Core.List.{List, [], ◌∷◌}
use mathlib.Core.Option.{Option, none, some}
use native.Mathlib.Omega.{arith}
use feed_reader.Common.Tests.{if◌then◌else◌, ◌==◌, ==_iff, string_eq, Bool-cases}
use feed_reader.Common.Lists.{filter, includes}

abbrev pub Dict {ℓ} : Type ℓ → Type ℓ
Dict V = List (String × V)

abbrev pub or_else {ℓ} : {A : Type ℓ} → Option A → Option A → Option A
or_else (some a) o = some a
or_else none o = o

module _ {ℓ} {V : Type ℓ} where
  unfoldable pub get : String → Dict V → Option V
  get k [] = none
  get k ((j, v) ∷ m) = if j == k then some v else get k m

  -- A key that is there keeps its place.
  unfoldable pub set : String → V → Dict V → Dict V
  set k v [] = (k, v) ∷ []
  set k v ((j, w) ∷ m) = if j == k then (k, v) ∷ m else (j, w) ∷ set k v m

  unfoldable pub delete : String → Dict V → Dict V
  delete k [] = []
  delete k ((j, v) ∷ m) = if j == k then delete k m else (j, v) ∷ delete k m

  abbrev pub values : Dict V → List V
  values [] = []
  values ((_, v) ∷ m) = v ∷ values m

  -- The entries of `n` written over those of `m`, in order.
  unfoldable pub set_all : Dict V → Dict V → Dict V
  unfolding set
  set_all [] m = m
  set_all ((k, v) ∷ n) m = set_all n (set k v m)

  -- The last entry of a list of pairs with the key.
  unfoldable pub get_last : String → Dict V → Option V
  get_last k [] = none
  get_last k ((j, v) ∷ n) = or_else (get_last k n) (if j == k then some v else none)

  pub get-set :
      (k j : String) (v : V) (m : Dict V) → get j (set k v m) ≡ (if k == j then some v else get j m)
  unfolding get set
  get-set k j v [] = refl
  get-set k j v ((i, w) ∷ m) = ground (arith, ==_iff k j, ==_iff i k, ==_iff i j, get-set k j v m)

  pub get-delete :
      (k j : String) (m : Dict V) → get j (delete k m) ≡ (if k == j then none else get j m)
  unfolding get delete
  get-delete k j [] = ground arith
  get-delete k j ((i, w) ∷ m) = ground (arith, ==_iff k j, ==_iff i k, ==_iff i j, get-delete k j m)

  pub get-set_all :
      (n : Dict V) (j : String) (m : Dict V)
      → get j (set_all n m) ≡ or_else (get_last j n) (get j m)
  unfolding set_all get_last
  get-set_all [] j m = refl
  get-set_all ((k, v) ∷ n) j m = ground (arith, get-set_all n j (set k v m), get-set k j v m)

-- A set is the list of its members.
unfoldable pub add : String → List String → List String
add k s = if includes s k then s else k ∷ s

unfoldable pub remove : String → List String → List String
remove k s = filter (λ j. not (j == k)) s

unfoldable pub add_all : List String → List String → List String
unfolding add
add_all [] s = s
add_all (k ∷ ks) s = add_all ks (add k s)

unfoldable pub remove_all : List String → List String → List String
unfolding remove
remove_all [] s = s
remove_all (k ∷ ks) s = remove_all ks (remove k s)

includes-add : (k j : String) (s : List String) → includes (add k s) j ≡ ((k == j) || includes s j)
unfolding add
includes-add k j s = elim (Bool-cases (includes s k)) [
  | inl e ↦
      rw e (elim (Bool-cases (k == j)) [ inl f ↦ rw f (rw ((==_iff k j).0 f) at e) | inr f ↦ rw f ])
  | inr e ↦ rw e
]

includes-remove :
    (k j : String) (s : List String) → includes (remove k s) j ≡ (not (k == j) && includes s j)
unfolding remove
includes-remove k j [] = ground arith
includes-remove k j (i ∷ s) =
    ground (arith, ==_iff k j, ==_iff i k, ==_iff i j, includes-remove k j s)

pub includes-add_all :
    (ks : List String) (j : String) (s : List String)
    → includes (add_all ks s) j ≡ (includes ks j || includes s j)
unfolding add_all
includes-add_all [] j s = refl
includes-add_all (k ∷ ks) j s = ground (arith, includes-add_all ks j (add k s), includes-add k j s)

pub includes-remove_all :
    (ks : List String) (j : String) (s : List String)
    → includes (remove_all ks s) j ≡ (not (includes ks j) && includes s j)
unfolding remove_all
includes-remove_all [] j s = refl
includes-remove_all (k ∷ ks) j s =
    ground (arith, includes-remove_all ks j (remove k s), includes-remove k j s)
