-- ===== src/Mocks/Collections.antt =====
-- What the package @msw/data documents of the calls that remove records.
use feed_reader.Common.{if◌then◌else◌, ◌≡◌, Bool, not, List, [], ◌∷◌}
use feed_reader.Common.Lists.{filter}
use feed_reader.Mocks.Store.{Collection}

module _ {A : Type 0} where
  -- A list without the first record that passes a test.
  unfoldable pub delete_first : (A → Bool) → List A → List A
  delete_first p [] = []
  delete_first p (x ∷ xs) = if p x then xs else x ∷ delete_first p xs

-- `delete` takes the first match, `deleteMany` every match. Nothing is said of `update`, whose promise
-- the server does not await.
pub record IsCollection (c : Collection) : Type 1 where
  pub deletes : {A : Type 0} (p : A → Bool) (xs : List A) → c.delete p xs ≡ delete_first p xs
  pub deletes_many :
      {A : Type 0} (p : A → Bool) (xs : List A) → c.delete_many p xs ≡ filter (λ x. not (p x)) xs
