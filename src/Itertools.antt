-- ===== src/Itertools.antt =====
-- The functions of the crate itertools that the modelled code calls, with what their documentation
-- says of them. A list stands for the items of an iterator.
pub mod Reference
use stwo.Prelude.{Bool, true, false, Option, none, some, List, [], ◌∷◌, ◌≡◌, ℕ, All, ◌>>=◌}

pub record Itertools : Type 1 where
  -- Removes from each section of consecutive related items all but the first.
  pub dedup_by : (A : Type 0) → (A → A → Bool) → List A → List A
  -- Consecutive pairs; an item that is left over is dropped.
  pub tuples : (A : Type 0) → List A → List (A × A)
  -- Panics (`none`) if the lengths differ.
  pub zip_eq : (A B : Type 0) → List A → List B → Option (List (A × B))
  -- Sorts by a key, and keeps the order of items with equal keys.
  pub sorted_by_key : (A : Type 0) → (A → ℕ) → List A → List A
  pub dedup_by-nil : (A : Type 0) (r : A → A → Bool) → dedup_by A r [] ≡ []
  pub dedup_by-one : (A : Type 0) (r : A → A → Bool) (a : A) → dedup_by A r (a ∷ []) ≡ a ∷ []
  pub dedup_by_related :
      (A : Type 0) (r : A → A → Bool) (a b : A) (xs : List A)
      → r a b ≡ true
      → dedup_by A r (a ∷ b ∷ xs) ≡ dedup_by A r (a ∷ xs)
  pub dedup_by_unrelated :
      (A : Type 0) (r : A → A → Bool) (a b : A) (xs : List A)
      → r a b ≡ false
      → dedup_by A r (a ∷ b ∷ xs) ≡ a ∷ dedup_by A r (b ∷ xs)
  pub tuples-nil : (A : Type 0) → tuples A [] ≡ []
  pub tuples_pair :
      (A : Type 0) (a b : A) (xs : List A) → tuples A (a ∷ b ∷ xs) ≡ (a, b) ∷ tuples A xs
  pub zip_eq-nil : (A B : Type 0) → zip_eq A B [] [] ≡ some []
  pub zip_eq-cons :
      (A B : Type 0) (a : A) (b : B) (xs : List A) (ys : List B)
      → zip_eq A B (a ∷ xs) (b ∷ ys) ≡ (zip_eq A B xs ys >>= λ rest. some ((a, b) ∷ rest))
  pub zip_eq_longer : (A B : Type 0) (a : A) (xs : List A) → zip_eq A B (a ∷ xs) [] ≡ none
  pub zip_eq_shorter : (A B : Type 0) (b : B) (ys : List B) → zip_eq A B [] (b ∷ ys) ≡ none
  -- The sort is stable, so it keeps a list whose keys are all the same.
  pub sorted_by_key_equal :
      (A : Type 0) (key : A → ℕ) (k : ℕ) (xs : List A)
      → All (λ a. key a ≡ k) xs
      → sorted_by_key A key xs ≡ xs
