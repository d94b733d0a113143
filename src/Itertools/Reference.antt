-- ===== src/Itertools/Reference.antt =====
-- Functions that behave as the documentation of the crate itertools says.
use stwo.Prelude.{
  ℕ, Bool, true, false, leb, if◌then◌else◌, Option, none, some, List, [], ◌∷◌, ◌≡◌, refl, All,
  ◌>>=◌, arith,
}
use stwo.Itertools.{Itertools}

module _ {A : Type 0} where
  abbrev dedup_after : (A → A → Bool) → A → List A → List A
  dedup_after r kept [] = []
  dedup_after r kept (x ∷ xs) =
      let dropped = dedup_after r kept xs in
      let next = dedup_after r x xs in if r kept x then dropped else x ∷ next

  abbrev dedup : (A → A → Bool) → List A → List A
  dedup r [] = []
  dedup r (x ∷ xs) = x ∷ dedup_after r x xs

  abbrev pairs : List A → List (A × A)
  pairs [] = []
  pairs (a ∷ []) = []
  pairs (a ∷ b ∷ xs) = (a, b) ∷ pairs xs

  abbrev insert : (A → ℕ) → A → List A → List A
  insert key x [] = x ∷ []
  insert key x (y ∷ ys) =
      let rest = insert key x ys in if leb (key x) (key y) then x ∷ y ∷ ys else y ∷ rest

  abbrev sort : (A → ℕ) → List A → List A
  sort key [] = []
  sort key (x ∷ xs) = insert key x (sort key xs)

  insert_equal :
      (key : A → ℕ) (k : ℕ) (x : A) (xs : List A)
      → key x ≡ k
      → All (λ a. key a ≡ k) xs
      → insert key x xs ≡ x ∷ xs
  insert_equal key k x [] h all = refl
  insert_equal key k x (y ∷ ys) h all = let same = all.0 in ground arith

  pub sort_equal : (key : A → ℕ) (k : ℕ) (xs : List A) → All (λ a. key a ≡ k) xs → sort key xs ≡ xs
  sort_equal key k [] all = refl
  sort_equal key k (x ∷ xs) all =
      rw (sort_equal key k xs all.1) (insert_equal key k x xs all.0 all.1)

  pub dedup_related :
      (r : A → A → Bool) (a b : A) (xs : List A)
      → r a b ≡ true
      → dedup r (a ∷ b ∷ xs) ≡ dedup r (a ∷ xs)
  dedup_related r a b xs h = rw h refl

  pub dedup_unrelated :
      (r : A → A → Bool) (a b : A) (xs : List A)
      → r a b ≡ false
      → dedup r (a ∷ b ∷ xs) ≡ a ∷ dedup r (b ∷ xs)
  dedup_unrelated r a b xs h = rw h refl

abbrev zip : {A B : Type 0} → List A → List B → Option (List (A × B))
zip [] [] = some []
zip [] (y ∷ ys) = none
zip (x ∷ xs) [] = none
zip (x ∷ xs) (y ∷ ys) = zip xs ys >>= λ rest. some ((x, y) ∷ rest)

abbrev pub reference : Itertools
reference = record {
  dedup_by = λ A. dedup;
  tuples = λ A. pairs;
  zip_eq = λ A B. zip;
  sorted_by_key = λ A. sort;
  dedup_by-nil = λ A r. refl;
  dedup_by-one = λ A r a. refl;
  dedup_by_related = λ A. dedup_related;
  dedup_by_unrelated = λ A. dedup_unrelated;
  tuples-nil = λ A. refl;
  tuples_pair = λ A a b xs. refl;
  zip_eq-nil = λ A B. refl;
  zip_eq-cons = λ A B a b xs ys. refl;
  zip_eq_longer = λ A B a xs. refl;
  zip_eq_shorter = λ A B b ys. refl;
  sorted_by_key_equal = λ A. sort_equal;
}
