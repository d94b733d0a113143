-- ===== src/Lookups/Univariate.antt =====
-- `UnivariatePoly` of crates/stwo/src/prover/lookups/utils.rs: polynomials by their coefficients, the constant
-- one first.
use stwo.Prelude.{
  ℕ, suc, ◌+◌, ◌-◌, Bool, true, ◌==◌, ◌&&◌, ◌||◌, if◌then◌else◌, Option, some, List, [], ◌∷◌, map,
  length, replicate, assert, ◌>>=◌, ◌>>◌,
}
use stwo.Algebra.{Field, field_ring, is_zero as field_is_zero, inverse, ◌⊕◌, ◌⊖◌, ◌⊗◌, ⊝, 𝟘, 𝟙}
use stwo.Lookups.{horner_eval}
use stwo.Pcs.TreeVec.{zip_lists}

abbrev pub UnivariatePoly : Type 0 → Type 0
UnivariatePoly F = List F

module _ {F : Type 0} ⦃f : Field F⦄ where
  -- The zeros at the end go.
  unfoldable pub truncate_leading_zeros : UnivariatePoly F → UnivariatePoly F
  truncate_leading_zeros [] = []
  truncate_leading_zeros (c ∷ coeffs) = elim (truncate_leading_zeros coeffs) [
    | [] ↦ if field_is_zero c then [] else c ∷ []
    | (d ∷ rest) ↦ c ∷ d ∷ rest
  ]

  unfoldable pub new : List F → UnivariatePoly F
  unfolding truncate_leading_zeros
  new coeffs = truncate_leading_zeros coeffs

  unfoldable pub eval_at_point : UnivariatePoly F → F → F
  eval_at_point poly x = horner_eval poly x

  -- `take_while` is lazy and nothing asks for its items, so all coefficients count.
  unfoldable pub degree : UnivariatePoly F → ℕ
  degree poly = length poly - 1

  unfoldable pub is_zero : UnivariatePoly F → Bool
  is_zero [] = true
  is_zero (c ∷ coeffs) = field_is_zero c && is_zero coeffs

  -- The polynomial X.
  unfoldable pub x : UnivariatePoly F
  x = 𝟘 ∷ 𝟙 ∷ []

  unfoldable pub add : UnivariatePoly F → UnivariatePoly F → UnivariatePoly F
  add [] b = b
  add (c ∷ a) [] = c ∷ a
  add (c ∷ a) (d ∷ b) = (c ⊕ d) ∷ add a b

  unfoldable pub neg : UnivariatePoly F → UnivariatePoly F
  neg poly = map (λ c. ⊝ c) poly

  unfoldable pub sub : UnivariatePoly F → UnivariatePoly F → UnivariatePoly F
  unfolding add neg
  sub a b = add a (neg b)

  -- The product with an element of the field.
  unfoldable pub scale : UnivariatePoly F → F → UnivariatePoly F
  scale poly rhs = map (λ c. c ⊗ rhs) poly

  -- Row i of the double loop of `mul`, on the result from index i on.
  unfoldable pub mul_row : F → List F → List F → List F
  mul_row a [] res = res
  mul_row a (b ∷ bs) [] = []
  mul_row a (b ∷ bs) (c ∷ res) = (c ⊕ a ⊗ b) ∷ mul_row a bs res

  unfoldable pub mul_rows : List F → List F → List F → List F
  unfolding mul_row
  mul_rows [] bs res = res
  mul_rows (a ∷ coeffs) bs res = elim (mul_row a bs res) [
    | [] ↦ []
    | (c ∷ rest) ↦ c ∷ mul_rows coeffs bs rest
  ]

  unfoldable pub mul : UnivariatePoly F → UnivariatePoly F → UnivariatePoly F
  unfolding is_zero truncate_leading_zeros mul_rows new
  mul a b =
      let a' = truncate_leading_zeros a in
      let b' = truncate_leading_zeros b in
      if is_zero a || is_zero b
      then []
      else new (mul_rows a' b' (replicate (length a' + length b' - 1) 𝟘))

  -- The value at xi divided by the differences to the other points.
  unfoldable pub divide_by_differences : ℕ → ℕ → F → List F → F → Option F
  divide_by_differences i j xi [] prod = some prod
  divide_by_differences i j xi (xj ∷ xs) prod =
      if i == j
      then divide_by_differences i (suc j) xi xs prod
      else (inverse (xi ⊖ xj) >>= λ inv. divide_by_differences i (suc j) xi xs (prod ⊗ inv))

  -- The product with X minus each of the other points.
  unfoldable pub multiply_by_others : ℕ → ℕ → List F → UnivariatePoly F → UnivariatePoly F
  unfolding mul sub x new
  multiply_by_others i j [] term = term
  multiply_by_others i j (xj ∷ xs) term =
      multiply_by_others i (suc j) xs (if i == j then term else mul term (sub x (new (xj ∷ []))))

  unfoldable pub lagrange_terms :
      ℕ → List F → List (F × F) → UnivariatePoly F → Option (UnivariatePoly F)
  unfolding divide_by_differences multiply_by_others add new
  lagrange_terms i xs [] coeffs = some coeffs
  lagrange_terms i xs ((xi, yi) ∷ points) coeffs = do
    prod ← divide_by_differences i 0 xi xs yi
    lagrange_terms (suc i) xs points (add coeffs (multiply_by_others i 0 xs (new (prod ∷ []))))

  unfoldable pub interpolate_lagrange : List F → List F → Option (UnivariatePoly F)
  unfolding lagrange_terms truncate_leading_zeros
  interpolate_lagrange xs ys = do
    assert (length xs == length ys)
    coeffs ← lagrange_terms 0 xs (zip_lists xs ys) []
    some (truncate_leading_zeros coeffs)
