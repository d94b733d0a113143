-- ===== src/Lookups.antt =====
-- crates/stwo/src/prover/lookups: the polynomials of the sum-check protocol, in utils.rs, and the protocol.
-- `none` is a panic.
pub mod Univariate
pub mod Values
pub mod Sumcheck
pub mod Gkr
mod Tests
use stwo.Prelude.{Option, none, some, List, [], ◌∷◌, ◌==◌, length, assert, ◌>>=◌, ◌>>◌}
use stwo.Algebra.{Ring, ◌⊕◌, ◌⊖◌, ◌⊗◌, 𝟘, 𝟙}
use stwo.Pcs.TreeVec.{zip_lists}
use stwo.Fraction.{Fraction}

-- The fraction 1 / x.
pub record Reciprocal (T : Type 0) : Type 0 where
  pub x : T

module _ {F : Type 0} ⦃r : Ring F⦄ where
  unfoldable pub horner_eval : List F → F → F
  horner_eval [] x = 𝟘
  horner_eval (coeff ∷ coeffs) x = horner_eval coeffs x ⊗ x ⊕ coeff

  unfoldable pub random_linear_combination : List F → F → F
  random_linear_combination v alpha = horner_eval v alpha

  -- The product of the factors of `eq`, from the first on.
  unfoldable pub eq_product : F → List (F × F) → F
  eq_product acc [] = acc
  eq_product acc ((xi, yi) ∷ rest) = eq_product (acc ⊗ (xi ⊗ yi ⊕ (𝟙 ⊖ xi) ⊗ (𝟙 ⊖ yi))) rest

  unfoldable pub eq : List F → List F → Option F
  unfolding eq_product
  eq x y = do assert (length x == length y); some (eq_product 𝟙 (zip_lists x y))

  unfoldable pub add_reciprocals : Reciprocal F → Reciprocal F → Fraction F
  add_reciprocals a b = record { numerator = a.x ⊕ b.x; denominator = a.x ⊗ b.x }

  unfoldable pub sub_reciprocals : Reciprocal F → Reciprocal F → Fraction F
  sub_reciprocals a b = record { numerator = b.x ⊖ a.x; denominator = a.x ⊗ b.x }

module _ {F S : Type 0} ⦃f : Ring F⦄ ⦃s : Ring S⦄ (embed : F → S) where
  unfoldable pub fold_mle_evals : S → F → F → S
  fold_mle_evals assignment eval0 eval1 = assignment ⊗ embed (eval1 ⊖ eval0) ⊕ embed eval0
