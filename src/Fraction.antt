-- ===== src/Fraction.antt =====
-- crates/stwo/src/core/fraction.rs: projective fractions, numerator and denominator in one field.
pub mod Value
mod Tests
use stwo.Prelude.{Bool, not, ◌&&◌, List, [], ◌∷◌}
use stwo.Algebra.{Field, field_ring, is_zero as field_is_zero, ◌⊕◌, ◌⊗◌, 𝟘, 𝟙}

pub record Fraction (K : Type 0) : Type 0 where
  pub numerator : K
  pub denominator : K

module _ {K : Type 0} ⦃f : Field K⦄ where
  unfoldable pub add : Fraction K → Fraction K → Fraction K
  add a b = record {
    numerator = b.denominator ⊗ a.numerator ⊕ a.denominator ⊗ b.numerator;
    denominator = a.denominator ⊗ b.denominator;
  }

  unfoldable pub zero : Fraction K
  zero = record { numerator = 𝟘; denominator = 𝟙 }

  unfoldable pub is_zero : Fraction K → Bool
  is_zero a = field_is_zero a.numerator && not (field_is_zero a.denominator)

  unfoldable pub fold : Fraction K → List (Fraction K) → Fraction K
  unfolding add
  fold a [] = a
  fold a (b ∷ rest) = fold (add a b) rest

  unfoldable pub sum : List (Fraction K) → Fraction K
  unfolding fold zero
  sum [] = zero
  sum (first ∷ rest) = fold first rest
