-- ===== src/Poly.antt =====
-- crates/stwo/src/core/poly/utils.rs: folding of values by factors. `none` is a failed assertion.
pub mod Values
use stwo.Prelude.{
  ℕ, zero, suc, ◌/◌, ◌^◌, ◌==◌, Option, none, some, List, [], ◌∷◌, ◌++◌, length, take, drop,
  replicate, assert, ◌>>=◌, ◌>>◌,
}
use stwo.Algebra.{Ring, ◌⊕◌, ◌⊗◌}
use stwo.Circle.{CirclePoint, double_x}

-- `embed` takes the values to the extension.
module _ {F E : Type 0} ⦃r : Ring E⦄ (embed : F → E) where
  unfoldable pub fold : List F → List E → Option E
  fold values [] = do
    assert (length values == 1)
    elim values [ [] ↦ none | v ∷ rest ↦ some (embed v) ]
  fold values (folding_factor ∷ folding_factors) = do
    assert (length values == 2 ^ suc (length folding_factors))
    let half = length values / 2
    lhs_val ← fold (take half values) folding_factors
    rhs_val ← fold (drop half values) folding_factors
    some (lhs_val ⊕ rhs_val ⊗ folding_factor)

module _ {F : Type 0} ⦃r : Ring F⦄ where
  -- The values x, pi(x), pi^2(x), ..., the last first, before `tail`.
  unfoldable pub alphas_from : ℕ → F → List F → List F
  alphas_from zero x tail = tail
  alphas_from (suc n) x tail = alphas_from n (double_x x) (x ∷ tail)

  unfoldable pub get_folding_alphas : CirclePoint F → ℕ → List F
  unfolding alphas_from
  get_folding_alphas point zero = []
  get_folding_alphas point (suc n) = alphas_from n point.x (point.y ∷ [])

unfoldable pub repeat_value : {T : Type 0} → List T → ℕ → List T
repeat_value [] duplicity = []
repeat_value (v ∷ values) duplicity = replicate duplicity v ++ repeat_value values duplicity
