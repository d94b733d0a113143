-- ===== src/Constraints/Lines.antt =====
-- crates/stwo/src/core/constraints.rs: lines through two points, among them a point over the secure field
-- and its conjugate. `none` is a failed assertion or a division by zero.
pub mod Through
use stwo.Prelude.{
  ℕ, zero, suc, ◌-◌, Bool, true, false, not, Option, none, some, assert, ◌>>=◌, ◌>>◌,
}
use stwo.Algebra.{Ring, Field, field_ring, inverse, ◌⊕◌, ◌⊖◌, ◌⊗◌, ⊝, 𝟙}
use stwo.Fields.M31.Carrier.{M31, m31_ring}
use stwo.Fields.Cm31.{cm31_ring}
use stwo.Fields.Qm31.{Qm31, qm31_ring}
use stwo.Fields.Qm31.Inverse.{qm31_field}
use stwo.Fields.Extension.{complex_conjugate, from}
use stwo.Circle.{CirclePoint, sub}
use stwo.Circle.Coset.{Coset}
use stwo.Domain as circle_domain
use stwo.Constraints.{into_ef, coset_vanishing}

-- A point and the value that a column takes at it.
pub record PointSample : Type 0 where
  pub point : CirclePoint Qm31
  pub value : Qm31

module _ {F : Type 0} ⦃r : Ring F⦄ where
  unfoldable pub pair_vanishing : CirclePoint F → CirclePoint F → CirclePoint F → F
  pair_vanishing excluded0 excluded1 p =
      (excluded0.y ⊖ excluded1.y) ⊗ p.x
      ⊕ (excluded1.x ⊖ excluded0.x) ⊗ p.y
      ⊕ (excluded0.x ⊗ excluded1.y ⊖ excluded0.y ⊗ excluded1.x)

  abbrev pub power : F → ℕ → F
  power x zero = 𝟙
  power x (suc n) = power x n ⊗ x

module _ {F : Type 0} ⦃r : Ring F⦄ (embed : M31 → F) where
  -- The product of the vanishing polynomials of the canonic cosets of log sizes 1 to n.
  unfoldable pub canonic_vanishing : ℕ → CirclePoint F → Option F
  canonic_vanishing zero p = some 𝟙
  canonic_vanishing (suc n) p = do
    vanishing ← canonic_vanishing n p
    canonic ← circle_domain.new (suc n)
    v ← coset_vanishing embed canonic.coset p
    some (vanishing ⊗ v)

  unfoldable pub coset_vanishing_derivative : Coset → CirclePoint F → Option F
  unfolding canonic_vanishing
  coset_vanishing_derivative coset p =
      let field_four = 𝟙 ⊕ 𝟙 ⊕ 𝟙 ⊕ 𝟙 in
      canonic_vanishing (coset.log_size - 1) p >>= λ vanishing.
      some (power field_four (coset.log_size - 1) ⊗ vanishing)

-- The point that vanishes is over the base field here.
unfoldable pub point_vanishing :
    {F : Type 0} ⦃f : Field F⦄ → (M31 → F) → CirclePoint M31 → CirclePoint F → Option F
point_vanishing embed vanish_point p =
    let h = sub p (into_ef embed vanish_point) in inverse (𝟙 ⊕ h.x) >>= λ i. some (h.y ⊗ i)

abbrev pub eqb : Qm31 → Qm31 → Bool
eqb x y = elim (qm31_field.dec_eq x y) [ yes e ↦ true | no ne ↦ false ]

abbrev pub secure_from : M31 → Qm31
secure_from x = from (from x)

unfoldable pub complex_conjugate_line : CirclePoint Qm31 → Qm31 → CirclePoint M31 → Option Qm31
complex_conjugate_line point value p = do
  assert (not (eqb point.y (complex_conjugate point.y)))
  i ← inverse (complex_conjugate point.y ⊖ point.y)
  some (value ⊕ (complex_conjugate value ⊖ value) ⊗ (⊝ point.y ⊕ secure_from p.y) ⊗ i)

unfoldable pub complex_conjugate_line_coeffs : PointSample → Qm31 → Option (Qm31 × Qm31 × Qm31)
complex_conjugate_line_coeffs sample alpha = do
  assert (not (eqb sample.point.y (complex_conjugate sample.point.y)))
  let a = complex_conjugate sample.value ⊖ sample.value
  let c = complex_conjugate sample.point.y ⊖ sample.point.y
  let b = sample.value ⊗ c ⊖ a ⊗ sample.point.y
  some (alpha ⊗ a, alpha ⊗ b, alpha ⊗ c)
