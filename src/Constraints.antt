-- ===== src/Constraints.antt =====
-- crates/stwo/src/core/constraints.rs: polynomials that vanish on sets of points of the circle, at a
-- point over an extension of the base field. `embed` takes base field elements to it; `none` is a
-- failed assertion.
pub mod Vanishing
pub mod Lines
mod Tests
use stwo.Prelude.{ℕ, zero, suc, ◌-◌, Option, none, some, ◌>>=◌}
use stwo.Algebra.{Ring, ◌⊖◌, 𝟙}
use stwo.Fields.M31.Carrier.{M31}
use stwo.Circle.{CirclePoint, add, sub, double_x}
use stwo.Circle.Index.{to_point, half}
use stwo.Circle.Coset.{Coset}

module _ {F : Type 0} ⦃r : Ring F⦄ (embed : M31 → F) where
  unfoldable pub into_ef : CirclePoint M31 → CirclePoint F
  into_ef p = record { x = embed p.x; y = embed p.y }

  unfoldable pub repeated_double_x : ℕ → F → F
  repeated_double_x zero x = x
  repeated_double_x (suc n) x = repeated_double_x n (double_x x)

  unfoldable pub coset_vanishing : Coset → CirclePoint F → Option F
  unfolding repeated_double_x into_ef
  coset_vanishing coset p = half coset.step_size >>= λ half_step.
      let q = add (sub p (into_ef coset.initial)) (into_ef (to_point half_step)) in
      some (repeated_double_x (coset.log_size - 1) q.x)

  unfoldable pub point_excluder : CirclePoint M31 → CirclePoint F → F
  unfolding into_ef
  point_excluder excluded p = (sub p (into_ef excluded)).x ⊖ 𝟙
