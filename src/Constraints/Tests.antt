-- ===== src/Constraints/Tests.antt =====
-- The vanishing polynomial of crates/stwo/src/core/constraints.rs on a point of a coset.
use stwo.Prelude.{◌≡◌, ◌≢◌, ap, some, arith}
use stwo.Algebra.{◌⊕◌, ◌⊗◌, 𝟘, 𝟙}
use stwo.Fields.Cm31.{cm31_ring}
use stwo.Fields.Qm31.{Qm31, qm31_ring}
use stwo.Fields.Extension.{complex_conjugate}
use stwo.Constraints.Lines.{PointSample, complex_conjugate_line_coeffs}
use stwo.Constraints.Lines.Through.{complex_conjugate_line_coeffs_through}
use stwo.Fields.M31.Carrier.{m31_ring}
use stwo.Circle.Coset.{at}
use stwo.Circle.Coset.Valid.{made}
use stwo.Constraints.{coset_vanishing}
use stwo.Constraints.Vanishing.{same, coset_vanishing-at}

coset_vanishing-at_example : coset_vanishing same (made 5 3) (at (made 5 3) 6) ≡ some 𝟘
coset_vanishing-at_example = coset_vanishing-at 5 3 6 (omega arith) (omega arith) (omega arith)

abbrev sample : PointSample
sample = record { point = record { x = 𝟙; y = (𝟘, 𝟙) }; value = (𝟙, 𝟙) }

sample_moves : sample.point.y ≢ complex_conjugate sample.point.y
unfolding complex_conjugate cm31_ring m31_ring stwo.Fields.M31.neg stwo.Fields.M31.partial_reduce
    stwo.Fields.Extension.neg stwo.Fields.Extension.one stwo.Fields.Extension.zero
sample_moves e = let h = ap (λ (q : Qm31). q.1.0.0) e in absurd (omega arith)

one_ne-zero : ◌≢◌ {A = Qm31} 𝟙 𝟘
unfolding qm31_ring cm31_ring m31_ring stwo.Fields.Extension.one stwo.Fields.Extension.zero
one_ne-zero e = let h = ap (λ (q : Qm31). q.0.0.0) e in absurd (omega arith)

complex_conjugate_line_coeffs_through_example :
    (a b c : Qm31) × (complex_conjugate_line_coeffs sample 𝟙 ≡ some (a, b, c))
    × (c ≢ 𝟘)
    × (a ⊗ sample.point.y ⊕ b ≡ c ⊗ sample.value)
    × (a ⊗ complex_conjugate sample.point.y ⊕ b ≡ c ⊗ complex_conjugate sample.value)
complex_conjugate_line_coeffs_through_example =
    complex_conjugate_line_coeffs_through sample 𝟙 sample_moves one_ne-zero
