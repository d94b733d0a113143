-- ===== src/Constraints/Lines/Through.antt =====
-- The line of `complex_conjugate_line_coeffs` (crates/stwo/src/core/constraints.rs) goes through the sample
-- and its conjugate.
use stwo.Prelude.{true, false, not, some, ◌≡◌, ◌≢◌, refl, sym, ap, ◌∙◌, [], ◌∷◌}
use stwo.Algebra.{◌⊕◌, ◌⊖◌, ◌⊗◌, 𝟘}
use stwo.Algebra.Inverses.{mul_ne-zero}
use stwo.Algebra.Solver.{◌:+◌, ◌:-◌, ◌:*◌, lit0, x0, x1, x2, x3, x4, ring, cross}
use stwo.Fields.Cm31.{cm31_ring}
use stwo.Fields.Qm31.{Qm31, qm31_ring}
use stwo.Fields.Qm31.Inverse.{qm31_field}
use stwo.Fields.Extension.{complex_conjugate}
use stwo.Constraints.Lines.{PointSample, eqb, complex_conjugate_line_coeffs}

differ : (x y : Qm31) → x ≢ y → not (eqb x y) ≡ true
differ x y h = decided (qm31_field.dec_eq x y)
  where
    decided : (d : Dec (x ≡ y)) → not (elim d [ yes e ↦ true | no ne ↦ false ]) ≡ true
    decided (yes e) = absurd (h e)
    decided (no ne) = refl

difference_ne-zero : (x y : Qm31) → x ≢ y → y ⊖ x ≢ 𝟘
unfolding cross
difference_ne-zero x y h e = h (
    ring (x ∷ []) x0 (lit0 :+ x0) refl
    ∙ ap (λ t. t ⊕ x) (sym e)
    ∙ ring (x ∷ y ∷ []) (x1 :- x0 :+ x0) x1 refl)

-- If the y coordinate of the sample is not its own conjugate and alpha is not zero, then there are
-- coefficients (a, b, c) with c not zero, and the line a * y + b = c * v goes through the sample and
-- through its conjugate.
pub complex_conjugate_line_coeffs_through :
    (sample : PointSample) (alpha : Qm31)
    → sample.point.y ≢ complex_conjugate sample.point.y
    → alpha ≢ 𝟘
    → (a b c : Qm31) × (complex_conjugate_line_coeffs sample alpha ≡ some (a, b, c))
      × (c ≢ 𝟘)
      × (a ⊗ sample.point.y ⊕ b ≡ c ⊗ sample.value)
      × (a ⊗ complex_conjugate sample.point.y ⊕ b ≡ c ⊗ complex_conjugate sample.value)
unfolding complex_conjugate_line_coeffs cross
complex_conjugate_line_coeffs_through sample alpha h nonzero =
    let y = sample.point.y in
    let y' = complex_conjugate y in
    let v = sample.value in
    let v' = complex_conjugate v in
    (
      alpha ⊗ (v' ⊖ v),
      alpha ⊗ (v ⊗ (y' ⊖ y) ⊖ (v' ⊖ v) ⊗ y),
      alpha ⊗ (y' ⊖ y),
      rw (differ y y' h) refl,
      mul_ne-zero alpha (y' ⊖ y) nonzero (difference_ne-zero y y' h),
      ring (y ∷ y' ∷ v ∷ v' ∷ alpha ∷ [])
          (x4 :* (x3 :- x2) :* x0 :+ x4 :* (x2 :* (x1 :- x0) :- (x3 :- x2) :* x0))
          (x4 :* (x1 :- x0) :* x2) refl,
      ring (y ∷ y' ∷ v ∷ v' ∷ alpha ∷ [])
          (x4 :* (x3 :- x2) :* x1 :+ x4 :* (x2 :* (x1 :- x0) :- (x3 :- x2) :* x0))
          (x4 :* (x1 :- x0) :* x3) refl,
    )
