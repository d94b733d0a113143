-- ===== src/Fft/Inverse.antt =====
-- `ibutterfly` undoes `butterfly` (crates/stwo/src/core/fft.rs), up to a factor 2.
use stwo.Prelude.{◌≡◌, refl, ap, ap₂, ◌∙◌, [], ◌∷◌}
use stwo.Algebra.{Ring, field_ring, ◌⊕◌, ◌⊗◌, 𝟙}
use stwo.Algebra.Laws.{mul-one, add-mul}
use stwo.Algebra.Solver.{◌:+◌, ◌:-◌, x0, x1, ring, cross}
use stwo.Fields.M31.Carrier.{M31, m31_ring}
use stwo.Fields.Extension.{pair_eq, mul_base, add as pair_add}
use stwo.Fields.Cm31.{cm31_ring}
use stwo.Fields.Qm31.{Qm31, qm31_ring}
use stwo.Fft.{butterfly, ibutterfly}

module _ {F B : Type 0} ⦃r : Ring F⦄ (scale : F → B → F) (t it : B)
    (additive : (x y : F) → scale (x ⊕ y) it ≡ scale x it ⊕ scale y it)
    (undone : (x : F) → scale (scale x t) it ≡ x) where
  butterflies_cancel :
      (v : F × F) → ibutterfly scale (butterfly scale v t) it ≡ (v.0 ⊕ v.0, v.1 ⊕ v.1)
  unfolding butterfly ibutterfly cross
  butterflies_cancel v =
      let s = scale v.1 t in
      pair_eq (ring (v.0 ∷ s ∷ []) ((x0 :+ x1) :+ (x0 :- x1)) (x0 :+ x0) refl) (
        ap (λ u. scale u it) (ring (v.0 ∷ s ∷ []) ((x0 :+ x1) :- (x0 :- x1)) (x1 :+ x1) refl)
        ∙ additive s s
        ∙ ap₂ (λ a b. a ⊕ b) (undone v.1) (undone v.1))

-- The product of a secure field element with a base field element.
abbrev pub by_base : Qm31 → M31 → Qm31
by_base = mul_base (mul_base (λ x y. x ⊗ y))

m31_undone : (t it x : M31) → t ⊗ it ≡ 𝟙 → x ⊗ t ⊗ it ≡ x
m31_undone t it x h = m31_ring.mul_assoc x t it ∙ ap (λ u. x ⊗ u) h ∙ mul-one x

-- For twiddles t and it with t * it = 1, the inverse butterfly after the butterfly doubles both
-- entries, over the base field and over the secure field.
pub ibutterfly-butterfly :
    (t it : M31)
    → t ⊗ it ≡ 𝟙
    → ((v : M31 × M31)
        → ibutterfly (λ x y. x ⊗ y) (butterfly (λ x y. x ⊗ y) v t) it ≡ (v.0 ⊕ v.0, v.1 ⊕ v.1))
      × ((v : Qm31 × Qm31) → ibutterfly by_base (butterfly by_base v t) it ≡ (v.0 ⊕ v.0, v.1 ⊕ v.1))
unfolding mul_base qm31_ring cm31_ring pair_add
ibutterfly-butterfly t it h = (
  butterflies_cancel (λ x y. x ⊗ y) t it (λ x y. add-mul x y it) (λ x. m31_undone t it x h),
  butterflies_cancel by_base t it
      (λ x y.
        pair_eq (pair_eq (add-mul _ _ it) (add-mul _ _ it))
          (pair_eq (add-mul _ _ it) (add-mul _ _ it)))
      (λ x.
        pair_eq (pair_eq (m31_undone t it _ h) (m31_undone t it _ h))
          (pair_eq (m31_undone t it _ h) (m31_undone t it _ h))),
)
