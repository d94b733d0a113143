-- ===== src/Fri/Folding/Pairs.antt =====
-- One pair of `fold_line` (crates/stwo/src/core/fri.rs): the values of a function at opposite points.
use stwo.Prelude.{◌≡◌, ◌≢◌, refl, ap, ◌∙◌, none, some, true, false, if◌then◌else◌, [], ◌∷◌}
use stwo.Algebra.{field_ring, inverse, ◌⊕◌, ◌⊖◌, ◌⊗◌, ⊝, 𝟘}
use stwo.Algebra.Solver.{◌:+◌, ◌:-◌, ◌:*◌, opp, lit1, x0, x1, x2, ring, cross}
use stwo.Fields.M31.Carrier.{M31, m31_ring}
use stwo.Fields.M31.Inverse.{m31_field}
use stwo.Fields.Cm31.{cm31_ring}
use stwo.Fields.Qm31.{Qm31, qm31_ring}
use stwo.Fields.Extension.{pair_eq, mul_base, add as pair_add, sub as pair_sub}
use stwo.Circle.{double_x}
use stwo.Fields.ExpOps.{square}
use stwo.Fft.{butterfly, ibutterfly}
use stwo.Fft.Inverse.{by_base, ibutterfly-butterfly}
use stwo.Fri.Folding.{fold_pair}

-- The even and the odd part of a function of a coordinate.
pub record Splits (f even odd : M31 → Qm31) : Type 0 where
  pub split : (x : M31) → f x ≡ even (double_x x) ⊕ by_base (odd (double_x x)) x

-- Twice the even part and alpha times the odd part.
unfoldable pub folded : Qm31 → (M31 → Qm31) → (M31 → Qm31) → M31 → Qm31
folded alpha even odd y = (even y ⊕ even y) ⊕ alpha ⊗ (odd y ⊕ odd y)

inverse-some : (x : M31) → x ≢ 𝟘 → inverse x ≡ some (m31_field.inv x)
unfolding inverse
inverse-some x h =
    ap (λ b. if b then none else some (m31_field.inv x)) (nonzero (m31_field.dec_eq x 𝟘))
  where
    nonzero : (d : Dec (x ≡ 𝟘)) → (elim d [ yes e ↦ true | no ne ↦ false ]) ≡ false
    nonzero (yes e) = absurd (h e)
    nonzero (no ne) = refl

double_x-neg : (x : M31) → double_x (⊝ x) ≡ double_x x
unfolding double_x square cross
double_x-neg x =
    ring (x ∷ []) (opp x0 :* opp x0 :+ opp x0 :* opp x0 :- lit1) (x0 :* x0 :+ x0 :* x0 :- lit1) refl

opposite_m31 : (a b x : M31) → a ⊕ b ⊗ ⊝ x ≡ a ⊖ b ⊗ x
unfolding cross
opposite_m31 a b x = ring (a ∷ b ∷ x ∷ []) (x0 :+ x1 :* opp x2) (x0 :- x1 :* x2) refl

opposite : (a b : Qm31) (x : M31) → a ⊕ by_base b (⊝ x) ≡ a ⊖ by_base b x
unfolding mul_base qm31_ring cm31_ring pair_add pair_sub
opposite a b x =
    pair_eq (pair_eq (opposite_m31 a.0.0 b.0.0 x) (opposite_m31 a.0.1 b.0.1 x))
      (pair_eq (opposite_m31 a.1.0 b.1.0 x) (opposite_m31 a.1.1 b.1.1 x))

module _ (f even odd : M31 → Qm31) (s : Splits f even odd) where
  pub fold_pair-opposite :
      (alpha : Qm31) (x : M31)
      → x ≢ 𝟘
      → fold_pair alpha (f x, f (⊝ x)) x ≡ some (folded alpha even odd (double_x x))
  unfolding fold_pair folded
  fold_pair-opposite alpha x h = rw (inverse-some x h) (
      ap (λ g. some (g.0 ⊕ alpha ⊗ g.1))
        (ap (λ v. ibutterfly by_base v (m31_field.inv x)) values
          ∙ (ibutterfly-butterfly x (m31_field.inv x) (m31_field.mul-inv x h)).1
              (even (double_x x), odd (double_x x))))
    where
      values : (f x, f (⊝ x)) ≡ butterfly by_base (even (double_x x), odd (double_x x)) x
      values =
          unfold butterfly in
          pair_eq (s.split x) (
            s.split (⊝ x)
            ∙ ap (λ y. even y ⊕ by_base (odd y) (⊝ x)) (double_x-neg x)
            ∙ opposite (even (double_x x)) (odd (double_x x)) x)
