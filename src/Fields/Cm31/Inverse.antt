-- ===== src/Fields/Cm31/Inverse.antt =====
-- `inverse` of crates/stwo/src/core/fields/cm31.rs, and the field that it makes. The norm of a
-- nonzero element is not zero, since -1 has no square root modulo `P`.
use stwo.Prelude.{ℕ, suc, ◌+◌, ◌≡◌, ◌≢◌, refl, sym, ap, ◌∙◌, arith, [], ◌∷◌}
use stwo.Algebra.{Field, ◌⊕◌, ◌⊖◌, ◌⊗◌, ⊝, 𝟘, 𝟙}
use stwo.Algebra.Laws.{mul-zero}
use stwo.Algebra.Solver.{◌:+◌, ◌:-◌, ◌:*◌, opp, lit0, x0, x1, x2, ring, cross}
use stwo.Fields.M31.Reduce.{neg-mod}
use stwo.Fields.M31.Carrier.{M31, m31_ring}
use stwo.Fields.M31.Fermat.{fermat, zero_of_mul}
use stwo.Fields.M31.Inverse.{m31_field, M31-discrete, pos_of_ne-zero, one_ne-zero}
use stwo.Fields.ExpOps.{square}
use stwo.Fields.ExpOps.Powers.{npow, npow-square, npow-neg_odd}
use stwo.Fields.Extension.{pair_eq, mul_base, zero, one}
use stwo.Fields.Cm31.{Cm31, mul, cm31_ring}

-- self.0.square() + self.1.square()
unfoldable pub norm : Cm31 → M31
unfolding square
norm x = square x.0 ⊕ square x.1

-- The value after the assertion: 1 / (a + bi) = (a - bi) / (a^2 + b^2).
unfoldable pub inv : Cm31 → Cm31
unfolding norm mul_base
inv x = mul_base ◌⊗◌ (x.0, ⊝ x.1) (m31_field.inv (norm x))

-- A sum of squares vanishes only at zero.
square-zero : (a : M31) → square a ≡ 𝟘 → a ≡ 𝟘
unfolding square
square-zero a h = elim (M31-discrete a 𝟘) [
  | yes e ↦ e
  | no ne ↦ zero_of_mul a a (pos_of_ne-zero a ne) h
]

pub minus_one_ne-one : ◌≢◌ {A = M31} (⊝ 𝟙) 𝟙
unfolding m31_ring
minus_one_ne-one e = omega (arith, neg-mod 1 (omega arith), ap (λ (t : M31). t.0) e)

-- Half of `P - 1`, which is odd.
abbrev pub half : ℕ
half = suc (536870911 + 536870911)

-- Fermat's theorem for a square.
pub square_power_half : (a : M31) → a ≢ 𝟘 → npow (square a) half ≡ 𝟙
square_power_half a ne = npow-square a half ∙ fermat a (pos_of_ne-zero a ne)

square_of_zero : square {A = M31} 𝟘 ≡ 𝟘
unfolding square
square_of_zero = mul-zero 𝟘

square_ne-minus_square : (a b : M31) → b ≢ 𝟘 → square a ⊕ square b ≢ 𝟘
unfolding cross
square_ne-minus_square a b hb h = minus_one_ne-one (
    ap ⊝ (sym (square_power_half b hb))
    ∙ sym (npow-neg_odd (square b) 536870911)
    ∙ ap (λ t. npow t half) (sym opposite)
    ∙ square_power_half a ha)
  where
    opposite : square a ≡ ⊝ (square b)
    opposite =
        ring (square a ∷ square b ∷ []) x0 (x0 :+ x1 :- x1) refl
        ∙ ap (λ t. t ⊖ square b) h
        ∙ ring (square b ∷ []) (lit0 :- x0) (opp x0) refl

    ha : a ≢ 𝟘
    ha e = hb (
        square-zero b (
          ring (square a ∷ square b ∷ []) x1 (x0 :+ x1 :- x0) refl
          ∙ ap (λ t. t ⊖ square a) h
          ∙ ap (λ t. 𝟘 ⊖ t) (ap square e ∙ square_of_zero)
          ∙ ring [] (lit0 :- lit0) lit0 refl))

pub norm_ne-zero : (x : Cm31) → x ≢ 𝟘 → norm x ≢ 𝟘
unfolding norm
norm_ne-zero x ne h = elim (M31-discrete x.1 𝟘) [
  | yes e1 ↦ elim (M31-discrete x.0 𝟘) [
    | yes e0 ↦ ne (unfold cm31_ring zero in pair_eq e0 e1)
    | no ne0 ↦ square_ne-minus_square x.1 x.0 ne0 (m31_ring.add_comm _ _ ∙ h)
  ]
  | no ne1 ↦ square_ne-minus_square x.0 x.1 ne1 h
]

mul-conjugate : (x : Cm31) (n : M31) → norm x ⊗ n ≡ 𝟙 → x ⊗ mul_base ◌⊗◌ (x.0, ⊝ x.1) n ≡ 𝟙
unfolding cm31_ring mul mul_base norm square one cross
mul-conjugate x n h =
    pair_eq
      (ring (x.0 ∷ x.1 ∷ n ∷ []) (x0 :* (x0 :* x2) :- x1 :* (opp x1 :* x2))
          ((x0 :* x0 :+ x1 :* x1) :* x2) refl
        ∙ h)
      (ring (x.0 ∷ x.1 ∷ n ∷ []) (x0 :* (opp x1 :* x2) :+ x1 :* (x0 :* x2)) lit0 refl)

-- `inverse` inverts every nonzero element.
pub mul-inv_cm31 : (x : Cm31) → x ≢ 𝟘 → x ⊗ inv x ≡ 𝟙
unfolding inv
mul-inv_cm31 x ne = mul-conjugate x _ (m31_field.mul-inv (norm x) (norm_ne-zero x ne))

unfoldable pub Cm31-discrete : Discrete Cm31
unfolding M31-discrete
Cm31-discrete x y = elim (M31-discrete x.0 y.0) [
  | yes e ↦ elim (M31-discrete x.1 y.1) [
    | yes e' ↦ yes (pair_eq e e')
    | no ne ↦ no (λ h. ne (ap (λ (t : Cm31). t.1) h))
  ]
  | no ne ↦ no (λ h. ne (ap (λ (t : Cm31). t.0) h))
]

pub cm31-one_ne-zero : ◌≢◌ {A = Cm31} 𝟙 𝟘
unfolding cm31_ring one zero
cm31-one_ne-zero h = one_ne-zero (ap (λ (t : Cm31). t.0) h)

instance abbrev pub cm31_field : Field Cm31
cm31_field = record {
  ring = cm31_ring;
  inv = inv;
  dec_eq = Cm31-discrete;
  one-ne-zero = cm31-one_ne-zero;
  mul-inv = mul-inv_cm31;
}
