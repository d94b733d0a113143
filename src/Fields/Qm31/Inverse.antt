-- ===== src/Fields/Qm31/Inverse.antt =====
-- `inverse` of crates/stwo/src/core/fields/qm31.rs, and the field that it makes. The denominator of
-- a nonzero element is not zero, since 2 + i has no square root in `CM31`: its norm, 5, has none
-- modulo `P`.
use stwo.Prelude.{◌≡◌, ◌≢◌, refl, sym, ap, ap₂, ◌∙◌, arith, [], ◌∷◌}
use stwo.Algebra.{Field, ◌⊕◌, ◌⊖◌, ◌⊗◌, ⊝, 𝟘, 𝟙}
use stwo.Algebra.Laws.{mul-zero, mul-one}
use stwo.Algebra.Inverses.{mul_ne-zero}
use stwo.Algebra.Solver.{◌:+◌, ◌:-◌, ◌:*◌, opp, lit0, lit1, x0, x1, x2, x3, ring, cross}
use stwo.Fields.M31.{add, mul as m31_mul, neg as m31_neg}
use stwo.Fields.M31.Carrier.{M31, m31_ring, ext}
use stwo.Fields.M31.Inverse.{m31_field}
use stwo.Fields.ExpOps.{square, pow}
use stwo.Fields.ExpOps.Powers.{npow, pow-npow, mul-npow}
use stwo.Fields.Extension.{pair_eq, zero, one}
use stwo.Fields.Cm31.{Cm31, mul as cm31_mul, cm31_ring}
use stwo.Fields.Cm31.Inverse.{
  norm, norm_ne-zero, square_power_half, half, minus_one_ne-one, Cm31-discrete, cm31_field,
  cm31-one_ne-zero,
}
use stwo.Fields.Qm31.{Qm31, r, mul, qm31_ring}

-- a^2 - (2+i)b^2, as the source computes it.
unfoldable pub denom : Qm31 → Cm31
unfolding square
denom x = let b2 = square x.1 in let ib2 : Cm31 = (⊝ b2.1, b2.0) in square x.0 ⊖ (b2 ⊕ b2 ⊕ ib2)

unfoldable pub inv : Qm31 → Qm31
unfolding denom
inv x = let denom_inverse = cm31_field.inv (denom x) in (x.0 ⊗ denom_inverse, ⊝ x.1 ⊗ denom_inverse)

r_parts : r ≡ (𝟙 ⊕ 𝟙, 𝟙)
unfolding r m31_ring add
r_parts = pair_eq (ext refl) (ext refl)

r-mul : (y : Cm31) → let iy : Cm31 = (⊝ y.1, y.0) in y ⊕ y ⊕ iy ≡ r ⊗ y
unfolding cm31_ring cm31_mul cross
r-mul y = rw r_parts (
    pair_eq (ring (y.0 ∷ y.1 ∷ []) (x0 :+ x0 :+ opp x1) ((lit1 :+ lit1) :* x0 :- lit1 :* x1) refl)
      (ring (y.0 ∷ y.1 ∷ []) (x1 :+ x1 :+ x0) ((lit1 :+ lit1) :* x1 :+ lit1 :* x0) refl))

norm-mul : (x y : Cm31) → norm (x ⊗ y) ≡ norm x ⊗ norm y
unfolding norm cm31_ring cm31_mul cross
norm-mul x y =
    ring (x.0 ∷ x.1 ∷ y.0 ∷ y.1 ∷ [])
      ((x0 :* x2 :- x1 :* x3) :* (x0 :* x2 :- x1 :* x3)
        :+ (x0 :* x3 :+ x1 :* x2) :* (x0 :* x3 :+ x1 :* x2))
      ((x0 :* x0 :+ x1 :* x1) :* (x2 :* x2 :+ x3 :* x3)) refl

abbrev five : M31
five = (5, omega arith)

norm-r : norm r ≡ five
unfolding norm r m31_ring add m31_mul
norm-r = ext refl

five_power : (pow five half).0 ≡ 2147483646
unfolding pow m31_ring m31_mul
five_power = refl

-- 5 is not a square modulo `P`, by Euler's criterion.
five_power_half : npow five half ≡ ⊝ 𝟙
five_power_half = sym (pow-npow five half (omega arith)) ∙ ext (five_power ∙ minus_one)
  where
    minus_one : 2147483646 ≡ (⊝ (𝟙 {A = M31})).0
    minus_one = unfold m31_ring m31_neg in refl

r_ne-zero : r ≢ 𝟘
unfolding r cm31_ring zero m31_ring
r_ne-zero e = omega (arith, ap (λ (t : Cm31). t.0.0) e)

denom_lem : (x : Qm31) → denom x ≡ square x.0 ⊖ r ⊗ square x.1
unfolding denom
denom_lem x = ap (λ t. square x.0 ⊖ t) (r-mul (square x.1))

eq_of_sub : (x y : Cm31) → x ⊖ y ≡ 𝟘 → x ≡ y
unfolding cross
eq_of_sub x y h =
    ring (x ∷ y ∷ []) x0 (x0 :- x1 :+ x1) refl ∙ ap (λ t. t ⊕ y) h ∙ cm31_ring.zero-add y

first_square : (a b : Cm31) → b ≡ 𝟘 → square a ⊖ r ⊗ square b ≡ 𝟘 → a ⊗ a ≡ 𝟘
unfolding square cross
first_square a b e h =
    ring (a ∷ r ∷ []) (x0 :* x0) (x0 :* x0 :- x1 :* (lit0 :* lit0)) refl
    ∙ ap (λ t. a ⊗ a ⊖ r ⊗ (t ⊗ t)) (sym e)
    ∙ h

-- r b^2 is no square.
no_square_root : (a b : Cm31) → b ≢ 𝟘 → square a ≢ r ⊗ square b
no_square_root a b hb h = minus_one_ne-one (
    sym five_power_half
    ∙ sym (mul-one _)
    ∙ ap (λ t. npow five half ⊗ t) (sym (square_power_half (norm b) (norm_ne-zero b hb)))
    ∙ sym (mul-npow five (square (norm b)) half)
    ∙ ap (λ t. npow t half) (sym norms)
    ∙ square_power_half (norm a) (norm_ne-zero a ha))
  where
    norms : square (norm a) ≡ five ⊗ square (norm b)
    norms =
        unfold square in
        (sym (norm-mul a a)
          ∙ ap norm (unfold square in h)
          ∙ norm-mul r (b ⊗ b)
          ∙ ap₂ ◌⊗◌ norm-r (norm-mul b b))

    ha : a ≢ 𝟘
    ha e =
        mul_ne-zero r (b ⊗ b) r_ne-zero (mul_ne-zero b b hb hb)
          (unfold square in (sym h ∙ ap (λ t. t ⊗ t) e ∙ mul-zero 𝟘))

pub denom_ne-zero : (x : Qm31) → x ≢ 𝟘 → denom x ≢ 𝟘
denom_ne-zero x ne h = elim (Cm31-discrete x.1 𝟘) [
  | yes e1 ↦ elim (Cm31-discrete x.0 𝟘) [
    | yes e0 ↦ ne (unfold qm31_ring zero in pair_eq e0 e1)
    | no ne0 ↦ mul_ne-zero x.0 x.0 ne0 ne0 (first_square x.0 x.1 e1 (sym (denom_lem x) ∙ h))
  ]
  | no ne1 ↦ no_square_root x.0 x.1 ne1 (eq_of_sub _ _ (sym (denom_lem x) ∙ h))
]

mul-conjugate :
    (x : Qm31) (n : Cm31) → denom x ⊗ n ≡ 𝟙 → x ⊗ (let y : Qm31 = (x.0 ⊗ n, ⊝ x.1 ⊗ n) in y) ≡ 𝟙
unfolding qm31_ring mul one cross square
mul-conjugate x n h =
    pair_eq
      (ring (x.0 ∷ x.1 ∷ n ∷ r ∷ []) (x0 :* (x0 :* x2) :+ x3 :* x1 :* (opp x1 :* x2))
          ((x0 :* x0 :- x3 :* (x1 :* x1)) :* x2) refl
        ∙ ap (λ t. t ⊗ n) (sym (denom_lem x))
        ∙ h)
      (ring (x.0 ∷ x.1 ∷ n ∷ []) (x0 :* (opp x1 :* x2) :+ x1 :* (x0 :* x2)) lit0 refl)

-- `inverse` of the secure field inverts every nonzero element.
pub mul-inv_qm31 : (x : Qm31) → x ≢ 𝟘 → x ⊗ inv x ≡ 𝟙
unfolding inv
mul-inv_qm31 x ne = mul-conjugate x _ (cm31_field.mul-inv (denom x) (denom_ne-zero x ne))

unfoldable pub Qm31-discrete : Discrete Qm31
unfolding Cm31-discrete
Qm31-discrete x y = elim (Cm31-discrete x.0 y.0) [
  | yes e ↦ elim (Cm31-discrete x.1 y.1) [
    | yes e' ↦ yes (pair_eq e e')
    | no ne ↦ no (λ h. ne (ap (λ (t : Qm31). t.1) h))
  ]
  | no ne ↦ no (λ h. ne (ap (λ (t : Qm31). t.0) h))
]

pub qm31-one_ne-zero : ◌≢◌ {A = Qm31} 𝟙 𝟘
unfolding qm31_ring one zero
qm31-one_ne-zero h = cm31-one_ne-zero (ap (λ (t : Qm31). t.0) h)

instance abbrev pub qm31_field : Field Qm31
qm31_field = record {
  ring = qm31_ring;
  inv = inv;
  dec_eq = Qm31-discrete;
  one-ne-zero = qm31-one_ne-zero;
  mul-inv = mul-inv_qm31;
}
