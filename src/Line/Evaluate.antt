-- ===== src/Line/Evaluate.antt =====
-- `LinePoly::eval_at_point` (crates/stwo/src/core/poly/line.rs) at base field elements: its even and its
-- odd part are the polynomials of the two halves of the coefficients.
use stwo.Prelude.{ℕ, zero, suc, ◌^◌, ◌≡◌, refl, sym, ap, ◌∙◌, some, List, [], ◌∷◌, ◌++◌, length}
use stwo.Algebra.{Ring, ◌⊕◌, ◌⊖◌, ◌⊗◌, 𝟘, 𝟙}
use stwo.Algebra.Solver.{◌:+◌, ◌:-◌, ◌:*◌, lit0, x0, x1, x2, x3, ring, cross}
use stwo.Fields.M31.Carrier.{M31, m31_ring}
use stwo.Fields.Cm31.{Cm31, cm31_ring, mul as cm31_mul}
use stwo.Fields.Qm31.{Qm31, qm31_ring, r, mul as qm31_mul}
use stwo.Fields.Extension.{
  pair_eq, mul_base, from, add as pair_add, sub as pair_sub, zero as pair_zero, one as pair_one,
}
use stwo.Fields.ExpOps.{square}
use stwo.Circle.{double_x}
use stwo.Fft.Inverse.{by_base}
use stwo.Poly.Values.{value, fold-value, value-append, combine, value-combine}
use stwo.Line.{eval_at_point, doublings, secure_from}

-- The product with an element of the subfield.
module _ {A : Type 0} ⦃s : Ring A⦄ where
  even_part : (t a b x : A) → a ⊗ x ⊕ t ⊗ b ⊗ 𝟘 ≡ a ⊗ x
  unfolding cross
  even_part t a b x = ring (t ∷ a ∷ b ∷ x ∷ []) (x1 :* x3 :+ x0 :* x2 :* lit0) (x1 :* x3) refl

  minus_part : (a b x : A) → a ⊗ x ⊖ b ⊗ 𝟘 ≡ a ⊗ x
  unfolding cross
  minus_part a b x = ring (a ∷ b ∷ x ∷ []) (x0 :* x2 :- x1 :* lit0) (x0 :* x2) refl

  odd_part : (a b x : A) → a ⊗ 𝟘 ⊕ b ⊗ x ≡ b ⊗ x
  unfolding cross
  odd_part a b x = ring (a ∷ b ∷ x ∷ []) (x0 :* lit0 :+ x1 :* x2) (x1 :* x2) refl

mul-cm31_from : (a : Cm31) (x : M31) → a ⊗ from x ≡ mul_base (λ u v. u ⊗ v) a x
unfolding from mul_base cm31_ring cm31_mul
mul-cm31_from a x = pair_eq (minus_part a.0 a.1 x) (odd_part a.0 a.1 x)

pub mul-secure_from : (a : Qm31) (x : M31) → a ⊗ secure_from x ≡ by_base a x
unfolding from mul_base qm31_ring qm31_mul
mul-secure_from a x =
    pair_eq (even_part r a.0 a.1 (from x) ∙ mul-cm31_from a.0 x)
      (odd_part a.0 a.1 (from x) ∙ mul-cm31_from a.1 x)

vanishes : (x : M31) → 𝟘 ⊗ x ⊕ 𝟘 ⊗ x ⊖ 𝟘 ≡ 𝟘
unfolding cross
vanishes x = ring (x ∷ []) (lit0 :* x0 :+ lit0 :* x0 :- lit0) lit0 refl

pub secure_from-double_x : (x : M31) → secure_from (double_x x) ≡ double_x (secure_from x)
unfolding double_x square
secure_from-double_x x =
    sym (ap (λ (t : Qm31). t ⊕ t ⊖ 𝟙) (mul-secure_from (secure_from x) x) ∙ parts)
  where
    parts :
        by_base (secure_from x) x ⊕ by_base (secure_from x) x ⊖ 𝟙 ≡ secure_from (x ⊗ x ⊕ x ⊗ x ⊖ 𝟙)
    parts =
        unfold from mul_base qm31_ring cm31_ring pair_add pair_sub pair_zero pair_one in
        pair_eq (pair_eq refl (vanishes x)) (pair_eq (vanishes x) (vanishes x))

length-doublings : (n : ℕ) (x : Qm31) → length (doublings n x) ≡ n
unfolding doublings
length-doublings zero x = refl
length-doublings (suc n) x = ap suc (length-doublings n (double_x x))

-- The value of the polynomial with 2 ^ n coefficients, in bit-reversed order.
unfoldable pub poly_value : ℕ → List Qm31 → M31 → Qm31
poly_value n coeffs x = value coeffs (doublings n (secure_from x))

pub eval_at_point-poly_value :
    (n : ℕ) (coeffs : List Qm31) (x : M31)
    → length coeffs ≡ 2 ^ n
    → eval_at_point (record { coeffs = coeffs; log_size = n }) (secure_from x)
      ≡ some (poly_value n coeffs x)
unfolding eval_at_point poly_value
eval_at_point-poly_value n coeffs x h =
    fold-value coeffs (doublings n (secure_from x))
      (h ∙ ap (λ k. 2 ^ k) (sym (length-doublings n (secure_from x))))

pub poly_value-append :
    (n : ℕ) (ls rs : List Qm31) (x : M31)
    → length ls ≡ 2 ^ n
    → poly_value (suc n) (ls ++ rs) x
      ≡ poly_value n ls (double_x x) ⊕ by_base (poly_value n rs (double_x x)) x
unfolding poly_value doublings
poly_value-append n ls rs x h =
    value-append ls rs (doublings n (double_x (secure_from x))) (secure_from x)
      (h ∙ ap (λ k. 2 ^ k) (sym (length-doublings n (double_x (secure_from x)))))
    ∙ ap (λ y. value ls (doublings n y) ⊕ value rs (doublings n y) ⊗ secure_from x)
        (sym (secure_from-double_x x))
    ∙ ap (λ t. value ls (doublings n (secure_from (double_x x))) ⊕ t) (mul-secure_from _ x)

pub poly_value-combine :
    (alpha : Qm31) (n : ℕ) (ls rs : List Qm31) (y : M31)
    → length ls ≡ 2 ^ n
    → length rs ≡ 2 ^ n
    → poly_value n (combine alpha ls rs) y
      ≡ (poly_value n ls y ⊕ poly_value n ls y) ⊕ alpha ⊗ (poly_value n rs y ⊕ poly_value n rs y)
unfolding poly_value
poly_value-combine alpha n ls rs y hl hr =
    let size = ap (λ k. 2 ^ k) (sym (length-doublings n (secure_from y))) in
    value-combine alpha ls rs (doublings n (secure_from y)) (hl ∙ size) (hr ∙ size)
