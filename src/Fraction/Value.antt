-- ===== src/Fraction/Value.antt =====
-- The sum of fractions (crates/stwo/src/core/fraction.rs) is the fraction of the sum.
use stwo.Prelude.{List, [], ◌∷◌, ◌≡◌, ◌≢◌, refl, sym, ap, ap₂, ◌∙◌}
use stwo.Algebra.{Field, field_ring, ◌⊕◌, ◌⊗◌, 𝟘, 𝟙}
use stwo.Algebra.Laws.{zero-mul, mul-one}
use stwo.Algebra.Inverses.{mul_ne-zero, mul-inv_distrib}
use stwo.Algebra.Solver.{◌:+◌, ◌:*◌, x0, x1, x2, x3, x4, x5, ring, cross}
use stwo.Fraction.{Fraction, add, fold, sum, zero}

module _ {K : Type 0} ⦃f : Field K⦄ where
  abbrev pub value : Fraction K → K
  value a = a.numerator ⊗ f.inv a.denominator

  value-add :
      (a b : Fraction K)
      → a.denominator ≢ 𝟘
      → b.denominator ≢ 𝟘
      → value (add a b) ≡ value a ⊕ value b
  unfolding add cross
  value-add a b ha hb =
      ap (λ t. (b.denominator ⊗ a.numerator ⊕ a.denominator ⊗ b.numerator) ⊗ t)
        (mul-inv_distrib a.denominator b.denominator ha hb)
      ∙ ring atoms ((x3 :* x0 :+ x1 :* x2) :* (x4 :* x5))
          (x0 :* x4 :* (x3 :* x5) :+ x2 :* x5 :* (x1 :* x4)) refl
      ∙ ap₂ (λ u v. value a ⊗ u ⊕ value b ⊗ v) (f.mul-inv b.denominator hb)
          (f.mul-inv a.denominator ha)
      ∙ ap₂ (λ u v. u ⊕ v) (mul-one (value a)) (mul-one (value b))
    where
      atoms : List K
      atoms =
          a.numerator
          ∷ a.denominator
          ∷ b.numerator
          ∷ b.denominator
          ∷ f.inv a.denominator
          ∷ f.inv b.denominator
          ∷ []

  -- No denominator is zero.
  pub data Proper : List (Fraction K) → Type 0 where
    empty : Proper []
    more :
        (a : Fraction K) (rest : List (Fraction K))
        → a.denominator ≢ 𝟘
        → Proper rest
        → Proper (a ∷ rest)

  -- The values of the fractions, added to x.
  abbrev pub total : K → List (Fraction K) → K
  total x [] = x
  total x (a ∷ rest) = total (x ⊕ value a) rest

  value-fold :
      (a : Fraction K) (rest : List (Fraction K))
      → a.denominator ≢ 𝟘
      → Proper rest
      → ((fold a rest).denominator ≢ 𝟘) × (value (fold a rest) ≡ total (value a) rest)
  unfolding fold
  value-fold a [] h p = (h, refl)
  value-fold a (b ∷ rest) h (Proper.more _ _ hb p) =
      let (ne, e) = value-fold (add a b) rest (unfold add in mul_ne-zero _ _ h hb) p in
      (ne, e ∙ ap (λ t. total t rest) (value-add a b h hb))

  -- On fractions without a zero denominator, the sum has a nonzero denominator, and its value is the
  -- sum of the values.
  pub value-sum :
      (fractions : List (Fraction K))
      → Proper fractions
      → ((sum fractions).denominator ≢ 𝟘) × (value (sum fractions) ≡ total 𝟘 fractions)
  unfolding sum zero
  value-sum [] p = (f.one-ne-zero, zero-mul (f.inv 𝟙))
  value-sum (a ∷ rest) (Proper.more _ _ h p) =
      let (ne, e) = value-fold a rest h p in
      (ne, e ∙ ap (λ t. total t rest) (sym (f.ring.zero-add (value a))))
