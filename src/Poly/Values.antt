-- ===== src/Poly/Values.antt =====
-- `fold` (crates/stwo/src/core/poly/utils.rs) as a sum, and the polynomials with half the coefficients.
use stwo.Prelude.{
  ℕ, zero, suc, ◌+◌, ◌/◌, ◌^◌, ◌==◌, ◌≡◌, refl, sym, ap, ap₂, ◌∙◌, arith, true, some, List, [], ◌∷◌,
  ◌++◌, length, take, drop,
}
use stwo.Prelude.Bits.{two_pow-suc}
use stwo.Algebra.{Ring, ◌⊕◌, ◌⊗◌, 𝟘}
use stwo.Algebra.Solver.{◌:+◌, ◌:*◌, x0, x1, x2, x3, x4, x5, ring, cross}
use stwo.Poly.{fold}

module _ {ℓ} {A : Type ℓ} where
  take-append : (xs ys : List A) (n : ℕ) → length xs ≡ n → take n (xs ++ ys) ≡ xs
  take-append [] ys zero h = refl
  take-append [] ys (suc n) h = absurd (omega arith)
  take-append (x ∷ xs) ys zero h = absurd (omega arith)
  take-append (x ∷ xs) ys (suc n) h = ap (λ t. x ∷ t) (take-append xs ys n (omega arith))

  drop-append : (xs ys : List A) (n : ℕ) → length xs ≡ n → drop n (xs ++ ys) ≡ ys
  drop-append [] ys zero h = refl
  drop-append [] ys (suc n) h = absurd (omega arith)
  drop-append (x ∷ xs) ys zero h = absurd (omega arith)
  drop-append (x ∷ xs) ys (suc n) h = drop-append xs ys n (omega arith)

  length-take : (n k : ℕ) (xs : List A) → length xs ≡ n + k → length (take n xs) ≡ n
  length-take zero k xs h = refl
  length-take (suc n) k [] h = absurd (omega arith)
  length-take (suc n) k (x ∷ xs) h = ap suc (length-take n k xs (omega arith))

  length-drop : (n k : ℕ) (xs : List A) → length xs ≡ n + k → length (drop n xs) ≡ k
  length-drop zero k xs h = omega arith
  length-drop (suc n) k [] h = absurd (omega arith)
  length-drop (suc n) k (x ∷ xs) h = length-drop n k xs (omega arith)

module _ {E : Type 0} ⦃r : Ring E⦄ where
  abbrev pub first : List E → E
  first [] = 𝟘
  first (v ∷ values) = v

  -- The sum of the values, each times the product of some of the factors.
  unfoldable pub value : List E → List E → E
  value values [] = first values
  value values (x ∷ xs) =
      value (take (2 ^ length xs) values) xs ⊕ value (drop (2 ^ length xs) values) xs ⊗ x

  halves : (n : ℕ) (xs : List E) → length xs ≡ 2 ^ suc n → length xs ≡ 2 ^ n + 2 ^ n
  halves n xs h = omega (arith, two_pow-suc n)

  pub fold-value :
      (values xs : List E)
      → length values ≡ 2 ^ length xs
      → fold (λ c. c) values xs ≡ some (value values xs)
  unfolding fold value
  fold-value [] [] h = absurd (omega arith)
  fold-value (v ∷ []) [] h = refl
  fold-value (v ∷ w ∷ values) [] h = absurd (omega arith)
  fold-value values (x ∷ xs) h =
      let n = length xs in
      let sizes = halves n values h in
      rw
        (
          full,
          half,
          fold-value (take (2 ^ n) values) xs (length-take (2 ^ n) (2 ^ n) values sizes),
          fold-value (drop (2 ^ n) values) xs (length-drop (2 ^ n) (2 ^ n) values sizes),
        )
        refl
    where
      full : (length values == 2 ^ suc (length xs)) ≡ true
      full = ground arith

      half : length values / 2 ≡ 2 ^ length xs
      half = omega (arith, two_pow-suc (length xs))

  pub value-append :
      (ls rs xs : List E) (x : E)
      → length ls ≡ 2 ^ length xs
      → value (ls ++ rs) (x ∷ xs) ≡ value ls xs ⊕ value rs xs ⊗ x
  unfolding value
  value-append ls rs xs x h =
      ap₂ (λ a b. value a xs ⊕ value b xs ⊗ x) (take-append ls rs _ h) (drop-append ls rs _ h)

  module _ (alpha : E) where
    abbrev pub mix : E → E → E
    mix l r = (l ⊕ l) ⊕ alpha ⊗ (r ⊕ r)

    abbrev pub combine : List E → List E → List E
    combine (l ∷ ls) (r ∷ rs) = mix l r ∷ combine ls rs
    combine _ _ = []

    combine-nil : (ls : List E) → combine ls [] ≡ []
    combine-nil [] = refl
    combine-nil (l ∷ ls) = refl

    take-combine :
        (n : ℕ) (ls rs : List E) → take n (combine ls rs) ≡ combine (take n ls) (take n rs)
    take-combine zero ls rs = refl
    take-combine (suc n) [] rs = refl
    take-combine (suc n) (l ∷ ls) [] = refl
    take-combine (suc n) (l ∷ ls) (r ∷ rs) = ap (λ t. mix l r ∷ t) (take-combine n ls rs)

    drop-combine :
        (n : ℕ) (ls rs : List E) → drop n (combine ls rs) ≡ combine (drop n ls) (drop n rs)
    drop-combine zero ls rs = refl
    drop-combine (suc n) [] rs = refl
    drop-combine (suc n) (l ∷ ls) [] = sym (combine-nil (drop n ls))
    drop-combine (suc n) (l ∷ ls) (r ∷ rs) = drop-combine n ls rs

    pub length-combine :
        (ls rs : List E) → length ls ≡ length rs → length (combine ls rs) ≡ length ls
    length-combine [] rs h = refl
    length-combine (l ∷ ls) [] h = absurd (omega arith)
    length-combine (l ∷ ls) (r ∷ rs) h = ap suc (length-combine ls rs (omega arith))

    linear : (l l' r r' x : E) → mix l r ⊕ mix l' r' ⊗ x ≡ mix (l ⊕ l' ⊗ x) (r ⊕ r' ⊗ x)
    unfolding cross
    linear l l' r r' x =
        ring (l ∷ l' ∷ r ∷ r' ∷ x ∷ alpha ∷ [])
          (((x0 :+ x0) :+ x5 :* (x2 :+ x2)) :+ ((x1 :+ x1) :+ x5 :* (x3 :+ x3)) :* x4)
          (((x0 :+ x1 :* x4) :+ (x0 :+ x1 :* x4)) :+ x5 :* ((x2 :+ x3 :* x4) :+ (x2 :+ x3 :* x4)))
          refl

    pub value-combine :
        (ls rs xs : List E)
        → length ls ≡ 2 ^ length xs
        → length rs ≡ 2 ^ length xs
        → value (combine ls rs) xs ≡ mix (value ls xs) (value rs xs)
    unfolding value
    value-combine (l ∷ ls) (r ∷ rs) [] hl hr = refl
    value-combine [] rs [] hl hr = absurd (omega arith)
    value-combine (l ∷ ls) [] [] hl hr = absurd (omega arith)
    value-combine ls rs (x ∷ xs) hl hr =
        let n = 2 ^ length xs in
        let sl = halves (length xs) ls hl in
        let sr = halves (length xs) rs hr in
        ap₂ (λ a b. value a xs ⊕ value b xs ⊗ x) (take-combine n ls rs) (drop-combine n ls rs)
        ∙ ap₂ (λ a b. a ⊕ b ⊗ x)
            (value-combine (take n ls) (take n rs) xs (length-take n n ls sl)
              (length-take n n rs sr))
            (value-combine (drop n ls) (drop n rs) xs (length-drop n n ls sl)
              (length-drop n n rs sr))
        ∙ linear (value (take n ls) xs) (value (drop n ls) xs) (value (take n rs) xs)
            (value (drop n rs) xs) x
