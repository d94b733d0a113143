-- ===== src/Fields/BatchInverse/Sound.antt =====
-- The one inversion of `batch_inverse_classic` (crates/stwo/src/core/fields/mod.rs) gives the inverse of
-- each element.
use stwo.Prelude.{
  none, some, List, [], ◌∷◌, map, ◌≡◌, ◌≢◌, refl, ap₂, ◌∙◌, Bool, true, false, if◌then◌else◌,
}
use stwo.Algebra.{Field, field_ring, inverse, ◌⊗◌, 𝟘, 𝟙}
use stwo.Algebra.Inverses.{mul_ne-zero, inv_unique}
use stwo.Algebra.Solver.{◌:*◌, x0, x1, x2, ring, cross}
use stwo.Fields.BatchInverse.{first_pass, last_entry, second_pass, batch_inverse_classic}

module _ {K : Type 0} ⦃f : Field K⦄ where
  -- No element is zero.
  pub data AllNonzero : List K → Type 0 where
    empty : AllNonzero []
    more : (c : K) (column : List K) → c ≢ 𝟘 → AllNonzero column → AllNonzero (c ∷ column)

  last_ne-zero :
      (d : K) (column : List K) → d ≢ 𝟘 → AllNonzero column → last_entry d (first_pass d column) ≢ 𝟘
  unfolding last_entry first_pass
  last_ne-zero d [] h a = h
  last_ne-zero d (c ∷ column) h (AllNonzero.more _ _ hc a) =
      last_ne-zero (d ⊗ c) column (mul_ne-zero d c h hc) a

  -- From an inverse of the last product the pass goes down to an inverse of the first.
  second_pass_down :
      (d : K) (column : List K) (curr : K)
      → d ≢ 𝟘
      → AllNonzero column
      → last_entry d (first_pass d column) ⊗ curr ≡ 𝟙
      → ((second_pass d (first_pass d column) column curr).0 ≡ map f.inv column)
        × (d ⊗ (second_pass d (first_pass d column) column curr).1 ≡ 𝟙)
  unfolding second_pass first_pass last_entry cross
  second_pass_down d [] curr h a e = (refl, e)
  second_pass_down d (c ∷ column) curr h (AllNonzero.more _ _ hc a) e =
      let (out, one) = second_pass_down (d ⊗ c) column curr (mul_ne-zero d c h hc) a e in
      let t = (second_pass (d ⊗ c) (first_pass (d ⊗ c) column) column curr).1 in
      (
        ap₂ (λ x xs. x ∷ xs)
            (inv_unique c (d ⊗ t) hc
              (ring (c ∷ d ∷ t ∷ []) (x0 :* (x1 :* x2)) (x1 :* x0 :* x2) refl ∙ one))
            out,
        ring (c ∷ d ∷ t ∷ []) (x1 :* (x2 :* x0)) (x1 :* x0 :* x2) refl ∙ one,
      )

  pub inverse_of_ne-zero : (x : K) → x ≢ 𝟘 → inverse x ≡ some (f.inv x)
  unfolding inverse
  inverse_of_ne-zero x h = decided (f.dec_eq x 𝟘)
    where
      decided :
          (d : Dec (x ≡ 𝟘))
          → (if elim d as (λ _. Bool) [ yes e ↦ true | no ne ↦ false ]
              then none
              else some (f.inv x))
            ≡ some (f.inv x)
      decided (yes e) = absurd (h e)
      decided (no ne) = refl

  pub ne-zero_of_inverse : (x : K) {i : K} → inverse x ≡ some i → x ≢ 𝟘
  unfolding inverse
  ne-zero_of_inverse x {i} e = decided (f.dec_eq x 𝟘) e
    where
      decided :
          (d : Dec (x ≡ 𝟘))
          → (if elim d as (λ _. Bool) [ yes e ↦ true | no ne ↦ false ]
              then none
              else some (f.inv x))
            ≡ some i
          → x ≢ 𝟘
      decided (yes e) k = cc
      decided (no ne) k = ne

  -- On a column without zeros the result is there, and it is the list of the inverses in order.
  pub batch_inverse_classic-map :
      (column : List K) → AllNonzero column → batch_inverse_classic column ≡ some (map f.inv column)
  unfolding batch_inverse_classic
  batch_inverse_classic-map [] a = refl
  batch_inverse_classic-map (c ∷ column) (AllNonzero.more _ _ hc a) =
      let l = last_entry c (first_pass c column) in
      let ne = last_ne-zero c column hc a in
      let (out, one) = second_pass_down c column (f.inv l) hc a (f.mul-inv l ne) in
      rw (inverse_of_ne-zero l ne) (ap₂ (λ x xs. some (x ∷ xs)) (inv_unique c _ hc one) out)
