-- ===== src/Lookups/Values.antt =====
-- What the operations on polynomials (crates/stwo/src/prover/lookups/utils.rs) do to their values.
use stwo.Prelude.{ℕ, zero, suc, ◌≤◌, [], ◌∷◌, length, ◌≡◌, refl, ap, ◌∙◌, arith}
use stwo.Algebra.{Field, field_ring, ◌⊕◌, ◌⊗◌}
use stwo.Algebra.Solver.{◌:+◌, ◌:*◌, lit0, x0, x1, x2, x3, x4, ring, cross}
use stwo.Lookups.{horner_eval}
use stwo.Lookups.Univariate.{UnivariatePoly, add, scale, eval_at_point}

module _ {F : Type 0} ⦃f : Field F⦄ where
  pub eval-add :
      (a b : UnivariatePoly F) (t : F)
      → eval_at_point (add a b) t ≡ eval_at_point a t ⊕ eval_at_point b t
  unfolding eval_at_point add horner_eval cross
  eval-add [] b t = ring (eval_at_point b t ∷ []) x0 (lit0 :+ x0) refl
  eval-add (c ∷ a) [] t = ring (eval_at_point (c ∷ a) t ∷ []) x0 (x0 :+ lit0) refl
  eval-add (c ∷ a) (d ∷ b) t =
      ap (λ s. s ⊗ t ⊕ (c ⊕ d)) (eval-add a b t)
      ∙ ring (eval_at_point a t ∷ eval_at_point b t ∷ t ∷ c ∷ d ∷ [])
          ((x0 :+ x1) :* x2 :+ (x3 :+ x4)) (x0 :* x2 :+ x3 :+ (x1 :* x2 :+ x4)) refl

  pub eval-scale :
      (a : UnivariatePoly F) (k t : F) → eval_at_point (scale a k) t ≡ eval_at_point a t ⊗ k
  unfolding eval_at_point scale horner_eval cross
  eval-scale [] k t = ring (k ∷ []) lit0 (lit0 :* x0) refl
  eval-scale (c ∷ a) k t =
      ap (λ s. s ⊗ t ⊕ c ⊗ k) (eval-scale a k t)
      ∙ ring (eval_at_point a t ∷ k ∷ t ∷ c ∷ []) (x0 :* x1 :* x2 :+ x3 :* x1)
          ((x0 :* x2 :+ x3) :* x1) refl

  pub length-add :
      (a b : UnivariatePoly F) (n : ℕ) → length a ≤ n → length b ≤ n → length (add a b) ≤ n
  unfolding add
  length-add [] b n h k = k
  length-add (c ∷ a) [] n h k = h
  length-add (c ∷ a) (d ∷ b) zero h k = absurd (omega arith)
  length-add (c ∷ a) (d ∷ b) (suc n) h k =
      let ih = length-add a b n (omega arith) (omega arith) in omega arith

  pub length-scale : (a : UnivariatePoly F) (k : F) → length (scale a k) ≡ length a
  unfolding scale
  length-scale [] k = refl
  length-scale (c ∷ a) k = ap (λ n. suc n) (length-scale a k)
