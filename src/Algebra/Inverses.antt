-- ===== src/Algebra/Inverses.antt =====
-- Consequences of the field laws.
use stwo.Prelude.{◌≡◌, ◌≢◌, refl, sym, ap, ◌∙◌, [], ◌∷◌}
use stwo.Algebra.{Field, field_ring, ◌⊗◌, 𝟘, 𝟙}
use stwo.Algebra.Laws.{mul-zero}
use stwo.Algebra.Solver.{◌:*◌, x0, x1, x2, x3, ring, cross}

module _ {ℓ} {A : Type ℓ} ⦃f : Field A⦄ where
  pub inv-mul : (a : A) → a ≢ 𝟘 → f.inv a ⊗ a ≡ 𝟙
  inv-mul a h = f.ring.mul_comm _ _ ∙ f.mul-inv a h

  pub inv-mul_cancel : (a b : A) → a ≢ 𝟘 → f.inv a ⊗ (a ⊗ b) ≡ b
  inv-mul_cancel a b h =
      sym (f.ring.mul_assoc _ _ _) ∙ ap (λ t. t ⊗ b) (inv-mul a h) ∙ f.ring.one-mul b

  pub zero_of_mul : (a b : A) → a ≢ 𝟘 → a ⊗ b ≡ 𝟘 → b ≡ 𝟘
  zero_of_mul a b h e = sym (inv-mul_cancel a b h) ∙ ap (λ t. f.inv a ⊗ t) e ∙ mul-zero _

  pub mul_ne-zero : (a b : A) → a ≢ 𝟘 → b ≢ 𝟘 → a ⊗ b ≢ 𝟘
  mul_ne-zero a b ha hb e = hb (zero_of_mul a b ha e)

  pub mul_left_cancel : (a b c : A) → a ≢ 𝟘 → a ⊗ b ≡ a ⊗ c → b ≡ c
  mul_left_cancel a b c h e =
      sym (inv-mul_cancel a b h) ∙ ap (λ t. f.inv a ⊗ t) e ∙ inv-mul_cancel a c h

  -- An inverse is the inverse.
  pub inv_unique : (a b : A) → a ≢ 𝟘 → a ⊗ b ≡ 𝟙 → b ≡ f.inv a
  inv_unique a b h e = mul_left_cancel a b (f.inv a) h (e ∙ sym (f.mul-inv a h))

  pub inv_ne-zero : (a : A) → a ≢ 𝟘 → f.inv a ≢ 𝟘
  inv_ne-zero a h e = f.one-ne-zero (sym (f.mul-inv a h) ∙ ap (λ t. a ⊗ t) e ∙ mul-zero a)

  pub mul-inv_distrib : (a b : A) → a ≢ 𝟘 → b ≢ 𝟘 → f.inv (a ⊗ b) ≡ f.inv a ⊗ f.inv b
  unfolding cross
  mul-inv_distrib a b ha hb = sym (
      inv_unique (a ⊗ b) (f.inv a ⊗ f.inv b) (mul_ne-zero a b ha hb) (
        ring (a ∷ b ∷ f.inv a ∷ f.inv b ∷ []) (x0 :* x1 :* (x2 :* x3)) (x0 :* x2 :* (x1 :* x3)) refl
        ∙ ap (λ t. t ⊗ (b ⊗ f.inv b)) (f.mul-inv a ha)
        ∙ f.ring.one-mul _
        ∙ f.mul-inv b hb))
