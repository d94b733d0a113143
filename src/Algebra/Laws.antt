-- ===== src/Algebra/Laws.antt =====
-- Consequences of the ring laws.
use stwo.Prelude.{◌≡◌, sym, ap, ◌∙◌}
use stwo.Algebra.{Ring, ◌⊕◌, ◌⊗◌, ⊝, 𝟘, 𝟙}

module _ {ℓ} {A : Type ℓ} ⦃r : Ring A⦄ where
  pub add-zero : (a : A) → a ⊕ 𝟘 ≡ a
  add-zero a = r.add_comm a 𝟘 ∙ r.zero-add a

  pub add_left_comm : (a b c : A) → a ⊕ (b ⊕ c) ≡ b ⊕ (a ⊕ c)
  add_left_comm a b c =
      sym (r.add_assoc a b c) ∙ ap (λ t. t ⊕ c) (r.add_comm a b) ∙ r.add_assoc b a c

  pub add_interchange : (a b c d : A) → (a ⊕ b) ⊕ (c ⊕ d) ≡ (a ⊕ c) ⊕ (b ⊕ d)
  add_interchange a b c d = simp (r.add_assoc, add_left_comm)

  pub neg-add_cancel : (a b : A) → ⊝ a ⊕ (a ⊕ b) ≡ b
  neg-add_cancel a b = sym (r.add_assoc (⊝ a) a b) ∙ ap (λ t. t ⊕ b) (r.neg-add a) ∙ r.zero-add b

  pub add_left_cancel : (a b c : A) → a ⊕ b ≡ a ⊕ c → b ≡ c
  add_left_cancel a b c h = sym (neg-add_cancel a b) ∙ ap (λ t. ⊝ a ⊕ t) h ∙ neg-add_cancel a c

  pub add_right_cancel : (a b c : A) → b ⊕ a ≡ c ⊕ a → b ≡ c
  add_right_cancel a b c h = add_left_cancel a b c (r.add_comm a b ∙ h ∙ r.add_comm c a)

  pub add-mul : (a b c : A) → (a ⊕ b) ⊗ c ≡ a ⊗ c ⊕ b ⊗ c
  add-mul a b c = simp (r.mul_comm (a ⊕ b) c, r.mul_comm a c, r.mul_comm b c, r.mul-add)

  pub mul-zero : (a : A) → a ⊗ 𝟘 ≡ 𝟘
  mul-zero a =
      add_left_cancel (a ⊗ 𝟘) (a ⊗ 𝟘) 𝟘
        (sym (r.mul-add a 𝟘 𝟘) ∙ ap (λ t. a ⊗ t) (r.zero-add 𝟘) ∙ sym (add-zero _))

  pub zero-mul : (a : A) → 𝟘 ⊗ a ≡ 𝟘
  zero-mul a = r.mul_comm 𝟘 a ∙ mul-zero a

  pub mul-one : (a : A) → a ⊗ 𝟙 ≡ a
  mul-one a = r.mul_comm a 𝟙 ∙ r.one-mul a

  pub mul_left_comm : (a b c : A) → a ⊗ (b ⊗ c) ≡ b ⊗ (a ⊗ c)
  mul_left_comm a b c =
      sym (r.mul_assoc a b c) ∙ ap (λ t. t ⊗ c) (r.mul_comm a b) ∙ r.mul_assoc b a c
