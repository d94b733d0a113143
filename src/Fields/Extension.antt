-- ===== src/Fields/Extension.antt =====
-- The macro `impl_extension_field` of crates/stwo/src/core/fields/mod.rs: the additive structure of
-- a degree 2 extension, over the ring that it extends.
use stwo.Prelude.{◌≡◌}
use stwo.Algebra.{Ring, ◌⊕◌, ◌⊖◌, ⊝, 𝟘, 𝟙}

pub pair_eq {ℓ} : {A : Type ℓ} {a b c d : A} → a ≡ c → b ≡ d → ◌≡◌ {A = A × A} (a, b) (c, d)
pair_eq p q = λ i. (p i, q i)

module _ {ℓ} {A : Type ℓ} ⦃r : Ring A⦄ where
  unfoldable pub add : A × A → A × A → A × A
  add x y = (x.0 ⊕ y.0, x.1 ⊕ y.1)

  unfoldable pub neg : A × A → A × A
  neg x = (⊝ x.0, ⊝ x.1)

  unfoldable pub sub : A × A → A × A → A × A
  sub x y = (x.0 ⊖ y.0, x.1 ⊖ y.1)

  unfoldable pub one : A × A
  one = (𝟙, 𝟘)

  unfoldable pub zero : A × A
  zero = (𝟘, 𝟘)

  unfoldable pub complex_conjugate : A × A → A × A
  complex_conjugate x = (x.0, ⊝ x.1)

  -- `From<M31>`, from the extended ring.
  unfoldable pub from : A → A × A
  from x = (x, 𝟘)

module _ {ℓ κ} {A : Type ℓ} {S : Type κ} where
  -- `Mul<M31>`, given the multiple of the extended ring.
  unfoldable pub mul_base : (A → S → A) → A × A → S → A × A
  mul_base mul x y = (mul x.0 y, mul x.1 y)
