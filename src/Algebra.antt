-- ===== src/Algebra.antt =====
-- What the generic code asks of a ring: the traits `Add`, `Sub`, `Mul`, `Neg`, `Zero` and `One` of
-- crates/stwo/src/core/fields/mod.rs with the laws of a commutative ring.
pub mod Laws
pub mod Solver
pub mod Inverses
use stwo.Prelude.{◌≡◌, ◌≢◌, Bool, true, false, Option, none, some, if◌then◌else◌}

pub record Ring {ℓ} (A : Type ℓ) : Type ℓ where
  pub neg : A → A
  pub sub : A → A → A
  pub add : A → A → A
  pub mul : A → A → A
  pub one : A
  pub zero : A
  -- `x - y` is `x + (-y)`, and `-x` is opposite to `x`.
  pub sub_lem : (x y : A) → sub x y ≡ add x (neg y)
  pub neg-add : (x : A) → add (neg x) x ≡ zero
  -- Both operations commute.
  pub add_comm : (x y : A) → add x y ≡ add y x
  pub mul_comm : (x y : A) → mul x y ≡ mul y x
  pub zero-add : (x : A) → add zero x ≡ x
  pub one-mul : (x : A) → mul one x ≡ x
  pub mul-add : (x y z : A) → mul x (add y z) ≡ add (mul x y) (mul x z)
  pub add_assoc : (x y z : A) → add (add x y) z ≡ add x (add y z)
  pub mul_assoc : (x y z : A) → mul (mul x y) z ≡ mul x (mul y z)

module _ {ℓ} {A : Type ℓ} ⦃r : Ring A⦄ where
  abbrev pub 𝟘 : A
  𝟘 = r.zero

  abbrev pub 𝟙 : A
  𝟙 = r.one

  abbrev pub ⊝ : A → A
  ⊝ x = r.neg x

  infixl 70 ◌⊗◌
  abbrev pub ◌⊗◌ : A → A → A
  x ⊗ y = r.mul x y

  infixl 65 ◌⊕◌ ◌⊖◌
  abbrev pub ◌⊖◌ : A → A → A
  x ⊖ y = r.sub x y

  abbrev pub ◌⊕◌ : A → A → A
  x ⊕ y = r.add x y

-- The trait `Field`: `inv` is the value of `FieldExpOps::inverse` at a nonzero element.
pub record Field {ℓ} (A : Type ℓ) : Type ℓ where
  pub ring : Ring A
  pub inv : A → A
  pub dec_eq : Discrete A
  pub one-ne-zero : ring.one ≢ ring.zero
  pub mul-inv : (a : A) → a ≢ ring.zero → ring.mul a (inv a) ≡ ring.one

module _ {ℓ} {A : Type ℓ} ⦃f : Field A⦄ where
  instance abbrev pub field_ring : Ring A
  field_ring = f.ring

  abbrev pub is_zero : A → Bool
  is_zero a = elim (f.dec_eq a f.ring.zero) [ yes e ↦ true | no h ↦ false ]

  -- `FieldExpOps::inverse`, which panics at zero.
  unfoldable pub inverse : A → Option A
  inverse a = if is_zero a then none else some (f.inv a)
