-- ===== src/Circle.antt =====
-- crates/stwo/src/core/circle.rs: points of the circle x^2 + y^2 = 1 over a ring, as an additive
-- group.
pub mod Laws
pub mod Multiples
pub mod Index
pub mod Random
pub mod Coset
mod Tests
use stwo.Prelude.{ℕ, zero, suc, ◌/◌, ◌%◌, ◌==◌, if◌then◌else◌, Option, none, some}
use stwo.Algebra.{Ring, Field, field_ring, ◌⊕◌, ◌⊖◌, ◌⊗◌, ⊝, 𝟘, 𝟙}
use stwo.Fields.ExpOps.{square}

pub record CirclePoint {ℓ} (F : Type ℓ) : Type ℓ where
  pub x : F
  pub y : F

module _ {ℓ} {F : Type ℓ} ⦃r : Ring F⦄ where
  unfoldable pub identity : CirclePoint F
  identity = record { x = 𝟙; y = 𝟘 }

  unfoldable pub add : CirclePoint F → CirclePoint F → CirclePoint F
  add p q = record { x = p.x ⊗ q.x ⊖ p.y ⊗ q.y; y = p.x ⊗ q.y ⊕ p.y ⊗ q.x }

  unfoldable pub double : CirclePoint F → CirclePoint F
  double p = add p p

  -- The x-coordinate doubling map.
  unfoldable pub double_x : F → F
  unfolding square
  double_x x = let sx = square x in sx ⊕ sx ⊖ 𝟙

  unfoldable pub conjugate : CirclePoint F → CirclePoint F
  conjugate p = record { x = p.x; y = ⊝ p.y }

  unfoldable pub antipode : CirclePoint F → CirclePoint F
  antipode p = record { x = ⊝ p.x; y = ⊝ p.y }

  unfoldable pub neg : CirclePoint F → CirclePoint F
  unfolding conjugate
  neg p = conjugate p

  unfoldable pub sub : CirclePoint F → CirclePoint F → CirclePoint F
  sub p q = add p (neg q)

  -- The loop `while scalar > 0` of `mul`, at most `fuel` rounds.
  unfoldable pub mul_loop : ℕ → CirclePoint F → CirclePoint F → ℕ → CirclePoint F
  mul_loop zero res cur scalar = res
  mul_loop (suc fuel) res cur scalar =
      let next =
        mul_loop fuel (if scalar % 2 == 1 then add res cur else res) (double cur) (scalar / 2) in
      if scalar == 0 then res else next

  -- The scalar is a `u128`, so 128 rounds are enough.
  unfoldable pub mul : CirclePoint F → ℕ → CirclePoint F
  unfolding mul_loop
  mul p scalar = mul_loop 128 identity p scalar

  unfoldable pub repeated_double : CirclePoint F → ℕ → CirclePoint F
  repeated_double p zero = p
  repeated_double p (suc n) = repeated_double (double p) n

module _ {ℓ} {F : Type ℓ} ⦃f : Field F⦄ where
  -- The loop `while cur != one` of `log_order`; `none` if the rounds run out.
  unfoldable pub log_order_loop : ℕ → ℕ → F → Option ℕ
  log_order_loop zero res cur = none
  log_order_loop (suc fuel) res cur =
      let next = log_order_loop fuel (suc res) (double_x cur) in
      elim (f.dec_eq cur 𝟙) [ yes e ↦ some res | no h ↦ next ]

  unfoldable pub log_order : ℕ → CirclePoint F → Option ℕ
  unfolding log_order_loop
  log_order fuel p = log_order_loop fuel 0 p.x
