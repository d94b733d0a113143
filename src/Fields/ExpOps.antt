-- ===== src/Fields/ExpOps.antt =====
-- The trait `FieldExpOps` of crates/stwo/src/core/fields/mod.rs, and `pow2147483645` of m31.rs,
-- which is generic over it.
pub mod Powers
use stwo.Prelude.{ℕ, zero, suc, ◌/◌, ◌%◌, ◌==◌, if◌then◌else◌}
use stwo.Algebra.{Ring, ◌⊗◌, 𝟙}

module _ {ℓ} {A : Type ℓ} ⦃r : Ring A⦄ where
  unfoldable pub square : A → A
  square a = a ⊗ a

  -- The loop `while exp > 0`, at most `fuel` rounds.
  pow_loop : ℕ → A → A → ℕ → A
  unfolding square
  pow_loop zero res base exp = res
  pow_loop (suc fuel) res base exp =
      let next = pow_loop fuel (if exp % 2 == 1 then res ⊗ base else res) (square base) (exp / 2) in
      if exp == 0 then res else next

  -- The exponent is a `u128`, so 128 rounds are enough.
  unfoldable pub pow : A → ℕ → A
  unfolding pow_loop
  pow a exp = pow_loop 128 𝟙 a exp

  unfoldable pub sqn : ℕ → A → A
  unfolding square
  sqn zero v = v
  sqn (suc n) v = sqn n (square v)

  -- The multiplication tree for v ^ (2 ^ 31 - 3).
  unfoldable pub pow2147483645 : A → A
  pow2147483645 v =
      let t0 = sqn 2 v ⊗ v in
      let t1 = sqn 1 t0 ⊗ t0 in
      let t2 = sqn 3 t1 ⊗ t0 in
      let t3 = sqn 1 t2 ⊗ t0 in let t4 = sqn 8 t3 ⊗ t3 in let t5 = sqn 8 t4 ⊗ t3 in sqn 7 t5 ⊗ t2
