-- ===== src/Fields/M31/Reduce.antt =====
-- The reductions and the ring operations of m31.rs against arithmetic modulo `P`.
use Prim.Native.Nat.{bit_and}
use stwo.Prelude.{ℕ, ◌+◌, ◌-◌, ◌*◌, ◌%◌, ◌^◌, ◌<◌, ◌≡◌, arith}
use native.Mathlib.Nat.{mod-eq_of_lt}
use stwo.Prelude.Bits.{bit_and_mask}
use stwo.Fields.M31.{p, partial_reduce, reduce, add, sub, neg, mul}

bit_and-p : (a : ℕ) → bit_and a p ≡ a % 2 ^ 31
bit_and-p a = bit_and_mask a 31

-- Below 2 ^ 62 - 1 the shifts and the carry of `reduce` give the remainder by `P`. This is a
-- larger range than the documented one, `val < P ^ 2`.
pub reduce-mod : (val : ℕ) → val < 2 ^ 62 - 1 → reduce val ≡ val % p
unfolding reduce
reduce-mod val h = rw bit_and-p (omega arith)

pub partial_reduce-mod : (val : ℕ) → val < 2 * p → partial_reduce val ≡ val % p
unfolding partial_reduce
partial_reduce-mod val h = ground arith

-- A product of two elements fits the range of `reduce`.
product-lt : (a b : ℕ) → a < p → b < p → a * b < 2 ^ 62 - 1
product-lt a b ha hb = grind arith

module _ (a b : ℕ) (ha : a < p) (hb : b < p) where
  pub add-mod : add a b ≡ (a + b) % p
  unfolding add partial_reduce
  add-mod = ground arith

  pub sub-mod : sub a b ≡ (a + p - b) % p
  unfolding sub partial_reduce
  sub-mod = ground arith

  pub mul-mod : mul a b ≡ (a * b) % p
  unfolding mul
  mul-mod = rw (mod-eq_of_lt small) (reduce-mod (a * b) (product-lt a b ha hb))
    where
      small : a * b < 2 ^ 64
      small = omega (arith, product-lt a b ha hb)

pub neg-mod : (a : ℕ) → a < p → neg a ≡ (p - a) % p
unfolding neg partial_reduce
neg-mod a h = ground arith

-- On canonical elements, the values below `P`, the operations on the words are the arithmetic
-- modulo `P`: no wrap-around of a machine word is seen.
pub operations-mod :
    (a b : ℕ)
    → a < p
    → b < p
    → (add a b ≡ (a + b) % p)
      × (sub a b ≡ (a + p - b) % p)
      × (mul a b ≡ (a * b) % p)
      × (neg a ≡ (p - a) % p)
operations-mod a b ha hb = (add-mod a b ha hb, sub-mod a b ha hb, mul-mod a b ha hb, neg-mod a ha)
