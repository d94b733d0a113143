-- ===== src/Fields/M31/Carrier.antt =====
-- The canonical elements of `M31`, the values below `P`. On them the operations of m31.rs make a
-- commutative ring.
use native.Mathlib.Nat.{mod-eq_of_lt, mul_comm, mul_assoc, mul-add, one-mul}
use native.Mathlib.Bridge.{le_prop}
use mathlib.Core.HLevel.{Σ_prop_path}
use stwo.Prelude.{ℕ, ◌+◌, ◌*◌, ◌%◌, ◌<◌, ◌≡◌, sym, ◌∙◌, ap, arith}
use stwo.Prelude.Mod.{mod-mul-mod, mul-mod-mod}
use stwo.Algebra.{Ring}
use stwo.Fields.M31.{p, add, sub, neg, mul}
use stwo.Fields.M31.Reduce.{add-mod, sub-mod, neg-mod, mul-mod}

abbrev pub M31 : Type 0
M31 = (value : ℕ) × value < p

pub ext : {a b : M31} → a.0 ≡ b.0 → a ≡ b
ext e = Σ_prop_path (λ n. le_prop) e

pub M31-set : IsSet M31
M31-set = hlevel le_prop

mod-p-lt : (x : ℕ) → x % p < p
mod-p-lt x = omega arith

pub add-lt : (a b : ℕ) → a < p → b < p → add a b < p
add-lt a b ha hb = rw (add-mod a b ha hb) (mod-p-lt _)

pub sub-lt : (a b : ℕ) → a < p → b < p → sub a b < p
sub-lt a b ha hb = rw (sub-mod a b ha hb) (mod-p-lt _)

pub mul-lt : (a b : ℕ) → a < p → b < p → mul a b < p
mul-lt a b ha hb = rw (mul-mod a b ha hb) (mod-p-lt _)

pub neg-lt : (a : ℕ) → a < p → neg a < p
neg-lt a ha = rw (neg-mod a ha) (mod-p-lt _)

module _ (a b c : ℕ) (ha : a < p) (hb : b < p) (hc : c < p) where
  pub mul_assoc_raw : mul (mul a b) c ≡ mul a (mul b c)
  mul_assoc_raw =
      mul-mod (mul a b) c (mul-lt a b ha hb) hc
      ∙ rw (mul-mod a b ha hb) (mod-mul-mod (a * b) c p)
      ∙ ap (λ t. t % p) (mul_assoc a b c)
      ∙ sym (mul-mod-mod a (b * c) p)
      ∙ sym (mul-mod a (mul b c) ha (mul-lt b c hb hc) ∙ rw (mul-mod b c hb hc))

  pub mul-add_raw : mul a (add b c) ≡ add (mul a b) (mul a c)
  mul-add_raw =
      mul-mod a (add b c) ha (add-lt b c hb hc)
      ∙ rw (add-mod b c hb hc) (mul-mod-mod a (b + c) p)
      ∙ ap (λ t. t % p) (mul-add a b c)
      ∙ sym (
          add-mod (mul a b) (mul a c) (mul-lt a b ha hb) (mul-lt a c ha hc)
          ∙ rw (mul-mod a b ha hb, mul-mod a c ha hc) (omega arith))

  pub add_assoc_raw : add (add a b) c ≡ add a (add b c)
  add_assoc_raw = omega (
    arith,
    add-mod (add a b) c (add-lt a b ha hb) hc,
    add-mod a (add b c) ha (add-lt b c hb hc),
    add-mod a b ha hb,
    add-mod b c hb hc,
  )

instance unfoldable pub m31_ring : Ring M31
m31_ring = record {
  zero = (0, omega arith);
  one = (1, omega arith);
  add = λ a b. (add a.0 b.0, add-lt a.0 b.0 a.1 b.1);
  sub = λ a b. (sub a.0 b.0, sub-lt a.0 b.0 a.1 b.1);
  mul = λ a b. (mul a.0 b.0, mul-lt a.0 b.0 a.1 b.1);
  neg = λ a. (neg a.0, neg-lt a.0 a.1);
  add_assoc = λ a b c. ext (add_assoc_raw a.0 b.0 c.0 a.1 b.1 c.1);
  add_comm = λ a b. ext (omega (arith, add-mod a.0 b.0 a.1 b.1, add-mod b.0 a.0 b.1 a.1));
  zero-add = λ a. ext (omega (arith, add-mod 0 a.0 (omega arith) a.1));
  neg-add = λ a. ext (omega (arith, add-mod (neg a.0) a.0 (neg-lt a.0 a.1) a.1, neg-mod a.0 a.1));
  sub_lem = λ a b. ext (
      omega (
        arith,
        sub-mod a.0 b.0 a.1 b.1,
        add-mod a.0 (neg b.0) a.1 (neg-lt b.0 b.1),
        neg-mod b.0 b.1,
      ));
  mul_assoc = λ a b c. ext (mul_assoc_raw a.0 b.0 c.0 a.1 b.1 c.1);
  mul_comm = λ a b. ext (
      mul-mod a.0 b.0 a.1 b.1 ∙ ap (λ t. t % p) (mul_comm a.0 b.0) ∙ sym (mul-mod b.0 a.0 b.1 a.1));
  one-mul =
      λ a. ext (mul-mod 1 a.0 (omega arith) a.1 ∙ ap (λ t. t % p) (one-mul a.0) ∙ mod-eq_of_lt a.1);
  mul-add = λ a b c. ext (mul-add_raw a.0 b.0 c.0 a.1 b.1 c.1);
}
