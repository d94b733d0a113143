-- ===== src/Expr/Rules/Size.antt =====
-- The rules of `simplify_arithmetic` do not make an expression larger.
use mathlib.Core.Path.{subst}
use stwo.Prelude.{
  ℕ, ◌+◌, ◌≤◌, Bool, true, false, if◌then◌else◌, Option, none, some, ◌≡◌, refl, sym, ap, arith,
}
use stwo.Algebra.{Field, field_ring, is_zero, ◌⊕◌, ◌⊖◌, ◌⊗◌, ⊝}
use stwo.Expr.Rules.{
  Syntax, or_else, both, lit_test, is_one, add_negs, add_rule, sub_negs, sub_rule, mul_negs,
  mul_rule, neg_rule,
}
use stwo.Expr.Rules.Meaning.{Meaning}

pub record Weight {K E : Type 0} (s : Syntax K E) (size : E → ℕ) : Type 0 where
  pub lit_le : (c : K) (e : E) → size (s.lit c) ≤ size e
  pub size-add : (a b : E) → size (s.add a b) ≡ 1 + size a + size b
  pub size-sub : (a b : E) → size (s.sub a b) ≡ 1 + size a + size b
  pub size-mul : (a b : E) → size (s.mul a b) ≡ 1 + size a + size b
  pub size-neg : (a : E) → size (s.neg a) ≡ 1 + size a

module _ {K E : Type 0} ⦃f : Field K⦄ (s : Syntax K E) (eval : E → Option K) (m : Meaning s eval)
    (size : E → ℕ) (w : Weight s size) where
  neg_size : (e a : E) → s.as_neg e ≡ some a → size e ≡ 1 + size a
  neg_size e a h = subst (λ t. size t ≡ 1 + size a) (sym (m.as_neg-eq e a h)) (w.size-neg a)

  guard_size :
      (test : Bool) (t e : E) {n : ℕ} → size t ≤ n → size e ≤ n → size (if test then t else e) ≤ n
  guard_size true t e h k = h
  guard_size false t e h k = k

  size-both :
      (g : K → K → K) (oa ob : Option K) (e k : E) {n : ℕ}
      → size k ≤ n
      → size e ≤ n
      → size (or_else (both (λ x y. s.lit (g x y)) oa ob) e) ≤ n
  size-both g none ob e k l h = h
  size-both g (some c) none e k l h = h
  size-both g (some c) (some d) e k l h = let b = w.lit_le (g c d) k in omega arith

  module _ (a b : E) where
    size-add_negs :
        (na nb : Option E)
        → s.as_neg a ≡ na
        → s.as_neg b ≡ nb
        → size (add_negs s na nb a b) ≤ 1 + size a + size b
    unfolding add_negs
    size-add_negs (some a') (some b') ha hb =
        omega
          (arith, neg_size a a' ha, neg_size b b' hb, w.size-neg (s.add a' b'), w.size-add a' b')
    size-add_negs (some a') none ha hb = omega (arith, neg_size a a' ha, w.size-sub b a')
    size-add_negs none (some b') ha hb = omega (arith, neg_size b b' hb, w.size-sub a b')
    size-add_negs none none ha hb = omega (arith, w.size-add a b)

    pub size-add_rule : size (add_rule s a b) ≤ 1 + size a + size b
    unfolding add_rule
    size-add_rule = size-both ◌⊕◌ (s.as_lit a) (s.as_lit b) _ a (omega arith) (
        guard_size (lit_test is_zero (s.as_lit a)) b _ (omega arith) (
          guard_size (lit_test is_zero (s.as_lit b)) a _ (omega arith)
            (size-add_negs (s.as_neg a) (s.as_neg b) refl refl)))

    size-sub_negs :
        (na nb : Option E)
        → s.as_neg a ≡ na
        → s.as_neg b ≡ nb
        → size (sub_negs s na nb a b) ≤ 1 + size a + size b
    unfolding sub_negs
    size-sub_negs (some a') (some b') ha hb =
        omega (arith, neg_size a a' ha, neg_size b b' hb, w.size-sub b' a')
    size-sub_negs (some a') none ha hb =
        omega (arith, neg_size a a' ha, w.size-neg (s.add a' b), w.size-add a' b)
    size-sub_negs none (some b') ha hb = omega (arith, neg_size b b' hb, w.size-add a b')
    size-sub_negs none none ha hb = omega (arith, w.size-sub a b)

    pub size-sub_rule : size (sub_rule s a b) ≤ 1 + size a + size b
    unfolding sub_rule
    size-sub_rule = size-both ◌⊖◌ (s.as_lit a) (s.as_lit b) _ a (omega arith) (
        guard_size (lit_test is_zero (s.as_lit a)) (s.neg b) _ (omega (arith, w.size-neg b)) (
          guard_size (lit_test is_zero (s.as_lit b)) a _ (omega arith)
            (size-sub_negs (s.as_neg a) (s.as_neg b) refl refl)))

    size-mul_negs :
        (na nb : Option E)
        → s.as_neg a ≡ na
        → s.as_neg b ≡ nb
        → size (mul_negs s na nb a b) ≤ 1 + size a + size b
    unfolding mul_negs
    size-mul_negs (some a') (some b') ha hb =
        omega (arith, neg_size a a' ha, neg_size b b' hb, w.size-mul a' b')
    size-mul_negs (some a') none ha hb =
        omega (arith, neg_size a a' ha, w.size-neg (s.mul a' b), w.size-mul a' b)
    size-mul_negs none (some b') ha hb =
        omega (arith, neg_size b b' hb, w.size-neg (s.mul a b'), w.size-mul a b')
    size-mul_negs none none ha hb = omega (arith, w.size-mul a b)

    pub size-mul_rule :
        (zero : E) → size zero ≤ size a → size (mul_rule s zero a b) ≤ 1 + size a + size b
    unfolding mul_rule
    size-mul_rule zero hz = size-both ◌⊗◌ (s.as_lit a) (s.as_lit b) _ a (omega arith) (
        guard_size (lit_test is_zero (s.as_lit a)) zero _ (omega arith) (
          guard_size (lit_test is_zero (s.as_lit b)) zero _ (omega arith) (
            guard_size (lit_test is_one (s.as_lit a)) b _ (omega arith) (
              guard_size (lit_test is_one (s.as_lit b)) a _ (omega arith) (
                guard_size (lit_test (λ c. is_one (⊝ c)) (s.as_lit a)) (s.neg b) _
                  (omega (arith, w.size-neg b))
                  (guard_size (lit_test (λ c. is_one (⊝ c)) (s.as_lit b)) (s.neg a) _
                    (omega (arith, w.size-neg a))
                    (size-mul_negs (s.as_neg a) (s.as_neg b) refl refl)))))))

  pub size-neg_rule : (a : E) → size (neg_rule s a) ≤ 1 + size a
  unfolding neg_rule
  size-neg_rule a = by_lit (s.as_lit a)
    where
      by_sub :
          (o : Option (E × E))
          → s.as_sub a ≡ o
          → size (elim o [ some (u, v) ↦ s.sub v u | none ↦ s.neg a ]) ≤ 1 + size a
      by_sub (some (u, v)) h =
          let e : size a ≡ size (s.sub u v) = ap size (m.as_sub-eq a u v h) in
          omega (arith, e, w.size-sub u v, w.size-sub v u)
      by_sub none h = omega (arith, w.size-neg a)

      by_neg :
          (o : Option E)
          → s.as_neg a ≡ o
          → size (elim o [
            | some a' ↦ a'
            | none ↦ elim (s.as_sub a) [ some (u, v) ↦ s.sub v u | none ↦ s.neg a ]
          ])
            ≤ 1 + size a
      by_neg (some a') h = omega (arith, neg_size a a' h)
      by_neg none h = by_sub (s.as_sub a) refl

      by_lit :
          (o : Option K)
          → size (elim o [
            | some c ↦ s.lit (⊝ c)
            | none ↦ elim (s.as_neg a) [
              | some a' ↦ a'
              | none ↦ elim (s.as_sub a) [ some (u, v) ↦ s.sub v u | none ↦ s.neg a ]
            ]
          ])
            ≤ 1 + size a
      by_lit (some c) = omega (arith, w.lit_le (⊝ c) a)
      by_lit none = by_neg (s.as_neg a) refl
