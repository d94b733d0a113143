-- ===== src/Expr/Rules.antt =====
-- The macro `simplify_arithmetic` of crates/constraint-framework/src/expr/simplify.rs. It serves
-- two types of expressions, so it stands here over the constructors that it names and over their
-- patterns.
pub mod Meaning
pub mod Size
pub mod Sound
use stwo.Prelude.{Bool, true, false, if◌then◌else◌, Option, none, some, ◌>>=◌}
use stwo.Algebra.{Ring, Field, field_ring, is_zero, ◌⊕◌, ◌⊖◌, ◌⊗◌, ⊝, 𝟘, 𝟙}

-- An expression with its outermost operation taken off.
pub data Node (E : Type 0) : Type 0 where
  sum : E → E → Node E
  difference : E → E → Node E
  multiple : E → E → Node E
  opposite : E → Node E
  other : Node E

pub record Syntax (K E : Type 0) : Type 0 where
  pub lit : K → E
  pub add : E → E → E
  pub sub : E → E → E
  pub mul : E → E → E
  pub neg : E → E
  pub as_lit : E → Option K
  pub as_neg : E → Option E
  pub as_sub : E → Option (E × E)
  pub node : E → Node E

abbrev pub build : {K E : Type 0} → Syntax K E → E → Node E → E
build s e (Node.sum a b) = s.add a b
build s e (Node.difference a b) = s.sub a b
build s e (Node.multiple a b) = s.mul a b
build s e (Node.opposite a) = s.neg a
build s e Node.other = e

abbrev pub or_else : {A : Type 0} → Option A → A → A
or_else none d = d
or_else (some a) d = a

abbrev pub both : {A B : Type 0} → (A → A → B) → Option A → Option A → Option B
both f (some a) (some b) = some (f a b)
both f (some a) none = none
both f none b = none

unfoldable pub is_one : {K : Type 0} ⦃f : Field K⦄ → K → Bool
is_one ⦃f⦄ c = elim (f.dec_eq c 𝟙) [ yes e ↦ true | no h ↦ false ]

-- `lit_test test o`: the pattern is a constant, and it passes the test.
unfoldable pub lit_test : {K : Type 0} → (K → Bool) → Option K → Bool
lit_test test none = false
lit_test test (some c) = test c

module _ {K E : Type 0} ⦃f : Field K⦄ (s : Syntax K E) where
  unfoldable pub add_negs : Option E → Option E → E → E → E
  add_negs (some a') (some b') a b = s.neg (s.add a' b')
  add_negs (some a') none a b = s.sub b a'
  add_negs none (some b') a b = s.sub a b'
  add_negs none none a b = s.add a b

  unfoldable pub add_rule : E → E → E
  add_rule a b = or_else (both (λ x y. s.lit (x ⊕ y)) (s.as_lit a) (s.as_lit b)) (
      if lit_test is_zero (s.as_lit a)
      then b
      else (if lit_test is_zero (s.as_lit b) then a else add_negs (s.as_neg a) (s.as_neg b) a b))

  unfoldable pub sub_negs : Option E → Option E → E → E → E
  sub_negs (some a') (some b') a b = s.sub b' a'
  sub_negs (some a') none a b = s.neg (s.add a' b)
  sub_negs none (some b') a b = s.add a b'
  sub_negs none none a b = s.sub a b

  unfoldable pub sub_rule : E → E → E
  sub_rule a b = or_else (both (λ x y. s.lit (x ⊖ y)) (s.as_lit a) (s.as_lit b)) (
      if lit_test is_zero (s.as_lit a)
      then s.neg b
      else (if lit_test is_zero (s.as_lit b) then a else sub_negs (s.as_neg a) (s.as_neg b) a b))

  unfoldable pub mul_negs : Option E → Option E → E → E → E
  mul_negs (some a') (some b') a b = s.mul a' b'
  mul_negs (some a') none a b = s.neg (s.mul a' b)
  mul_negs none (some b') a b = s.neg (s.mul a b')
  mul_negs none none a b = s.mul a b

  -- The guards on the constants 0, 1 and -1, in the order of the source. `zero` is what
  -- `Self::zero()` builds.
  unfoldable pub mul_rule : E → E → E → E
  mul_rule zero a b = or_else (both (λ x y. s.lit (x ⊗ y)) (s.as_lit a) (s.as_lit b)) (
      if lit_test is_zero (s.as_lit a)
      then zero
      else (if lit_test is_zero (s.as_lit b)
          then zero
          else (if lit_test is_one (s.as_lit a)
              then b
              else (if lit_test is_one (s.as_lit b)
                  then a
                  else (if lit_test (λ c. is_one (⊝ c)) (s.as_lit a)
                      then s.neg b
                      else (if lit_test (λ c. is_one (⊝ c)) (s.as_lit b)
                          then s.neg a
                          else mul_negs (s.as_neg a) (s.as_neg b) a b))))))

  unfoldable pub neg_rule : E → E
  neg_rule a = elim (s.as_lit a) [
    | some c ↦ s.lit (⊝ c)
    | none ↦ elim (s.as_neg a) [
      | some a' ↦ a'
      | none ↦ elim (s.as_sub a) [ some (x, y) ↦ s.sub y x | none ↦ s.neg a ]
    ]
  ]

  -- The whole macro; `simplify` is the call on the operands.
  unfoldable pub simplify_arithmetic : E → (E → Option E) → E → Option E
  simplify_arithmetic zero simplify e = elim (s.node e) [
    | sum a b ↦ simplify a >>= λ a'. simplify b >>= λ b'. some (add_rule a' b')
    | difference a b ↦ simplify a >>= λ a'. simplify b >>= λ b'. some (sub_rule a' b')
    | multiple a b ↦ simplify a >>= λ a'. simplify b >>= λ b'. some (mul_rule zero a' b')
    | opposite a ↦ simplify a >>= λ a'. some (neg_rule a')
    | other ↦ some e
  ]
