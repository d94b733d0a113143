-- ===== src/Expr/Simplify.antt =====
-- `unchecked_simplify` and `simplify` of crates/constraint-framework/src/expr/simplify.rs. The
-- recursion on results of the rules is on fuel. `ρ₀` holds the values to which
-- `random_assignment(0)` hashes the variables; `none` is a panic.
pub mod Base
pub mod Ext
use stwo.Prelude.{ℕ, zero, suc, Bool, true, false, Option, none, some, ◌>>=◌, ◌>>◌, assert}
use stwo.Algebra.{Field, inverse}
use stwo.Fields.M31.Carrier.{M31}
use stwo.Fields.M31.Inverse.{m31_field}
use stwo.Fields.Qm31.{Qm31}
use stwo.Fields.Qm31.Inverse.{qm31_field}
use stwo.Expr.{BaseExpr, ExtExpr, base_zero, ext_zero}
use stwo.Expr.BaseView.{as_const, base_syntax}
use stwo.Expr.ExtView.{ext_syntax}
use stwo.Expr.Rules.{or_else, simplify_arithmetic}
use stwo.Expr.Eval.{ExprVarAssignment, base_eval, ext_eval}

abbrev pub eqb : {K : Type 0} ⦃f : Field K⦄ → K → K → Bool
eqb ⦃f⦄ x y = elim (f.dec_eq x y) [ yes e ↦ true | no h ↦ false ]

-- `simplify`: the evaluations of the expression and of the result are compared.
unfoldable pub checked :
    {K E : Type 0} ⦃f : Field K⦄ → (E → Option K) → (E → Option E) → E → Option E
checked random_eval unchecked_simplify e = unchecked_simplify e >>= λ t.
    random_eval e >>= λ v. random_eval t >>= λ w. assert (eqb v w) >> some t

-- The match on the simplified operand of an `Inv`.
unfoldable pub inverse_rule : BaseExpr → Option BaseExpr
inverse_rule (BaseExpr.inv a) = some a
inverse_rule (BaseExpr.const c) = inverse c >>= λ d. some (BaseExpr.const d)
inverse_rule a = some (BaseExpr.inv a)

unfoldable pub inverse_step : (BaseExpr → Option BaseExpr) → BaseExpr → Option BaseExpr
inverse_step unchecked_simplify (BaseExpr.inv a) = unchecked_simplify a >>= inverse_rule
inverse_step unchecked_simplify t = some t

-- The match on the four simplified columns.
unfoldable pub pack : BaseExpr → BaseExpr → BaseExpr → BaseExpr → ExtExpr
pack a b c d =
    or_else
      (as_const a >>= λ x. as_const b >>= λ y.
        as_const c >>= λ z. as_const d >>= λ w. some (ExtExpr.const ((x, y), (z, w))))
      (ExtExpr.secure_col a b c d)

unfoldable pub secure_col_step : (BaseExpr → Option BaseExpr) → ExtExpr → Option ExtExpr
secure_col_step unchecked_simplify (ExtExpr.secure_col a b c d) = unchecked_simplify a >>= λ a'.
    unchecked_simplify b >>= λ b'.
    unchecked_simplify c >>= λ c'. unchecked_simplify d >>= λ d'. some (pack a' b' c' d')
secure_col_step unchecked_simplify t = some t

module _ (ρ₀ : ExprVarAssignment) where
  unfoldable pub base_unchecked_simplify : ℕ → BaseExpr → Option BaseExpr
  base_unchecked_simplify zero e = none
  base_unchecked_simplify (suc n) e =
      simplify_arithmetic base_syntax base_zero (checked (base_eval ρ₀) (base_unchecked_simplify n))
        e
      >>= inverse_step (base_unchecked_simplify n)

  unfoldable pub base_simplify : ℕ → BaseExpr → Option BaseExpr
  base_simplify n = checked (base_eval ρ₀) (base_unchecked_simplify n)

  unfoldable pub ext_unchecked_simplify : ℕ → ExtExpr → Option ExtExpr
  ext_unchecked_simplify zero e = none
  ext_unchecked_simplify (suc n) e =
      simplify_arithmetic ext_syntax ext_zero (checked (ext_eval ρ₀) (ext_unchecked_simplify n)) e
      >>= secure_col_step (base_unchecked_simplify n)

  unfoldable pub ext_simplify : ℕ → ExtExpr → Option ExtExpr
  ext_simplify n = checked (ext_eval ρ₀) (ext_unchecked_simplify n)
