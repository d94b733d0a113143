-- ===== src/Expr/Eval.antt =====
-- `eval_expr` of crates/constraint-framework/src/expr/assignment.rs, at the evaluator of a row of
-- field elements. `none` is the panic of an inversion of zero.
pub mod Meaning
use stwo.Prelude.{Option, none, some, ◌>>=◌}
use stwo.Algebra.{Field, field_ring, inverse, ◌⊕◌, ◌⊖◌, ◌⊗◌, ⊝}
use stwo.Fields.M31.Carrier.{M31}
use stwo.Fields.M31.Inverse.{m31_field}
use stwo.Fields.Qm31.{Qm31}
use stwo.Fields.Qm31.Inverse.{qm31_field}
use stwo.Expr.{String, ColumnExpr, BaseExpr, ExtExpr}

-- The three maps of an assignment, total: it has every variable of the expressions evaluated in it.
pub record ExprVarAssignment : Type 0 where
  pub columns : ColumnExpr → M31
  pub vars : String → M31
  pub ext_vars : String → Qm31

abbrev pub lift₂ : {K : Type 0} → (K → K → K) → Option K → Option K → Option K
lift₂ g m n = m >>= λ x. n >>= λ y. some (g x y)

unfoldable pub base_eval : ExprVarAssignment → BaseExpr → Option M31
base_eval ρ (BaseExpr.col c) = some (ρ.columns c)
base_eval ρ (BaseExpr.const c) = some c
base_eval ρ (BaseExpr.param x) = some (ρ.vars x)
base_eval ρ (BaseExpr.add a b) = lift₂ ◌⊕◌ (base_eval ρ a) (base_eval ρ b)
base_eval ρ (BaseExpr.sub a b) = lift₂ ◌⊖◌ (base_eval ρ a) (base_eval ρ b)
base_eval ρ (BaseExpr.mul a b) = lift₂ ◌⊗◌ (base_eval ρ a) (base_eval ρ b)
base_eval ρ (BaseExpr.neg a) = base_eval ρ a >>= λ x. some (⊝ x)
base_eval ρ (BaseExpr.inv a) = base_eval ρ a >>= inverse

unfoldable pub ext_eval : ExprVarAssignment → ExtExpr → Option Qm31
unfolding base_eval
ext_eval ρ (ExtExpr.secure_col a b c d) = base_eval ρ a >>= λ x.
    base_eval ρ b >>= λ y. base_eval ρ c >>= λ z. base_eval ρ d >>= λ w. some ((x, y), (z, w))
ext_eval ρ (ExtExpr.const c) = some c
ext_eval ρ (ExtExpr.param x) = some (ρ.ext_vars x)
ext_eval ρ (ExtExpr.add a b) = lift₂ ◌⊕◌ (ext_eval ρ a) (ext_eval ρ b)
ext_eval ρ (ExtExpr.sub a b) = lift₂ ◌⊖◌ (ext_eval ρ a) (ext_eval ρ b)
ext_eval ρ (ExtExpr.mul a b) = lift₂ ◌⊗◌ (ext_eval ρ a) (ext_eval ρ b)
ext_eval ρ (ExtExpr.neg a) = ext_eval ρ a >>= λ x. some (⊝ x)
