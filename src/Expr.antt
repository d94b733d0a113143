-- ===== src/Expr.antt =====
-- crates/constraint-framework/src/expr: symbolic expressions of the constraints, over the base
-- field and over the secure field. A `String` is the list of its bytes, an `isize` the library's ℤ
-- over the native numbers.
pub mod Rules
pub mod BaseView
pub mod ExtView
pub mod Eval
pub mod Simplify
mod Tests
use stwo.Prelude.{ℕ, List}
use stwo.Algebra.{field_ring, 𝟘}
use stwo.Fields.M31.Carrier.{M31}
use stwo.Fields.M31.Inverse.{m31_field}
use stwo.Fields.Qm31.{Qm31}

pub data ℤ : Type 0 where
  pos : ℕ → ℤ
  negsuc : ℕ → ℤ

abbrev pub String : Type 0
String = List ℕ

pub record ColumnExpr : Type 0 where
  pub interaction : ℕ
  pub idx : ℕ
  pub offset : ℤ

pub data BaseExpr : Type 0 where
  col : ColumnExpr → BaseExpr
  const : M31 → BaseExpr
  param : String → BaseExpr
  add : BaseExpr → BaseExpr → BaseExpr
  sub : BaseExpr → BaseExpr → BaseExpr
  mul : BaseExpr → BaseExpr → BaseExpr
  neg : BaseExpr → BaseExpr
  inv : BaseExpr → BaseExpr

pub data ExtExpr : Type 0 where
  secure_col : BaseExpr → BaseExpr → BaseExpr → BaseExpr → ExtExpr
  const : Qm31 → ExtExpr
  param : String → ExtExpr
  add : ExtExpr → ExtExpr → ExtExpr
  sub : ExtExpr → ExtExpr → ExtExpr
  mul : ExtExpr → ExtExpr → ExtExpr
  neg : ExtExpr → ExtExpr

-- `From<BaseField>`, `From<SecureField>` and `From<BaseExpr>`.
abbrev pub base_zero : BaseExpr
base_zero = BaseExpr.const 𝟘

abbrev pub ext_of_expr : BaseExpr → ExtExpr
ext_of_expr e = ExtExpr.secure_col e base_zero base_zero base_zero

abbrev pub ext_of_base : M31 → ExtExpr
ext_of_base c = ext_of_expr (BaseExpr.const c)

abbrev pub ext_of_secure : Qm31 → ExtExpr
ext_of_secure c =
    ExtExpr.secure_col (BaseExpr.const c.0.0) (BaseExpr.const c.0.1) (BaseExpr.const c.1.0)
      (BaseExpr.const c.1.1)

abbrev pub ext_zero : ExtExpr
ext_zero = ext_of_base 𝟘
