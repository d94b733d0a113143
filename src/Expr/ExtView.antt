-- ===== src/Expr/ExtView.antt =====
-- `ExtExpr` as the macro `simplify_arithmetic` of
-- crates/constraint-framework/src/expr/simplify.rs takes it: the operators build its constructors.
use stwo.Prelude.{Option, none, some, ◌≡◌, refl}
use stwo.Fields.Qm31.{Qm31}
use stwo.Expr.{ExtExpr}
use stwo.Expr.Rules.{Syntax, Node, build}

abbrev pub as_const : ExtExpr → Option Qm31
as_const (ExtExpr.const c) = some c
as_const _ = none

abbrev pub as_neg : ExtExpr → Option ExtExpr
as_neg (ExtExpr.neg a) = some a
as_neg _ = none

abbrev pub as_sub : ExtExpr → Option (ExtExpr × ExtExpr)
as_sub (ExtExpr.sub a b) = some (a, b)
as_sub _ = none

abbrev pub node : ExtExpr → Node ExtExpr
node (ExtExpr.add a b) = Node.sum a b
node (ExtExpr.sub a b) = Node.difference a b
node (ExtExpr.mul a b) = Node.multiple a b
node (ExtExpr.neg a) = Node.opposite a
node _ = Node.other

abbrev pub ext_syntax : Syntax Qm31 ExtExpr
ext_syntax = record {
  lit = ExtExpr.const;
  add = ExtExpr.add;
  sub = ExtExpr.sub;
  mul = ExtExpr.mul;
  neg = ExtExpr.neg;
  as_lit = as_const;
  as_neg = as_neg;
  as_sub = as_sub;
  node = node;
}

pub as_const-eq : (e : ExtExpr) (c : Qm31) → as_const e ≡ some c → e ≡ ExtExpr.const c
as_const-eq (ExtExpr.const d) c h = cc
as_const-eq (ExtExpr.secure_col x y z w) c h = cc
as_const-eq (ExtExpr.param x) c h = cc
as_const-eq (ExtExpr.add u v) c h = cc
as_const-eq (ExtExpr.sub u v) c h = cc
as_const-eq (ExtExpr.mul u v) c h = cc
as_const-eq (ExtExpr.neg u) c h = cc

pub as_neg-eq : (e a : ExtExpr) → as_neg e ≡ some a → e ≡ ExtExpr.neg a
as_neg-eq (ExtExpr.const d) a h = cc
as_neg-eq (ExtExpr.secure_col x y z w) a h = cc
as_neg-eq (ExtExpr.param x) a h = cc
as_neg-eq (ExtExpr.add u v) a h = cc
as_neg-eq (ExtExpr.sub u v) a h = cc
as_neg-eq (ExtExpr.mul u v) a h = cc
as_neg-eq (ExtExpr.neg u) a h = cc

pub as_sub-eq : (e a b : ExtExpr) → as_sub e ≡ some (a, b) → e ≡ ExtExpr.sub a b
as_sub-eq (ExtExpr.const d) a b h = cc
as_sub-eq (ExtExpr.secure_col x y z w) a b h = cc
as_sub-eq (ExtExpr.param x) a b h = cc
as_sub-eq (ExtExpr.add u v) a b h = cc
as_sub-eq (ExtExpr.sub u v) a b h = cc
as_sub-eq (ExtExpr.mul u v) a b h = cc
as_sub-eq (ExtExpr.neg u) a b h = cc

pub build-node : (e : ExtExpr) → build ext_syntax e (node e) ≡ e
build-node (ExtExpr.const d) = refl
build-node (ExtExpr.secure_col x y z w) = refl
build-node (ExtExpr.param x) = refl
build-node (ExtExpr.add a b) = refl
build-node (ExtExpr.sub a b) = refl
build-node (ExtExpr.mul a b) = refl
build-node (ExtExpr.neg a) = refl
