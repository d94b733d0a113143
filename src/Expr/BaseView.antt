-- ===== src/Expr/BaseView.antt =====
-- `BaseExpr` as the macro `simplify_arithmetic` of
-- crates/constraint-framework/src/expr/simplify.rs takes it: the operators build its constructors.
use stwo.Prelude.{Option, none, some, ◌≡◌, refl}
use stwo.Fields.M31.Carrier.{M31}
use stwo.Expr.{BaseExpr}
use stwo.Expr.Rules.{Syntax, Node, build}

abbrev pub as_const : BaseExpr → Option M31
as_const (BaseExpr.const c) = some c
as_const _ = none

abbrev pub as_neg : BaseExpr → Option BaseExpr
as_neg (BaseExpr.neg a) = some a
as_neg _ = none

abbrev pub as_sub : BaseExpr → Option (BaseExpr × BaseExpr)
as_sub (BaseExpr.sub a b) = some (a, b)
as_sub _ = none

abbrev pub node : BaseExpr → Node BaseExpr
node (BaseExpr.add a b) = Node.sum a b
node (BaseExpr.sub a b) = Node.difference a b
node (BaseExpr.mul a b) = Node.multiple a b
node (BaseExpr.neg a) = Node.opposite a
node _ = Node.other

abbrev pub base_syntax : Syntax M31 BaseExpr
base_syntax = record {
  lit = BaseExpr.const;
  add = BaseExpr.add;
  sub = BaseExpr.sub;
  mul = BaseExpr.mul;
  neg = BaseExpr.neg;
  as_lit = as_const;
  as_neg = as_neg;
  as_sub = as_sub;
  node = node;
}

pub as_const-eq : (e : BaseExpr) (c : M31) → as_const e ≡ some c → e ≡ BaseExpr.const c
as_const-eq (BaseExpr.const d) c h = cc
as_const-eq (BaseExpr.col d) c h = cc
as_const-eq (BaseExpr.param x) c h = cc
as_const-eq (BaseExpr.inv u) c h = cc
as_const-eq (BaseExpr.add u v) c h = cc
as_const-eq (BaseExpr.sub u v) c h = cc
as_const-eq (BaseExpr.mul u v) c h = cc
as_const-eq (BaseExpr.neg u) c h = cc

pub as_neg-eq : (e a : BaseExpr) → as_neg e ≡ some a → e ≡ BaseExpr.neg a
as_neg-eq (BaseExpr.const d) a h = cc
as_neg-eq (BaseExpr.col c) a h = cc
as_neg-eq (BaseExpr.param x) a h = cc
as_neg-eq (BaseExpr.inv u) a h = cc
as_neg-eq (BaseExpr.add u v) a h = cc
as_neg-eq (BaseExpr.sub u v) a h = cc
as_neg-eq (BaseExpr.mul u v) a h = cc
as_neg-eq (BaseExpr.neg u) a h = cc

pub as_sub-eq : (e a b : BaseExpr) → as_sub e ≡ some (a, b) → e ≡ BaseExpr.sub a b
as_sub-eq (BaseExpr.const d) a b h = cc
as_sub-eq (BaseExpr.col c) a b h = cc
as_sub-eq (BaseExpr.param x) a b h = cc
as_sub-eq (BaseExpr.inv u) a b h = cc
as_sub-eq (BaseExpr.add u v) a b h = cc
as_sub-eq (BaseExpr.sub u v) a b h = cc
as_sub-eq (BaseExpr.mul u v) a b h = cc
as_sub-eq (BaseExpr.neg u) a b h = cc

pub build-node : (e : BaseExpr) → build base_syntax e (node e) ≡ e
build-node (BaseExpr.const d) = refl
build-node (BaseExpr.col c) = refl
build-node (BaseExpr.param x) = refl
build-node (BaseExpr.inv a) = refl
build-node (BaseExpr.add a b) = refl
build-node (BaseExpr.sub a b) = refl
build-node (BaseExpr.mul a b) = refl
build-node (BaseExpr.neg a) = refl
