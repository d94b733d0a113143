-- ===== src/Expr/Tests.antt =====
-- Runs of the simplifier of crates/constraint-framework/src/expr/simplify.rs, and witnesses.
use stwo.Prelude.{◌≤◌, some, ◌≡◌, refl, ap, [], ◌∷◌, arith}
use stwo.Fields.M31.{add as m31_add, neg as m31_neg, sub as m31_sub, reduce}
use stwo.Fields.M31.Carrier.{M31, m31_ring, ext}
use stwo.Fields.M31.Inverse.{M31-discrete}
use stwo.Fields.Qm31.{Qm31, qm31_ring}
use stwo.Fields.Cm31.{cm31_ring}
use stwo.Expr.{ℤ, BaseExpr, ExtExpr}
use stwo.Expr.Rules.{simplify_arithmetic, neg_rule, sub_rule, sub_negs, lit_test}
use stwo.Expr.Eval.{ExprVarAssignment, base_eval, ext_eval}
use stwo.Expr.Eval.Meaning.{base_size, ext_size}
use stwo.Expr.Simplify.{base_simplify, ext_simplify, base_unchecked_simplify, checked, inverse_step}
use stwo.Expr.Simplify.Base.{base_simplify_sound}
use stwo.Expr.Simplify.Ext.{ext_simplify_sound}

abbrev three : M31
three = (3, omega arith)

abbrev seven : M31
seven = (7, omega arith)

abbrev values : ExprVarAssignment
values = record {
  columns = λ c. three;
  vars = λ x. seven;
  ext_vars = λ x. ((three, seven), (seven, three));
}

abbrev column : BaseExpr
column = BaseExpr.col (record { interaction = 1; idx = 0; offset = ℤ.pos 0 })

-- --c - -x, for a column c and a parameter x.
abbrev negated : BaseExpr
negated =
    BaseExpr.sub (BaseExpr.neg (BaseExpr.neg column)) (BaseExpr.neg (BaseExpr.param (97 ∷ [])))

negated_eval : base_eval values negated ≡ some (10, omega arith)
unfolding base_eval m31_ring m31_sub m31_neg reduce
negated_eval = ap some (ext refl)

base_simplify_sound_example :
    (t : BaseExpr) × (base_simplify values 6 negated ≡ some t)
    × (base_size t ≤ base_size negated)
    × ((ρ : ExprVarAssignment) (w : M31) → base_eval ρ negated ≡ some w → base_eval ρ t ≡ some w)
unfolding base_size
base_simplify_sound_example =
    base_simplify_sound values 6 negated (10, omega arith) (omega arith) negated_eval

-- An Ext expression: the columns of `negated` and constants, less zero, times a parameter.
abbrev mixed : ExtExpr
mixed =
    ExtExpr.sub
      (ExtExpr.secure_col negated (BaseExpr.const three) (BaseExpr.const seven)
        (BaseExpr.const three))
      (ExtExpr.neg (ExtExpr.param (98 ∷ [])))

mixed_value : (v : Qm31) × (ext_eval values mixed ≡ some v)
unfolding ext_eval base_eval
mixed_value = (_, refl)

ext_simplify_sound_example :
    (t : ExtExpr) × (ext_simplify values 20 mixed ≡ some t)
    × (ext_size t ≤ ext_size mixed)
    × ((ρ : ExprVarAssignment) (w : Qm31) → ext_eval ρ mixed ≡ some w → ext_eval ρ t ≡ some w)
unfolding ext_size base_size
ext_simplify_sound_example =
    ext_simplify_sound values 20 mixed mixed_value.0 (omega arith) mixed_value.1

simplified_negated :
    base_simplify values 6 negated ≡ some (BaseExpr.add column (BaseExpr.param (97 ∷ [])))
unfolding base_simplify base_unchecked_simplify simplify_arithmetic neg_rule sub_rule sub_negs
    lit_test checked inverse_step base_eval M31-discrete m31_ring m31_neg m31_sub m31_add
simplified_negated = refl
