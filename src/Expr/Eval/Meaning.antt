-- ===== src/Expr/Eval/Meaning.antt =====
-- The evaluations are what the rules of `simplify_arithmetic` ask for, with a size of expressions.
use stwo.Prelude.{ℕ, ◌+◌, ◌≤◌, Option, none, some, ◌>>=◌, ◌≡◌, refl, ap, ◌∙◌, arith, [], ◌∷◌}
use stwo.Algebra.{Field, field_ring, ◌⊕◌, ◌⊖◌, ◌⊗◌, ⊝}
use stwo.Algebra.Solver.{opp, x0, ring, cross}
use stwo.Fields.M31.Inverse.{m31_field}
use stwo.Fields.Qm31.Inverse.{qm31_field}
use stwo.Expr.{BaseExpr, ExtExpr}
use stwo.Expr.BaseView
use stwo.Expr.ExtView
use stwo.Expr.Rules.Meaning.{Meaning}
use stwo.Expr.Rules.Size.{Weight}
use stwo.Expr.Eval.{ExprVarAssignment, lift₂, base_eval, ext_eval}

lift₂-eq :
    {K : Type 0} (g : K → K → K) (m n : Option K) (x y : K)
    → m ≡ some x
    → n ≡ some y
    → lift₂ g m n ≡ some (g x y)
lift₂-eq g m n x y hm hn = rw hm (rw hn refl)

lift₂-inv :
    {K : Type 0} (g : K → K → K) (m n : Option K) (v : K)
    → lift₂ g m n ≡ some v
    → (x : K) × (y : K) × (m ≡ some x) × (n ≡ some y) × (v ≡ g x y)
lift₂-inv g none n v h = cc
lift₂-inv g (some x) none v h = cc
lift₂-inv g (some x) (some y) v h = (x, y, refl, refl, cc)

negated :
    {K : Type 0} ⦃f : Field K⦄ (m : Option K) (x : K)
    → (m >>= λ y. some (⊝ y)) ≡ some x
    → m ≡ some (⊝ x)
unfolding cross
negated none x h = cc
negated (some y) x h =
    let e : ⊝ y ≡ x = cc in ap some (ring (y ∷ []) x0 (opp (opp x0)) refl ∙ ap ⊝ e)

pub base_eval-Meaning : (ρ : ExprVarAssignment) → Meaning BaseView.base_syntax (base_eval ρ)
unfolding base_eval
base_eval-Meaning ρ = record {
  eval-lit = λ c. refl;
  eval-add = λ a b x y. lift₂-eq ◌⊕◌ (base_eval ρ a) (base_eval ρ b) x y;
  eval-sub = λ a b x y. lift₂-eq ◌⊖◌ (base_eval ρ a) (base_eval ρ b) x y;
  eval-mul = λ a b x y. lift₂-eq ◌⊗◌ (base_eval ρ a) (base_eval ρ b) x y;
  eval-neg = λ a x h. rw h refl;
  neg_inv = λ a x h. negated (base_eval ρ a) x h;
  sub_inv = λ a b. lift₂-inv ◌⊖◌ (base_eval ρ a) (base_eval ρ b);
  add_inv = λ a b. lift₂-inv ◌⊕◌ (base_eval ρ a) (base_eval ρ b);
  mul_inv = λ a b. lift₂-inv ◌⊗◌ (base_eval ρ a) (base_eval ρ b);
  build-node = BaseView.build-node;
  as_lit-eq = BaseView.as_const-eq;
  as_neg-eq = BaseView.as_neg-eq;
  as_sub-eq = BaseView.as_sub-eq;
}

pub ext_eval-Meaning : (ρ : ExprVarAssignment) → Meaning ExtView.ext_syntax (ext_eval ρ)
unfolding ext_eval
ext_eval-Meaning ρ = record {
  eval-lit = λ c. refl;
  eval-add = λ a b x y. lift₂-eq ◌⊕◌ (ext_eval ρ a) (ext_eval ρ b) x y;
  eval-sub = λ a b x y. lift₂-eq ◌⊖◌ (ext_eval ρ a) (ext_eval ρ b) x y;
  eval-mul = λ a b x y. lift₂-eq ◌⊗◌ (ext_eval ρ a) (ext_eval ρ b) x y;
  eval-neg = λ a x h. rw h refl;
  neg_inv = λ a x h. negated (ext_eval ρ a) x h;
  sub_inv = λ a b. lift₂-inv ◌⊖◌ (ext_eval ρ a) (ext_eval ρ b);
  add_inv = λ a b. lift₂-inv ◌⊕◌ (ext_eval ρ a) (ext_eval ρ b);
  mul_inv = λ a b. lift₂-inv ◌⊗◌ (ext_eval ρ a) (ext_eval ρ b);
  build-node = ExtView.build-node;
  as_lit-eq = ExtView.as_const-eq;
  as_neg-eq = ExtView.as_neg-eq;
  as_sub-eq = ExtView.as_sub-eq;
}

-- The number of constructors.
unfoldable pub base_size : BaseExpr → ℕ
base_size (BaseExpr.add a b) = 1 + base_size a + base_size b
base_size (BaseExpr.sub a b) = 1 + base_size a + base_size b
base_size (BaseExpr.mul a b) = 1 + base_size a + base_size b
base_size (BaseExpr.neg a) = 1 + base_size a
base_size (BaseExpr.inv a) = 1 + base_size a
base_size _ = 1

pub base_size_pos : (e : BaseExpr) → 1 ≤ base_size e
unfolding base_size
base_size_pos (BaseExpr.col c) = omega arith
base_size_pos (BaseExpr.const c) = omega arith
base_size_pos (BaseExpr.param c) = omega arith
base_size_pos (BaseExpr.add a b) = omega arith
base_size_pos (BaseExpr.sub a b) = omega arith
base_size_pos (BaseExpr.mul a b) = omega arith
base_size_pos (BaseExpr.neg a) = omega arith
base_size_pos (BaseExpr.inv a) = omega arith

pub base_size-Weight : Weight BaseView.base_syntax base_size
unfolding base_size
base_size-Weight = record {
  lit_le = λ c e. base_size_pos e;
  size-add = λ a b. refl;
  size-sub = λ a b. refl;
  size-mul = λ a b. refl;
  size-neg = λ a. refl;
}

-- A constant of the secure field counts as its four columns.
unfoldable pub ext_size : ExtExpr → ℕ
unfolding base_size
ext_size (ExtExpr.secure_col a b c d) = base_size a + base_size b + base_size c + base_size d
ext_size (ExtExpr.add a b) = 1 + ext_size a + ext_size b
ext_size (ExtExpr.sub a b) = 1 + ext_size a + ext_size b
ext_size (ExtExpr.mul a b) = 1 + ext_size a + ext_size b
ext_size (ExtExpr.neg a) = 1 + ext_size a
ext_size _ = 4

pub ext_size_pos : (e : ExtExpr) → 4 ≤ ext_size e
unfolding ext_size
ext_size_pos (ExtExpr.secure_col a b c d) =
    omega (arith, base_size_pos a, base_size_pos b, base_size_pos c, base_size_pos d)
ext_size_pos (ExtExpr.add a b) = omega (arith, ext_size_pos a)
ext_size_pos (ExtExpr.sub a b) = omega (arith, ext_size_pos a)
ext_size_pos (ExtExpr.mul a b) = omega (arith, ext_size_pos a)
ext_size_pos (ExtExpr.neg a) = omega (arith, ext_size_pos a)
ext_size_pos (ExtExpr.const c) = omega arith
ext_size_pos (ExtExpr.param c) = omega arith

pub ext_size-Weight : Weight ExtView.ext_syntax ext_size
unfolding ext_size
ext_size-Weight = record {
  lit_le = λ c e. ext_size_pos e;
  size-add = λ a b. refl;
  size-sub = λ a b. refl;
  size-mul = λ a b. refl;
  size-neg = λ a. refl;
}
