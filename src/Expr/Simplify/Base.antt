-- ===== src/Expr/Simplify/Base.antt =====
-- `simplify` of a `BaseExpr` (crates/constraint-framework/src/expr/simplify.rs) keeps its value.
use stwo.Prelude.{
  ℕ, zero, suc, ◌≤◌, ◌<◌, Bool, true, false, if◌then◌else◌, Option, none, some, ◌>>=◌, >>=-eq-some,
  ◌≡◌, refl, sym, ap, ◌∙◌, arith,
}
use stwo.Algebra.{Field, field_ring, inverse, ◌⊗◌, 𝟘, 𝟙}
use stwo.Algebra.Laws.{mul-one}
use stwo.Fields.M31.Carrier.{M31}
use stwo.Fields.M31.Inverse.{m31_field}
use stwo.Expr.{BaseExpr, base_zero}
use stwo.Expr.BaseView.{base_syntax}
use stwo.Expr.Rules.Sound.{Simplifies, arithmetic_sound}
use stwo.Expr.Eval.{ExprVarAssignment, base_eval}
use stwo.Expr.Eval.Meaning.{base_eval-Meaning, base_size-Weight, base_size, base_size_pos}
use stwo.Expr.Simplify.{
  eqb, checked, inverse_rule, inverse_step, base_unchecked_simplify, base_simplify,
}

eqb_refl : {K : Type 0} ⦃f : Field K⦄ (x : K) → eqb x x ≡ true
eqb_refl ⦃f⦄ x = decided (f.dec_eq x x)
  where
    decided : (d : Dec (x ≡ x)) → (elim d [ yes e ↦ true | no h ↦ false ]) ≡ true
    decided (yes e) = refl
    decided (no h) = absurd (h refl)

-- The assertion holds where the result has the value of the expression.
pub checked-eq :
    {K E : Type 0} ⦃f : Field K⦄ (random_eval : E → Option K) (u : E → Option E) (e t : E) (v : K)
    → u e ≡ some t
    → random_eval e ≡ some v
    → random_eval t ≡ some v
    → checked random_eval u e ≡ some t
unfolding checked
checked-eq random_eval u e t v hu he ht = rw hu (rw he (rw ht (rw (eqb_refl v) refl)))

abbrev pub BaseResult : Option BaseExpr → BaseExpr → Type 0
BaseResult o e = (t : BaseExpr) × (o ≡ some t) × Simplifies base_eval base_size e t

mul_of_inverse : {K : Type 0} ⦃f : Field K⦄ (x y : K) → inverse x ≡ some y → x ⊗ y ≡ 𝟙
unfolding inverse
mul_of_inverse ⦃f⦄ x y = decided (f.dec_eq x 𝟘)
  where
    decided :
        (d : Dec (x ≡ 𝟘))
        → (if elim d as (λ _. Bool) [ yes e ↦ true | no h ↦ false ] then none else some (f.inv x))
          ≡ some y
        → x ⊗ y ≡ 𝟙
    decided (yes e) h = cc
    decided (no ne) h = let e : f.inv x ≡ y = cc in ap (λ t. x ⊗ t) (sym e) ∙ f.mul-inv x ne

inverse-inverse :
    {K : Type 0} ⦃f : Field K⦄ (y x v : K) → inverse y ≡ some x → inverse x ≡ some v → y ≡ v
inverse-inverse ⦃f⦄ y x v hy hx =
    sym (mul-one y)
    ∙ ap (λ t. y ⊗ t) (sym (mul_of_inverse x v hx))
    ∙ sym (f.ring.mul_assoc y x v)
    ∙ ap (λ t. t ⊗ v) (mul_of_inverse y x hy)
    ∙ f.ring.one-mul v

module _ (ρ₀ : ExprVarAssignment) where
  kept :
      (a a' : BaseExpr)
      → ((ρ : ExprVarAssignment) (v : M31) → base_eval ρ a ≡ some v → base_eval ρ a' ≡ some v)
      → (ρ : ExprVarAssignment) (v : M31) → base_eval ρ (BaseExpr.inv a) ≡ some v
      → base_eval ρ (BaseExpr.inv a') ≡ some v
  unfolding base_eval
  kept a a' h ρ v hv = let (x, hx, e) = >>=-eq-some (base_eval ρ a) inverse hv in rw (h ρ x hx) e

  inverse_rule_sound :
      (a' e : BaseExpr) (v : M31)
      → base_eval ρ₀ (BaseExpr.inv a') ≡ some v
      → base_size a' < base_size e
      → ((ρ : ExprVarAssignment) (v' : M31)
          → base_eval ρ e ≡ some v'
          → base_eval ρ (BaseExpr.inv a') ≡ some v')
      → BaseResult (inverse_rule a') e
  unfolding inverse_rule base_eval base_size
  inverse_rule_sound (BaseExpr.inv b) e v hv l k = (
    b,
    refl,
    (
      omega arith,
      λ ρ v' h.
          let (x, hx, hi) = >>=-eq-some (base_eval ρ b >>= inverse) inverse (k ρ v' h) in
          let (y, hy, hj) = >>=-eq-some (base_eval ρ b) inverse hx in
          hy ∙ ap some (inverse-inverse y x v' hj hi),
    ),
  )
  inverse_rule_sound (BaseExpr.const c) e v hv l k =
      (BaseExpr.const v, rw hv refl, (omega arith, λ ρ v' h. sym hv ∙ k ρ v' h))
  inverse_rule_sound (BaseExpr.col c) e v hv l k = (_, refl, (omega arith, k))
  inverse_rule_sound (BaseExpr.param c) e v hv l k = (_, refl, (omega arith, k))
  inverse_rule_sound (BaseExpr.add a b) e v hv l k = (_, refl, (omega arith, k))
  inverse_rule_sound (BaseExpr.sub a b) e v hv l k = (_, refl, (omega arith, k))
  inverse_rule_sound (BaseExpr.mul a b) e v hv l k = (_, refl, (omega arith, k))
  inverse_rule_sound (BaseExpr.neg a) e v hv l k = (_, refl, (omega arith, k))

  Sound : (BaseExpr → Option BaseExpr) → ℕ → Type 0
  Sound u n =
      (e : BaseExpr) (v : M31) → base_size e ≤ n → base_eval ρ₀ e ≡ some v → BaseResult (u e) e

  inverse_step-Sound :
      (u : BaseExpr → Option BaseExpr) (n : ℕ)
      → Sound u n
      → (t e : BaseExpr) (v : M31) → base_size e ≤ suc n
      → base_eval ρ₀ t ≡ some v
      → Simplifies base_eval base_size e t
      → BaseResult (inverse_step u t) e
  unfolding inverse_step base_size Sound base_eval
  inverse_step-Sound u n ih (BaseExpr.inv a) e v l hv (ls, k) =
      let (x, hx, hi) = >>=-eq-some (base_eval ρ₀ a) inverse hv in
      let (a', ha, (la, ka)) = ih a x (omega arith) hx in
      rw ha (
        inverse_rule_sound a' e v (kept a a' ka ρ₀ v hv) (omega arith)
          (λ ρ v' h. kept a a' ka ρ v' (k ρ v' h)))
  inverse_step-Sound u n ih (BaseExpr.col c) e v l hv s = (_, refl, s)
  inverse_step-Sound u n ih (BaseExpr.const c) e v l hv s = (_, refl, s)
  inverse_step-Sound u n ih (BaseExpr.param c) e v l hv s = (_, refl, s)
  inverse_step-Sound u n ih (BaseExpr.add a b) e v l hv s = (_, refl, s)
  inverse_step-Sound u n ih (BaseExpr.sub a b) e v l hv s = (_, refl, s)
  inverse_step-Sound u n ih (BaseExpr.mul a b) e v l hv s = (_, refl, s)
  inverse_step-Sound u n ih (BaseExpr.neg a) e v l hv s = (_, refl, s)

  checked-Sound :
      (u : BaseExpr → Option BaseExpr) (n : ℕ) → Sound u n → Sound (checked (base_eval ρ₀) u) n
  unfolding Sound
  checked-Sound u n h e v l hv =
      let (t, ht, (ls, k)) = h e v l hv in
      (t, checked-eq (base_eval ρ₀) u e t v ht hv (k ρ₀ v hv), (ls, k))

  pub base_unchecked_simplify_sound :
      (n : ℕ) (e : BaseExpr) (v : M31)
      → base_size e ≤ n
      → base_eval ρ₀ e ≡ some v
      → BaseResult (base_unchecked_simplify ρ₀ n e) e
  unfolding base_unchecked_simplify Sound base_eval base_size
  base_unchecked_simplify_sound zero e v l hv = absurd (omega (arith, base_size_pos e))
  base_unchecked_simplify_sound (suc n) e v l hv =
      let ih : Sound (base_unchecked_simplify ρ₀ n) n = base_unchecked_simplify_sound n in
      let (t, ht, s) =
        arithmetic_sound base_syntax base_eval base_eval-Meaning base_size base_size-Weight
          base_zero (λ ρ. refl) base_size_pos ρ₀
          (checked (base_eval ρ₀) (base_unchecked_simplify ρ₀ n)) e v hv
          (λ x lx u hu. checked-Sound (base_unchecked_simplify ρ₀ n) n ih x u (omega arith) hu) in
      rw ht (inverse_step-Sound (base_unchecked_simplify ρ₀ n) n ih t e v l (s.1 ρ₀ v hv) s)

-- Where an expression has a value under the assignment of the check, and on fuel that is at least
-- its size, `simplify` returns: the comparison of values does not fail. The result is not larger,
-- and it has the value of the expression under every assignment under which that has one.
pub base_simplify_sound :
    (ρ₀ : ExprVarAssignment) (n : ℕ) (e : BaseExpr) (v : M31)
    → base_size e ≤ n
    → base_eval ρ₀ e ≡ some v
    → (t : BaseExpr) × (base_simplify ρ₀ n e ≡ some t)
      × (base_size t ≤ base_size e)
      × ((ρ : ExprVarAssignment) (w : M31) → base_eval ρ e ≡ some w → base_eval ρ t ≡ some w)
unfolding base_simplify Sound
base_simplify_sound ρ₀ n e v l hv =
    let (t, ht, (ls, k)) =
      checked-Sound ρ₀ (base_unchecked_simplify ρ₀ n) n (base_unchecked_simplify_sound ρ₀ n) e v l
        hv in
    (t, ht, ls, k)
