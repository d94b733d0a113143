-- ===== src/Expr/Rules/Sound.antt =====
-- The macro `simplify_arithmetic`, given that the call on the operands is right.
use mathlib.Core.Path.{subst}
use stwo.Prelude.{ℕ, ◌+◌, ◌≤◌, ◌<◌, Option, some, ◌>>=◌, ◌≡◌, refl, sym, ap, ◌∙◌, arith, [], ◌∷◌}
use stwo.Algebra.{Field, field_ring, ◌⊕◌, ◌⊖◌, ◌⊗◌, ⊝, 𝟘}
use stwo.Algebra.Solver.{opp, x0, ring, cross}
use stwo.Expr.Rules.{
  Syntax, Node, build, add_rule, sub_rule, mul_rule, neg_rule, simplify_arithmetic,
}
use stwo.Expr.Rules.Meaning.{Meaning, add_rule-eval, sub_rule-eval, mul_rule-eval, neg_rule-eval}
use stwo.Expr.Rules.Size.{Weight, size-add_rule, size-sub_rule, size-mul_rule, size-neg_rule}

-- `t` is not larger than `e`, and it has the value of `e` wherever `e` has one.
abbrev pub Simplifies : {K E R : Type 0} → (R → E → Option K) → (E → ℕ) → E → E → Type 0
Simplifies {K} {E} {R} eval size e t =
    (size t ≤ size e) × ((ρ : R) (v : K) → eval ρ e ≡ some v → eval ρ t ≡ some v)

module _ {K E R : Type 0} ⦃f : Field K⦄ (s : Syntax K E) (eval : R → E → Option K)
    (m : (ρ : R) → Meaning s (eval ρ)) (size : E → ℕ) (w : Weight s size) (zero : E)
    (zero_eval : (ρ : R) → eval ρ zero ≡ some 𝟘) (zero_le : (e : E) → size zero ≤ size e) (ρ₀ : R)
    (simplify : E → Option E) where
  abbrev pub Result : Option E → E → Type 0
  Result o e = (t : E) × (o ≡ some t) × Simplifies eval size e t

  -- A rule for an operation on two operands, once both are simplified.
  two :
      (op rule : E → E → E) (g : K → K → K) (a b : E)
      → ((x y : E) → size (op x y) ≡ 1 + size x + size y)
      → ((x y : E) → size (rule x y) ≤ 1 + size x + size y)
      → ((ρ : R) (x y : E) (u v : K)
          → eval ρ x ≡ some u
          → eval ρ y ≡ some v
          → eval ρ (rule x y) ≡ some (g u v))
      → ((ρ : R) (v : K)
          → eval ρ (op a b) ≡ some v
          → (y : K) × (z : K) × (eval ρ a ≡ some y) × (eval ρ b ≡ some z) × (v ≡ g y z))
      → Result (simplify a) a
      → Result (simplify b) b
      → Result (simplify a >>= λ a'. simplify b >>= λ b'. some (rule a' b')) (op a b)
  two op rule g a b so sr er inv (a', ea, (la, va)) (b', eb, (lb, vb)) = (
    rule a' b',
    rw ea (rw eb refl),
    (
      omega (arith, so a b, sr a' b', la, lb),
      λ ρ v h.
          let (y, z, hy, hz, e) = inv ρ v h in
          er ρ a' b' y z (va ρ y hy) (vb ρ z hz) ∙ ap some (sym e),
    ),
  )

  abbrev pub Operand : E → E → Type 0
  Operand e x = size x < size e → (v : K) → eval ρ₀ x ≡ some v → Result (simplify x) x

  neg_again : (ρ : R) (x : E) (u : K) → eval ρ x ≡ some (⊝ u) → eval ρ (neg_rule s x) ≡ some u
  unfolding cross
  neg_again ρ x u h =
      neg_rule-eval s (eval ρ) (m ρ) x (⊝ u) h ∙ ap some (ring (u ∷ []) (opp (opp x0)) x0 refl)

  moved : {o : Option E} {e t : E} → e ≡ t → Result o e → Result o t
  moved {o} h = subst (λ t. Result o t) h

  by_node :
      (e : E) (n : Node E)
      → s.node e ≡ n
      → build s e n ≡ e
      → (v : K) → eval ρ₀ e ≡ some v
      → ((x : E) → Operand e x)
      → Result (simplify_arithmetic s zero simplify e) e
  unfolding simplify_arithmetic
  by_node e (Node.sum a b) hn hb v hv ih =
      let (y, z, hy, hz, _) = (m ρ₀).add_inv a b v (subst (λ t. eval ρ₀ t ≡ some v) (sym hb) hv) in
      let l : size (s.add a b) ≡ size e = ap size hb in
      rw (hn, simplify_arithmetic)
        (moved hb (
          two s.add (add_rule s) ◌⊕◌ a b w.size-add (size-add_rule s (eval ρ₀) (m ρ₀) size w)
            (λ ρ x y' u u' hu hu'. add_rule-eval s (eval ρ) (m ρ) x y' u u' hu hu')
            (λ ρ v'. (m ρ).add_inv a b v') (ih a (omega (arith, l, w.size-add a b)) y hy)
            (ih b (omega (arith, l, w.size-add a b)) z hz)))
  by_node e (Node.difference a b) hn hb v hv ih =
      let (y, z, hy, hz, _) = (m ρ₀).sub_inv a b v (subst (λ t. eval ρ₀ t ≡ some v) (sym hb) hv) in
      let l : size (s.sub a b) ≡ size e = ap size hb in
      rw (hn, simplify_arithmetic)
        (moved hb (
          two s.sub (sub_rule s) ◌⊖◌ a b w.size-sub (size-sub_rule s (eval ρ₀) (m ρ₀) size w)
            (λ ρ x y' u u' hu hu'. sub_rule-eval s (eval ρ) (m ρ) x y' u u' hu hu')
            (λ ρ v'. (m ρ).sub_inv a b v') (ih a (omega (arith, l, w.size-sub a b)) y hy)
            (ih b (omega (arith, l, w.size-sub a b)) z hz)))
  by_node e (Node.multiple a b) hn hb v hv ih =
      let (y, z, hy, hz, _) = (m ρ₀).mul_inv a b v (subst (λ t. eval ρ₀ t ≡ some v) (sym hb) hv) in
      let l : size (s.mul a b) ≡ size e = ap size hb in
      rw (hn, simplify_arithmetic)
        (moved hb (
          two s.mul (mul_rule s zero) ◌⊗◌ a b w.size-mul
            (λ x y'. size-mul_rule s (eval ρ₀) (m ρ₀) size w x y' zero (zero_le x))
            (λ ρ x y' u u' hu hu'.
              mul_rule-eval s (eval ρ) (m ρ) x y' u u' hu hu' zero (zero_eval ρ))
            (λ ρ v'. (m ρ).mul_inv a b v') (ih a (omega (arith, l, w.size-mul a b)) y hy)
            (ih b (omega (arith, l, w.size-mul a b)) z hz)))
  by_node e (Node.opposite a) hn hb v hv ih =
      let l : size (s.neg a) ≡ size e = ap size hb in
      let (a', ea, (la, va)) =
        ih a (omega (arith, l, w.size-neg a)) (⊝ v)
          ((m ρ₀).neg_inv a v (subst (λ t. eval ρ₀ t ≡ some v) (sym hb) hv)) in
      rw (hn, simplify_arithmetic)
        (rw ea (
          neg_rule s a',
          refl,
          (
            omega (arith, l, w.size-neg a, la, size-neg_rule s (eval ρ₀) (m ρ₀) size w a'),
            λ ρ v' h'.
                neg_again ρ a' v'
                  (va ρ (⊝ v') ((m ρ).neg_inv a v' (subst (λ t. eval ρ t ≡ some v') (sym hb) h'))),
          ),
        ))
  by_node e Node.other hn hb v hv ih =
      rw (hn, simplify_arithmetic) (e, refl, (omega arith, λ ρ v' h. h))

  pub arithmetic_sound :
      (e : E) (v : K)
      → eval ρ₀ e ≡ some v
      → ((x : E) → Operand e x)
      → Result (simplify_arithmetic s zero simplify e) e
  arithmetic_sound e = by_node e (s.node e) refl ((m ρ₀).build-node e)
