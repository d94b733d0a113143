-- ===== src/Expr/Rules/Meaning.antt =====
-- The rules of `simplify_arithmetic` keep the value of an expression that has one.
use mathlib.Core.Path.{subst}
use stwo.Prelude.{
  Bool, true, false, if◌then◌else◌, Option, none, some, ◌≡◌, refl, sym, ap, ap₂, ◌∙◌, ◌∷◌, [],
}
use stwo.Prelude.{Bool-cases, inl, inr}
use stwo.Algebra.{Field, field_ring, is_zero, ◌⊕◌, ◌⊖◌, ◌⊗◌, ⊝, 𝟘, 𝟙}
use stwo.Algebra.Laws.{zero-mul, mul-zero, mul-one, add-zero}
use stwo.Algebra.Solver.{◌:+◌, ◌:-◌, ◌:*◌, opp, lit0, lit1, x0, x1, ring, cross}
use stwo.Expr.Rules.{
  Syntax, build, or_else, both, lit_test, is_one, add_negs, add_rule, sub_negs, sub_rule, mul_negs,
  mul_rule, neg_rule,
}

-- What an evaluation makes of the constructors. `none` is a panic.
pub record Meaning {K E : Type 0} ⦃f : Field K⦄ (s : Syntax K E) (eval : E → Option K)
    : Type 0 where
  pub eval-lit : (c : K) → eval (s.lit c) ≡ some c
  pub eval-add :
      (a b : E) (x y : K) → eval a ≡ some x → eval b ≡ some y → eval (s.add a b) ≡ some (x ⊕ y)
  pub eval-sub :
      (a b : E) (x y : K) → eval a ≡ some x → eval b ≡ some y → eval (s.sub a b) ≡ some (x ⊖ y)
  pub eval-mul :
      (a b : E) (x y : K) → eval a ≡ some x → eval b ≡ some y → eval (s.mul a b) ≡ some (x ⊗ y)
  pub eval-neg : (a : E) (x : K) → eval a ≡ some x → eval (s.neg a) ≡ some (⊝ x)
  pub neg_inv : (a : E) (x : K) → eval (s.neg a) ≡ some x → eval a ≡ some (⊝ x)
  pub sub_inv :
      (a b : E) (x : K)
      → eval (s.sub a b) ≡ some x
      → (y : K) × (z : K) × (eval a ≡ some y) × (eval b ≡ some z) × (x ≡ y ⊖ z)
  pub add_inv :
      (a b : E) (x : K)
      → eval (s.add a b) ≡ some x
      → (y : K) × (z : K) × (eval a ≡ some y) × (eval b ≡ some z) × (x ≡ y ⊕ z)
  pub mul_inv :
      (a b : E) (x : K)
      → eval (s.mul a b) ≡ some x
      → (y : K) × (z : K) × (eval a ≡ some y) × (eval b ≡ some z) × (x ≡ y ⊗ z)
  pub build-node : (e : E) → build s e (s.node e) ≡ e
  pub as_lit-eq : (e : E) (c : K) → s.as_lit e ≡ some c → e ≡ s.lit c
  pub as_neg-eq : (e a : E) → s.as_neg e ≡ some a → e ≡ s.neg a
  pub as_sub-eq : (e a b : E) → s.as_sub e ≡ some (a, b) → e ≡ s.sub a b

module _ {K E : Type 0} ⦃f : Field K⦄ (s : Syntax K E) (eval : E → Option K)
    (m : Meaning s eval) where
  lit_value : (e : E) (c x : K) → s.as_lit e ≡ some c → eval e ≡ some x → c ≡ x
  lit_value e c x h v = cc (m.as_lit-eq e c h, m.eval-lit c)

  neg_value : (e a : E) (x : K) → s.as_neg e ≡ some a → eval e ≡ some x → eval a ≡ some (⊝ x)
  neg_value e a x h v = m.neg_inv a x (subst (λ t. eval t ≡ some x) (m.as_neg-eq e a h) v)

  -- Where the guard does not hold the rest of the rule is taken.
  guard-eval :
      (test : K → Bool) (o : Option K) (t e : E) (v : K)
      → ((c : K) → o ≡ some c → test c ≡ true → eval t ≡ some v)
      → eval e ≡ some v
      → eval (if lit_test test o then t else e) ≡ some v
  unfolding lit_test
  guard-eval test none t e v h k = k
  guard-eval test (some c) t e v h k = elim (Bool-cases (test c)) [
    | inl yes' ↦ rw yes' (h c refl yes')
    | inr no' ↦ rw no' k
  ]

  both-eval :
      (g : K → K → K) (oa ob : Option K) (e : E) (v : K)
      → ((c d : K) → oa ≡ some c → ob ≡ some d → g c d ≡ v)
      → eval e ≡ some v
      → eval (or_else (both (λ x y. s.lit (g x y)) oa ob) e) ≡ some v
  both-eval g none ob e v h k = k
  both-eval g (some c) none e v h k = k
  both-eval g (some c) (some d) e v h k = m.eval-lit (g c d) ∙ ap some (h c d refl refl)

  of_decided : {P : Type 0} (d : Dec P) → (elim d [ yes e ↦ true | no h ↦ false ]) ≡ true → P
  of_decided (yes e) h = e
  of_decided (no ne) h = cc

  is_zero_value : (c : K) → is_zero c ≡ true → c ≡ 𝟘
  is_zero_value c h = of_decided (f.dec_eq c 𝟘) h

  is_one_value : (c : K) → is_one c ≡ true → c ≡ 𝟙
  unfolding is_one
  is_one_value c h = of_decided (f.dec_eq c 𝟙) h

  module _ (a b : E) (x y : K) (va : eval a ≡ some x) (vb : eval b ≡ some y) where
    add_negs-eval :
        (na nb : Option E)
        → ((a' : E) → na ≡ some a' → eval a' ≡ some (⊝ x))
        → ((b' : E) → nb ≡ some b' → eval b' ≡ some (⊝ y))
        → eval (add_negs s na nb a b) ≡ some (x ⊕ y)
    unfolding add_negs cross
    add_negs-eval (some a') (some b') ha hb =
        m.eval-neg _ _ (m.eval-add a' b' _ _ (ha a' refl) (hb b' refl))
        ∙ ap some (ring (x ∷ y ∷ []) (opp (opp x0 :+ opp x1)) (x0 :+ x1) refl)
    add_negs-eval (some a') none ha hb =
        m.eval-sub b a' _ _ vb (ha a' refl)
        ∙ ap some (ring (x ∷ y ∷ []) (x1 :- opp x0) (x0 :+ x1) refl)
    add_negs-eval none (some b') ha hb =
        m.eval-sub a b' _ _ va (hb b' refl)
        ∙ ap some (ring (x ∷ y ∷ []) (x0 :- opp x1) (x0 :+ x1) refl)
    add_negs-eval none none ha hb = m.eval-add a b x y va vb

    -- The rule for sums computes the sum.
    pub add_rule-eval : eval (add_rule s a b) ≡ some (x ⊕ y)
    unfolding add_rule
    add_rule-eval =
        both-eval ◌⊕◌ (s.as_lit a) (s.as_lit b) _ _
          (λ c d hc hd. ap₂ ◌⊕◌ (lit_value a c x hc va) (lit_value b d y hd vb))
          (guard-eval is_zero (s.as_lit a) b _ _
            (λ c hc z.
              vb
              ∙ ap some (
                  sym (
                    ap (λ t. t ⊕ y) (sym (lit_value a c x hc va) ∙ is_zero_value c z)
                    ∙ f.ring.zero-add y)))
            (guard-eval is_zero (s.as_lit b) a _ _
              (λ d hd z.
                va
                ∙ ap some (
                    sym (
                      ap (λ t. x ⊕ t) (sym (lit_value b d y hd vb) ∙ is_zero_value d z)
                      ∙ add-zero x)))
              (add_negs-eval (s.as_neg a) (s.as_neg b) (λ a' h. neg_value a a' x h va)
                (λ b' h. neg_value b b' y h vb))))

    sub_negs-eval :
        (na nb : Option E)
        → ((a' : E) → na ≡ some a' → eval a' ≡ some (⊝ x))
        → ((b' : E) → nb ≡ some b' → eval b' ≡ some (⊝ y))
        → eval (sub_negs s na nb a b) ≡ some (x ⊖ y)
    unfolding sub_negs cross
    sub_negs-eval (some a') (some b') ha hb =
        m.eval-sub b' a' _ _ (hb b' refl) (ha a' refl)
        ∙ ap some (ring (x ∷ y ∷ []) (opp x1 :- opp x0) (x0 :- x1) refl)
    sub_negs-eval (some a') none ha hb =
        m.eval-neg _ _ (m.eval-add a' b _ _ (ha a' refl) vb)
        ∙ ap some (ring (x ∷ y ∷ []) (opp (opp x0 :+ x1)) (x0 :- x1) refl)
    sub_negs-eval none (some b') ha hb =
        m.eval-add a b' _ _ va (hb b' refl)
        ∙ ap some (ring (x ∷ y ∷ []) (x0 :+ opp x1) (x0 :- x1) refl)
    sub_negs-eval none none ha hb = m.eval-sub a b x y va vb

    -- The rule for differences computes the difference.
    pub sub_rule-eval : eval (sub_rule s a b) ≡ some (x ⊖ y)
    unfolding sub_rule cross
    sub_rule-eval =
        both-eval ◌⊖◌ (s.as_lit a) (s.as_lit b) _ _
          (λ c d hc hd. ap₂ ◌⊖◌ (lit_value a c x hc va) (lit_value b d y hd vb))
          (guard-eval is_zero (s.as_lit a) (s.neg b) _ _
            (λ c hc z.
              m.eval-neg b y vb
              ∙ ap some (
                  ring (y ∷ []) (opp x0) (lit0 :- x0) refl
                  ∙ ap (λ t. t ⊖ y) (sym (is_zero_value c z) ∙ lit_value a c x hc va)))
            (guard-eval is_zero (s.as_lit b) a _ _
              (λ d hd z.
                va
                ∙ ap some (
                    ring (x ∷ []) x0 (x0 :- lit0) refl
                    ∙ ap (λ t. x ⊖ t) (sym (is_zero_value d z) ∙ lit_value b d y hd vb)))
              (sub_negs-eval (s.as_neg a) (s.as_neg b) (λ a' h. neg_value a a' x h va)
                (λ b' h. neg_value b b' y h vb))))

    mul_negs-eval :
        (na nb : Option E)
        → ((a' : E) → na ≡ some a' → eval a' ≡ some (⊝ x))
        → ((b' : E) → nb ≡ some b' → eval b' ≡ some (⊝ y))
        → eval (mul_negs s na nb a b) ≡ some (x ⊗ y)
    unfolding mul_negs cross
    mul_negs-eval (some a') (some b') ha hb =
        m.eval-mul a' b' _ _ (ha a' refl) (hb b' refl)
        ∙ ap some (ring (x ∷ y ∷ []) (opp x0 :* opp x1) (x0 :* x1) refl)
    mul_negs-eval (some a') none ha hb =
        m.eval-neg _ _ (m.eval-mul a' b _ _ (ha a' refl) vb)
        ∙ ap some (ring (x ∷ y ∷ []) (opp (opp x0 :* x1)) (x0 :* x1) refl)
    mul_negs-eval none (some b') ha hb =
        m.eval-neg _ _ (m.eval-mul a b' _ _ va (hb b' refl))
        ∙ ap some (ring (x ∷ y ∷ []) (opp (x0 :* opp x1)) (x0 :* x1) refl)
    mul_negs-eval none none ha hb = m.eval-mul a b x y va vb

    left : (c k : K) → s.as_lit a ≡ some c → c ≡ k → k ⊗ y ≡ x ⊗ y
    left c k hc e = ap (λ t. t ⊗ y) (sym e ∙ lit_value a c x hc va)

    right : (d k : K) → s.as_lit b ≡ some d → d ≡ k → x ⊗ k ≡ x ⊗ y
    right d k hd e = ap (λ t. x ⊗ t) (sym e ∙ lit_value b d y hd vb)

    minus_one : (c : K) → is_one (⊝ c) ≡ true → c ≡ ⊝ 𝟙
    unfolding cross
    minus_one c h = ring (c ∷ []) x0 (opp (opp x0)) refl ∙ ap ⊝ (is_one_value (⊝ c) h)

    -- The rule for products computes the product.
    pub mul_rule-eval : (zero : E) → eval zero ≡ some 𝟘 → eval (mul_rule s zero a b) ≡ some (x ⊗ y)
    unfolding mul_rule cross
    mul_rule-eval zero vz =
        both-eval ◌⊗◌ (s.as_lit a) (s.as_lit b) _ _
          (λ c d hc hd. ap₂ ◌⊗◌ (lit_value a c x hc va) (lit_value b d y hd vb))
          (guard-eval is_zero (s.as_lit a) zero _ _
            (λ c hc z. vz ∙ ap some (sym (zero-mul y) ∙ left c 𝟘 hc (is_zero_value c z)))
            (guard-eval is_zero (s.as_lit b) zero _ _
              (λ d hd z. vz ∙ ap some (sym (mul-zero x) ∙ right d 𝟘 hd (is_zero_value d z)))
              (guard-eval is_one (s.as_lit a) b _ _
                (λ c hc z. vb ∙ ap some (sym (f.ring.one-mul y) ∙ left c 𝟙 hc (is_one_value c z)))
                (guard-eval is_one (s.as_lit b) a _ _
                  (λ d hd z. va ∙ ap some (sym (mul-one x) ∙ right d 𝟙 hd (is_one_value d z)))
                  (guard-eval (λ c. is_one (⊝ c)) (s.as_lit a) (s.neg b) _ _
                    (λ c hc z.
                      m.eval-neg b y vb
                      ∙ ap some (
                          ring (y ∷ []) (opp x0) (opp lit1 :* x0) refl
                          ∙ left c (⊝ 𝟙) hc (minus_one c z)))
                    (guard-eval (λ c. is_one (⊝ c)) (s.as_lit b) (s.neg a) _ _
                      (λ d hd z.
                        m.eval-neg a x va
                        ∙ ap some (
                            ring (x ∷ []) (opp x0) (x0 :* opp lit1) refl
                            ∙ right d (⊝ 𝟙) hd (minus_one d z)))
                      (mul_negs-eval (s.as_neg a) (s.as_neg b) (λ a' h. neg_value a a' x h va)
                        (λ b' h. neg_value b b' y h vb))))))))

  -- The rule for negations computes the negation.
  pub neg_rule-eval : (a : E) (x : K) → eval a ≡ some x → eval (neg_rule s a) ≡ some (⊝ x)
  unfolding neg_rule
  neg_rule-eval a x va = by_lit (s.as_lit a) refl
    where
      by_sub :
          (o : Option (E × E))
          → s.as_sub a ≡ o
          → eval (elim o [ some (u, v) ↦ s.sub v u | none ↦ s.neg a ]) ≡ some (⊝ x)
      by_sub (some (u, v)) h =
          let (y, z, vu, vv, e) =
            m.sub_inv u v x (subst (λ t. eval t ≡ some x) (m.as_sub-eq a u v h) va) in
          m.eval-sub v u z y vv vu
          ∙ ap some
              (unfold cross in ring (y ∷ z ∷ []) (x1 :- x0) (opp (x0 :- x1)) refl ∙ ap ⊝ (sym e))
      by_sub none h = m.eval-neg a x va

      by_neg :
          (o : Option E)
          → s.as_neg a ≡ o
          → eval (elim o [
            | some a' ↦ a'
            | none ↦ elim (s.as_sub a) [ some (u, v) ↦ s.sub v u | none ↦ s.neg a ]
          ])
            ≡ some (⊝ x)
      by_neg (some a') h = neg_value a a' x h va
      by_neg none h = by_sub (s.as_sub a) refl

      by_lit :
          (o : Option K)
          → s.as_lit a ≡ o
          → eval (elim o [
            | some c ↦ s.lit (⊝ c)
            | none ↦ elim (s.as_neg a) [
              | some a' ↦ a'
              | none ↦ elim (s.as_sub a) [ some (u, v) ↦ s.sub v u | none ↦ s.neg a ]
            ]
          ])
            ≡ some (⊝ x)
      by_lit (some c) h = m.eval-lit (⊝ c) ∙ ap some (ap ⊝ (lit_value a c x h va))
      by_lit none h = by_neg (s.as_neg a) refl
