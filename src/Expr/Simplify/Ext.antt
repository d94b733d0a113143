-- ===== src/Expr/Simplify/Ext.antt =====
-- `simplify` of an `ExtExpr` (crates/constraint-framework/src/expr/simplify.rs) keeps its value.
use stwo.Prelude.{ℕ, zero, suc, ◌+◌, ◌≤◌, Option, none, some, ◌>>=◌, ◌≡◌, refl, sym, ap, ◌∙◌, arith}
use stwo.Algebra.{field_ring, 𝟘}
use stwo.Fields.M31.Carrier.{M31}
use stwo.Fields.M31.Inverse.{m31_field}
use stwo.Fields.Qm31.{Qm31, qm31_ring}
use stwo.Fields.Qm31.Inverse.{qm31_field}
use stwo.Fields.Extension.{zero as ext_field_zero}
use stwo.Fields.Cm31.{cm31_ring}
use stwo.Expr.{BaseExpr, ExtExpr, ext_zero}
use stwo.Expr.BaseView.{as_const, as_const-eq}
use stwo.Expr.ExtView.{ext_syntax}
use stwo.Expr.Rules.{or_else}
use stwo.Expr.Rules.Sound.{Simplifies, arithmetic_sound}
use stwo.Expr.Eval.{ExprVarAssignment, base_eval, ext_eval}
use stwo.Expr.Eval.Meaning.{
  base_size, base_size_pos, ext_eval-Meaning, ext_size-Weight, ext_size, ext_size_pos,
}
use stwo.Expr.Simplify.{
  checked, pack, secure_col_step, base_unchecked_simplify, ext_unchecked_simplify, ext_simplify,
}
use stwo.Expr.Simplify.Base.{checked-eq, base_unchecked_simplify_sound}

abbrev pub ExtResult : Option ExtExpr → ExtExpr → Type 0
ExtResult o e = (t : ExtExpr) × (o ≡ some t) × Simplifies ext_eval ext_size e t

zero_eval : (ρ : ExprVarAssignment) → ext_eval ρ ext_zero ≡ some 𝟘
unfolding ext_eval base_eval qm31_ring cm31_ring ext_field_zero
zero_eval ρ = refl

abbrev quad : Option M31 → Option M31 → Option M31 → Option M31 → Option Qm31
quad a b c d = a >>= λ x. b >>= λ y. c >>= λ z. d >>= λ w. some ((x, y), (z, w))

-- The four columns of an evaluation.
quad_inv :
    (a b c d : Option M31) (v : Qm31)
    → quad a b c d ≡ some v
    → (a ≡ some v.0.0) × (b ≡ some v.0.1) × (c ≡ some v.1.0) × (d ≡ some v.1.1)
quad_inv none b c d v h = cc
quad_inv (some x) none c d v h = cc
quad_inv (some x) (some y) none d v h = cc
quad_inv (some x) (some y) (some z) none v h = cc
quad_inv (some x) (some y) (some z) (some w) v h =
    let e : ((x, y), (z, w)) ≡ v = cc in
    (
      ap (λ (t : Qm31). some t.0.0) e,
      ap (λ (t : Qm31). some t.0.1) e,
      ap (λ (t : Qm31). some t.1.0) e,
      ap (λ (t : Qm31). some t.1.1) e,
    )

quad-eq :
    (a b c d : Option M31) (v : Qm31)
    → a ≡ some v.0.0
    → b ≡ some v.0.1
    → c ≡ some v.1.0
    → d ≡ some v.1.1
    → quad a b c d ≡ some v
quad-eq a b c d v ha hb hc hd = rw ha (rw hb (rw hc (rw hd refl)))

const_value :
    (ρ : ExprVarAssignment) (a : BaseExpr) (x : M31) → as_const a ≡ some x → base_eval ρ a ≡ some x
unfolding base_eval
const_value ρ a x h = ap (base_eval ρ) (as_const-eq a x h)

module _ (a b c d : BaseExpr) where
  abbrev packed : Option M31 → Option M31 → Option M31 → Option M31 → ExtExpr
  packed oa ob oc od =
      or_else
        (oa >>= λ x. ob >>= λ y. oc >>= λ z. od >>= λ w. some (ExtExpr.const ((x, y), (z, w))))
        (ExtExpr.secure_col a b c d)

  packed_eval :
      (ρ : ExprVarAssignment) (v : Qm31) (oa ob oc od : Option M31)
      → as_const a ≡ oa
      → as_const b ≡ ob
      → as_const c ≡ oc
      → as_const d ≡ od
      → ext_eval ρ (ExtExpr.secure_col a b c d) ≡ some v
      → ext_eval ρ (packed oa ob oc od) ≡ some v
  unfolding ext_eval
  packed_eval ρ v none ob oc od ha hb hc hd h = h
  packed_eval ρ v (some x) none oc od ha hb hc hd h = h
  packed_eval ρ v (some x) (some y) none od ha hb hc hd h = h
  packed_eval ρ v (some x) (some y) (some z) none ha hb hc hd h = h
  packed_eval ρ v (some x) (some y) (some z) (some w) ha hb hc hd h =
      sym (
        quad-eq (base_eval ρ a) (base_eval ρ b) (base_eval ρ c) (base_eval ρ d) ((x, y), (z, w))
          (const_value ρ a x ha) (const_value ρ b y hb) (const_value ρ c z hc)
          (const_value ρ d w hd))
      ∙ h

  packed_size :
      (oa ob oc od : Option M31)
      → ext_size (packed oa ob oc od) ≤ base_size a + base_size b + base_size c + base_size d
  unfolding ext_size
  packed_size none ob oc od = omega arith
  packed_size (some x) none oc od = omega arith
  packed_size (some x) (some y) none od = omega arith
  packed_size (some x) (some y) (some z) none = omega arith
  packed_size (some x) (some y) (some z) (some w) =
      omega (arith, base_size_pos a, base_size_pos b, base_size_pos c, base_size_pos d)

module _ (ρ₀ : ExprVarAssignment) where
  abbrev Sound : (ExtExpr → Option ExtExpr) → ℕ → Type 0
  Sound u n = (e : ExtExpr) (v : Qm31) → ext_size e ≤ n → ext_eval ρ₀ e ≡ some v → ExtResult (u e) e

  secure_col_step_kept :
      (n : ℕ) (t e : ExtExpr) (v : Qm31)
      → ext_size e ≤ suc n
      → ext_eval ρ₀ t ≡ some v
      → Simplifies ext_eval ext_size e t
      → ExtResult (secure_col_step (base_unchecked_simplify ρ₀ n) t) e
  unfolding secure_col_step ext_size ext_eval pack
  secure_col_step_kept n (ExtExpr.secure_col a b c d) e v l hv (ls, k) =
      let (ha, hb, hc, hd) =
        quad_inv (base_eval ρ₀ a) (base_eval ρ₀ b) (base_eval ρ₀ c) (base_eval ρ₀ d) v hv in
      let pa = base_size_pos a in
      let pb = base_size_pos b in
      let pc = base_size_pos c in
      let pd = base_size_pos d in
      let (a', ea, (la, ka)) = base_unchecked_simplify_sound ρ₀ n a v.0.0 (omega arith) ha in
      let (b', eb, (lb, kb)) = base_unchecked_simplify_sound ρ₀ n b v.0.1 (omega arith) hb in
      let (c', ec, (lc, kc)) = base_unchecked_simplify_sound ρ₀ n c v.1.0 (omega arith) hc in
      let (d', ed, (ld, kd)) = base_unchecked_simplify_sound ρ₀ n d v.1.1 (omega arith) hd in
      rw ea (
        rw eb (
          rw ec (
            rw ed (
              pack a' b' c' d',
              refl,
              (
                omega (
                  arith,
                  packed_size a' b' c' d' (as_const a') (as_const b') (as_const c') (as_const d'),
                ),
                λ ρ w h.
                    let (ia, ib, ic, id) =
                      quad_inv (base_eval ρ a) (base_eval ρ b) (base_eval ρ c) (base_eval ρ d) w
                        (k ρ w h) in
                    packed_eval a' b' c' d' ρ w (as_const a') (as_const b') (as_const c')
                      (as_const d') refl refl refl refl
                      (quad-eq (base_eval ρ a') (base_eval ρ b') (base_eval ρ c') (base_eval ρ d') w
                        (ka ρ _ ia) (kb ρ _ ib) (kc ρ _ ic) (kd ρ _ id)),
              ),
            ))))
  secure_col_step_kept n (ExtExpr.const c) e v l hv s = (_, refl, s)
  secure_col_step_kept n (ExtExpr.param c) e v l hv s = (_, refl, s)
  secure_col_step_kept n (ExtExpr.add a b) e v l hv s = (_, refl, s)
  secure_col_step_kept n (ExtExpr.sub a b) e v l hv s = (_, refl, s)
  secure_col_step_kept n (ExtExpr.mul a b) e v l hv s = (_, refl, s)
  secure_col_step_kept n (ExtExpr.neg a) e v l hv s = (_, refl, s)

  checked-Sound :
      (u : ExtExpr → Option ExtExpr) (n : ℕ) → Sound u n → Sound (checked (ext_eval ρ₀) u) n
  checked-Sound u n h e v l hv =
      let (t, ht, (ls, k)) = h e v l hv in
      (t, checked-eq (ext_eval ρ₀) u e t v ht hv (k ρ₀ v hv), (ls, k))

  zero_size : (e : ExtExpr) → ext_size ext_zero ≤ ext_size e
  unfolding ext_size base_size
  zero_size e = ext_size_pos e

  ext_unchecked_simplify_sound :
      (n : ℕ) (e : ExtExpr) (v : Qm31)
      → ext_size e ≤ n
      → ext_eval ρ₀ e ≡ some v
      → ExtResult (ext_unchecked_simplify ρ₀ n e) e
  unfolding ext_unchecked_simplify
  ext_unchecked_simplify_sound zero e v l hv = absurd (omega (arith, ext_size_pos e))
  ext_unchecked_simplify_sound (suc n) e v l hv =
      let (t, ht, s) =
        arithmetic_sound ext_syntax ext_eval ext_eval-Meaning ext_size ext_size-Weight ext_zero
          zero_eval zero_size ρ₀ (checked (ext_eval ρ₀) (ext_unchecked_simplify ρ₀ n)) e v hv
          (λ x lx u hu.
            checked-Sound (ext_unchecked_simplify ρ₀ n) n (ext_unchecked_simplify_sound n) x u
              (omega arith) hu) in
      rw ht (secure_col_step_kept n t e v l (s.1 ρ₀ v hv) s)

-- Where an expression over the secure field has a value under the assignment of the check, and on
-- fuel that is at least its size, `simplify` returns. The result is not larger, and it has the value
-- of the expression under every assignment under which that has one.
pub ext_simplify_sound :
    (ρ₀ : ExprVarAssignment) (n : ℕ) (e : ExtExpr) (v : Qm31)
    → ext_size e ≤ n
    → ext_eval ρ₀ e ≡ some v
    → (t : ExtExpr) × (ext_simplify ρ₀ n e ≡ some t)
      × (ext_size t ≤ ext_size e)
      × ((ρ : ExprVarAssignment) (w : Qm31) → ext_eval ρ e ≡ some w → ext_eval ρ t ≡ some w)
unfolding ext_simplify
ext_simplify_sound ρ₀ n e v l hv =
    let (t, ht, (ls, k)) =
      checked-Sound ρ₀ (ext_unchecked_simplify ρ₀ n) n (ext_unchecked_simplify_sound ρ₀ n) e v l
        hv in
    (t, ht, ls, k)
