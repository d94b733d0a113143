-- ===== src/Fields/M31/Fermat.antt =====
-- Fermat's little theorem in `M31`: multiplication by a nonzero element permutes the nonzero
-- elements, so their product does not change.
use mathlib.Core.Logic.{∥∥₁_elim}
use mathlib.Core.Logic.Or
use mathlib.Core.HLevel.{⊥_prop}
use mathlib.Core.List.{Mem, Mem-prop, not-mem-nil, mem-cons, mem-cons_self, mem-cons_of_mem, Subset}
use mathlib.Core.List.{length as size}
use mathlib.Core.List.{Nodup, Nodup-cons, Permᴰ, Perm, Pairwise}
use mathlib.Core.List.Nodup
use mathlib.Core.List.Subperm
use mathlib.Core.Nat
use native.Mathlib.Bridge.{le_prop}
use stwo.Prelude.{ℕ, zero, suc, ◌≤◌, ◌<◌, ◌≡◌, refl, sym, ap, ap₂, ◌∙◌, arith}
use stwo.Prelude.{List, [], ◌∷◌, length, dec_lt}
use stwo.Algebra.{◌⊗◌, ◌⊕◌, ◌⊖◌, 𝟙, 𝟘}
use stwo.Algebra.Laws.{mul_left_comm, mul-one}
use stwo.Algebra.Solver.{◌:+◌, ◌:-◌, ◌:*◌, lit0, x0, x1, x2, x3, ring, cross}
use stwo.Fields.M31.{p}
use stwo.Fields.M31.Reduce.{mul-mod}
use stwo.Fields.M31.Carrier.{M31, M31-set, m31_ring, ext}
use stwo.Fields.M31.Prime.{euclid}
use stwo.Fields.ExpOps.Powers.{npow}

-- There are no zero divisors.
pub zero_of_mul : (a z : M31) → 0 < a.0 → a ⊗ z ≡ 𝟘 → z ≡ 𝟘
unfolding m31_ring
zero_of_mul a z h e =
    ext (omega (arith, euclid a.0 z.0 h a.1 (sym (mul-mod a.0 z.0 a.1 z.1) ∙ ap (λ t. t.0) e), z.1))

eq_of_sub : (x y : M31) → x ⊖ y ≡ 𝟘 → x ≡ y
unfolding cross
eq_of_sub x y h =
    ring (x ∷ y ∷ []) x0 (x0 :- x1 :+ x1) refl ∙ ap (λ t. t ⊕ y) h ∙ m31_ring.zero-add y

pub mul_cancel : (a x y : M31) → 0 < a.0 → a ⊗ x ≡ a ⊗ y → x ≡ y
unfolding cross
mul_cancel a x y h e = eq_of_sub x y (
    zero_of_mul a (x ⊖ y) h (
      ring (a ∷ x ∷ y ∷ []) (x0 :* (x1 :- x2)) (x0 :* x1 :- x0 :* x2) refl
      ∙ ap (λ t. t ⊖ a ⊗ y) e
      ∙ ring (a ⊗ y ∷ []) (x0 :- x0) lit0 refl))

mul-pos : (a x : M31) → 0 < a.0 → 0 < x.0 → 0 < (a ⊗ x).0
mul-pos a x ha hx = elim (dec_lt 0 (a ⊗ x).0) [
  | yes h ↦ h
  | no h ↦ absurd (nonzero (zero_of_mul a x ha (vanishes (omega arith))))
]
  where
    vanishes : (a ⊗ x).0 ≡ 0 → a ⊗ x ≡ 𝟘
    vanishes h = unfold m31_ring in ext h

    nonzero : ¬ (x ≡ 𝟘)
    nonzero e = unfold m31_ring in (omega (arith, ap (λ t. t.0) e))

lower : (n : ℕ) → suc n < p → n < p
lower n h = omega arith

-- The elements n, …, 1.
units : (n : ℕ) → n < p → List M31
units zero h = []
units (suc n) h = (suc n, h) ∷ units n (lower n h)

mem_units_bound : (n : ℕ) (h : n < p) (x : M31) → Mem x (units n h) → (0 < x.0) × (x.0 ≤ n)
unfolding units
mem_units_bound zero h x m = absurd (not-mem-nil m)
mem_units_bound (suc n) h x m =
    Or.elim (hlevel le_prop) (mem-cons.0 m) (λ e. omega (arith, ap (λ t. t.0) e))
      (λ rest. omega (arith, mem_units_bound n (lower n h) x rest))

mem_units : (n : ℕ) (h : n < p) (x : M31) → 0 < x.0 → x.0 ≤ n → Mem x (units n h)
unfolding units
mem_units zero h x pos le = absurd (omega arith)
mem_units (suc n) h x pos le = elim (dec_lt n x.0) [
  | yes top ↦ mem-cons.1 (Or.inl (ext (omega arith)))
  | no below ↦ mem-cons_of_mem _ (mem_units n (lower n h) x pos (omega arith))
]

units-Nodup : (n : ℕ) (h : n < p) → Nodup (units n h)
unfolding units
units-Nodup zero h = Pairwise.nil
units-Nodup (suc n) h =
    Nodup-cons.1
      ((λ m. omega (arith, mem_units_bound n (lower n h) (suc n, h) m)), units-Nodup n (lower n h))

scale : M31 → List M31 → List M31
scale a [] = []
scale a (x ∷ xs) = a ⊗ x ∷ scale a xs

mem_scale :
    (a : M31) (xs : List M31) (y : M31)
    → Mem y (scale a xs)
    → ∥ ((x : M31) × Mem x xs × (y ≡ a ⊗ x)) ∥₁
unfolding scale
mem_scale a [] y m = absurd (not-mem-nil m)
mem_scale a (x ∷ xs) y m =
    Or.elim squash₁ (mem-cons.0 m) (λ e. ∣ (x, mem-cons_self, e) ∣₁)
      (λ rest.
        ∥∥₁_elim (mem_scale a xs y rest) squash₁ (λ w. ∣ (w.0, mem-cons_of_mem _ w.1, w.2) ∣₁))

scale-Nodup : (a : M31) (xs : List M31) → 0 < a.0 → Nodup xs → Nodup (scale a xs)
unfolding scale
scale-Nodup a [] h d = Pairwise.nil
scale-Nodup a (x ∷ xs) h d = Nodup-cons.1 (
  (λ m.
      ∥∥₁_elim (mem_scale a xs (a ⊗ x) m) ⊥_prop
        (λ w. (Nodup-cons.0 d).0 (rw (mul_cancel a x w.0 h w.2) w.1))),
  scale-Nodup a xs h (Nodup-cons.0 d).1,
)

product : List M31 → M31
product [] = 𝟙
product (x ∷ xs) = x ⊗ product xs

product-permᴰ : {xs ys : List M31} → Permᴰ xs ys → product xs ≡ product ys
unfolding product
product-permᴰ Permᴰ.nil = refl
product-permᴰ (Permᴰ.cons e q) = ap₂ ◌⊗◌ e (product-permᴰ q)
product-permᴰ (Permᴰ.swap {b = b} {l = l} e f) = rw (e, f) (mul_left_comm _ _ (product l))
product-permᴰ (Permᴰ.trans q q') = product-permᴰ q ∙ product-permᴰ q'

product-scale : (a : M31) (xs : List M31) → product (scale a xs) ≡ npow a (length xs) ⊗ product xs
unfolding product scale npow cross
product-scale a [] = sym (m31_ring.one-mul _)
product-scale a (x ∷ xs) = rw (product-scale a xs) (
    ring (a ∷ x ∷ npow a (length xs) ∷ product xs ∷ []) (x0 :* x1 :* (x2 :* x3))
      (x0 :* x2 :* (x1 :* x3)) refl)

length-units : (n : ℕ) (h : n < p) → length (units n h) ≡ n
unfolding units
length-units zero h = refl
length-units (suc n) h = ap suc (length-units n (lower n h))

product-pos : (n : ℕ) (h : n < p) → 0 < (product (units n h)).0
unfolding units product
product-pos zero h = unfold m31_ring in (omega arith)
product-pos (suc n) h = mul-pos (suc n, h) _ (omega arith) (product-pos n (lower n h))

size-scale : (a : M31) (xs : List M31) → size (scale a xs) ≡ size xs
unfolding scale
size-scale a [] = refl
size-scale a (x ∷ xs) = ap Nat.suc (size-scale a xs)

module _ (n : ℕ) (h : n < p) (last : suc n ≡ p) (a : M31) (pos : 0 < a.0) where
  scale-subset : Subset (scale a (units n h)) (units n h)
  scale-subset y m = ∥∥₁_elim (mem_scale a (units n h) y m) Mem-prop (λ w.
      let bound = mem_units_bound n h w.0 w.1 in
      mem_units n h y (rw w.2 (mul-pos a w.0 pos bound.0)) (omega (arith, y.1)))

  scale-perm : Perm (scale a (units n h)) (units n h)
  scale-perm =
      Subperm.perm_of_length_le
        (Nodup.subperm (scale-Nodup a (units n h) pos (units-Nodup n h)) scale-subset)
        (Nat.le_of_eq (sym (size-scale a (units n h))))

  same_product : npow a n ⊗ product (units n h) ≡ product (units n h)
  same_product =
      ap (λ k. npow a k ⊗ product (units n h)) (sym (length-units n h))
      ∙ sym (product-scale a (units n h))
      ∙ ∥∥₁_elim scale-perm (M31-set _ _) product-permᴰ

  fermat_at : npow a n ≡ 𝟙
  fermat_at =
      mul_cancel (product (units n h)) (npow a n) 𝟙 (product-pos n h)
        (m31_ring.mul_comm _ _ ∙ same_product ∙ sym (mul-one _))

-- A nonzero element to the power `P - 1` is one.
pub fermat : (a : M31) → 0 < a.0 → npow a 2147483646 ≡ 𝟙
fermat a pos = fermat_at 2147483646 (omega arith) refl a pos
