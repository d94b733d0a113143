-- ===== src/Circle/Index/Points.antt =====
-- `to_point` carries the arithmetic of indices to the group of points, and is injective.
use stwo.Prelude.{ℕ, ◌+◌, ◌-◌, ◌*◌, ◌%◌, ◌^◌, ◌≤◌, ◌<◌, ◌≡◌, sym, ap, ap₂, ◌∙◌, arith}
use stwo.Prelude.Bits.{bit_and_mask}
use stwo.Fields.M31.Carrier.{M31, m31_ring}
use stwo.Circle.{
  CirclePoint, identity, conjugate, add as point_add, sub as point_sub, neg as point_neg,
}
use stwo.Circle.Laws.{OnCircle, sub_self, add_assoc, add_comm, identity-add, add-identity}
use stwo.Circle.Multiples.{times, times-add, times-mul, times-OnCircle, mul-times}
use stwo.Circle.Index.{m31_circle_gen, reduce, to_point, add, sub, mul, neg}
use stwo.Circle.Index.Order.{order, gen-OnCircle, times-order, times-mod, times-identity}

abbrev g : CirclePoint M31
g = m31_circle_gen

pub reduce-mod : (i : ℕ) → reduce i ≡ i % order
unfolding reduce
reduce-mod i = bit_and_mask i 31

pub to_point-times : (i : ℕ) → i < 2 ^ 64 → to_point i ≡ times g i
unfolding to_point
to_point-times i h = mul-times g i (omega arith)

-- The points of reduced indices are on the circle.
pub to_point-OnCircle : (i : ℕ) → i < 2 ^ 64 → OnCircle (to_point i)
to_point-OnCircle i h = rw (to_point-times i h) (times-OnCircle g i gen-OnCircle)

pub to_point-reduce : (i : ℕ) → to_point (reduce i) ≡ times g i
to_point-reduce i = rw (reduce-mod i) (to_point-times (i % order) (omega arith) ∙ times-mod i)

module _ (i j : ℕ) (hi : i ≤ order) (hj : j ≤ order) where
  sum_fits : i + j < 2 ^ 64
  sum_fits = omega arith

  pub add-mod : add i j ≡ (i + j) % order
  unfolding add
  add-mod = rw reduce-mod (omega arith)

  pub sub-mod : sub i j ≡ (i + order - j) % order
  unfolding sub
  sub-mod = rw reduce-mod (omega arith)

  -- The point of a sum of indices is the sum of the points.
  pub to_point-add : to_point (add i j) ≡ point_add (to_point i) (to_point j)
  to_point-add =
      ap to_point add-mod
      ∙ to_point-times ((i + j) % order) (omega arith)
      ∙ times-mod (i + j)
      ∙ times-add g i j
      ∙ ap₂ point_add (sym (to_point-times i (omega arith))) (sym (to_point-times j (omega arith)))

pub neg-mod : (i : ℕ) → i ≤ order → neg i ≡ (order - i) % order
unfolding neg
neg-mod i h = rw reduce-mod (omega arith)

pub mul-mod : (i n : ℕ) → mul i n ≡ (i * n) % order
unfolding mul
mul-mod i n = rw reduce-mod (omega arith)

add-conjugate : (p : CirclePoint M31) → OnCircle p → point_add p (conjugate p) ≡ identity
unfolding point_sub point_neg
add-conjugate p h = sub_self p h

-- An inverse is the conjugate.
conjugate_unique : (p q : CirclePoint M31) → OnCircle p → point_add p q ≡ identity → q ≡ conjugate p
conjugate_unique p q h e =
    sym (identity-add q)
    ∙ ap (λ t. point_add t q) (sym (add-conjugate p h) ∙ add_comm _ _)
    ∙ add_assoc _ _ _
    ∙ ap (point_add (conjugate p)) e
    ∙ add-identity _

-- The point of a negated index is the conjugate point.
pub to_point-neg : (i : ℕ) → i ≤ order → to_point (neg i) ≡ conjugate (to_point i)
to_point-neg i h =
    conjugate_unique (to_point i) (to_point (neg i)) (to_point-OnCircle i (omega arith)) vanishes
  where
    vanishes : point_add (to_point i) (to_point (neg i)) ≡ identity
    vanishes =
        ap₂ point_add (to_point-times i (omega arith)) (
          ap to_point (neg-mod i h)
          ∙ to_point-times ((order - i) % order) (omega arith)
          ∙ times-mod (order - i))
        ∙ sym (times-add g i (order - i))
        ∙ ap (times g) {x = i + (order - i)} {y = order} (omega arith)
        ∙ times-order

-- The point of a multiple of an index is the multiple of its point, also where the product of
-- machine words wraps.
pub to_point-mul : (i n : ℕ) → i ≤ order → to_point (mul i n) ≡ times (to_point i) n
to_point-mul i n h =
    ap to_point (mul-mod i n)
    ∙ to_point-times (i * n % order) (omega arith)
    ∙ times-mod (i * n)
    ∙ sym (times-mul g i n)
    ∙ ap (λ t. times t n) (sym (to_point-times i (omega arith)))

-- Different indices below the order are different points.
pub to_point_injective : (i j : ℕ) → i < order → j < order → to_point i ≡ to_point j → i ≡ j
to_point_injective i j hi hj e = omega (arith, times-identity (i + (order - j)) vanishes)
  where
    same : times g i ≡ times g j
    same = sym (to_point-times i (omega arith)) ∙ e ∙ to_point-times j (omega arith)

    vanishes : times g (i + (order - j)) ≡ identity
    vanishes =
        times-add g i (order - j)
        ∙ ap (λ t. point_add t (times g (order - j))) same
        ∙ sym (times-add g j (order - j))
        ∙ ap (times g) {x = j + (order - j)} {y = order} (omega arith)
        ∙ times-order

-- The point of a difference of indices is the difference of the points.
pub to_point-sub :
    (i j : ℕ) → i ≤ order → j ≤ order → to_point (sub i j) ≡ point_sub (to_point i) (to_point j)
unfolding point_sub point_neg
to_point-sub i j hi hj =
    ap to_point (sub-mod i j hi hj ∙ same_index)
    ∙ to_point-add i (neg j) hi (omega (arith, neg-mod j hj))
    ∙ ap (point_add (to_point i)) (to_point-neg j hj)
  where
    same_index : (i + order - j) % order ≡ add i (neg j)
    same_index = omega (arith, neg-mod j hj, add-mod i (neg j) hi (omega (arith, neg-mod j hj)))

-- `to_point` takes the sum, the difference, the negation and the multiples of indices up to the
-- order to those of points.
pub index_homomorphism :
    (i j : ℕ)
    → i ≤ order
    → j ≤ order
    → (to_point (add i j) ≡ point_add (to_point i) (to_point j))
      × (to_point (sub i j) ≡ point_sub (to_point i) (to_point j))
      × (to_point (neg i) ≡ conjugate (to_point i))
      × (to_point (mul i j) ≡ times (to_point i) j)
index_homomorphism i j hi hj =
    (to_point-add i j hi hj, to_point-sub i j hi hj, to_point-neg i hi, to_point-mul i j hi)
