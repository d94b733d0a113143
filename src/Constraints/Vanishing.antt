-- ===== src/Constraints/Vanishing.antt =====
-- `coset_vanishing` (crates/stwo/src/core/constraints.rs) is zero on the points of its coset.
use stwo.Prelude.{
  ℕ, zero, suc, ◌+◌, ◌-◌, ◌*◌, ◌^◌, ◌/◌, ◌%◌, ◌≤◌, ◌<◌, ◌≡◌, refl, sym, ap, ap₂, ◌∙◌, arith, none,
  some, if◌then◌else◌, ◌==◌, [], ◌∷◌,
}
use stwo.Prelude.Bits.{two_pow-suc, two_pow-add}
use stwo.Algebra.{◌⊕◌, ◌⊖◌, ◌⊗◌, 𝟘}
use stwo.Algebra.Solver.{◌:-◌, ◌:*◌, ◌:+◌, x0, x1, lit0, ring, cross}
use stwo.Fields.M31.{add as m31_add, sub as m31_sub, mul as m31_mul}
use stwo.Fields.M31.Carrier.{M31, m31_ring, ext}
use stwo.Circle.{CirclePoint, identity, add, sub, neg, double, repeated_double}
use stwo.Circle.Laws.{
  OnCircle, add_comm, add_left_comm, add_assoc, identity-add, add-OnCircle, sub_self,
  double_x-double,
}
use stwo.Circle.Multiples.{times, times-add, times-mul, times-OnCircle, repeated_double-times}
use stwo.Circle.Index.{to_point, half, m31_circle_gen}
use stwo.Circle.Index.Order.{order, gen-OnCircle}
use stwo.Circle.Index.Points.{to_point-times, to_point-OnCircle}
use stwo.Circle.Coset.{at}
use stwo.Circle.Coset.Valid.{made, made-IsValid, step-le}
use stwo.Circle.Coset.Points.{at-add}
use stwo.Constraints.{into_ef, repeated_double_x, coset_vanishing}

-- The base field as its own extension.
abbrev pub same : M31 → M31
same x = x

repeated_double_x-double :
    (n : ℕ) (p : CirclePoint M31)
    → OnCircle p
    → repeated_double_x same n p.x ≡ (repeated_double p n).x
unfolding repeated_double_x repeated_double double
repeated_double_x-double zero p h = refl
repeated_double_x-double (suc n) p h =
    ap (repeated_double_x same n) (double_x-double p h)
    ∙ repeated_double_x-double n (double p) (add-OnCircle p p h h)

odd_of_even : (q m : CirclePoint M31) → q.x ≡ 𝟘 → m.y ≡ 𝟘 → (add q m).x ≡ 𝟘
unfolding add cross
odd_of_even q m h e =
    ap₂ (λ a b. a ⊗ m.x ⊖ q.y ⊗ b) h e ∙ ring (m.x ∷ q.y ∷ []) (lit0 :* x0 :- x1 :* lit0) lit0 refl

even_of_odd : (q m : CirclePoint M31) → q.x ≡ 𝟘 → m.x ≡ 𝟘 → (add q m).y ≡ 𝟘
unfolding add cross
even_of_odd q m h e =
    ap₂ (λ a b. a ⊗ m.y ⊕ q.y ⊗ b) h e ∙ ring (m.y ∷ q.y ∷ []) (lit0 :* x0 :+ x1 :* lit0) lit0 refl

-- The even multiples of a point on the vertical axis are on the horizontal axis.
even_multiple : (q : CirclePoint M31) → q.x ≡ 𝟘 → (k : ℕ) → (times q (k + k)).y ≡ 𝟘
unfolding times identity
even_multiple q h zero = refl
even_multiple q h (suc k) =
    ap (λ n. (times q n).y) {x = suc k + suc k} {y = suc (suc (k + k))} (omega arith)
    ∙ even_of_odd q (add q (times q (k + k))) h
        (odd_of_even q (times q (k + k)) h (even_multiple q h k))

odd_multiple : (q : CirclePoint M31) → q.x ≡ 𝟘 → (k : ℕ) → (times q (suc (k + k))).x ≡ 𝟘
unfolding times
odd_multiple q h k = odd_of_even q (times q (k + k)) h (even_multiple q h k)

abbrev g : CirclePoint M31
g = m31_circle_gen

x_at_29 : (repeated_double g 29).x.0 ≡ 0
unfolding repeated_double double add m31_circle_gen m31_ring m31_add m31_mul m31_sub
x_at_29 = refl

quarter : (times g (2 ^ 29)).x ≡ 𝟘
quarter = ap (λ (p : CirclePoint M31). p.x) (sym (repeated_double-times g 29)) ∙ at_29
  where
    at_29 : (repeated_double g 29).x ≡ 𝟘
    at_29 = unfold m31_ring in ext x_at_29

add-neg : (p : CirclePoint M31) → OnCircle p → add p (neg p) ≡ identity
unfolding sub
add-neg p h = sub_self p h

-- Subtracting a point of the circle undoes its addition.
add-sub : (p t : CirclePoint M31) → OnCircle p → sub (add p t) p ≡ t
unfolding sub
add-sub p t h =
    add_comm (add p t) (neg p)
    ∙ add_left_comm (neg p) p t
    ∙ sym (add_assoc p (neg p) t)
    ∙ ap (λ u. add u t) (add-neg p h)
    ∙ identity-add t

regroup : (h k : ℕ) → 2 * h * k + h ≡ h * suc (k + k)
regroup h k = let e : suc (k + k) ≡ 2 * k + 1 = omega arith in rw e (grind arith)

mul_right_comm : (a b c : ℕ) → a * b * c ≡ a * c * b
mul_right_comm a b c = grind arith

two_pow_le : (l : ℕ) → l ≤ 31 → 2 ^ l ≤ order
two_pow_le l h =
    let e : 31 - (31 - l) ≡ l = omega arith in
    omega (arith, step-le (31 - l) (omega arith), ap (λ (t : ℕ). 2 ^ t) e)

-- A power of two as an index.
step_times : (l : ℕ) → l ≤ 31 → to_point (2 ^ l) ≡ times g (2 ^ l)
step_times l h = to_point-times (2 ^ l) (omega (arith, two_pow_le l h))

halved : (h : ℕ) → (if 2 * h % 2 == 0 then some (2 * h / 2) else none) ≡ some h
halved h = ground arith

module _ (n : ℕ) (lo : 1 ≤ n) (hi : n ≤ 30) where
  doubled_step : 2 ^ (31 - n) ≡ 2 * 2 ^ (30 - n)
  doubled_step =
      ap (λ (t : ℕ). 2 ^ t) {x = 31 - n} {y = suc (30 - n)} (omega arith) ∙ two_pow-suc (30 - n)

  half_step : half (2 ^ (31 - n)) ≡ some (2 ^ (30 - n))
  unfolding half
  half_step = rw doubled_step (halved (2 ^ (30 - n)))

  -- The point at which the doublings start is an odd multiple.
  moved :
      (i k : ℕ)
      → i < order
      → add (sub (at (made i n) k) (to_point i)) (to_point (2 ^ (30 - n)))
        ≡ times g (2 ^ (30 - n) * suc (k + k))
  unfolding made
  moved i k h =
      ap (λ p. add (sub p (to_point i)) (to_point (2 ^ (30 - n))))
        (at-add (made i n) (made-IsValid i n h (omega arith)) k)
      ∙ ap (λ p. add p (to_point (2 ^ (30 - n))))
          (add-sub (to_point i) (times (to_point (2 ^ (31 - n))) k)
            (to_point-OnCircle i (omega arith)))
      ∙ ap₂ (λ a b. add (times a k) b) (step_times (31 - n) (omega arith))
          (step_times (30 - n) (omega arith))
      ∙ ap (λ p. add p (times g (2 ^ (30 - n)))) (times-mul g (2 ^ (31 - n)) k)
      ∙ sym (times-add g (2 ^ (31 - n) * k) (2 ^ (30 - n)))
      ∙ ap (times g) exponent
    where
      exponent : 2 ^ (31 - n) * k + 2 ^ (30 - n) ≡ 2 ^ (30 - n) * suc (k + k)
      exponent = ap (λ t. t * k + 2 ^ (30 - n)) doubled_step ∙ regroup (2 ^ (30 - n)) k

  -- The doublings that are left end on the vertical axis.
  ends : (k : ℕ) → (repeated_double (times g (2 ^ (30 - n) * suc (k + k))) (n - 1)).x ≡ 𝟘
  ends k =
      ap (λ (p : CirclePoint M31). p.x)
        (repeated_double-times (times g (2 ^ (30 - n) * suc (k + k))) (n - 1)
          ∙ times-mul g (2 ^ (30 - n) * suc (k + k)) (2 ^ (n - 1))
          ∙ ap (times g) exponent
          ∙ sym (times-mul g (2 ^ 29) (suc (k + k))))
      ∙ odd_multiple (times g (2 ^ 29)) quarter k
    where
      powers : 2 ^ (30 - n) * 2 ^ (n - 1) ≡ 2 ^ 29
      powers =
          sym (two_pow-add (30 - n) (n - 1))
          ∙ ap (λ (t : ℕ). 2 ^ t) {x = 30 - n + (n - 1)} {y = 29} (omega arith)

      exponent : 2 ^ (30 - n) * suc (k + k) * 2 ^ (n - 1) ≡ 2 ^ 29 * suc (k + k)
      exponent =
          mul_right_comm (2 ^ (30 - n)) (suc (k + k)) (2 ^ (n - 1))
          ∙ ap (λ t. t * suc (k + k)) powers

  vanishes :
      (k : ℕ) (q : CirclePoint M31)
      → q ≡ times g (2 ^ (30 - n) * suc (k + k))
      → repeated_double_x same (n - 1) q.x ≡ 𝟘
  vanishes k q e =
      ap (λ (p : CirclePoint M31). repeated_double_x same (n - 1) p.x) e
      ∙ repeated_double_x-double (n - 1) _
          (times-OnCircle g (2 ^ (30 - n) * suc (k + k)) gen-OnCircle)
      ∙ ends k

-- On every point of a coset that `new` makes with a log size from 1 to 30, `coset_vanishing` returns
-- zero.
pub coset_vanishing-at :
    (i n k : ℕ)
    → i < order
    → 1 ≤ n
    → n ≤ 30
    → coset_vanishing same (made i n) (at (made i n) k) ≡ some 𝟘
unfolding coset_vanishing into_ef made
coset_vanishing-at i n k h lo hi =
    rw (half_step n lo hi) (ap some (vanishes n lo hi k _ (moved n lo hi i k h)))
