-- ===== src/Circle/Tests.antt =====
-- Runs of the circle group and its cosets, and the theorems about them at concrete inputs.
use stwo.Prelude.{ℕ, suc, ◌<◌, ◌≡◌, ◌≢◌, refl, arith, some, get_elem?}
use stwo.Fields.M31.Carrier.{m31_ring}
use stwo.Circle.{add as point_add, sub as point_sub, conjugate as point_conjugate, identity}
use stwo.Circle.{mul as point_mul, double_x, double as point_double}
use stwo.Prelude.{ap}
use stwo.Algebra.{◌⊕◌, ◌⊗◌, 𝟘, 𝟙}
use stwo.Fields.Cm31.{cm31_ring}
use stwo.Fields.Qm31.{Qm31, qm31_ring}
use stwo.Circle.{CirclePoint}
use stwo.Circle.Laws.{OnCircle}
use stwo.Circle.Random.{get_random_point, get_random_point-OnCircle}
use stwo.Circle.Laws.{sub_self, double_x-double}
use stwo.Circle.Multiples.{times, mul-times}
use stwo.Circle.Index.{to_point, m31_circle_gen, add, sub, neg, mul}
use stwo.Circle.Index.Order.{gen-OnCircle, order}
use stwo.Circle.Index.Points.{index_homomorphism, to_point_injective}
use stwo.Circle.Coset.{iter, collect, size, at, conjugate, shift}
use stwo.Circle.Coset.Valid.{
  IsValid, new-IsValid, double-IsValid, made, doubled, new-le, double_lem,
}
use stwo.Circle.Coset.Points.{iter-at, at-double, at-conjugate, at-shift, at_distinct}

sub_self_example : point_sub m31_circle_gen m31_circle_gen ≡ identity
sub_self_example = sub_self m31_circle_gen gen-OnCircle

double_x-double_example : double_x m31_circle_gen.x ≡ (point_double m31_circle_gen).x
double_x-double_example = double_x-double m31_circle_gen gen-OnCircle

mul-times_example : point_mul m31_circle_gen 5 ≡ times m31_circle_gen 5
mul-times_example = mul-times m31_circle_gen 5 (omega arith)

index_homomorphism_example :
    (to_point (add 2147483647 3) ≡ point_add (to_point 2147483647) (to_point 3))
    × (to_point (sub 2147483647 3) ≡ point_sub (to_point 2147483647) (to_point 3))
    × (to_point (neg 2147483647) ≡ point_conjugate (to_point 2147483647))
    × (to_point (mul 2147483647 3) ≡ times (to_point 2147483647) 3)
index_homomorphism_example = index_homomorphism 2147483647 3 (omega arith) (omega arith)

to_point_injective_example : add 3 4 ≡ 7
to_point_injective_example = to_point_injective (add 3 4) 7 sum_reduced (omega arith) same
  where
    sum_reduced : add 3 4 < order
    sum_reduced = unfold add in omega arith

    same : to_point (add 3 4) ≡ to_point 7
    same = unfold add in refl

eight-IsValid : IsValid (made 5 3)
eight-IsValid = new-IsValid 5 3 (omega arith) (new-le 5 3 (omega arith))

double-IsValid_example : IsValid (doubled (made 5 3))
double-IsValid_example =
    double-IsValid eight-IsValid (double_lem (made 5 3) (unfold made in omega arith))

iter-at_example :
    get_elem? (collect point_add (size (made 5 3)) (iter (made 5 3))) 6 ≡ some (at (made 5 3) 6)
iter-at_example = iter-at (made 5 3) eight-IsValid 6 (unfold size made in omega arith)

at_distinct_example : at (made 5 3) 2 ≢ at (made 5 3) 6
at_distinct_example =
    at_distinct 5 3 2 6 (made 5 3) (omega arith) (new-le 5 3 (omega arith))
      (unfold size made in omega arith) (unfold size made in omega arith) (omega arith)

at-double_example : at (doubled (made 5 3)) 6 ≡ point_double (at (made 5 3) 6)
at-double_example =
    at-double (made 5 3) eight-IsValid (doubled (made 5 3)) 6
      (double_lem (made 5 3) (unfold made in omega arith))

at-conjugate_example : at (conjugate (made 5 3)) 6 ≡ point_conjugate (at (made 5 3) 6)
at-conjugate_example = at-conjugate (made 5 3) eight-IsValid 6

at-shift_example : at (shift (made 5 3) 9) 6 ≡ point_add (at (made 5 3) 6) (to_point 9)
at-shift_example = at-shift (made 5 3) eight-IsValid 9 6 (omega arith)

abbrev draw : ℕ → Qm31 × ℕ
draw s = (𝟙 ⊕ 𝟙, suc s)

five_ne-zero : ◌≢◌ {A = Qm31} ((draw 0).0 ⊗ (draw 0).0 ⊕ 𝟙) 𝟘
unfolding qm31_ring cm31_ring m31_ring stwo.Fields.Extension.one stwo.Fields.Extension.zero
    stwo.Fields.Extension.add stwo.Fields.Qm31.mul stwo.Fields.Cm31.mul stwo.Fields.Qm31.r
    stwo.Fields.M31.add stwo.Fields.M31.sub stwo.Fields.M31.mul stwo.Fields.M31.partial_reduce
    stwo.Fields.M31.reduce
five_ne-zero e = let h : ◌≡◌ {A = ℕ} 5 0 = ap (λ (q : Qm31). q.0.0.0) e in absurd (omega arith)

get_random_point-OnCircle_example :
    (p : CirclePoint Qm31) × (get_random_point draw 0 ≡ some (p, 1)) × OnCircle p
get_random_point-OnCircle_example = get_random_point-OnCircle draw 0 five_ne-zero
