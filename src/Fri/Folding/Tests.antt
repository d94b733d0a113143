-- ===== src/Fri/Folding/Tests.antt =====
-- The doubling of a coset, and `fold_line` (crates/stwo/src/core/fri.rs) on the values of a polynomial with two coefficients.
use stwo.Prelude.{◌-◌, ◌^◌, ◌≡◌, refl, some, List, [], ◌∷◌, ◌++◌, arith}
use stwo.Itertools.Reference.{reference}
use stwo.Algebra.{𝟙}
use stwo.Fields.M31.Carrier.{M31}
use stwo.Fields.Qm31.{Qm31, qm31_ring}
use stwo.Circle.Coset.{half_odds, new, double as coset_double}
use stwo.Line.Doubling.{double-half_odds}
use stwo.Circle.Index.{subgroup_gen}
use stwo.Circle.Coset.Valid.{made}
use stwo.Poly.Values.{combine}
use stwo.Line.{LineDomain, double}
use stwo.Fri.Folding.{fold_line}
use stwo.Fri.Folding.Evaluations.{evaluations}
use stwo.Fri.Folding.Polynomials.{Evaluates, fold_line-eval_at_point}

abbrev four_points : LineDomain
four_points = record { coset = made (2 ^ 27) 2 }

four_points_lem : half_odds 2 ≡ some four_points.coset
unfolding half_odds new subgroup_gen made
four_points_lem = refl

abbrev ones : List Qm31
ones = 𝟙 ∷ []

fold_line-eval_at_point_example :
    (f g : M31 → Qm31) × (d' : LineDomain) × Evaluates
      (record { coeffs = ones ++ ones; log_size = 1 })
      f
    × Evaluates (record { coeffs = combine 𝟙 ones ones; log_size = 0 }) g
    × (double four_points ≡ some d')
    × (fold_line reference (evaluations f four_points) four_points 𝟙 ≡ some (d', evaluations g d'))
fold_line-eval_at_point_example =
    fold_line-eval_at_point reference 2 four_points 0 ones ones 𝟙 (omega arith) (omega arith)
      four_points_lem refl refl

double-half_odds_example : coset_double four_points.coset ≡ half_odds (2 - 1)
double-half_odds_example = double-half_odds 2 (omega arith) (omega arith) four_points_lem
