-- ===== src/Fraction/Tests.antt =====
-- The sum of two fractions over the base field (crates/stwo/src/core/fraction.rs).
use stwo.Prelude.{[], ◌∷◌, ◌≡◌, ◌≢◌, ap, arith}
use stwo.Algebra.{field_ring, 𝟘, 𝟙}
use stwo.Fields.M31.Carrier.{M31, m31_ring}
use stwo.Fields.M31.Inverse.{m31_field}
use stwo.Fraction.{Fraction, sum}
use stwo.Fraction.Value.{Proper, value, total, value-sum}

abbrev three : M31
three = (3, omega arith)

three_ne-zero : three ≢ 𝟘
unfolding m31_ring
three_ne-zero e = omega (arith, ap (λ (t : M31). t.0) e)

abbrev third : Fraction M31
third = record { numerator = 𝟙; denominator = three }

thirds-Proper : Proper (third ∷ third ∷ [])
thirds-Proper =
    Proper.more third (third ∷ []) three_ne-zero (Proper.more third [] three_ne-zero Proper.empty)

value-sum_example :
    ((sum (third ∷ third ∷ [])).denominator ≢ 𝟘)
    × (value (sum (third ∷ third ∷ [])) ≡ total 𝟘 (third ∷ third ∷ []))
value-sum_example = value-sum (third ∷ third ∷ []) thirds-Proper
