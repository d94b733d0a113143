-- ===== src/Fields/Tests.antt =====
-- Runs of the field operations, and the theorems about them at concrete inputs.
use stwo.Prelude.{◌*◌, ◌+◌, ◌-◌, ◌%◌, ◌^◌, ◌≡◌, ◌≢◌, refl, ap, arith, some, [], ◌∷◌, map}
use stwo.Algebra.{field_ring, ◌⊗◌, 𝟘, 𝟙}
use stwo.Fields.M31.{p, reduce, add, sub, neg, mul, from_usize}
use stwo.Fields.M31.Reduce.{reduce-mod, operations-mod}
use stwo.Fields.M31.Carrier.{M31, m31_ring}
use stwo.Fields.M31.Inverse.{m31_field, mul-pow2147483645}
use stwo.Fields.Cm31.{Cm31, cm31_ring}
use stwo.Fields.Cm31.Inverse.{cm31_field, mul-inv_cm31, inv as cm31_inv}
use stwo.Fields.Qm31.{Qm31, qm31_ring}
use stwo.Fields.Qm31.Inverse.{qm31_field, mul-inv_qm31, inv as qm31_inv, qm31-one_ne-zero}
use stwo.Fields.BatchInverse.{batch_inverse_classic}
use stwo.Fields.BatchInverse.Sound.{AllNonzero, batch_inverse_classic-map}
use stwo.Fields.Extension.{zero}
use stwo.Fields.ExpOps.{pow, pow2147483645, sqn}
use stwo.Fields.ExpOps.Powers.{npow, pow-npow, pow2147483645-npow}

abbrev m19 : M31
m19 = (19, omega arith)

reduce_doc : reduce (2147483647 * 2147483647 - 19) ≡ 2147483628
unfolding reduce
reduce_doc = refl

-- Past the range the result is not canonical.
from_usize_past : from_usize (2 ^ 62 - 1) ≡ p
unfolding from_usize
from_usize_past = refl

inverse_19 : (pow2147483645 m19).0 ≡ 1017229096
unfolding pow2147483645 sqn m31_ring mul
inverse_19 = refl

reduce-mod_example : reduce 4611686014132420590 ≡ 4611686014132420590 % p
reduce-mod_example = reduce-mod 4611686014132420590 (omega arith)

m19_ne-zero : m19 ≢ 𝟘
unfolding m31_ring
m19_ne-zero e = omega (arith, ap (λ (t : M31). t.0) e)

mul-pow2147483645_example : m19 ⊗ pow2147483645 m19 ≡ 𝟙
mul-pow2147483645_example = mul-pow2147483645 m19 m19_ne-zero

abbrev c19 : Cm31
c19 = ((1, omega arith), m19)

c19_ne-zero : c19 ≢ 𝟘
unfolding cm31_ring m31_ring zero
c19_ne-zero e = omega (arith, ap (λ (t : Cm31). t.0.0) e)

mul-inv_cm31_example : c19 ⊗ cm31_inv c19 ≡ 𝟙
mul-inv_cm31_example = mul-inv_cm31 c19 c19_ne-zero

abbrev q19 : Qm31
q19 = (c19, c19)

q19_ne-zero : q19 ≢ 𝟘
unfolding qm31_ring cm31_ring m31_ring zero
q19_ne-zero e = omega (arith, ap (λ (t : Qm31). t.0.0.0) e)

mul-inv_qm31_example : q19 ⊗ qm31_inv q19 ≡ 𝟙
mul-inv_qm31_example = mul-inv_qm31 q19 q19_ne-zero

pow-npow_example : pow m19 5 ≡ npow m19 5
pow-npow_example = pow-npow m19 5 (omega arith)

pow2147483645-npow_example : pow2147483645 m19 ≡ npow m19 2147483645
pow2147483645-npow_example = pow2147483645-npow m19

operations-mod_example :
    (add 2147483646 5 ≡ (2147483646 + 5) % p)
    × (sub 2147483646 5 ≡ (2147483646 + p - 5) % p)
    × (mul 2147483646 5 ≡ (2147483646 * 5) % p)
    × (neg 2147483646 ≡ (p - 2147483646) % p)
operations-mod_example = operations-mod 2147483646 5 (omega arith) (omega arith)

column-AllNonzero : AllNonzero (q19 ∷ 𝟙 ∷ q19 ∷ [])
column-AllNonzero =
    AllNonzero.more q19 _ q19_ne-zero
      (AllNonzero.more 𝟙 _ qm31-one_ne-zero (AllNonzero.more q19 [] q19_ne-zero AllNonzero.empty))

batch_inverse_classic-map_example :
    batch_inverse_classic (q19 ∷ 𝟙 ∷ q19 ∷ []) ≡ some (map qm31_inv (q19 ∷ 𝟙 ∷ q19 ∷ []))
batch_inverse_classic-map_example = batch_inverse_classic-map (q19 ∷ 𝟙 ∷ q19 ∷ []) column-AllNonzero
