-- ===== src/Fft/Tests.antt =====
-- The butterflies of crates/stwo/src/core/fft.rs at a concrete twiddle.
use stwo.Prelude.{◌≡◌, refl, arith}
use stwo.Algebra.{field_ring, ◌⊕◌, ◌⊗◌, 𝟙}
use stwo.Fields.M31.{mul as m31_mul, reduce}
use stwo.Fields.M31.Carrier.{M31, m31_ring, ext}
use stwo.Fields.Qm31.{Qm31, qm31_ring}
use stwo.Fft.{butterfly, ibutterfly}
use stwo.Fft.Inverse.{by_base, ibutterfly-butterfly}

-- 2 and its inverse.
abbrev twid : M31
twid = (2, omega arith)

abbrev itwid : M31
itwid = (1073741824, omega arith)

twiddles : twid ⊗ itwid ≡ 𝟙
unfolding m31_ring m31_mul reduce
twiddles = ext refl

ibutterfly-butterfly_example :
    ((v : M31 × M31)
      → ibutterfly (λ x y. x ⊗ y) (butterfly (λ x y. x ⊗ y) v twid) itwid ≡ (v.0 ⊕ v.0, v.1 ⊕ v.1))
    × ((v : Qm31 × Qm31)
        → ibutterfly by_base (butterfly by_base v twid) itwid ≡ (v.0 ⊕ v.0, v.1 ⊕ v.1))
ibutterfly-butterfly_example = ibutterfly-butterfly twid itwid twiddles
