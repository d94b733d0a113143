-- ===== src/Fields/M31/Inverse.antt =====
-- `M31::inverse` of crates/stwo/src/core/fields/m31.rs, and the field that it makes.
use native.Mathlib.Decide.{ℕ_discrete}
use stwo.Prelude.{ℕ, ◌<◌, ◌≡◌, ◌≢◌, ap, ◌∙◌, refl, sym, arith, dec_lt}
use stwo.Algebra.{Field, ◌⊗◌, 𝟙, 𝟘}
use stwo.Fields.M31.Carrier.{M31, m31_ring, ext}
use stwo.Fields.M31.Fermat.{fermat}
use stwo.Fields.ExpOps.{pow2147483645}
use stwo.Fields.ExpOps.Powers.{npow, pow2147483645-npow}

pub pos_of_ne-zero : (a : M31) → a ≢ 𝟘 → 0 < a.0
unfolding m31_ring
pos_of_ne-zero a h = elim (dec_lt 0 a.0) [ yes pos ↦ pos | no low ↦ absurd (h (ext (omega arith))) ]

pub one_ne-zero : 𝟙 {A = M31} ≢ 𝟘
unfolding m31_ring
one_ne-zero e = omega (arith, ap (λ (t : M31). t.0) e)

npow-suc : (a : M31) (n : ℕ) → npow a (ℕ.suc n) ≡ a ⊗ npow a n
unfolding npow
npow-suc a n = refl

-- The multiplication tree of `inverse` gives the inverse of every nonzero base field element.
pub mul-pow2147483645 : (a : M31) → a ≢ 𝟘 → a ⊗ pow2147483645 a ≡ 𝟙
mul-pow2147483645 a h =
    ap (λ t. a ⊗ t) (pow2147483645-npow a)
    ∙ sym (npow-suc a 2147483645)
    ∙ fermat a (pos_of_ne-zero a h)

unfoldable pub M31-discrete : Discrete M31
unfolding ℕ_discrete
M31-discrete a b = elim (ℕ_discrete a.0 b.0) [
  | yes e ↦ yes (ext e)
  | no h ↦ no (λ e. h (ap (λ (t : M31). t.0) e))
]

instance abbrev pub m31_field : Field M31
m31_field = record {
  ring = m31_ring;
  inv = pow2147483645;
  dec_eq = M31-discrete;
  one-ne-zero = one_ne-zero;
  mul-inv = mul-pow2147483645;
}
