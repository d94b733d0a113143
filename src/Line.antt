-- ===== src/Line.antt =====
-- crates/stwo/src/core/poly/line.rs: the x-coordinates of a coset, and polynomials on them. `none`
-- is a failed assertion. A point of the base field has an order of at most 2 ^ 31, so 32 rounds of
-- `log_order` are enough.
pub mod HalfOdds
pub mod Pairs
pub mod Evaluate
pub mod Nonzero
pub mod Doubling
use stwo.Prelude.{
  ℕ, zero, suc, ◌+◌, ◌-◌, ◌/◌, ◌^◌, Bool, leb, ltb, ◌==◌, if◌then◌else◌, Option, none, some, List,
  [], ◌∷◌, map, length, assert, ◌>>=◌, ◌>>◌,
}
use mathlib.Core.Bool.{not}
use stwo.Algebra.{Ring, Field, field_ring, is_zero}
use stwo.Fields.M31.Carrier.{M31, m31_ring}
use stwo.Fields.M31.Inverse.{m31_field}
use stwo.Fields.Qm31.{Qm31, qm31_ring}
use stwo.Fields.Cm31.{cm31_ring}
use stwo.Fields.Extension.{from}
use stwo.Circle.{CirclePoint, add as point_add, double_x, log_order}
use stwo.Circle.Coset.{Coset, collect}
use stwo.Circle.Coset as coset
use stwo.Domain.{CircleDomain}
use stwo.Poly.{fold}

-- `QM31::from` of a base field element.
abbrev pub secure_from : M31 → Qm31
secure_from x = from (from x)

pub record LineDomain : Type 0 where
  pub coset : Coset

unfoldable pub new : Coset → Option LineDomain
new c =
    let domain : LineDomain = record { coset = c } in
    if ltb (coset.size c) 2
    then some domain
    else (if coset.size c == 2
        then assert (not (is_zero c.initial.x)) >> some domain
        else log_order 32 c.initial >>= λ initial.
            log_order 32 c.step >>= λ step. assert (leb (step + 2) initial) >> some domain)

unfoldable pub at : LineDomain → ℕ → M31
at d i = (coset.at d.coset i).x

unfoldable pub size : LineDomain → ℕ
size d = coset.size d.coset

unfoldable pub log_size : LineDomain → ℕ
log_size d = d.coset.log_size

unfoldable pub iter : LineDomain → List M31
iter d =
    map (λ (p : CirclePoint M31). p.x) (collect point_add (coset.size d.coset) (coset.iter d.coset))

unfoldable pub double : LineDomain → Option LineDomain
double d = coset.double d.coset >>= λ c. some (record { coset = c })

unfoldable pub repeated_double : LineDomain → ℕ → Option LineDomain
repeated_double d n_doubles =
    coset.repeated_double d.coset n_doubles >>= λ c. some (record { coset = c })

unfoldable pub from_circle_domain : CircleDomain → LineDomain
from_circle_domain d = record { coset = d.half_coset }

-- The coefficients are in bit-reversed order.
pub record LinePoly : Type 0 where
  pub coeffs : List Qm31
  pub log_size : ℕ

-- `ilog2` of a positive number, and whether it is a power of two.
unfoldable pub ilog2 : ℕ → ℕ → ℕ
ilog2 zero n = 0
ilog2 (suc fuel) n = let rest = ilog2 fuel (n / 2) in if ltb n 2 then 0 else suc rest

unfoldable pub new_poly : List Qm31 → Option LinePoly
unfolding ilog2
new_poly coeffs = do
  assert (length coeffs == 2 ^ ilog2 64 (length coeffs))
  some (record { coeffs = coeffs; log_size = ilog2 64 (length coeffs) })

unfoldable pub doublings : ℕ → Qm31 → List Qm31
doublings zero x = []
doublings (suc n) x = x ∷ doublings n (double_x x)

unfoldable pub eval_at_point : LinePoly → Qm31 → Option Qm31
unfolding doublings
eval_at_point p x = fold (λ c. c) p.coeffs (doublings p.log_size x)

-- A `usize` has 64 bits, and shifting it by as many panics.
unfoldable pub len : LinePoly → Option ℕ
len p = do
  assert (ltb p.log_size 64)
  assert (length p.coeffs == 2 ^ p.log_size)
  some (2 ^ p.log_size)
