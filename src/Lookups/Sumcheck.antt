-- ===== src/Lookups/Sumcheck.antt =====
-- crates/stwo/src/prover/lookups/sumcheck.rs: the prover and the partial verifier of the sum-check protocol.
pub mod Verifier
pub mod Rounds
pub mod Complete
use stwo.Prelude.{
  ℕ, zero, suc, ◌+◌, ◌-◌, ◌^◌, ◌%◌, Bool, true, false, leb, ltb, ◌==◌, ◌&&◌, if◌then◌else◌, Option,
  none, some, List, [], ◌∷◌, map, length, assert, ◌>>=◌, ◌>>◌, arith,
}
use stwo.Algebra.{Ring, Field, field_ring, inverse, ◌⊕◌, ◌⊗◌, ⊝, 𝟘, 𝟙}
use stwo.Fields.M31.{p, reduce}
use stwo.Fields.M31.Carrier.{M31, m31_ring}
use stwo.Fields.M31.Inverse.{m31_field}
use stwo.Fields.Cm31.{cm31_ring}
use stwo.Fields.Qm31.{Qm31, qm31_ring}
use stwo.Fields.Qm31.Inverse.{qm31_field}
use stwo.Fft.Inverse.{by_base}
use stwo.Merkle.{maximum}
use stwo.Fri.{checked_sub}
use stwo.Fri.Verifier.{MerkleChannel, eqb}
use stwo.Pcs.TreeVec.{zip_lists, collect}
use stwo.Air.{max_of}
use stwo.Lookups.Univariate.{UnivariatePoly, new, add, scale, eval_at_point, degree}

abbrev pub max_degree : ℕ
max_degree = 3

pub record SumcheckProof : Type 0 where
  pub round_polys : List (UnivariatePoly Qm31)

pub data SumcheckError : Type 0 where
  degree_invalid : ℕ → SumcheckError
  sum_invalid : Qm31 → Qm31 → ℕ → SumcheckError

-- The trait `MultivariatePolyOracle`, for implementations that do not panic.
pub record MultivariatePolyOracle (O : Type 0) : Type 0 where
  pub n_variables : O → ℕ
  pub sum_as_poly_in_first_variable : O → Qm31 → UnivariatePoly Qm31
  pub fix_first_variable : O → Qm31 → O

unfoldable pub random_linear_combination : List (UnivariatePoly Qm31) → Qm31 → UnivariatePoly Qm31
random_linear_combination [] alpha = []
random_linear_combination (poly ∷ polys) alpha =
    add (scale (random_linear_combination polys alpha) alpha) poly

unfoldable pub two_pow : ℕ → M31
two_pow zero = 𝟙
two_pow (suc n) = two_pow n ⊕ two_pow n

-- `BaseField::from(1 << n)` on an `i32`: the shift by 31 is the least of them, which `from` takes to -1, and
-- a larger shift overflows.
unfoldable pub from_shift : ℕ → Option M31
unfolding two_pow
from_shift n = if ltb n 31 then some (two_pow n) else if n == 31 then some (⊝ 𝟙) else none

-- The assertions on the polynomial of a round.
unfoldable pub assert_round : UnivariatePoly Qm31 → Qm31 → Option (UnivariatePoly Qm31)
assert_round p claim =
    assert (eqb (eval_at_point p 𝟘 ⊕ eval_at_point p 𝟙) claim)
    >> assert (leb (degree p) max_degree)
    >> some p

module _ {Hash O : Type 0} (c : MerkleChannel Hash) (g : MultivariatePolyOracle O) where
  -- Claims for the sum over all variables of the protocol.
  unfoldable pub scale_claims : ℕ → List Qm31 → List O → Option (List Qm31)
  unfolding from_shift
  scale_claims n_variables (claim ∷ claims) (poly ∷ polys) = do
    n_unused_variables ← checked_sub n_variables (g.n_variables poly)
    factor ← from_shift n_unused_variables
    rest ← scale_claims n_variables claims polys
    some (by_base claim factor ∷ rest)
  scale_claims n_variables claims _ = some claims

  -- The polynomial of a round for one of the polynomials, after its assertions.
  unfoldable pub round_poly : ℕ → O → Qm31 → Option (UnivariatePoly Qm31)
  unfolding assert_round
  round_poly n_remaining_rounds poly claim = do
    half ← inverse (two_pow 1)
    let p =
        if n_remaining_rounds == g.n_variables poly
        then g.sum_as_poly_in_first_variable poly claim
        else new (by_base claim half ∷ [])
    assert_round p claim

  unfoldable pub round_polys : ℕ → List O → List Qm31 → Option (List (UnivariatePoly Qm31))
  unfolding round_poly
  round_polys n_remaining_rounds (poly ∷ polys) (claim ∷ claims) = do
    first ← round_poly n_remaining_rounds poly claim
    rest ← round_polys n_remaining_rounds polys claims
    some (first ∷ rest)
  round_polys n_remaining_rounds _ _ = some []

  unfoldable pub fix_polys : ℕ → Qm31 → List O → List O
  fix_polys n_remaining_rounds challenge polys =
      map
        (λ poly.
          if n_remaining_rounds == g.n_variables poly
          then g.fix_first_variable poly challenge
          else poly)
        polys

  pub record Proved : Type 0 where
    pub proof : List (UnivariatePoly Qm31)
    pub assignment : List Qm31
    pub polys : List O
    pub claims : List Qm31
    pub channel : c.State

  -- The rounds that remain.
  unfoldable pub prove_rounds : ℕ → List Qm31 → List O → Qm31 → c.State → Option Proved
  unfolding round_polys fix_polys random_linear_combination
  prove_rounds zero claims polys lambda channel =
      some
        (record { proof = []; assignment = []; polys = polys; claims = claims; channel = channel })
  prove_rounds (suc n) claims polys lambda channel = do
    this_round_polys ← round_polys (suc n) polys claims
    let combined = random_linear_combination this_round_polys lambda
    let drawn = c.draw_secure_felt (c.mix_felts channel combined)
    let challenge = drawn.0
    rest ←
        prove_rounds n (map (λ p. eval_at_point p challenge) this_round_polys)
          (fix_polys (suc n) challenge polys) lambda drawn.1
    some (record rest { proof = combined ∷ rest.proof; assignment = challenge ∷ rest.assignment })

  unfoldable pub prove_batch : List Qm31 → List O → Qm31 → c.State → Option Proved
  unfolding scale_claims prove_rounds
  prove_batch claims multivariate_polys lambda channel = do
    n_variables ← max_of (map g.n_variables multivariate_polys)
    assert (length claims == length multivariate_polys)
    claims ← scale_claims n_variables claims multivariate_polys
    prove_rounds n_variables claims multivariate_polys lambda channel
