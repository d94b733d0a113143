-- ===== src/Lookups/Tests.antt =====
-- The sum-check of a linear polynomial and a constant, with numbers for the state of the channel.
use stwo.Prelude.{
  Bool, true, false, ℕ_discrete, leb, ℕ, zero, suc, ◌+◌, ◌≡◌, refl, Option, none, some, List, [],
  ◌∷◌, map,
}
use stwo.Outcome.{ok}
use stwo.Algebra.{Ring, ◌⊕◌, ◌⊖◌, ◌⊗◌, 𝟘, 𝟙}
use stwo.Fields.Cm31.{cm31_ring}
use stwo.Fields.Qm31.{Qm31, qm31_ring}
use stwo.Fields.Qm31.Inverse.{qm31_field}
use stwo.Air.{max_of}
use stwo.Fri.Verifier.{MerkleChannel}
use stwo.Lookups.{random_linear_combination}
use stwo.Lookups.Univariate.{UnivariatePoly}
use stwo.Lookups.Sumcheck.{MultivariatePolyOracle, Proved, scale_claims, prove_batch}
use stwo.Lookups.Sumcheck.Verifier.{partially_verify}
use stwo.Lookups.Sumcheck.Complete.{partially_verify-prove_batch}

abbrev small : ℕ → Qm31
small zero = 𝟘
small (suc n) = small n ⊕ 𝟙

abbrev channel : MerkleChannel ℕ
channel = record {
  State = ℕ;
  mix_root = λ s root. s + root;
  mix_felts = λ s felts. s + 1;
  draw_secure_felt = λ s. (small 3, s + 1);
  draw_u32s = λ s. (s ∷ [], s + 1);
  verify_pow_nonce = λ s bits nonce. leb bits nonce;
  mix_u64 = λ s value. s + value;
}

-- The values of a polynomial with at most one variable.
abbrev n_variables : List Qm31 → ℕ
n_variables (a ∷ b ∷ values) = 1
n_variables _ = 0

abbrev sum_as_poly : List Qm31 → UnivariatePoly Qm31
sum_as_poly (a ∷ b ∷ values) = a ∷ (b ⊖ a) ∷ []
sum_as_poly values = values

abbrev fix_first : List Qm31 → Qm31 → List Qm31
fix_first (a ∷ b ∷ values) t = (a ⊕ (b ⊖ a) ⊗ t) ∷ []
fix_first values t = values

abbrev oracle : MultivariatePolyOracle (List Qm31)
oracle = record {
  n_variables = n_variables;
  sum_as_poly_in_first_variable = λ values claim. sum_as_poly values;
  fix_first_variable = fix_first;
}

abbrev claims : List Qm31
claims = small 7 ∷ small 4 ∷ []

abbrev polys : List (List Qm31)
polys = (small 2 ∷ small 5 ∷ []) ∷ (small 4 ∷ []) ∷ []

abbrev returned : Option (Proved channel oracle) → Bool
returned none = false
returned (some r) = true

abbrev value : Option (Proved channel oracle) → Proved channel oracle
value none = record { proof = []; assignment = []; polys = []; claims = []; channel = 0 }
value (some r) = r

some-value : (o : Option (Proved channel oracle)) → returned o ≡ true → o ≡ some (value o)
some-value none h = cc
some-value (some r) h = refl

abbrev run : Option (Proved channel oracle)
run = prove_batch channel oracle claims polys (small 2) 0

abbrev proved : Proved channel oracle
proved = value run

returned_lem : returned run ≡ true
unfolding prove_batch stwo.Lookups.Sumcheck.scale_claims stwo.Lookups.Sumcheck.from_shift
    stwo.Lookups.Sumcheck.two_pow stwo.Lookups.Sumcheck.prove_rounds
    stwo.Lookups.Sumcheck.round_polys stwo.Lookups.Sumcheck.round_poly
    stwo.Lookups.Sumcheck.assert_round stwo.Lookups.Sumcheck.fix_polys
    stwo.Lookups.Sumcheck.random_linear_combination stwo.Lookups.Univariate.add
    stwo.Lookups.Univariate.scale stwo.Lookups.Univariate.new
    stwo.Lookups.Univariate.truncate_leading_zeros stwo.Lookups.Univariate.eval_at_point
    stwo.Lookups.Univariate.degree stwo.Lookups.horner_eval qm31_ring cm31_ring
    stwo.Fields.M31.Carrier.m31_ring stwo.Algebra.inverse stwo.Fields.M31.Inverse.M31-discrete
    stwo.Fields.Cm31.Inverse.Cm31-discrete stwo.Fields.Qm31.Inverse.Qm31-discrete
    stwo.Fields.M31.add stwo.Fields.M31.sub stwo.Fields.M31.mul stwo.Fields.M31.neg
    stwo.Fields.Extension.mul_base stwo.Fields.Extension.add stwo.Fields.Extension.sub
    stwo.Fields.Extension.one stwo.Fields.Extension.zero stwo.Fields.Qm31.mul stwo.Fields.Cm31.mul
    stwo.Fields.Qm31.r stwo.Fields.ExpOps.pow2147483645 stwo.Fields.ExpOps.sqn
    stwo.Fields.ExpOps.square ℕ_discrete stwo.Fields.M31.partial_reduce stwo.Fields.M31.reduce
returned_lem = refl

partially_verify-prove_batch_example :
    (n : ℕ) × (scaled : List Qm31) × (max_of (map oracle.n_variables polys) ≡ some n)
    × (scale_claims channel oracle n claims polys ≡ some scaled)
    × (partially_verify channel
          (random_linear_combination scaled (small 2))
          (record { round_polys = proved.proof })
          0
        ≡ ok (proved.assignment, random_linear_combination proved.claims (small 2), proved.channel))
partially_verify-prove_batch_example =
    partially_verify-prove_batch channel oracle claims polys (small 2) 0 proved
      (some-value run returned_lem)
