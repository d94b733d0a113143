-- ===== src/Lookups/Sumcheck/Verifier.antt =====
-- `partially_verify` of crates/stwo/src/prover/lookups/sumcheck.rs.
use stwo.Prelude.{ℕ, suc, leb, List, [], ◌∷◌}
use stwo.Outcome.{Outcome, ok, ◌>>=◌, ◌>>◌, guard}
use stwo.Algebra.{field_ring, ◌⊕◌, 𝟘, 𝟙}
use stwo.Fields.Cm31.{cm31_ring}
use stwo.Fields.Qm31.{Qm31, qm31_ring}
use stwo.Fields.Qm31.Inverse.{qm31_field}
use stwo.Fri.Verifier.{MerkleChannel, eqb}
use stwo.Lookups.Univariate.{UnivariatePoly, eval_at_point, degree}
use stwo.Lookups.Sumcheck.{SumcheckProof, SumcheckError, max_degree}

module _ {Hash : Type 0} (c : MerkleChannel Hash) where
  -- The rounds from the given one on: the assignment, the evaluation that is claimed and the channel.
  unfoldable pub verify_rounds :
      ℕ
      → Qm31
      → List (UnivariatePoly Qm31)
      → c.State
      → Outcome SumcheckError (List Qm31 × Qm31 × c.State)
  verify_rounds round claim [] channel = ok ([], claim, channel)
  verify_rounds round claim (round_poly ∷ polys) channel =
      let sum = eval_at_point round_poly 𝟘 ⊕ eval_at_point round_poly 𝟙 in
      let drawn = c.draw_secure_felt (c.mix_felts channel round_poly) in
      guard (leb (degree round_poly) max_degree) (SumcheckError.degree_invalid round)
      >> guard (eqb claim sum) (SumcheckError.sum_invalid claim sum round)
      >> (verify_rounds (suc round) (eval_at_point round_poly drawn.0) polys drawn.1 >>= λ rest.
          ok (drawn.0 ∷ rest.0, rest.1, rest.2))

  unfoldable pub partially_verify :
      Qm31 → SumcheckProof → c.State → Outcome SumcheckError (List Qm31 × Qm31 × c.State)
  unfolding verify_rounds
  partially_verify claim proof channel = verify_rounds 0 claim proof.round_polys channel
