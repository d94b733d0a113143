-- ===== src/Lookups/Gkr/Batch.antt =====
-- `partially_verify_batch` of crates/stwo/src/prover/lookups/gkr_verifier.rs: the layers from the output on.
use stwo.Prelude.{ℕ, suc, ◌-◌, ◌==◌, none, some, List, [], ◌∷◌, ◌++◌, map, length}
use stwo.Outcome.{ok, ◌>>=◌, ◌>>◌, guard, unwrap, map_err}
use stwo.Fields.Cm31.{cm31_ring}
use stwo.Fields.Qm31.{Qm31, qm31_ring}
use stwo.Fri.Verifier.{MerkleChannel, eqb}
use stwo.Air.{max_of}
use stwo.Lookups.{random_linear_combination}
use stwo.Lookups.Sumcheck.{SumcheckProof}
use stwo.Lookups.Sumcheck.Verifier.{partially_verify}
use stwo.Lookups.Gkr.{
  Gate, GkrMask, GkrError, GkrBatchProof, GkrArtifact, Instance, Verified, instances, set_outputs,
  mask_at, reduce_at_point, sumcheck_claims, layer_evals,
}

abbrev pub flatten : List (Qm31 × Qm31) → List Qm31
flatten [] = []
flatten (c ∷ columns) = c.0 ∷ c.1 ∷ flatten columns

-- The claims of an instance in the layer above.
unfoldable pub reduce_instance : ℕ → ℕ → Qm31 → Instance → Verified Instance
unfolding mask_at
reduce_instance n_layers layer challenge i = elim i.claims_to_verify [
  | none ↦ ok i
  | some claims ↦ do
    mask ← unwrap (mask_at n_layers layer i)
    ok (record i { claims_to_verify = some (reduce_at_point mask challenge) })
]

unfoldable pub reduce_claims : ℕ → ℕ → Qm31 → List Instance → Verified (List Instance)
unfolding reduce_instance
reduce_claims n_layers layer challenge [] = ok []
reduce_claims n_layers layer challenge (i ∷ is) = do
  first ← reduce_instance n_layers layer challenge i
  rest ← reduce_claims n_layers layer challenge is
  ok (first ∷ rest)

-- `unwrap` of the claims of all instances.
unfoldable pub unwrap_claims : List Instance → Verified (List (List Qm31))
unwrap_claims [] = ok []
unwrap_claims (i ∷ is) = do
  claims ← unwrap i.claims_to_verify
  rest ← unwrap_claims is
  ok (claims ∷ rest)

module _ {Hash : Type 0} (c : MerkleChannel Hash) where
  unfoldable pub mix_claims : List Instance → c.State → c.State
  mix_claims [] channel = channel
  mix_claims (i ∷ is) channel = elim i.claims_to_verify [
    | none ↦ mix_claims is channel
    | some claims ↦ mix_claims is (c.mix_felts channel claims)
  ]

  unfoldable pub mix_masks : ℕ → ℕ → List Instance → c.State → Verified c.State
  unfolding mask_at
  mix_masks n_layers layer [] channel = ok channel
  mix_masks n_layers layer (i ∷ is) channel = elim i.claims_to_verify [
    | none ↦ mix_masks n_layers layer is channel
    | some claims ↦ do
      mask ← unwrap (mask_at n_layers layer i)
      mix_masks n_layers layer is (c.mix_felts channel (flatten mask.columns))
  ]

  pub record Layer : Type 0 where
    pub ood_point : List Qm31
    pub states : List Instance
    pub channel : c.State

  -- One layer of the batch.
  unfoldable pub verify_layer : ℕ → ℕ → SumcheckProof → Layer → Verified Layer
  unfolding set_outputs mix_claims mix_masks reduce_claims
  verify_layer n_layers layer sumcheck_proof s =
      let all = set_outputs (n_layers - layer) s.states in
      let (sumcheck_alpha, channel) = c.draw_secure_felt (mix_claims all s.channel) in
      let (instance_lambda, channel) = c.draw_secure_felt channel in
      sumcheck_claims n_layers instance_lambda all >>= λ claims.
      map_err (GkrError.invalid_sumcheck layer) (
        partially_verify c (random_linear_combination claims sumcheck_alpha) sumcheck_proof channel)
      >>= λ (sumcheck_ood_point, sumcheck_eval, channel).
          layer_evals all n_layers layer instance_lambda s.ood_point sumcheck_ood_point 0 all
          >>= λ evals.
              let layer_eval = random_linear_combination evals sumcheck_alpha in
              guard (eqb sumcheck_eval layer_eval)
                (GkrError.circuit_check_failure sumcheck_eval layer_eval layer)
              >> (mix_masks n_layers layer all channel >>= λ channel.
                  let (challenge, channel) = c.draw_secure_felt channel in
                  reduce_claims n_layers layer challenge all >>= λ states. ok (record {
                    ood_point = sumcheck_ood_point ++ challenge ∷ [];
                    states = states;
                    channel = channel;
                  }))

  unfoldable pub verify_layers : ℕ → ℕ → List SumcheckProof → Layer → Verified Layer
  unfolding verify_layer
  verify_layers n_layers layer [] s = ok s
  verify_layers n_layers layer (sumcheck_proof ∷ proofs) s =
      verify_layer n_layers layer sumcheck_proof s >>= λ s'.
      verify_layers n_layers (suc layer) proofs s'

  unfoldable pub partially_verify_batch :
      List Gate → GkrBatchProof → c.State → Verified (GkrArtifact × c.State)
  unfolding verify_layers unwrap_claims
  partially_verify_batch gate_by_instance proof channel = do
    let n_instances = length proof.layer_masks_by_instance
    guard (n_instances == length proof.output_claims_by_instance) GkrError.malformed_proof
    let n_variables = map (λ (masks : List GkrMask). length masks) proof.layer_masks_by_instance
    n_layers ← unwrap (max_of n_variables)
    guard (n_layers == length proof.sumcheck_proofs) GkrError.malformed_proof
    guard (length gate_by_instance == n_instances)
        (GkrError.num_instances_mismatch (length gate_by_instance) n_instances)
    last ← verify_layers n_layers 0 proof.sumcheck_proofs (record {
      ood_point = [];
      states =
          instances gate_by_instance proof.layer_masks_by_instance proof.output_claims_by_instance;
      channel = channel;
    })
    claims ← unwrap_claims last.states
    ok (
      record {
        ood_point = last.ood_point;
        claims_to_verify_by_instance = claims;
        n_variables_by_instance = n_variables;
      },
      last.channel,
    )
