-- ===== src/Lookups/Gkr/Tests.antt =====
-- The verification of a batch of one grand product of two values, with numbers for the state of the channel.
use stwo.Prelude.{
  ℕ_discrete, leb, ℕ, zero, suc, ◌+◌, Bool, true, false, [], ◌∷◌, map, length, some, ◌≡◌, refl,
}
use stwo.Outcome.{ok, err, panic}
use stwo.Algebra.{Ring, ◌⊕◌, ◌⊗◌, 𝟘, 𝟙}
use stwo.Fields.Cm31.{cm31_ring}
use stwo.Fields.Qm31.{Qm31, qm31_ring}
use stwo.Air.{max_of}
use stwo.Fri.Verifier.{MerkleChannel}
use stwo.Lookups.Gkr.{Gate, GkrBatchProof, GkrArtifact, Verified}
use stwo.Lookups.Gkr.Batch.{Layer, unwrap_claims, partially_verify_batch}
use stwo.Lookups.Gkr.Checked.{AllChecked, HasRounds}
use stwo.Lookups.Gkr.Artifact.{start, partially_verify_batch-AllChecked}

abbrev small : ℕ → Qm31
small zero = 𝟘
small (suc n) = small n ⊕ 𝟙

abbrev channel : MerkleChannel ℕ
channel = record {
  State = ℕ;
  mix_root = λ s root. s + root;
  mix_felts = λ s felts. s + 1;
  draw_secure_felt = λ s. (small 3, s + 1);
  draw_u32s = λ s. (s ∷ [], s + 1);
  verify_pow_nonce = λ s bits nonce. leb bits nonce;
  mix_u64 = λ s value. s + value;
}

abbrev proof : GkrBatchProof
proof = record {
  sumcheck_proofs = record { round_polys = [] } ∷ [];
  layer_masks_by_instance = (record { columns = (small 2, small 5) ∷ [] } ∷ []) ∷ [];
  output_claims_by_instance = (small 2 ⊗ small 5 ∷ []) ∷ [];
}

abbrev run : Verified (GkrArtifact × ℕ)
run = partially_verify_batch channel (Gate.grand_product ∷ []) proof 0

abbrev accepted : Verified (GkrArtifact × ℕ) → Bool
accepted (ok r) = true
accepted _ = false

abbrev value : Verified (GkrArtifact × ℕ) → GkrArtifact × ℕ
value (ok r) = r
value _ =
    (record { ood_point = []; claims_to_verify_by_instance = []; n_variables_by_instance = [] }, 0)

ok-value : (o : Verified (GkrArtifact × ℕ)) → accepted o ≡ true → o ≡ ok (value o)
ok-value panic h = cc
ok-value (err reason) h = cc
ok-value (ok r) h = refl

accepted_lem : accepted run ≡ true
unfolding partially_verify_batch stwo.Lookups.Gkr.Batch.verify_layers
    stwo.Lookups.Gkr.Batch.verify_layer stwo.Lookups.Gkr.Batch.mix_claims
    stwo.Lookups.Gkr.Batch.mix_masks stwo.Lookups.Gkr.Batch.reduce_claims
    stwo.Lookups.Gkr.Batch.reduce_instance stwo.Lookups.Gkr.Batch.unwrap_claims
    stwo.Lookups.Gkr.instances stwo.Lookups.Gkr.set_outputs stwo.Lookups.Gkr.mask_at
    stwo.Lookups.Gkr.sumcheck_claims stwo.Lookups.Gkr.layer_evals stwo.Lookups.Gkr.eval
    stwo.Lookups.Gkr.reduce_at_point stwo.Lookups.random_linear_combination stwo.Lookups.eq
    stwo.Lookups.eq_product stwo.Lookups.horner_eval stwo.Lookups.fold_mle_evals
    stwo.Lookups.Sumcheck.from_shift stwo.Lookups.Sumcheck.two_pow
    stwo.Lookups.Sumcheck.Verifier.verify_rounds stwo.Lookups.Sumcheck.Verifier.partially_verify
    qm31_ring cm31_ring stwo.Fields.M31.Carrier.m31_ring stwo.Algebra.inverse
    stwo.Fields.M31.Inverse.M31-discrete stwo.Fields.Cm31.Inverse.Cm31-discrete
    stwo.Fields.Qm31.Inverse.Qm31-discrete stwo.Fields.M31.add stwo.Fields.M31.sub
    stwo.Fields.M31.mul stwo.Fields.M31.neg stwo.Fields.Extension.mul_base stwo.Fields.Extension.add
    stwo.Fields.Extension.sub stwo.Fields.Extension.one stwo.Fields.Extension.zero
    stwo.Fields.Qm31.mul stwo.Fields.Cm31.mul stwo.Fields.Qm31.r stwo.Fields.ExpOps.pow2147483645
    stwo.Fields.ExpOps.sqn stwo.Fields.ExpOps.square ℕ_discrete stwo.Fields.M31.partial_reduce
    stwo.Fields.M31.reduce
accepted_lem = refl

partially_verify_batch-AllChecked_example :
    (last : Layer channel) × AllChecked channel 1 0 proof.sumcheck_proofs
      (start channel (Gate.grand_product ∷ []) proof 0)
      last
    × (max_of (map length proof.layer_masks_by_instance) ≡ some 1)
    × (1 ≡ length proof.layer_masks_by_instance)
    × (length proof.layer_masks_by_instance ≡ length proof.output_claims_by_instance)
    × ((value run).1 ≡ last.channel)
    × (unwrap_claims last.states ≡ ok (value run).0.claims_to_verify_by_instance)
    × ((value run).0.ood_point ≡ last.ood_point)
    × (length (value run).0.ood_point ≡ 1)
    × HasRounds channel 0 proof.sumcheck_proofs
    × (length (value run).0.claims_to_verify_by_instance ≡ length proof.layer_masks_by_instance)
    × ((value run).0.n_variables_by_instance ≡ map length proof.layer_masks_by_instance)
partially_verify_batch-AllChecked_example =
    partially_verify_batch-AllChecked channel (Gate.grand_product ∷ []) proof 0 (value run).1
      (value run).0 (ok-value run accepted_lem)
