-- ===== src/Lookups/Gkr/Artifact.antt =====
-- What the partial verifier of batches (crates/stwo/src/prover/lookups/gkr_verifier.rs) has checked when it
-- succeeds.
use mathlib.Core.Path.{subst}
use stwo.Prelude.{
  suc, ◌==◌, some, List, [], ◌∷◌, map, length, ◌≡◌, refl, sym, ap, ◌∙◌, arith, ==→eq,
}
use stwo.Outcome.{ok, unwrap, guard, ok_inj, >>=-eq-ok, unwrap-eq-ok, guard-eq-ok}
use stwo.Fields.Cm31.{cm31_ring}
use stwo.Fields.Qm31.{Qm31, qm31_ring}
use stwo.Fri.Verifier.{MerkleChannel}
use stwo.Air.{max_of}
use stwo.Lookups.Gkr.Active.{active_outputs}
use stwo.Lookups.Gkr.{Gate, GkrMask, GkrError, GkrBatchProof, GkrArtifact, Instance, instances}
use stwo.Lookups.Gkr.Batch.{Layer, unwrap_claims, verify_layers, partially_verify_batch}
use stwo.Lookups.Gkr.Checked.{AllChecked, HasRounds, verify_layers-AllChecked, AllChecked-HasRounds}

length-instances :
    (gates : List Gate) (masks : List (List GkrMask)) (claims : List (List Qm31))
    → length gates ≡ length masks
    → length masks ≡ length claims
    → length (instances gates masks claims) ≡ length masks
unfolding instances
length-instances [] [] claims h k = refl
length-instances [] (m ∷ masks) claims h k = absurd (omega arith)
length-instances (g ∷ gates) [] claims h k = absurd (omega arith)
length-instances (g ∷ gates) (m ∷ masks) [] h k = absurd (omega arith)
length-instances (g ∷ gates) (m ∷ masks) (q ∷ claims) h k =
    ap (λ n. suc n) (length-instances gates masks claims (omega arith) (omega arith))

length-unwrap_claims :
    (is : List Instance) {out : List (List Qm31)}
    → unwrap_claims is ≡ ok out
    → length out ≡ length is
unfolding unwrap_claims
length-unwrap_claims [] h = ap length (sym (ok_inj h))
length-unwrap_claims (i ∷ is) h =
    let (claims, e1, h1) = >>=-eq-ok (unwrap i.claims_to_verify) _ h in
    let (rest, e2, h2) = >>=-eq-ok (unwrap_claims is) _ h1 in
    ap length (sym (ok_inj h2)) ∙ ap (λ n. suc n) (length-unwrap_claims is e2)

module _ {Hash : Type 0} (c : MerkleChannel Hash) where
  -- The layers before the first one.
  abbrev pub start : List Gate → GkrBatchProof → c.State → Layer c
  start gates proof channel = record {
    ood_point = [];
    states = instances gates proof.layer_masks_by_instance proof.output_claims_by_instance;
    channel = channel;
  }

  pub partially_verify_batch-AllChecked :
      (gates : List Gate) (proof : GkrBatchProof) (channel channel' : c.State) (a : GkrArtifact)
      → partially_verify_batch c gates proof channel ≡ ok (a, channel')
      → (last : Layer c) × AllChecked c
          (length proof.sumcheck_proofs)
          0
          proof.sumcheck_proofs
          (start gates proof channel)
          last
        × (max_of (map length proof.layer_masks_by_instance) ≡ some (length proof.sumcheck_proofs))
        × (length gates ≡ length proof.layer_masks_by_instance)
        × (length proof.layer_masks_by_instance ≡ length proof.output_claims_by_instance)
        × (channel' ≡ last.channel)
        × (unwrap_claims last.states ≡ ok a.claims_to_verify_by_instance)
        × (a.ood_point ≡ last.ood_point)
        × (length a.ood_point ≡ length proof.sumcheck_proofs)
        × HasRounds c 0 proof.sumcheck_proofs
        × (length a.claims_to_verify_by_instance ≡ length proof.layer_masks_by_instance)
        × (a.n_variables_by_instance ≡ map length proof.layer_masks_by_instance)
  unfolding partially_verify_batch
  partially_verify_batch-AllChecked gates proof channel channel' a h =
      let masks = proof.layer_masks_by_instance in
      let (u1, e1, h1) =
        >>=-eq-ok
          (guard (length masks == length proof.output_claims_by_instance) GkrError.malformed_proof)
          _ h in
      let (n, e2, h2) = >>=-eq-ok (unwrap (max_of (map length masks))) _ h1 in
      let (u3, e3, h3) =
        >>=-eq-ok (guard (n == length proof.sumcheck_proofs) GkrError.malformed_proof) _ h2 in
      let (u4, e4, h4) =
        >>=-eq-ok
          (guard (length gates == length masks)
            (GkrError.num_instances_mismatch (length gates) (length masks)))
          _ h3 in
      let (last, e5, h5) =
        >>=-eq-ok (verify_layers c n 0 proof.sumcheck_proofs (start gates proof channel)) _ h4 in
      let (claims, e6, h6) = >>=-eq-ok (unwrap_claims last.states) _ h5 in
      let same = ==→eq n (length proof.sumcheck_proofs) (guard-eq-ok _ _ e3) in
      let outputs =
        ==→eq (length masks) (length proof.output_claims_by_instance) (guard-eq-ok _ _ e1) in
      let given = ==→eq (length gates) (length masks) (guard-eq-ok _ _ e4) in
      let (checked, len) = verify_layers-AllChecked c n 0 proof.sumcheck_proofs _ last e5 in
      let artifact = ap (λ (r : GkrArtifact × c.State). r.0) (sym (ok_inj h6)) in
      let checked' =
        subst (λ k. AllChecked c k 0 proof.sumcheck_proofs (start gates proof channel) last) same
          checked in
      let largest = unwrap-eq-ok (max_of (map length masks)) e2 ∙ ap some same in
      let (rounds, len_point) =
        AllChecked-HasRounds c (length proof.sumcheck_proofs) checked'
          (active_outputs gates masks proof.output_claims_by_instance _ given outputs largest) in
      (
        last,
        checked',
        largest,
        given,
        outputs,
        ap (λ (r : GkrArtifact × c.State). r.1) (sym (ok_inj h6)),
        e6 ∙ ap (λ (r : GkrArtifact). ok r.claims_to_verify_by_instance) (sym artifact),
        ap (λ (r : GkrArtifact). r.ood_point) artifact,
        ap (λ (r : GkrArtifact). length r.ood_point) artifact ∙ len_point ∙ omega arith,
        rounds,
        ap (λ (r : GkrArtifact). length r.claims_to_verify_by_instance) artifact
            ∙ length-unwrap_claims last.states e6
            ∙ len
            ∙ length-instances gates masks proof.output_claims_by_instance given outputs,
        ap (λ (r : GkrArtifact). r.n_variables_by_instance) artifact,
      )
