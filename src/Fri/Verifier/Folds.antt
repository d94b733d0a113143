-- ===== src/Fri/Verifier/Folds.antt =====
-- What the verifications of the layers of FRI (crates/stwo/src/core/fri.rs) have checked when they
-- succeed.
use stwo.Prelude.{
  ℕ, ◌-◌, ◌*◌, ◌^◌, true, ◌==◌, none, some, List, [], ◌∷◌, replicate, ◌≡◌, refl, ap, ◌∙◌, ==→eq,
}
use mathlib.Core.Path.{subst}
use stwo.Outcome.{ok, assert, guard, unwrap, map_err, >>=-eq-ok, unwrap-eq-ok, guard-eq-ok}
use stwo.Outcome.{assert-eq-ok, ok_inj, map_err-eq-ok}
use stwo.Itertools.{Itertools}
use stwo.Fields.M31.Carrier.{M31}
use stwo.Fields.Qm31.{Qm31}
use stwo.Queries.{Queries, fold}
use stwo.Domain as circle_domain
use stwo.Line as line
use stwo.Merkle.{MerkleHasherLifted, MerkleVerifierLifted}
use stwo.Merkle as merkle
use stwo.Merkle.Accepts.{Opened, verify-Opened}
use stwo.Fri.{FriVerificationError}
use stwo.Fri.Sparse.{
  SparseEvaluation, compute_decommitment_positions_and_rebuild_evals,
  build_merkle_verification_inputs,
}
use stwo.Fri.SparseFolding.{fold_line}
use stwo.Fri.Layers.{
  FriLayerProof, FriFirstLayerVerifier, FriInnerLayerVerifier, flatten, consumed, leaf_log_size,
  verify_commitment, verify, verify_and_fold,
}
use stwo.Fri.Verifier.{decommit_layers}

consumed-eq-true : (witness : List Qm31) → consumed witness ≡ true → witness ≡ []
consumed-eq-true [] e = refl
consumed-eq-true (w ∷ witness) e = cc

module _ (it : Itertools) (h : MerkleHasherLifted) where
  open h use {Hash}

  -- A layer of 2 ^ log_size values is rebuilt from the evaluations at the queries and the whole witness
  -- of the proof, and the tree of its commitment is opened at the rebuilt values.
  pub record IsRebuilt (log_size leaf_log fold_step : ℕ) (proof : FriLayerProof Hash)
      (queries : Queries) (evals : List Qm31) (sparse : SparseEvaluation) : Type 0 where
    pub same_domain : queries.log_domain_size ≡ log_size
    pub positions : List ℕ
    pub rebuilt :
        compute_decommitment_positions_and_rebuild_evals queries evals proof.fri_witness fold_step
        ≡ ok (positions, sparse, [])
    pub leaf_positions : List ℕ
    pub values : List (List M31)
    pub of_leaves :
        build_merkle_verification_inputs it positions (flatten sparse.subset_evals) leaf_log
        ≡ some (leaf_positions, values)
    pub tree : MerkleVerifierLifted Hash
    pub of_commitment :
        merkle.new proof.commitment (replicate (4 * 2 ^ leaf_log) (log_size - leaf_log)) none
        ≡ some tree
    pub opened : Opened h it tree leaf_positions values proof.decommitment

  module _ (log_size leaf_log fold_step : ℕ) (proof : FriLayerProof Hash) (queries : Queries)
      (evals : List Qm31) where
    -- The facts that both kinds of layers check.
    inputs-IsRebuilt :
        {rebuilt : List ℕ × SparseEvaluation × List Qm31} {inputs : List ℕ × List (List M31)}
        → (queries.log_domain_size == log_size) ≡ true
        → compute_decommitment_positions_and_rebuild_evals queries evals proof.fri_witness fold_step
          ≡ ok rebuilt
        → consumed rebuilt.2 ≡ true
        → build_merkle_verification_inputs it rebuilt.0 (flatten rebuilt.1.subset_evals) leaf_log
          ≡ some inputs
        → verify_commitment it h log_size leaf_log proof inputs.0 inputs.1 ≡ ok tt
        → IsRebuilt log_size leaf_log fold_step proof queries evals rebuilt.1
    unfolding verify_commitment
    inputs-IsRebuilt {rebuilt} {inputs} domain e1 used e2 e3 =
        let (tree, e4, h4) =
          >>=-eq-ok
            (unwrap (
              merkle.new proof.commitment (replicate (4 * 2 ^ leaf_log) (log_size - leaf_log))
                none))
            _ e3 in
        record {
          same_domain = ==→eq queries.log_domain_size log_size domain;
          positions = rebuilt.0;
          rebuilt = e1 ∙ ap (λ w. ok (rebuilt.0, rebuilt.1, w)) (consumed-eq-true rebuilt.2 used);
          leaf_positions = inputs.0;
          values = inputs.1;
          of_leaves = e2;
          tree = tree;
          of_commitment = unwrap-eq-ok _ e4;
          opened = verify-Opened h it tree inputs.0 inputs.1 proof.decommitment h4;
        }

  abbrev pub FirstRebuilt :
      FriFirstLayerVerifier Hash → Queries → List Qm31 → SparseEvaluation → Type 0
  FirstRebuilt layer queries evals sparse =
      IsRebuilt (circle_domain.log_size layer.column_commitment_domain)
        (leaf_log_size layer.pack_leaves) layer.fold_step layer.proof queries evals sparse

  pub verify-FirstRebuilt :
      (layer : FriFirstLayerVerifier Hash) (queries : Queries) (evals : List Qm31)
      {sparse : SparseEvaluation}
      → verify it h layer queries evals ≡ ok sparse
      → FirstRebuilt layer queries evals sparse
  unfolding verify
  verify-FirstRebuilt layer queries evals e =
      let size = circle_domain.log_size layer.column_commitment_domain in
      let leaf_log = leaf_log_size layer.pack_leaves in
      let (u1, e1, h1) = >>=-eq-ok (assert (queries.log_domain_size == size)) _ e in
      let (rebuilt, e2, h2) =
        >>=-eq-ok
          (map_err (λ e. FriVerificationError.first_layer_evaluations_invalid)
            (compute_decommitment_positions_and_rebuild_evals queries evals layer.proof.fri_witness
              layer.fold_step))
          _ h1 in
      let (inputs, e3, h3) =
        >>=-eq-ok
          (unwrap (
            build_merkle_verification_inputs it rebuilt.0 (flatten rebuilt.1.subset_evals)
              leaf_log))
          _ h2 in
      let (u4, e4, h4) =
        >>=-eq-ok (guard (consumed rebuilt.2) FriVerificationError.first_layer_evaluations_invalid)
          _ h3 in
      let (u5, e5, h5) =
        >>=-eq-ok
          (map_err FriVerificationError.first_layer_commitment_invalid
            (verify_commitment it h size leaf_log layer.proof inputs.0 inputs.1))
          _ h4 in
      subst (FirstRebuilt layer queries evals) (ok_inj h5) (
        inputs-IsRebuilt size leaf_log layer.fold_step layer.proof queries evals (assert-eq-ok _ e1)
          (map_err-eq-ok _ _ e2) (guard-eq-ok _ _ e4) (unwrap-eq-ok _ e3) (map_err-eq-ok _ _ e5))

  -- An inner layer takes the evaluations at the queries to those at the folded queries.
  pub record IsFolded (layer : FriInnerLayerVerifier Hash) (queries : Queries) (evals : List Qm31)
      (folded_queries : Queries) (folded_evals : List Qm31) : Type 0 where
    pub sparse : SparseEvaluation
    pub is_rebuilt :
        IsRebuilt
          (line.log_size layer.domain)
          (leaf_log_size layer.pack_leaves)
          layer.fold_step
          layer.proof
          queries
          evals
          sparse
    pub of_queries : fold it queries layer.fold_step ≡ some folded_queries
    pub of_evals :
        fold_line sparse layer.folding_alpha layer.domain layer.fold_step ≡ some folded_evals

  verify_and_fold-IsFolded :
      (layer : FriInnerLayerVerifier Hash) (queries : Queries) (evals : List Qm31)
      (out : Queries × List Qm31)
      → verify_and_fold it h layer queries evals ≡ ok out
      → IsFolded layer queries evals out.0 out.1
  unfolding verify_and_fold
  verify_and_fold-IsFolded layer queries evals out e =
      let size = line.log_size layer.domain in
      let leaf_log = leaf_log_size layer.pack_leaves in
      let (u1, e1, h1) = >>=-eq-ok (assert (queries.log_domain_size == size)) _ e in
      let (rebuilt, e2, h2) =
        >>=-eq-ok
          (map_err (λ e. FriVerificationError.inner_layer_evaluations_invalid layer.layer_index)
            (compute_decommitment_positions_and_rebuild_evals queries evals layer.proof.fri_witness
              layer.fold_step))
          _ h1 in
      let (u3, e3, h3) =
        >>=-eq-ok
          (guard (consumed rebuilt.2)
            (FriVerificationError.inner_layer_evaluations_invalid layer.layer_index))
          _ h2 in
      let (inputs, e4, h4) =
        >>=-eq-ok
          (unwrap (
            build_merkle_verification_inputs it rebuilt.0 (flatten rebuilt.1.subset_evals)
              leaf_log))
          _ h3 in
      let (u5, e5, h5) =
        >>=-eq-ok
          (map_err (FriVerificationError.inner_layer_commitment_invalid layer.layer_index)
            (verify_commitment it h size leaf_log layer.proof inputs.0 inputs.1))
          _ h4 in
      let (queries', e6, h6) = >>=-eq-ok (unwrap (fold it queries layer.fold_step)) _ h5 in
      let (evals', e7, h7) =
        >>=-eq-ok (unwrap (fold_line rebuilt.1 layer.folding_alpha layer.domain layer.fold_step)) _
          h6 in
      let same = ok_inj h7 in
      record {
        sparse = rebuilt.1;
        is_rebuilt =
            inputs-IsRebuilt size leaf_log layer.fold_step layer.proof queries evals
              (assert-eq-ok _ e1) (map_err-eq-ok _ _ e2) (guard-eq-ok _ _ e3) (unwrap-eq-ok _ e4)
              (map_err-eq-ok _ _ e5);
        of_queries = unwrap-eq-ok _ e6 ∙ ap (λ (p : Queries × List Qm31). some p.0) same;
        of_evals = unwrap-eq-ok _ e7 ∙ ap (λ (p : Queries × List Qm31). some p.1) same;
      }

  -- The layers, each on the queries and the evaluations that the layer before it has left.
  pub data AllFolded
      : List (FriInnerLayerVerifier Hash) → Queries → List Qm31 → Queries → List Qm31 → Type 0 where
    done : (queries : Queries) (evals : List Qm31) → AllFolded [] queries evals queries evals
    next :
        (layer : FriInnerLayerVerifier Hash) (layers : List (FriInnerLayerVerifier Hash))
        (queries queries' last_queries : Queries) (evals evals' last_evals : List Qm31)
        → IsFolded layer queries evals queries' evals'
        → AllFolded layers queries' evals' last_queries last_evals
        → AllFolded (layer ∷ layers) queries evals last_queries last_evals

  pub decommit_layers-AllFolded :
      (layers : List (FriInnerLayerVerifier Hash)) (queries : Queries) (evals : List Qm31)
      (last : Queries × List Qm31)
      → decommit_layers it h layers queries evals ≡ ok last
      → AllFolded layers queries evals last.0 last.1
  unfolding decommit_layers
  decommit_layers-AllFolded [] queries evals last e =
      subst (λ (p : Queries × List Qm31). AllFolded [] queries evals p.0 p.1) (ok_inj e)
        (AllFolded.done queries evals)
  decommit_layers-AllFolded (layer ∷ layers) queries evals last e =
      let ((queries', evals'), e1, h1) = >>=-eq-ok (verify_and_fold it h layer queries evals) _ e in
      AllFolded.next layer layers queries queries' last.0 evals evals' last.1
        (verify_and_fold-IsFolded layer queries evals (queries', evals') e1)
        (decommit_layers-AllFolded layers queries' evals' last h1)
