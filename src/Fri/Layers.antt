-- ===== src/Fri/Layers.antt =====
-- The verifiers of single layers of crates/stwo/src/core/fri.rs.
use stwo.Prelude.{
  ℕ, ◌-◌, ◌*◌, ◌^◌, Bool, true, false, ◌==◌, if◌then◌else◌, none, List, [], ◌∷◌, ◌++◌, replicate,
}
use stwo.Outcome.{Outcome, ok, ◌>>=◌, ◌>>◌, assert, guard, unwrap, map_err}
use stwo.Itertools.{Itertools}
use stwo.Fields.M31.Carrier.{M31}
use stwo.Fields.Qm31.{Qm31}
use stwo.Queries.{Queries, fold}
use stwo.Domain as circle_domain
use stwo.Domain.{CircleDomain}
use stwo.Line as line
use stwo.Line.{LineDomain}
use stwo.Merkle.{MerkleHasherLifted, MerkleDecommitmentLifted, log_packed_leaf_size}
use stwo.Merkle as merkle
use stwo.Fri.{FriVerificationError}
use stwo.Fri.Sparse.{
  SparseEvaluation, compute_decommitment_positions_and_rebuild_evals,
  build_merkle_verification_inputs,
}
use stwo.Fri.SparseFolding.{fold_line}

pub record FriLayerProof (Hash : Type 0) : Type 0 where
  pub fri_witness : List Qm31
  pub decommitment : MerkleDecommitmentLifted Hash
  pub commitment : Hash

pub record FriFirstLayerVerifier (Hash : Type 0) : Type 0 where
  pub column_commitment_domain : CircleDomain
  pub folding_alpha : Qm31
  pub proof : FriLayerProof Hash
  pub fold_step : ℕ
  pub pack_leaves : Bool

pub record FriInnerLayerVerifier (Hash : Type 0) : Type 0 where
  pub domain : LineDomain
  pub folding_alpha : Qm31
  pub layer_index : ℕ
  pub proof : FriLayerProof Hash
  pub fold_step : ℕ
  pub pack_leaves : Bool

abbrev pub Verified : Type 0 → Type 0
Verified A = Outcome FriVerificationError A

abbrev pub flatten : List (List Qm31) → List Qm31
flatten [] = []
flatten (evals ∷ rest) = evals ++ flatten rest

abbrev pub consumed : List Qm31 → Bool
consumed [] = true
consumed _ = false

abbrev pub leaf_log_size : Bool → ℕ
leaf_log_size pack_leaves = if pack_leaves then log_packed_leaf_size else 0

module _ (it : Itertools) (h : MerkleHasherLifted) where
  open h use {Hash}

  -- The Merkle verification of a layer of 2 ^ log_size values.
  unfoldable pub verify_commitment :
      ℕ
      → ℕ
      → FriLayerProof Hash
      → List ℕ
      → List (List M31)
      → Outcome merkle.MerkleVerificationError (Unit {0})
  verify_commitment log_size leaf_log proof positions decommitted_values = do
    v ←
        unwrap
          (merkle.new proof.commitment (replicate (4 * 2 ^ leaf_log) (log_size - leaf_log)) none)
    merkle.verify h it v positions decommitted_values proof.decommitment

  unfoldable pub verify :
      FriFirstLayerVerifier Hash → Queries → List Qm31 → Verified SparseEvaluation
  unfolding verify_commitment
  verify layer queries column_query_evals = do
    let column_log_size = circle_domain.log_size layer.column_commitment_domain
    assert (queries.log_domain_size == column_log_size)
    rebuilt ←
        map_err (λ e. FriVerificationError.first_layer_evaluations_invalid)
          (compute_decommitment_positions_and_rebuild_evals queries column_query_evals
            layer.proof.fri_witness layer.fold_step)
    inputs ← unwrap (
        build_merkle_verification_inputs it rebuilt.0 (flatten rebuilt.1.subset_evals)
          (leaf_log_size layer.pack_leaves))
    guard (consumed rebuilt.2) FriVerificationError.first_layer_evaluations_invalid
    map_err FriVerificationError.first_layer_commitment_invalid (
        verify_commitment column_log_size (leaf_log_size layer.pack_leaves) layer.proof inputs.0
          inputs.1)
    ok rebuilt.1

  unfoldable pub verify_and_fold :
      FriInnerLayerVerifier Hash → Queries → List Qm31 → Verified (Queries × List Qm31)
  unfolding verify_commitment
  verify_and_fold layer queries evals_at_queries = do
    assert (queries.log_domain_size == line.log_size layer.domain)
    rebuilt ←
        map_err (λ e. FriVerificationError.inner_layer_evaluations_invalid layer.layer_index)
          (compute_decommitment_positions_and_rebuild_evals queries evals_at_queries
            layer.proof.fri_witness layer.fold_step)
    guard (consumed rebuilt.2)
        (FriVerificationError.inner_layer_evaluations_invalid layer.layer_index)
    inputs ← unwrap (
        build_merkle_verification_inputs it rebuilt.0 (flatten rebuilt.1.subset_evals)
          (leaf_log_size layer.pack_leaves))
    map_err (FriVerificationError.inner_layer_commitment_invalid layer.layer_index) (
        verify_commitment (line.log_size layer.domain) (leaf_log_size layer.pack_leaves) layer.proof
          inputs.0 inputs.1)
    folded_queries ← unwrap (fold it queries layer.fold_step)
    folded_evals ← unwrap (fold_line rebuilt.1 layer.folding_alpha layer.domain layer.fold_step)
    ok (folded_queries, folded_evals)
