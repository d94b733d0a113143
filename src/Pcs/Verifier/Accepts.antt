-- ===== src/Pcs/Verifier/Accepts.antt =====
-- What `verify_values` of crates/stwo/src/core/pcs/verifier.rs has established when it succeeds.
use mathlib.Core.Path.{subst}
use stwo.Prelude.{ℕ, ◌+◌, ◌≤◌, true, some, List, ◌≡◌, refl, get_elem?}
use stwo.Outcome.{
  map_err-eq-ok, ok_inj, ok, unwrap, guard, map_err, >>=-eq-ok, unwrap-eq-ok, guard-eq-ok,
}
use stwo.Itertools.{Itertools}
use stwo.Fields.Qm31.{Qm31}
use stwo.Circle.{CirclePoint}
use stwo.Merkle.{MerkleHasherLifted, MerkleVerifierLifted}
use stwo.Fri.{checked_sub}
use stwo.Fri.Verifier.{MerkleChannel, FriVerifier, commit as fri_commit}
use stwo.Fri.Verifier.Commit.{Accepted, commit-Accepted, checked_sub-eq-some}
use stwo.Fri.Verifier.LastLayer.{IsDecommitted, decommit-AgreeAt}
use stwo.Pcs.TreeVec.{TreeVec, ColumnVec, zip_cols, map_cols, flatten_cols}
use stwo.Pcs.Positions.{prepare_preprocessed_query_positions}
use stwo.Pcs.IndexMap.{IndexMap}
use stwo.Pcs.Answers.{fri_answers}
use stwo.Pcs.Verifier.{
  VerificationError, CommitmentSchemeProof, CommitmentSchemeVerifier, last, Queried,
  column_log_sizes, query_positions_tree, point_samples, verify_commitments, verify_trees,
  verify_queries,
}
use stwo.Pcs.Verifier.Trees.{Authenticated, verify_trees-Authenticated}

module _ (it : Itertools) (im : IndexMap) (h : MerkleHasherLifted) (c : MerkleChannel h.Hash) where
  open h use {Hash}

  -- The channel after the sampled values and the random coefficient.
  abbrev pub seeded : CommitmentSchemeProof Hash → c.State → c.State
  seeded proof channel =
      (c.draw_secure_felt (c.mix_felts channel (flatten_cols proof.sampled_values))).1

  abbrev pub drawn_coeff : CommitmentSchemeProof Hash → c.State → Qm31
  drawn_coeff proof channel =
      (c.draw_secure_felt (c.mix_felts channel (flatten_cols proof.sampled_values))).0

  -- FRI is committed to with the degree bound of the largest tree, and the work is proved.
  pub record IsCommitted (v : CommitmentSchemeVerifier Hash) (proof : CommitmentSchemeProof Hash)
      (channel : c.State) (q : Queried it im h c) : Type 0 where
    pub last_tree : MerkleVerifierLifted Hash
    pub of_last : last v.trees ≡ some last_tree
    pub height : q.lifting_log_size ≡ last_tree.height
    pub coeff : q.random_coeff ≡ drawn_coeff proof channel
    pub bound : ℕ
    pub of_bound : bound + v.config.fri_config.log_blowup_factor ≡ last_tree.height
    pub layers : Accepted v.config.fri_config proof.fri_proof bound q.fri_verifier
    pub fri_channel : c.State
    pub committed :
        fri_commit c (seeded proof channel) v.config.fri_config proof.fri_proof bound
        ≡ ok (q.fri_verifier, fri_channel)
    pub worked : c.verify_pow_nonce fri_channel v.config.pow_bits proof.proof_of_work ≡ true
    pub mixed : q.channel ≡ c.mix_u64 fri_channel proof.proof_of_work

  pub verify_commitments-IsCommitted :
      (v : CommitmentSchemeVerifier Hash) (proof : CommitmentSchemeProof Hash) (channel : c.State)
      (q : Queried it im h c)
      → 1 ≤ v.config.fri_config.fold_step
      → 1 ≤ v.config.fri_config.log_blowup_factor
      → verify_commitments it im h c v proof channel ≡ ok q
      → IsCommitted v proof channel q
  unfolding verify_commitments
  verify_commitments-IsCommitted v proof channel q folds blown e =
      let config = v.config.fri_config in
      let (last_tree, e1, h1) = >>=-eq-ok (unwrap (last v.trees)) _ e in
      let (bound, e2, h2) =
        >>=-eq-ok (unwrap (checked_sub last_tree.height config.log_blowup_factor)) _ h1 in
      let ((fri_verifier, fri_channel), e3, h3) =
        >>=-eq-ok
          (map_err VerificationError.fri
            (fri_commit c (seeded proof channel) config proof.fri_proof bound))
          _ h2 in
      let (u, e4, h4) =
        >>=-eq-ok
          (guard (c.verify_pow_nonce fri_channel v.config.pow_bits proof.proof_of_work)
            VerificationError.proof_of_work)
          _ h3 in
      let same = map_err-eq-ok VerificationError.fri _ e3 in
      let sub = checked_sub-eq-some last_tree.height config.log_blowup_factor (unwrap-eq-ok _ e2) in
      subst (IsCommitted v proof channel) (ok_inj h4) (record {
        last_tree = last_tree;
        of_last = unwrap-eq-ok _ e1;
        height = refl;
        coeff = refl;
        bound = bound;
        of_bound = sub.1;
        layers =
            commit-Accepted c config folds blown (seeded proof channel) proof.fri_proof bound
              fri_verifier fri_channel same;
        fri_channel = fri_channel;
        committed = same;
        worked = guard-eq-ok _ _ e4;
        mixed = refl;
      })

  -- All trees are opened at the queries, and FRI is decommitted on the answers.
  pub record IsAnswered (v : CommitmentSchemeVerifier Hash)
      (sampled_points : TreeVec (ColumnVec (List (CirclePoint Qm31))))
      (proof : CommitmentSchemeProof Hash) (q : Queried it im h c) (positions : List ℕ)
      (fri_verifier : FriVerifier Hash) : Type 0 where
    pub preprocessed : MerkleVerifierLifted Hash
    pub of_preprocessed : get_elem? v.trees 0 ≡ some preprocessed
    pub trees : Authenticated it im h c v.trees proof.decommitments proof.queried_values (
        query_positions_tree v.trees
          (prepare_preprocessed_query_positions positions q.lifting_log_size preprocessed.height)
          positions)
    pub sampled : TreeVec (ColumnVec (List (CirclePoint Qm31) × List Qm31))
    pub of_sampled : zip_cols it sampled_points proof.sampled_values ≡ some sampled
    pub answers : List Qm31
    pub of_answers :
        fri_answers it im
          (column_log_sizes v)
          (map_cols point_samples sampled)
          q.random_coeff
          positions
          proof.queried_values
          q.lifting_log_size
        ≡ some answers
    pub decommitted : IsDecommitted it h fri_verifier answers

  pub verify_queries-IsAnswered :
      (v : CommitmentSchemeVerifier Hash)
      (sampled_points : TreeVec (ColumnVec (List (CirclePoint Qm31))))
      (proof : CommitmentSchemeProof Hash) (q : Queried it im h c) (positions : List ℕ)
      (fri_verifier : FriVerifier Hash)
      → verify_queries it im h c v sampled_points proof q positions fri_verifier ≡ ok tt
      → IsAnswered v sampled_points proof q positions fri_verifier
  unfolding verify_queries
  verify_queries-IsAnswered v sampled_points proof q positions fri_verifier e =
      let (preprocessed, e1, h1) = >>=-eq-ok (unwrap (get_elem? v.trees 0)) _ e in
      let (u, e2, h2) =
        >>=-eq-ok
          (verify_trees it im h c v.trees proof.decommitments proof.queried_values (
            query_positions_tree v.trees
              (prepare_preprocessed_query_positions positions q.lifting_log_size
                preprocessed.height)
              positions))
          _ h1 in
      let (sampled, e3, h3) =
        >>=-eq-ok (unwrap (zip_cols it sampled_points proof.sampled_values)) _ h2 in
      let (answers, e4, h4) =
        >>=-eq-ok
          (unwrap (
            fri_answers it im (column_log_sizes v) (map_cols point_samples sampled) q.random_coeff
              positions proof.queried_values q.lifting_log_size))
          _ h3 in
      record {
        preprocessed = preprocessed;
        of_preprocessed = unwrap-eq-ok _ e1;
        trees = verify_trees-Authenticated it im h c _ _ _ _ e2;
        sampled = sampled;
        of_sampled = unwrap-eq-ok _ e3;
        answers = answers;
        of_answers = unwrap-eq-ok _ e4;
        decommitted =
            decommit-AgreeAt it h fri_verifier answers (map_err-eq-ok VerificationError.fri _ h4);
      }
