-- ===== src/Pcs/Verifier/Returns.antt =====
-- That `verify_values` of crates/stwo/src/core/pcs/verifier.rs ends, and what it has established when it
-- succeeds.
use mathlib.Core.Path.{subst}
use stwo.Prelude.{
  ℕ, ◌+◌, ◌^◌, ◌≤◌, ◌<◌, Option, none, some, List, ◌≡◌, refl, sym, ap, ◌∙◌, arith, length, All,
  ◌==◌,
}
use stwo.Outcome.{ok_inj, ok, err, panic, ◌>>◌, unwrap, guard, ok_or, >>=-eq-ok}
use stwo.Itertools.{Itertools}
use stwo.Circle.{CirclePoint}
use stwo.Circle.Coset.{half_odds}
use stwo.Fields.Qm31.{Qm31}
use stwo.Queries.Order.{IsAscending}
use stwo.Domain as circle_domain
use stwo.Line as line
use stwo.Merkle.{MerkleHasherLifted}
use stwo.Fri.{FriConfig, FriVerificationError, checked_sub}
use stwo.Fri.Verifier.{
  MerkleChannel, FriProof, FriVerifier, commit as fri_commit, commit_layers, check_degree,
  sample_query_positions,
}
use stwo.Fri.Verifier.Sampling.{sample_query_positions_returns}
use stwo.Pcs.TreeVec.{TreeVec, ColumnVec}
use stwo.Pcs.IndexMap.{IndexMap}
use stwo.Pcs.Verifier.{
  Verification, CommitmentSchemeProof, CommitmentSchemeVerifier, Queried, verify_commitments,
  verify_queries, verify_values,
}
use stwo.Pcs.Verifier.Accepts.{
  IsCommitted, IsAnswered, verify_commitments-IsCommitted, verify_queries-IsAnswered,
}

-- The verifier that the commitment stage of FRI returns has the configuration.
commit_config :
    {Hash : Type 0} (c : MerkleChannel Hash) (channel : c.State) (config : FriConfig)
    (proof : FriProof Hash) (column_bound : ℕ) {v : FriVerifier Hash} {channel' : c.State}
    → fri_commit c channel config proof column_bound ≡ ok (v, channel')
    → v.config ≡ config
unfolding fri_commit
commit_config {Hash} c channel config proof column_bound h =
    let (canonic, e1, h1) =
      >>=-eq-ok (unwrap (circle_domain.new (column_bound + config.log_blowup_factor))) _ h in
    let (domain, e2, h2) = >>=-eq-ok (unwrap (circle_domain.circle_domain canonic)) _ h1 in
    let (bound, e3, h3) =
      >>=-eq-ok
        (ok_or (checked_sub column_bound config.fold_step)
          FriVerificationError.invalid_num_fri_layers)
        _ h2 in
    let (odds, e4, h4) = >>=-eq-ok (unwrap (half_odds (bound + config.log_blowup_factor))) _ h3 in
    let (layer_domain, e5, h5) = >>=-eq-ok (unwrap (line.new odds)) _ h4 in
    let (done, e6, h6) =
      >>=-eq-ok (commit_layers c config 0 bound layer_domain _ proof.inner_layers) _ h5 in
    let (u, e7, h7) =
      >>=-eq-ok
        (guard (done.layer_bound == config.log_last_layer_degree_bound)
            FriVerificationError.invalid_num_fri_layers
          >> check_degree config proof.last_layer_poly)
        _ h6 in
    sym (ap (λ (p : FriVerifier Hash × c.State). p.0.config) (ok_inj h7))

module _ (it : Itertools) (im : IndexMap) (h : MerkleHasherLifted) (c : MerkleChannel h.Hash)
    (words_drawn : (channel : c.State) → 0 < length (c.draw_u32s channel).0) where
  open h use {Hash}

  -- The stages before and after the queries have succeeded, on positions of the lifting domain.
  pub record IsVerified (v : CommitmentSchemeVerifier Hash)
      (sampled_points : TreeVec (ColumnVec (List (CirclePoint Qm31))))
      (proof : CommitmentSchemeProof Hash) (channel : c.State) : Type 0 where
    pub queried : Queried it im h c
    pub commitments : IsCommitted it im h c v proof channel queried
    pub positions : List ℕ
    pub ascending : IsAscending positions
    pub in_domain : All (λ p. p < 2 ^ queried.lifting_log_size) positions
    pub fri_verifier : FriVerifier Hash
    pub channel' : c.State
    pub sampled :
        sample_query_positions c v.config.fri_config.n_queries queried.fri_verifier queried.channel
        ≡ some (positions, fri_verifier, channel')
    pub answered : IsAnswered it im h c v sampled_points proof queried positions fri_verifier

  -- If each draw of the channel yields a word and the configuration asks for at least one query, folds by
  -- at least 1 and has a blowup of at least 2, then as many draws as queries are enough for
  -- `verify_values` to end: it accepts, gives an error or panics, and never asks for more draws. If it
  -- accepts, then FRI was committed to within the degree bound of the largest tree, the work is proved, the
  -- positions are in ascending order without repetition and lie in the lifting domain, every commitment
  -- tree of positive height is opened from its queried values to its root, and FRI is decommitted on the
  -- answers from the sampled and the queried values: each of its layers in turn is opened to its
  -- commitment, if the tree of that has a positive height, and folded to the next, and what is left are
  -- values of the polynomial of the last layer.
  pub verify_values-IsVerified :
      (v : CommitmentSchemeVerifier Hash)
      (sampled_points : TreeVec (ColumnVec (List (CirclePoint Qm31))))
      (proof : CommitmentSchemeProof Hash) (channel : c.State)
      → 1 ≤ v.config.fri_config.n_queries
      → 1 ≤ v.config.fri_config.fold_step
      → 1 ≤ v.config.fri_config.log_blowup_factor
      → (result : Verification (Unit {0})) × (verify_values it im h c v.config.fri_config.n_queries
            v sampled_points proof channel
          ≡ some result)
        × (result ≡ ok tt → IsVerified v sampled_points proof channel)
  unfolding verify_values
  verify_values-IsVerified v sampled_points proof channel asks folds blown =
      staged (verify_commitments it im h c v proof channel) refl
    where
      Result : Verification (Queried it im h c) → Type 0
      Result o =
          (result : Verification (Unit {0})) × ((elim o as (λ _. Option (Verification (Unit {0}))) [
            | panic ↦ some panic
            | err reason ↦ some (err reason)
            | ok q ↦
                elim (sample_query_positions c v.config.fri_config.n_queries q.fri_verifier
                  q.channel) [
                    | none ↦ none
                    | some (positions, fri_verifier, channel') ↦
                        some
                          (verify_queries it im h c v sampled_points proof q positions fri_verifier)
                  ]
          ])
            ≡ some result)
          × (result ≡ ok tt → IsVerified v sampled_points proof channel)

      staged :
          (o : Verification (Queried it im h c))
          → verify_commitments it im h c v proof channel ≡ o
          → Result o
      staged panic e = (panic, refl, λ k. cc)
      staged (err reason) e = (err reason, refl, λ k. cc)
      staged (ok q) e =
          let committed =
            verify_commitments-IsCommitted it im h c v proof channel q folds blown e in
          let same =
            commit_config c _ v.config.fri_config proof.fri_proof committed.bound
              committed.committed in
          let (positions, fri_verifier, channel', drawn, ascending, below, kept) =
            sample_query_positions_returns c words_drawn v.config.fri_config.n_queries
              q.fri_verifier q.channel
              (omega (arith, committed.layers.first_domain, committed.layers.first_bounded))
              (rw same asks) (rw same (omega arith)) in
          (
            verify_queries it im h c v sampled_points proof q positions fri_verifier,
            rw drawn refl,
            λ k. record {
              queried = q;
              commitments = committed;
              positions = positions;
              ascending = ascending;
              in_domain =
                  subst (λ n. All (λ p. p < 2 ^ n) positions)
                    (committed.layers.first_domain ∙ committed.of_bound ∙ sym committed.height)
                    below;
              fri_verifier = fri_verifier;
              channel' = channel';
              sampled = drawn;
              answered =
                  verify_queries-IsAnswered it im h c v sampled_points proof q positions
                    fri_verifier k;
            },
          )
