-- ===== src/Fri/Verifier.antt =====
-- `FriVerifier` of crates/stwo/src/core/fri.rs: the commitment stage, the queries and the
-- decommitment stage. A call that fails leaves a channel that nothing uses, so an error comes
-- without one.
pub mod Commit
pub mod Returns
pub mod Folds
pub mod LastLayer
pub mod Sampling
mod Tests
mod DecommitTests
use stwo.Prelude.{
  ℕ, zero, suc, ◌+◌, ◌-◌, ◌^◌, Bool, true, false, leb, ltb, ◌==◌, ◌&&◌, if◌then◌else◌, Option, none,
  some, List, [], ◌∷◌, length,
}
use stwo.Outcome.{Outcome, ok, err, panic, ◌>>=◌, ◌>>◌, assert, guard, unwrap, ok_or}
use stwo.Itertools.{Itertools}
use stwo.Algebra.{Field}
use stwo.Fields.M31.Carrier.{M31, m31_ring}
use stwo.Fields.Cm31.{cm31_ring}
use stwo.Fields.Qm31.{Qm31}
use stwo.Fields.Qm31.Inverse.{qm31_field}
use stwo.Circle.Coset as coset
use stwo.Queries.{Queries, fold, draw_queries}
use stwo.Queries as queries
use stwo.Utils.{bit_reverse_index}
use stwo.Domain as circle_domain
use stwo.Domain.{CircleDomain}
use stwo.Line as line
use stwo.Line.{LineDomain, LinePoly, secure_from}
use stwo.Merkle.{MerkleHasherLifted, log_packed_leaf_size}
use stwo.Fri.{FriConfig, FriVerificationError, checked_sub, fold_bound}
use stwo.Fri.Layers.{
  FriLayerProof, FriFirstLayerVerifier, FriInnerLayerVerifier, Verified, verify, verify_and_fold,
}
use stwo.Fri.Sparse.{SparseEvaluation}
use stwo.Fri.SparseFolding.{fold_circle}

-- The calls of the channel (crates/stwo/src/core/channel/mod.rs), which stands on third-party hash
-- functions.
pub record MerkleChannel (Hash : Type 0) : Type 1 where
  pub State : Type 0
  pub mix_root : State → Hash → State
  pub mix_felts : State → List Qm31 → State
  pub draw_secure_felt : State → Qm31 × State
  pub draw_u32s : State → List ℕ × State
  pub verify_pow_nonce : State → ℕ → ℕ → Bool
  pub mix_u64 : State → ℕ → State

pub record FriProof (Hash : Type 0) : Type 0 where
  pub first_layer : FriLayerProof Hash
  pub inner_layers : List (FriLayerProof Hash)
  pub last_layer_poly : LinePoly

pub record FriVerifier (Hash : Type 0) : Type 0 where
  pub config : FriConfig
  pub first_layer : FriFirstLayerVerifier Hash
  pub inner_layers : List (FriInnerLayerVerifier Hash)
  pub last_layer_domain : LineDomain
  pub last_layer_poly : LinePoly
  pub queries : Option Queries

abbrev pub eqb : Qm31 → Qm31 → Bool
eqb x y = elim (qm31_field.dec_eq x y) [ yes e ↦ true | no ne ↦ false ]

-- The step by which an inner layer folds, given the log of its bound and whether it is the last.
unfoldable pub inner_fold_step : FriConfig → ℕ → Bool → Verified ℕ
inner_fold_step config log_degree_bound false = ok config.fold_step
inner_fold_step config log_degree_bound true = do
  res ←
      ok_or (checked_sub log_degree_bound config.log_last_layer_degree_bound)
        FriVerificationError.invalid_num_fri_layers
  guard (leb 1 res && leb res config.fold_step) FriVerificationError.invalid_num_fri_layers
  ok res

abbrev pub is_last : {A : Type 0} → List A → Bool
is_last [] = true
is_last _ = false

-- The check of the degree of the last layer. It comes after the bound of the last layer has been found
-- to be that of the configuration, so the shift by it is by less than the log size of a domain.
unfoldable pub check_degree : FriConfig → LinePoly → Verified (Unit {0})
check_degree config last_layer_poly = do
  len ← unwrap (line.len last_layer_poly)
  guard (leb len (2 ^ config.log_last_layer_degree_bound))
      FriVerificationError.last_layer_degree_invalid

module _ {Hash : Type 0} (c : MerkleChannel Hash) where
  open c use {State}

  pub record Committed : Type 0 where
    pub inner_layers : List (FriInnerLayerVerifier Hash)
    pub layer_bound : ℕ
    pub layer_domain : LineDomain
    pub channel : State

  -- The loop over the inner layers of the proof.
  unfoldable pub commit_layers :
      FriConfig → ℕ → ℕ → LineDomain → State → List (FriLayerProof Hash) → Verified Committed
  unfolding inner_fold_step
  commit_layers config layer_index layer_bound layer_domain channel [] = ok (record {
    inner_layers = [];
    layer_bound = layer_bound;
    layer_domain = layer_domain;
    channel = channel;
  })
  commit_layers config layer_index layer_bound layer_domain channel (proof ∷ proofs) =
      let channel' = c.mix_root channel proof.commitment in
      inner_fold_step config layer_bound (is_last proofs) >>= λ fold_step.
      let (folding_alpha, channel'') = c.draw_secure_felt channel' in
      let layer : FriInnerLayerVerifier Hash = record {
        domain = layer_domain;
        folding_alpha = folding_alpha;
        layer_index = layer_index;
        proof = proof;
        fold_step = fold_step;
        pack_leaves = leb log_packed_leaf_size (line.log_size layer_domain) && ltb 1 fold_step;
      } in
      ok_or (fold_bound layer_bound fold_step) FriVerificationError.invalid_num_fri_layers
      >>= λ bound. unwrap (line.repeated_double layer_domain fold_step) >>= λ domain.
          commit_layers config (suc layer_index) bound domain channel'' proofs >>= λ rest.
          ok (record rest { inner_layers = layer ∷ rest.inner_layers })

  unfoldable pub commit :
      State → FriConfig → FriProof Hash → ℕ → Verified (FriVerifier Hash × State)
  unfolding commit_layers check_degree
  commit channel config proof column_bound =
      let channel = c.mix_root channel proof.first_layer.commitment in
      unwrap (circle_domain.new (column_bound + config.log_blowup_factor)) >>= λ canonic.
      unwrap (circle_domain.circle_domain canonic) >>= λ column_commitment_domain.
      let (folding_alpha, channel) = c.draw_secure_felt channel in
      let first_layer : FriFirstLayerVerifier Hash = record {
        column_commitment_domain = column_commitment_domain;
        folding_alpha = folding_alpha;
        proof = proof.first_layer;
        fold_step = config.fold_step;
        pack_leaves =
            leb log_packed_leaf_size (circle_domain.log_size column_commitment_domain)
            && ltb 1 config.fold_step;
      } in
      ok_or (checked_sub column_bound config.fold_step) FriVerificationError.invalid_num_fri_layers
      >>= λ layer_bound.
          unwrap (coset.half_odds (layer_bound + config.log_blowup_factor)) >>= λ half_odds.
          unwrap (line.new half_odds) >>= λ layer_domain.
          commit_layers config 0 layer_bound layer_domain channel proof.inner_layers >>= λ done.
          guard (done.layer_bound == config.log_last_layer_degree_bound)
            FriVerificationError.invalid_num_fri_layers
          >> check_degree config proof.last_layer_poly
          >> ok (
            record {
              config = config;
              first_layer = first_layer;
              inner_layers = done.inner_layers;
              last_layer_domain = done.layer_domain;
              last_layer_poly = proof.last_layer_poly;
              queries = none;
            },
            c.mix_felts done.channel proof.last_layer_poly.coeffs,
          )

  -- `none`: the queries have not been drawn after `fuel` draws.
  unfoldable pub sample_query_positions :
      ℕ → FriVerifier Hash → State → Option (List ℕ × FriVerifier Hash × State)
  sample_query_positions fuel v channel =
      let log_size = circle_domain.log_size v.first_layer.column_commitment_domain in
      elim (draw_queries c.draw_u32s fuel channel log_size v.config.n_queries) [
        | none ↦ none
        | some (locations, channel') ↦
            let q = queries.new locations log_size in
            some (q.positions, record v { queries = some q }, channel')
      ]

module _ (it : Itertools) (h : MerkleHasherLifted) where
  open h use {Hash}

  unfoldable pub decommit_layers :
      List (FriInnerLayerVerifier Hash) → Queries → List Qm31 → Verified (Queries × List Qm31)
  decommit_layers [] layer_queries layer_query_evals = ok (layer_queries, layer_query_evals)
  decommit_layers (layer ∷ layers) layer_queries layer_query_evals =
      verify_and_fold it h layer layer_queries layer_query_evals >>= λ (queries', evals').
      decommit_layers layers queries' evals'

  unfoldable pub decommit_inner_layers :
      FriVerifier Hash → Queries → SparseEvaluation → Verified (Queries × List Qm31)
  unfolding decommit_layers
  decommit_inner_layers v queries first_layer_sparse_evals = do
    layer_query_evals ← unwrap (
        fold_circle it first_layer_sparse_evals v.first_layer.folding_alpha
          v.first_layer.column_commitment_domain v.config.fold_step)
    decommit_layers v.inner_layers queries layer_query_evals

  -- The loop of `decommit_last_layer`.
  unfoldable pub check_last_layer : LineDomain → LinePoly → List ℕ → List Qm31 → Verified (Unit {0})
  check_last_layer domain poly (query ∷ queries) (query_eval ∷ query_evals) = do
    let x = line.at domain (bit_reverse_index query (line.log_size domain))
    expected ← unwrap (line.eval_at_point poly (secure_from x))
    guard (eqb query_eval expected) FriVerificationError.last_layer_evaluations_invalid
    check_last_layer domain poly queries query_evals
  check_last_layer domain poly _ _ = ok tt

  unfoldable pub decommit_on_queries : FriVerifier Hash → Queries → List Qm31 → Verified (Unit {0})
  unfolding decommit_inner_layers check_last_layer
  decommit_on_queries v queries first_layer_query_evals = do
    first_layer_sparse_eval ← verify it h v.first_layer queries first_layer_query_evals
    inner_layer_queries ← unwrap (fold it queries v.config.fold_step)
    last ← decommit_inner_layers v inner_layer_queries first_layer_sparse_eval
    check_last_layer v.last_layer_domain v.last_layer_poly last.0.positions last.1

  unfoldable pub decommit : FriVerifier Hash → List Qm31 → Verified (Unit {0})
  unfolding decommit_on_queries
  decommit v first_layer_query_evals = do
    queries ← unwrap v.queries
    decommit_on_queries v queries first_layer_query_evals
