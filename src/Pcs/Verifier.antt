-- ===== src/Pcs/Verifier.antt =====
-- `CommitmentSchemeVerifier` of crates/stwo/src/core/pcs/verifier.rs and the proof that it reads, from
-- quotients.rs. A subtraction below 0 panics. A call that fails leaves a channel that nothing uses.
pub mod Trees
pub mod Accepts
pub mod Returns
use stwo.Prelude.{
  ℕ, zero, suc, ◌+◌, ◌-◌, Bool, true, false, Option, none, some, List, [], ◌∷◌, ◌++◌, map,
  get_elem?,
}
use stwo.Outcome.{Outcome, ok, err, panic, ◌>>=◌, ◌>>◌, guard, unwrap, map_err}
use stwo.Itertools.{Itertools}
use stwo.Fields.M31.Carrier.{M31}
use stwo.Fields.Qm31.{Qm31}
use stwo.Circle.{CirclePoint}
use stwo.Constraints.Lines.{PointSample}
use stwo.Merkle.{
  MerkleHasherLifted, MerkleVerifierLifted, MerkleDecommitmentLifted, MerkleVerificationError,
  Checked,
}
use stwo.Merkle as merkle_verifier
use stwo.Fri.{FriVerificationError, checked_sub}
use stwo.Fri.Verifier.{
  MerkleChannel, FriProof, FriVerifier, commit as fri_commit, sample_query_positions, decommit,
}
use stwo.Pcs.{PcsConfig}
use stwo.Pcs.TreeVec.{TreeVec, ColumnVec, zip_eq, zip_cols, map_cols, flatten_cols, zip_lists}
use stwo.Pcs.TreeVec as tree_vec
use stwo.Pcs.Positions.{prepare_preprocessed_query_positions}
use stwo.Pcs.IndexMap.{IndexMap}
use stwo.Pcs.Answers.{fri_answers}

-- The errors of the verifier, crates/stwo/src/core/verifier.rs, without the text of a message.
pub data VerificationError : Type 0 where
  invalid_structure : VerificationError
  merkle : MerkleVerificationError → VerificationError
  oods_not_matching : VerificationError
  fri : FriVerificationError → VerificationError
  proof_of_work : VerificationError

abbrev pub Verification : Type 0 → Type 0
Verification A = Outcome VerificationError A

pub record CommitmentSchemeProof (Hash : Type 0) : Type 0 where
  pub config : PcsConfig
  pub commitments : TreeVec Hash
  pub sampled_values : TreeVec (ColumnVec (List Qm31))
  pub decommitments : TreeVec (MerkleDecommitmentLifted Hash)
  pub queried_values : TreeVec (ColumnVec (List M31))
  pub proof_of_work : ℕ
  pub fri_proof : FriProof Hash

pub record CommitmentSchemeVerifier (Hash : Type 0) : Type 0 where
  pub trees : TreeVec (MerkleVerifierLifted Hash)
  pub config : PcsConfig

abbrev pub last : {A : Type 0} → List A → Option A
last [] = none
last (x ∷ []) = some x
last (x ∷ y ∷ xs) = last (y ∷ xs)

unfoldable pub new : {Hash : Type 0} → PcsConfig → CommitmentSchemeVerifier Hash
new config = record { trees = []; config = config }

unfoldable pub column_log_sizes :
    {Hash : Type 0} → CommitmentSchemeVerifier Hash → TreeVec (ColumnVec ℕ)
column_log_sizes {Hash} v =
    tree_vec.map (λ (t : MerkleVerifierLifted Hash). t.column_log_sizes) v.trees

-- The positions for each tree: those of the preprocessed tree come first.
unfoldable pub query_positions_tree : {T : Type 0} → TreeVec T → List ℕ → List ℕ → TreeVec (List ℕ)
query_positions_tree [] preprocessed_query_positions query_positions = []
query_positions_tree (tree ∷ trees) preprocessed_query_positions query_positions =
    preprocessed_query_positions ∷ map (λ t. query_positions) trees

-- `collect` of results that are all computed before: the first error, unless one of them panics.
abbrev pub collect_results : {E : Type 0} → List (Outcome E (Unit {0})) → Outcome E (Unit {0})
collect_results [] = ok tt
collect_results (panic ∷ results) = panic
collect_results (ok done ∷ results) = collect_results results
collect_results (err reason ∷ results) = elim (collect_results results) [
  | panic ↦ panic
  | err later ↦ err reason
  | ok done ↦ err reason
]

-- The samples of a column: zipped, up to the shorter list.
unfoldable pub point_samples : List (CirclePoint Qm31) × List Qm31 → List PointSample
point_samples sampled =
    map (λ (s : CirclePoint Qm31 × Qm31). record { point = s.0; value = s.1 })
      (zip_lists sampled.0 sampled.1)

module _ (it : Itertools) (im : IndexMap) (h : MerkleHasherLifted) (c : MerkleChannel h.Hash) where
  open h use {Hash}

  unfoldable pub commit :
      CommitmentSchemeVerifier Hash
      → Hash
      → List ℕ
      → c.State
      → Option (CommitmentSchemeVerifier Hash × c.State)
  commit v commitment log_sizes channel =
      let channel' = c.mix_root channel commitment in
      let extended_log_sizes =
        map (λ log_size. log_size + v.config.fri_config.log_blowup_factor) log_sizes in
      elim (merkle_verifier.new commitment extended_log_sizes v.config.lifting_log_size) [
        | none ↦ none
        | some verifier ↦ some (record v { trees = v.trees ++ verifier ∷ [] }, channel')
      ]

  abbrev pub Decommitted : Type 0
  Decommitted =
      ((MerkleVerifierLifted Hash × MerkleDecommitmentLifted Hash) × List (List M31)) × List ℕ

  -- What `verify_values` keeps when FRI has been committed to and the work is proved.
  pub record Queried : Type 0 where
    pub lifting_log_size : ℕ
    pub random_coeff : Qm31
    pub fri_verifier : FriVerifier Hash
    pub channel : c.State

  -- `verify_values` up to the queries.
  unfoldable pub verify_commitments :
      CommitmentSchemeVerifier Hash → CommitmentSchemeProof Hash → c.State → Verification Queried
  verify_commitments v proof channel =
      let channel = c.mix_felts channel (flatten_cols proof.sampled_values) in
      let (random_coeff, channel) = c.draw_secure_felt channel in
      unwrap (last v.trees) >>= λ last_tree.
      unwrap (checked_sub last_tree.height v.config.fri_config.log_blowup_factor) >>= λ bound.
      map_err VerificationError.fri (fri_commit c channel v.config.fri_config proof.fri_proof bound)
      >>= λ (fri_verifier, channel).
          guard (c.verify_pow_nonce channel v.config.pow_bits proof.proof_of_work)
            VerificationError.proof_of_work
          >> ok (record {
            lifting_log_size = last_tree.height;
            random_coeff = random_coeff;
            fri_verifier = fri_verifier;
            channel = c.mix_u64 channel proof.proof_of_work;
          })

  -- The verification of the trees at the positions.
  unfoldable pub verify_trees :
      TreeVec (MerkleVerifierLifted Hash)
      → TreeVec (MerkleDecommitmentLifted Hash)
      → TreeVec (List (List M31))
      → TreeVec (List ℕ)
      → Verification (Unit {0})
  verify_trees trees decommitments queried_values positions = do
    with_decommitments ← unwrap (zip_eq it trees decommitments)
    with_values ← unwrap (zip_eq it with_decommitments queried_values)
    with_positions ← unwrap (zip_eq it with_values positions)
    let results =
        tree_vec.map (λ (t : Decommitted). merkle_verifier.verify h it t.0.0.0 t.1 t.0.1 t.0.0.1)
          with_positions
    map_err VerificationError.merkle (collect_results results)

  -- `verify_values` from the queries on.
  unfoldable pub verify_queries :
      CommitmentSchemeVerifier Hash
      → TreeVec (ColumnVec (List (CirclePoint Qm31)))
      → CommitmentSchemeProof Hash
      → Queried
      → List ℕ
      → FriVerifier Hash
      → Verification (Unit {0})
  unfolding verify_trees query_positions_tree point_samples column_log_sizes
  verify_queries v sampled_points proof q query_positions fri_verifier = do
    preprocessed ← unwrap (get_elem? v.trees 0)
    let preprocessed_query_positions =
        prepare_preprocessed_query_positions query_positions q.lifting_log_size preprocessed.height
    verify_trees v.trees proof.decommitments proof.queried_values
        (query_positions_tree v.trees preprocessed_query_positions query_positions)
    sampled ← unwrap (zip_cols it sampled_points proof.sampled_values)
    let samples = map_cols point_samples sampled
    answers ← unwrap (
        fri_answers it im (column_log_sizes v) samples q.random_coeff query_positions
          proof.queried_values q.lifting_log_size)
    map_err VerificationError.fri (decommit it h fri_verifier answers)

  -- `none`: the queries have not been drawn after `fuel` draws.
  unfoldable pub verify_values :
      ℕ
      → CommitmentSchemeVerifier Hash
      → TreeVec (ColumnVec (List (CirclePoint Qm31)))
      → CommitmentSchemeProof Hash
      → c.State
      → Option (Verification (Unit {0}))
  unfolding verify_commitments verify_queries
  verify_values fuel v sampled_points proof channel = elim (verify_commitments v proof channel) [
    | panic ↦ some panic
    | err reason ↦ some (err reason)
    | ok q ↦ elim (sample_query_positions c fuel q.fri_verifier q.channel) [
      | none ↦ none
      | some (positions, fri_verifier, channel') ↦
          some (verify_queries v sampled_points proof q positions fri_verifier)
    ]
  ]
