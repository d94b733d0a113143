-- ===== src/Fri.antt =====
-- crates/stwo/src/core/fri.rs: the verifier of FRI. This file has its configuration and bounds. The
-- `u32` sums of log sizes are those of numbers, since a canonic coset has a log size of at most 30.
pub mod Folding
pub mod Sparse
pub mod SparseFolding
pub mod Layers
pub mod Verifier
use stwo.Prelude.{
  ℕ, ◌+◌, ◌-◌, ◌*◌, ◌^◌, Bool, leb, ltb, ◌&&◌, if◌then◌else◌, Option, none, some, assert, ◌>>=◌,
  ◌>>◌,
}
use stwo.Merkle.{MerkleVerificationError}

pub record FriConfig : Type 0 where
  pub log_blowup_factor : ℕ
  pub log_last_layer_degree_bound : ℕ
  pub n_queries : ℕ
  pub fold_step : ℕ

unfoldable pub new : ℕ → ℕ → ℕ → ℕ → Option FriConfig
new log_last_layer_degree_bound log_blowup_factor n_queries fold_step = do
  assert (leb 0 log_last_layer_degree_bound && leb log_last_layer_degree_bound 10)
  assert (leb 1 log_blowup_factor && leb log_blowup_factor 16)
  assert (ltb 0 fold_step)
  some (record {
    log_blowup_factor = log_blowup_factor;
    log_last_layer_degree_bound = log_last_layer_degree_bound;
    n_queries = n_queries;
    fold_step = fold_step;
  })

unfoldable pub last_layer_domain_size : FriConfig → ℕ
last_layer_domain_size c = 2 ^ (c.log_last_layer_degree_bound + c.log_blowup_factor)

unfoldable pub security_bits : FriConfig → ℕ
security_bits c = c.log_blowup_factor * c.n_queries

abbrev pub checked_sub : ℕ → ℕ → Option ℕ
checked_sub a b = if ltb a b then none else some (a - b)

-- `LinePolyDegreeBound::fold`, on the log of the bound.
unfoldable pub fold_bound : ℕ → ℕ → Option ℕ
fold_bound log_degree_bound n_folds =
    if ltb log_degree_bound n_folds then none else some (log_degree_bound - n_folds)

pub data FriVerificationError : Type 0 where
  invalid_num_fri_layers first_layer_evaluations_invalid : FriVerificationError
  first_layer_commitment_invalid : MerkleVerificationError → FriVerificationError
  inner_layer_commitment_invalid : ℕ → MerkleVerificationError → FriVerificationError
  inner_layer_evaluations_invalid : ℕ → FriVerificationError
  last_layer_degree_invalid last_layer_evaluations_invalid : FriVerificationError
