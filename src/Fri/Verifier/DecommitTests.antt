-- ===== src/Fri/Verifier/DecommitTests.antt =====
-- The decommitment of a constant on a circle domain of two points, with one query, no inner layer, and
-- numbers for hashes.
use stwo.Prelude.{
  leb, ℕ, ◌+◌, ◌*◌, ◌^◌, false, some, List, [], ◌∷◌, ◌≡◌, refl, ℕ_discrete, ◌<◌, All, arith,
}
use stwo.Outcome.{ok}
use stwo.Itertools.Reference.{reference}
use stwo.Algebra.{Ring, 𝟙, ◌⊕◌}
use stwo.Fields.M31.Carrier.{M31, m31_ring}
use stwo.Fields.Qm31.{Qm31, qm31_ring}
use stwo.Circle.Coset.Valid.{made}
use stwo.Line.{LinePoly, LineDomain}
use stwo.Queries.{fold}
use stwo.Merkle.{MerkleDecommitmentLifted, MerkleHasherLifted}
use stwo.Fri.{FriConfig}
use stwo.Fri.Layers.{verify}
use stwo.Fri.Sparse.{SparseEvaluation}
use stwo.Fri.Verifier.{
  FriVerifier, MerkleChannel, sample_query_positions, decommit, decommit_inner_layers,
  check_last_layer,
}
use stwo.Fri.Verifier.Sampling.{sample_query_positions_returns}
use stwo.Queries.Order.{IsAscending}
use stwo.Domain.{log_size}
use stwo.Fri.Verifier.LastLayer.{IsDecommitted, decommit-AgreeAt}

abbrev total : List M31 → ℕ
total [] = 0
total (v ∷ row) = v.0 + total row

abbrev hasher : MerkleHasherLifted
hasher = record {
  State = ℕ;
  Hash = ℕ;
  default = 0;
  update_leaf = λ s row. s + total row;
  finalize = λ s. s;
  hash_children = λ children. 2 * children.0 + children.1;
  hash_eq = ℕ_discrete;
}

abbrev verifier : FriVerifier ℕ
verifier = record {
  config = record {
    log_blowup_factor = 1;
    log_last_layer_degree_bound = 0;
    n_queries = 1;
    fold_step = 1;
  };
  first_layer = record {
    column_commitment_domain = record { half_coset = made (2 ^ 29) 0 };
    folding_alpha = 𝟙;
    proof = record {
      fri_witness = 𝟙 ∷ [];
      decommitment = record { hash_witness = [] };
      commitment = 3;
    };
    fold_step = 1;
    pack_leaves = false;
  };
  inner_layers = [];
  last_layer_domain = record { coset = made (2 ^ 29) 0 };
  last_layer_poly = record { coeffs = (𝟙 ⊕ 𝟙) ∷ []; log_size = 0 };
  queries = some (record { positions = 0 ∷ []; log_domain_size = 1 });
}

decommit_lem : decommit reference hasher verifier (𝟙 ∷ []) ≡ ok tt
unfolding decommit stwo.Domain.log_size made
    stwo.Fri.Sparse.compute_decommitment_positions_and_rebuild_evals
    stwo.Fri.Sparse.build_merkle_verification_inputs stwo.Merkle.new stwo.Merkle.verify ℕ_discrete
    qm31_ring stwo.Fields.Cm31.cm31_ring m31_ring fold stwo.Fri.SparseFolding.fold_circle
    stwo.Circle.Coset.new stwo.Fri.Folding.fold_circle_into_line stwo.Algebra.inverse
    stwo.Fields.M31.Inverse.M31-discrete stwo.Fields.Cm31.Inverse.Cm31-discrete
    stwo.Fields.Qm31.Inverse.Qm31-discrete stwo.Circle.Index.subgroup_gen stwo.Domain.index_at
    stwo.Domain.at stwo.Circle.Coset.index_at stwo.Circle.Coset.size stwo.Circle.Index.to_point
    stwo.Circle.Index.add stwo.Circle.Index.mul stwo.Circle.mul stwo.Circle.add stwo.Circle.double
    stwo.Circle.identity stwo.Circle.Index.m31_circle_gen stwo.Fields.M31.add stwo.Fields.M31.sub
    stwo.Fields.M31.mul stwo.Utils.bit_reverse_index stwo.Fft.ibutterfly
    stwo.Fields.Extension.mul_base stwo.Fields.Extension.add stwo.Fields.Extension.sub
    stwo.Fields.Extension.from stwo.Fields.Qm31.mul stwo.Fields.Cm31.mul stwo.Line.log_size
    stwo.Line.at stwo.Line.eval_at_point stwo.Line.doublings stwo.Poly.fold
    stwo.Fields.ExpOps.pow2147483645 stwo.Fields.ExpOps.sqn stwo.Fields.ExpOps.square
    stwo.Circle.Coset.at check_last_layer decommit_inner_layers stwo.Fields.Extension.one
    stwo.Fields.Extension.zero verify stwo.Fields.Qm31.r
decommit_lem = refl

decommit-AgreeAt_example : IsDecommitted reference hasher verifier (𝟙 ∷ [])
decommit-AgreeAt_example = decommit-AgreeAt reference hasher verifier (𝟙 ∷ []) decommit_lem

abbrev words : MerkleChannel ℕ
words = record {
  State = ℕ;
  mix_root = λ s root. s + root;
  mix_felts = λ s felts. s + 1;
  draw_secure_felt = λ s. (𝟙, s + 1);
  draw_u32s = λ s. (s ∷ [], s + 1);
  verify_pow_nonce = λ s bits nonce. leb bits nonce;
  mix_u64 = λ s value. s + value;
}

sample_query_positions_returns_example :
    (positions : List ℕ) × (v' : FriVerifier ℕ) × (channel' : ℕ) × (sample_query_positions words 1
        verifier 7
      ≡ some (positions, v', channel'))
    × IsAscending positions
    × All (λ p. p < 2 ^ log_size verifier.first_layer.column_commitment_domain) positions
    × (v'.queries
        ≡ some (record {
          positions = positions;
          log_domain_size = log_size verifier.first_layer.column_commitment_domain;
        }))
sample_query_positions_returns_example =
    sample_query_positions_returns words (λ s. omega arith) 1 verifier 7
      (unfold log_size made in omega arith) (omega arith) (omega arith)
