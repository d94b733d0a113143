-- ===== src/Fri/Verifier/Tests.antt =====
-- The commitment stage (crates/stwo/src/core/fri.rs) of a proof with one inner layer, with numbers
-- for hashes and for the state of the channel.
use stwo.Prelude.{leb, ℕ, ◌+◌, ◌^◌, false, none, [], ◌∷◌, ◌≡◌, ◌≢◌, refl, arith}
use stwo.Outcome.{ok, panic}
use stwo.Algebra.{𝟙}
use stwo.Fields.Qm31.{qm31_ring}
use stwo.Circle.Coset.Valid.{made, doubled}
use stwo.Circle.Coset.{Coset}
use stwo.Line.{LinePoly, LineDomain}
use stwo.Domain as circle_domain
use stwo.Line as line
use stwo.Circle as circle
use stwo.Circle.Index as index
use stwo.Circle.Coset as coset
use stwo.Fields.M31 as m31
use stwo.Fields.M31.Carrier.{m31_ring}
use stwo.Fields.M31.Inverse.{M31-discrete}
use stwo.Fri.{FriConfig, fold_bound}
use stwo.Fri.Layers.{FriLayerProof}
use stwo.Fri.Verifier.{MerkleChannel, FriProof, FriVerifier, commit, commit_layers, inner_fold_step}
use stwo.Fri.Verifier.Commit.{Accepted, commit-Accepted}
use stwo.Fri.Verifier.Returns.{commit-returns}

abbrev channel : MerkleChannel ℕ
channel = record {
  State = ℕ;
  mix_root = λ s root. s + root;
  mix_felts = λ s felts. s + 1;
  draw_secure_felt = λ s. (𝟙, s + 1);
  draw_u32s = λ s. (s ∷ [], s + 1);
  verify_pow_nonce = λ s bits nonce. leb bits nonce;
  mix_u64 = λ s value. s + value;
}

abbrev config : FriConfig
config = record {
  log_blowup_factor = 1;
  log_last_layer_degree_bound = 0;
  n_queries = 3;
  fold_step = 1;
}

abbrev layer : ℕ → FriLayerProof ℕ
layer root = record {
  fri_witness = [];
  decommitment = record { hash_witness = [] };
  commitment = root;
}

abbrev proof : FriProof ℕ
proof = record {
  first_layer = layer 11;
  inner_layers = layer 12 ∷ [];
  last_layer_poly = record { coeffs = 𝟙 ∷ []; log_size = 0 };
}

-- The half coset of 4 points.
abbrev quarter : Coset
quarter = made (2 ^ 27) 2

-- The verifier that the commitment stage returns.
abbrev verifier : FriVerifier ℕ
verifier = record {
  config = config;
  first_layer = record {
    column_commitment_domain = record { half_coset = quarter };
    folding_alpha = 𝟙;
    proof = layer 11;
    fold_step = 1;
    pack_leaves = false;
  };
  inner_layers =
      record {
        domain = record { coset = quarter };
        folding_alpha = 𝟙;
        layer_index = 0;
        proof = layer 12;
        fold_step = 1;
        pack_leaves = false;
      }
      ∷ [];
  last_layer_domain = record { coset = doubled quarter };
  last_layer_poly = record { coeffs = 𝟙 ∷ []; log_size = 0 };
  queries = none;
}

commit_lem : commit channel 5 config proof 2 ≡ ok (verifier, 31)
unfolding commit commit_layers inner_fold_step fold_bound circle_domain.new circle_domain.half_coset
    circle_domain.circle_domain circle_domain.log_size coset.odds coset.half_odds coset.new
    coset.size coset.double coset.repeated_double line.new line.len line.log_size
    line.repeated_double M31-discrete m31_ring m31.add m31.sub m31.mul circle.log_order circle.mul
    circle.add circle.double circle.double_x circle.identity index.to_point index.subgroup_gen
    index.m31_circle_gen index.mul made doubled
commit_lem = refl

commit-Accepted_example : Accepted config proof 2 verifier
commit-Accepted_example =
    commit-Accepted channel config (omega arith) (omega arith) 5 proof 2 verifier 31 commit_lem

commit-returns_example : commit channel 5 config proof 2 ≢ panic
commit-returns_example =
    commit-returns channel config 5 proof 2 (omega arith) refl (omega arith) (omega arith)
      (omega arith)
