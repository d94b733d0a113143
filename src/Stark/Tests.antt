-- ===== src/Stark/Tests.antt =====
-- The verification of a proof for a component without columns, whose composition polynomial is zero, with
-- numbers for hashes and for the state of the channel.
use stwo.Prelude.{
  some_inj, leb, ℕ, ◌+◌, ◌*◌, false, none, some, List, [], ◌∷◌, ◌≡◌, sym, ◌∙◌, refl, ℕ_discrete,
  arith, replicate,
}
use stwo.Outcome.{ok}
use stwo.Itertools.Reference.{reference}
use stwo.Algebra.{Ring, 𝟘, 𝟙}
use stwo.Fields.M31.Carrier.{M31, m31_ring}
use stwo.Fields.Cm31.{cm31_ring}
use stwo.Fields.Qm31.{Qm31, qm31_ring}
use stwo.Circle.{CirclePoint}
use stwo.Circle.Random.{get_random_point}
use stwo.Pcs.TreeVec.{TreeVec, ColumnVec}
use stwo.Merkle.{MerkleHasherLifted}
use stwo.Fri.Verifier.{MerkleChannel}
use stwo.Pcs.IndexMap.Reference as index_map
use stwo.Pcs.Verifier.{CommitmentSchemeProof, CommitmentSchemeVerifier, Verification, verify_values}
use stwo.Pcs.Verifier.Returns.{IsVerified, verify_values-IsVerified}
use stwo.Air.{Component}
use stwo.Stark.{verify_ex}
use stwo.Stark.Returns.{IsAccepted, verify_ex-IsAccepted}

abbrev total : List M31 → ℕ
total [] = 0
total (v ∷ row) = v.0 + total row

abbrev hasher : MerkleHasherLifted
hasher = record {
  State = ℕ;
  Hash = ℕ;
  default = 0;
  update_leaf = λ s row. s + total row;
  finalize = λ s. s;
  hash_children = λ children. 2 * children.0 + children.1;
  hash_eq = ℕ_discrete;
}

-- Draws the element u.
abbrev channel : MerkleChannel ℕ
channel = record {
  State = ℕ;
  mix_root = λ s root. s + root;
  mix_felts = λ s felts. s + 1;
  draw_secure_felt = λ s. ((𝟘, 𝟙), s + 1);
  draw_u32s = λ s. (s ∷ [], s + 1);
  verify_pow_nonce = λ s bits nonce. leb bits nonce;
  mix_u64 = λ s value. s + value;
}

abbrev component : Component
component = record {
  n_constraints = 0;
  max_constraint_log_degree_bound = 2;
  trace_log_degree_bounds = [] ∷ [];
  mask_points = λ point bound. some ([] ∷ []);
  preprocessed_column_indices = [];
  evaluate_constraint_quotients_at_point = λ point mask acc bound. some acc;
}

abbrev scheme : CommitmentSchemeVerifier ℕ
scheme = record {
  trees = record { root = 0; column_log_sizes = []; height = 0 } ∷ [];
  config = record {
    pow_bits = 3;
    fri_config = record {
      log_blowup_factor = 1;
      log_last_layer_degree_bound = 0;
      n_queries = 1;
      fold_step = 1;
    };
    lifting_log_size = none;
  };
}

abbrev proof : CommitmentSchemeProof ℕ
proof = record {
  config = scheme.config;
  commitments = 0 ∷ 0 ∷ [];
  sampled_values = [] ∷ replicate 8 (𝟘 ∷ []) ∷ [];
  decommitments = record { hash_witness = [] } ∷ record { hash_witness = 0 ∷ 0 ∷ [] } ∷ [];
  queried_values = [] ∷ replicate 8 (𝟘 ∷ []) ∷ [];
  proof_of_work = 4;
  fri_proof = record {
    first_layer = record {
      fri_witness = 𝟘 ∷ [];
      decommitment = record { hash_witness = 0 ∷ [] };
      commitment = 0;
    };
    inner_layers = [];
    last_layer_poly = record { coeffs = 𝟘 ∷ []; log_size = 0 };
  };
}

accepted :
    verify_ex reference index_map.reference hasher channel 1 (component ∷ []) 5 scheme proof false
    ≡ some (ok tt)
unfolding stwo.Stark.verify stwo.Air.composition_log_degree_bound stwo.Air.mask_points
    stwo.Air.eval_composition_polynomial_at_point stwo.Pcs.Verifier.commit
    stwo.Pcs.Verifier.verify_values stwo.Pcs.Answers.fri_answers stwo.Pcs.Quotients.new_vec
    stwo.Pcs.Quotients.quotient_constants stwo.Pcs.Quotients.accumulate_row_quotients
    stwo.Pcs.TreeVec.map stwo.Pcs.TreeVec.zip_eq stwo.Pcs.TreeVec.map_cols stwo.Pcs.TreeVec.zip_cols
    stwo.Pcs.TreeVec.flatten stwo.Pcs.TreeVec.concat_cols stwo.Pcs.Positions.get_lifting_log_size
    stwo.Constraints.Lines.complex_conjugate_line_coeffs stwo.Circle.Random.get_random_point
    stwo.Circle.identity stwo.Circle.add stwo.Circle.double stwo.Circle.mul
    stwo.Circle.repeated_double stwo.Circle.Coset.odds stwo.Circle.Coset.half_odds
    stwo.Circle.Coset.size stwo.Circle.Coset.at stwo.Circle.Index.m31_circle_gen
    stwo.Circle.Index.to_point stwo.Circle.Index.add stwo.Circle.Index.mul stwo.Circle.Index.neg
    stwo.Domain.log_size stwo.Domain.at stwo.Domain.new stwo.Domain.circle_domain stwo.Line.new
    stwo.Line.eval_at_point stwo.Line.len stwo.Merkle.new stwo.Merkle.verify stwo.Fri.Layers.verify
    stwo.Fri.Sparse.compute_decommitment_positions_and_rebuild_evals
    stwo.Fri.Sparse.build_merkle_verification_inputs stwo.Fri.SparseFolding.fold_circle
    stwo.Fri.Folding.fold_circle_into_line stwo.Fri.Verifier.commit
    stwo.Fri.Verifier.sample_query_positions stwo.Fri.Verifier.decommit stwo.Queries.new
    stwo.Queries.fold stwo.Queries.draw_queries stwo.Utils.bit_reverse_index stwo.Poly.fold
    stwo.Fft.ibutterfly stwo.Algebra.inverse stwo.Fields.M31.add stwo.Fields.M31.neg
    stwo.Fields.M31.sub stwo.Fields.M31.mul stwo.Fields.M31.Carrier.m31_ring
    stwo.Fields.Cm31.cm31_ring stwo.Fields.Cm31.Inverse.inv stwo.Fields.Qm31.r
    stwo.Fields.Qm31.qm31_ring stwo.Fields.Qm31.Inverse.inv stwo.Fields.Qm31.Inverse.Qm31-discrete
    stwo.Fields.Extension.complex_conjugate stwo.Fields.Extension.from stwo.Fields.ExpOps.sqn
    stwo.Fields.ExpOps.pow2147483645 stwo.Fields.BatchInverse.batch_inverse_classic
    stwo.Fields.BatchInverse.Interleaved.batch_inverse
accepted = refl

IsGood : Type 0
IsGood =
    IsAccepted reference index_map.reference hasher channel (λ s. omega arith) (component ∷ []) 5
      scheme proof false

accepting :
    (result : Verification (Unit {0})) × (verify_ex reference index_map.reference hasher channel 1
          (component ∷ [])
          5
          scheme
          proof
          false
        ≡ some result)
      × (result ≡ ok tt → IsGood)
    → IsGood
accepting (result, returned, good) = good (some_inj (sym returned ∙ accepted))

verify_ex-IsAccepted_example : IsGood
unfolding IsGood accepting
verify_ex-IsAccepted_example = accepting (
    verify_ex-IsAccepted reference index_map.reference hasher channel (λ s. omega arith)
      (component ∷ []) 5 scheme proof false (omega arith) (omega arith) (omega arith))

-- The scheme, the points and the channel when the commitment scheme verifies the values.
abbrev committed : CommitmentSchemeVerifier ℕ
committed = record scheme {
  trees =
      record { root = 0; column_log_sizes = []; height = 0 }
      ∷ record { root = 0; column_log_sizes = replicate 8 2; height = 2 }
      ∷ [];
}

abbrev oods_point : CirclePoint Qm31
oods_point = elim (get_random_point channel.draw_secure_felt 6) [
  | none ↦ record { x = 𝟘; y = 𝟘 }
  | some (point, drawn) ↦ point
]

abbrev points : TreeVec (ColumnVec (List (CirclePoint Qm31)))
points = [] ∷ replicate 8 (oods_point ∷ []) ∷ []

values_accepted :
    verify_values reference index_map.reference hasher channel 1 committed points proof 7
    ≡ some (ok tt)
unfolding stwo.Stark.verify stwo.Air.composition_log_degree_bound stwo.Air.mask_points
    stwo.Air.eval_composition_polynomial_at_point stwo.Pcs.Verifier.commit
    stwo.Pcs.Verifier.verify_values stwo.Pcs.Answers.fri_answers stwo.Pcs.Quotients.new_vec
    stwo.Pcs.Quotients.quotient_constants stwo.Pcs.Quotients.accumulate_row_quotients
    stwo.Pcs.TreeVec.map stwo.Pcs.TreeVec.zip_eq stwo.Pcs.TreeVec.map_cols stwo.Pcs.TreeVec.zip_cols
    stwo.Pcs.TreeVec.flatten stwo.Pcs.TreeVec.concat_cols stwo.Pcs.Positions.get_lifting_log_size
    stwo.Constraints.Lines.complex_conjugate_line_coeffs stwo.Circle.Random.get_random_point
    stwo.Circle.identity stwo.Circle.add stwo.Circle.double stwo.Circle.mul
    stwo.Circle.repeated_double stwo.Circle.Coset.odds stwo.Circle.Coset.half_odds
    stwo.Circle.Coset.size stwo.Circle.Coset.at stwo.Circle.Index.m31_circle_gen
    stwo.Circle.Index.to_point stwo.Circle.Index.add stwo.Circle.Index.mul stwo.Circle.Index.neg
    stwo.Domain.log_size stwo.Domain.at stwo.Domain.new stwo.Domain.circle_domain stwo.Line.new
    stwo.Line.eval_at_point stwo.Line.len stwo.Merkle.new stwo.Merkle.verify stwo.Fri.Layers.verify
    stwo.Fri.Sparse.compute_decommitment_positions_and_rebuild_evals
    stwo.Fri.Sparse.build_merkle_verification_inputs stwo.Fri.SparseFolding.fold_circle
    stwo.Fri.Folding.fold_circle_into_line stwo.Fri.Verifier.commit
    stwo.Fri.Verifier.sample_query_positions stwo.Fri.Verifier.decommit stwo.Queries.new
    stwo.Queries.fold stwo.Queries.draw_queries stwo.Utils.bit_reverse_index stwo.Poly.fold
    stwo.Fft.ibutterfly stwo.Algebra.inverse stwo.Fields.M31.add stwo.Fields.M31.neg
    stwo.Fields.M31.sub stwo.Fields.M31.mul stwo.Fields.M31.Carrier.m31_ring
    stwo.Fields.Cm31.cm31_ring stwo.Fields.Cm31.Inverse.inv stwo.Fields.Qm31.r
    stwo.Fields.Qm31.qm31_ring stwo.Fields.Qm31.Inverse.inv stwo.Fields.Qm31.Inverse.Qm31-discrete
    stwo.Fields.Extension.complex_conjugate stwo.Fields.Extension.from stwo.Fields.ExpOps.sqn
    stwo.Fields.ExpOps.pow2147483645 stwo.Fields.BatchInverse.batch_inverse_classic
    stwo.Fields.BatchInverse.Interleaved.batch_inverse
values_accepted = refl

IsGoodValues : Type 0
IsGoodValues =
    IsVerified reference index_map.reference hasher channel (λ s. omega arith) committed points
      proof 7

accepting_values :
    (result : Verification (Unit {0})) × (verify_values reference index_map.reference hasher channel
          1 committed points proof 7
        ≡ some result)
      × (result ≡ ok tt → IsGoodValues)
    → IsGoodValues
accepting_values (result, returned, good) = good (some_inj (sym returned ∙ values_accepted))

verify_values-IsVerified_example : IsGoodValues
unfolding IsGoodValues accepting_values
verify_values-IsVerified_example = accepting_values (
    verify_values-IsVerified reference index_map.reference hasher channel (λ s. omega arith)
      committed points proof 7 (omega arith) (omega arith) (omega arith))
