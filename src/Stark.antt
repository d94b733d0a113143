-- ===== src/Stark.antt =====
-- The verifier of a STARK: crates/stwo/src/core/verifier.rs, with the proof of
-- crates/stwo/src/core/proof.rs. A subtraction below 0 panics.
pub mod Accepts
pub mod Returns
mod Tests
use stwo.Prelude.{
  arith, ℕ, zero, suc, ◌+◌, ◌-◌, ◌*◌, Bool, true, false, not, leb, ltb, ◌&&◌, ◌||◌, if◌then◌else◌,
  Option, none, some, List, [], ◌∷◌, ◌++◌, length, get_elem?, replicate,
}
use stwo.Outcome.{Outcome, ok, err, panic, ◌>>=◌, ◌>>◌, assert, guard, unwrap, ok_or}
use stwo.Itertools.{Itertools}
use stwo.Algebra.{Ring, ◌⊕◌, ◌⊗◌}
use stwo.Fields.M31.Carrier.{M31, m31_ring}
use stwo.Fields.Cm31.{cm31_ring}
use stwo.Fields.Qm31.{Qm31, qm31_ring}
use stwo.Circle.{CirclePoint, repeated_double}
use stwo.Circle.Random.{get_random_point}
use stwo.Merkle.{MerkleHasherLifted, MerkleVerifierLifted}
use stwo.Fri.{checked_sub}
use stwo.Fri.Verifier.{MerkleChannel, eqb}
use stwo.Pcs.TreeVec.{TreeVec, ColumnVec, collect}
use stwo.Pcs.Positions.{get_lifting_log_size}
use stwo.Pcs.IndexMap.{IndexMap}
use stwo.Pcs.Verifier.{
  VerificationError, Verification, CommitmentSchemeProof, CommitmentSchemeVerifier, last, commit,
  verify_values,
}
use stwo.Air.{
  preprocessed_trace_idx, Component, Components, composition_log_degree_bound, mask_points,
  eval_composition_polynomial_at_point,
}

abbrev pub composition_log_split : ℕ
composition_log_split = 1

abbrev pub secure_extension_degree : ℕ
secure_extension_degree = 4

-- The other elements of the basis over `M31`.
abbrev pub unit : ℕ → Qm31
unit zero = (((0, omega arith), (1, omega arith)), ((0, omega arith), (0, omega arith)))
unit (suc zero) = (((0, omega arith), (0, omega arith)), ((1, omega arith), (0, omega arith)))
unit _ = (((0, omega arith), (0, omega arith)), ((0, omega arith), (1, omega arith)))

-- `from_partial_evals` of crates/stwo/src/core/fields/qm31.rs.
unfoldable pub from_partial_evals : Qm31 → Qm31 → Qm31 → Qm31 → Qm31
from_partial_evals e0 e1 e2 e3 = e0 ⊕ e1 ⊗ unit 0 ⊕ e2 ⊗ unit 1 ⊕ e3 ⊗ unit 2

-- The one value of a column.
abbrev pub single : List Qm31 → Option Qm31
single (eval ∷ []) = some eval
single _ = none

-- The value of the composition polynomial, from its left and right halves: `some none` if there are not
-- eight values, and `none` for a panic.
unfoldable pub combine_halves : List Qm31 → CirclePoint Qm31 → ℕ → Option (Option Qm31)
unfolding from_partial_evals
combine_halves (l0 ∷ l1 ∷ l2 ∷ l3 ∷ r0 ∷ r1 ∷ r2 ∷ r3 ∷ []) oods_point max_log_degree_bound =
    let left_eval = from_partial_evals l0 l1 l2 l3 in
    let right_eval = from_partial_evals r0 r1 r2 r3 in
    elim (checked_sub max_log_degree_bound 1) [
      | none ↦ none
      | some doublings ↦
          some (some (left_eval ⊕ (repeated_double oods_point doublings).x ⊗ right_eval))
    ]
combine_halves _ oods_point max_log_degree_bound = some none

unfoldable pub extract_composition_oods_eval :
    {Hash : Type 0} → CommitmentSchemeProof Hash → CirclePoint Qm31 → ℕ → Option (Option Qm31)
unfolding combine_halves
extract_composition_oods_eval proof oods_point max_log_degree_bound =
    elim (last proof.sampled_values) [
      | none ↦ some none
      | some composition_mask ↦ elim (collect single composition_mask) [
        | none ↦ some none
        | some evals ↦ combine_halves evals oods_point max_log_degree_bound
      ]
    ]

module _ (it : Itertools) (im : IndexMap) (h : MerkleHasherLifted) (c : MerkleChannel h.Hash) where
  open h use {Hash}

  -- The largest log degree of a committed polynomial.
  unfoldable pub degree_bound :
      Components → CommitmentSchemeVerifier Hash → MerkleVerifierLifted Hash → Bool → Verification ℕ
  degree_bound components v preprocessed include_all_preprocessed_columns = do
    bound ← unwrap (composition_log_degree_bound components)
    split_bound ← unwrap (checked_sub bound composition_log_split)
    lifting_log_size ←
        unwrap (get_lifting_log_size v.config (split_bound + v.config.fri_config.log_blowup_factor))
    assert (not include_all_preprocessed_columns || leb preprocessed.height lifting_log_size)
    unwrap (checked_sub lifting_log_size v.config.fri_config.log_blowup_factor)

  -- What `verify_ex` has when the points are drawn.
  pub record Drawn : Type 0 where
    pub air : Components
    pub max_log_degree_bound : ℕ
    pub random_coeff : Qm31
    pub commitment_scheme : CommitmentSchemeVerifier Hash
    pub oods_point : CirclePoint Qm31
    pub masks : TreeVec (ColumnVec (List (CirclePoint Qm31)))
    pub channel : c.State

  -- `verify_ex` up to the mask points.
  unfoldable pub draw_oods :
      List Component
      → c.State
      → CommitmentSchemeVerifier Hash
      → CommitmentSchemeProof Hash
      → Bool
      → Verification Drawn
  unfolding degree_bound
  draw_oods components channel v proof include_all_preprocessed_columns =
      unwrap (get_elem? v.trees preprocessed_trace_idx) >>= λ preprocessed.
      let air : Components = record {
        components = components;
        n_preprocessed_columns = length preprocessed.column_log_sizes;
      } in
      degree_bound air v preprocessed include_all_preprocessed_columns >>= λ max_log_degree_bound.
      let (random_coeff, channel) = c.draw_secure_felt channel in
      unwrap (last proof.commitments) >>= λ commitment.
      unwrap (
        commit it im h c v commitment (replicate (2 * secure_extension_degree) max_log_degree_bound)
          channel)
      >>= λ (v, channel).
          unwrap (get_random_point c.draw_secure_felt channel) >>= λ (oods_point, channel).
          unwrap (mask_points air oods_point max_log_degree_bound include_all_preprocessed_columns)
          >>= λ masks. ok (record {
            air = air;
            max_log_degree_bound = max_log_degree_bound;
            random_coeff = random_coeff;
            commitment_scheme = v;
            oods_point = oods_point;
            masks = masks;
            channel = channel;
          })

  -- The comparison of the composition polynomial with the constraints.
  unfoldable pub check_oods : Drawn → CommitmentSchemeProof Hash → Verification (Unit {0})
  unfolding extract_composition_oods_eval
  check_oods d proof = do
    extracted ← unwrap (extract_composition_oods_eval proof d.oods_point d.max_log_degree_bound)
    composition_oods_eval ← ok_or extracted VerificationError.invalid_structure
    expected ← unwrap (
        eval_composition_polynomial_at_point d.air d.oods_point proof.sampled_values d.random_coeff
          d.max_log_degree_bound)
    guard (eqb composition_oods_eval expected) VerificationError.oods_not_matching

  -- The mask points with those of the composition polynomial.
  abbrev pub sample_points : Drawn → TreeVec (ColumnVec (List (CirclePoint Qm31)))
  sample_points d = d.masks ++ replicate (2 * secure_extension_degree) (d.oods_point ∷ []) ∷ []

  -- `verify_ex` up to the call of `verify_values`.
  unfoldable pub verify_oods :
      List Component
      → c.State
      → CommitmentSchemeVerifier Hash
      → CommitmentSchemeProof Hash
      → Bool
      → Verification Drawn
  unfolding draw_oods check_oods
  verify_oods components channel v proof include_all_preprocessed_columns =
      draw_oods components channel v proof include_all_preprocessed_columns >>= λ d.
      check_oods d proof >> ok d

  -- The call of `verify_values`.
  unfoldable pub after_oods :
      ℕ → CommitmentSchemeProof Hash → Verification Drawn → Option (Verification (Unit {0}))
  after_oods fuel proof panic = some panic
  after_oods fuel proof (err reason) = some (err reason)
  after_oods fuel proof (ok d) =
      verify_values it im h c fuel d.commitment_scheme (sample_points d) proof d.channel

  unfoldable pub verify_ex :
      ℕ
      → List Component
      → c.State
      → CommitmentSchemeVerifier Hash
      → CommitmentSchemeProof Hash
      → Bool
      → Option (Verification (Unit {0}))
  unfolding verify_oods after_oods
  verify_ex fuel components channel v proof include_all_preprocessed_columns =
      after_oods fuel proof
        (verify_oods components channel v proof include_all_preprocessed_columns)

  unfoldable pub verify :
      ℕ
      → List Component
      → c.State
      → CommitmentSchemeVerifier Hash
      → CommitmentSchemeProof Hash
      → Option (Verification (Unit {0}))
  unfolding verify_ex
  verify fuel components channel v proof = verify_ex fuel components channel v proof false
