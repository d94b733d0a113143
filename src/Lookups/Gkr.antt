-- ===== src/Lookups/Gkr.antt =====
-- The partial verifier of batches of crates/stwo/src/prover/lookups/gkr_verifier.rs. The vectors with an entry
-- for each instance are one list of instances. A subtraction below 0 panics.
pub mod Batch
pub mod Active
pub mod Checked
pub mod Artifact
mod Tests
use stwo.Prelude.{
  ℕ, zero, suc, ◌+◌, ◌-◌, ◌==◌, not, if◌then◌else◌, Option, none, some, List, [], ◌∷◌, ◌++◌, map,
  length, get_elem?, drop, leb,
}
use stwo.Outcome.{Outcome, ok, err, panic, ◌>>=◌, ◌>>◌, assert, guard, unwrap, ok_or, map_err}
use stwo.Algebra.{Ring, ◌⊕◌, ◌⊗◌, 𝟘, 𝟙}
use stwo.Fields.Cm31.{cm31_ring}
use stwo.Fields.Qm31.{Qm31, qm31_ring}
use stwo.Fields.Qm31.Inverse.{qm31_field}
use stwo.Fft.Inverse.{by_base}
use stwo.Fraction.{Fraction}
use stwo.Fraction as fraction
use stwo.Fri.{checked_sub}
use stwo.Fri.Verifier.{MerkleChannel, eqb}
use stwo.Air.{max_of}
use stwo.Lookups.{random_linear_combination, eq, fold_mle_evals}
use stwo.Lookups.Sumcheck.{SumcheckProof, SumcheckError, from_shift}
use stwo.Lookups.Sumcheck.Verifier.{partially_verify}

pub data Gate : Type 0 where
  log_up grand_product : Gate

pub record GkrMask : Type 0 where
  pub columns : List (Qm31 × Qm31)

-- The two rows of the mask.
unfoldable pub to_rows : GkrMask → List Qm31 × List Qm31
to_rows mask =
    (map (λ (c : Qm31 × Qm31). c.0) mask.columns, map (λ (c : Qm31 × Qm31). c.1) mask.columns)

unfoldable pub reduce_at_point : GkrMask → Qm31 → List Qm31
reduce_at_point mask x = map (λ (c : Qm31 × Qm31). fold_mle_evals (λ v. v) x c.0 c.1) mask.columns

-- `none`: the mask has an invalid number of columns.
unfoldable pub eval : Gate → List (Qm31 × Qm31) → Option (List Qm31)
eval log_up (numerators ∷ denominators ∷ []) =
    let a : Fraction Qm31 = record { numerator = numerators.0; denominator = denominators.0 } in
    let b : Fraction Qm31 = record { numerator = numerators.1; denominator = denominators.1 } in
    let res = fraction.add a b in some (res.numerator ∷ res.denominator ∷ [])
eval log_up _ = none
eval grand_product (column ∷ []) = some ((column.0 ⊗ column.1) ∷ [])
eval grand_product _ = none

pub data GkrError : Type 0 where
  malformed_proof : GkrError
  invalid_mask : ℕ → ℕ → GkrError
  num_instances_mismatch : ℕ → ℕ → GkrError
  invalid_sumcheck : ℕ → SumcheckError → GkrError
  circuit_check_failure : Qm31 → Qm31 → ℕ → GkrError

pub record GkrBatchProof : Type 0 where
  pub sumcheck_proofs : List SumcheckProof
  pub layer_masks_by_instance : List (List GkrMask)
  pub output_claims_by_instance : List (List Qm31)

pub record GkrArtifact : Type 0 where
  pub ood_point : List Qm31
  pub claims_to_verify_by_instance : List (List Qm31)
  pub n_variables_by_instance : List ℕ

pub record Instance : Type 0 where
  pub gate : Gate
  pub layer_masks : List GkrMask
  pub output_claims : List Qm31
  pub claims_to_verify : Option (List Qm31)

abbrev pub Verified : Type 0 → Type 0
Verified A = Outcome GkrError A

unfoldable pub instances : List Gate → List (List GkrMask) → List (List Qm31) → List Instance
instances (gate ∷ gates) (masks ∷ layer_masks) (claims ∷ output_claims) =
    record { gate = gate; layer_masks = masks; output_claims = claims; claims_to_verify = none }
    ∷ instances gates layer_masks output_claims
instances _ _ _ = []

abbrev pub n_layers_of : Instance → ℕ
n_layers_of i = length i.layer_masks

-- The claims of the instances whose output layer this is.
unfoldable pub set_outputs : ℕ → List Instance → List Instance
set_outputs n_remaining_layers is =
    map
      (λ (i : Instance).
        if n_layers_of i == n_remaining_layers
        then record i { claims_to_verify = some i.output_claims }
        else i)
      is

-- The mask of an instance in a layer of the batch.
unfoldable pub mask_at : ℕ → ℕ → Instance → Option GkrMask
mask_at n_layers layer i = elim (checked_sub n_layers (n_layers_of i)) [
  | none ↦ none
  | some n_unused ↦ elim (checked_sub layer n_unused) [
    | none ↦ none
    | some instance_layer ↦ get_elem? i.layer_masks instance_layer
  ]
]

-- The claims for the sum-check.
unfoldable pub sumcheck_claims : ℕ → Qm31 → List Instance → Verified (List Qm31)
sumcheck_claims n_layers lambda [] = ok []
sumcheck_claims n_layers lambda (i ∷ is) = elim i.claims_to_verify [
  | none ↦ sumcheck_claims n_layers lambda is
  | some claims ↦ do
    n_unused_variables ← unwrap (checked_sub n_layers (n_layers_of i))
    doubling_factor ← unwrap (from_shift n_unused_variables)
    rest ← sumcheck_claims n_layers lambda is
    ok (by_base (random_linear_combination claims lambda) doubling_factor ∷ rest)
]

-- `&point[n..]`, which panics out of range.
abbrev pub slice_from : ℕ → List Qm31 → Option (List Qm31)
slice_from n point = if leb n (length point) then some (drop n point) else none

-- The error for a mask; the index of the layer is taken for that of the instance.
unfoldable pub mask_error : List Instance → ℕ → ℕ → ℕ → Verified (List Qm31)
mask_error all layer n_remaining_layers index = do
  i ← unwrap (get_elem? all layer)
  instance_layer ← unwrap (checked_sub (n_layers_of i) n_remaining_layers)
  err (GkrError.invalid_mask index instance_layer)

-- The outputs of the gates at the point of the sum-check, from the instance with the given index on.
unfoldable pub layer_evals :
    List Instance → ℕ → ℕ → Qm31 → List Qm31 → List Qm31 → ℕ → List Instance → Verified (List Qm31)
unfolding mask_at eval mask_error
layer_evals all n_layers layer lambda ood_point sumcheck_point index [] = ok []
layer_evals all n_layers layer lambda ood_point sumcheck_point index (i ∷ is) =
    elim i.claims_to_verify [
      | none ↦ layer_evals all n_layers layer lambda ood_point sumcheck_point (suc index) is
      | some claims ↦ do
        n_unused ← unwrap (checked_sub n_layers (n_layers_of i))
        mask ← unwrap (mask_at n_layers layer i)
        gate_output ← elim (eval i.gate mask.columns) [
          | none ↦ mask_error all layer (n_layers - layer) index
          | some output ↦ ok output
        ]
        point ← unwrap (slice_from n_unused ood_point)
        point' ← unwrap (slice_from n_unused sumcheck_point)
        eq_eval ← unwrap (eq point point')
        rest ← layer_evals all n_layers layer lambda ood_point sumcheck_point (suc index) is
        ok ((eq_eval ⊗ random_linear_combination gate_output lambda) ∷ rest)
    ]
