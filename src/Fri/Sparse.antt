-- ===== src/Fri/Sparse.antt =====
-- `SparseEvaluation` and `compute_decommitment_positions_and_rebuild_evals` of
-- crates/stwo/src/core/fri.rs.
use stwo.Prelude.{
  ℕ, zero, suc, ◌*◌, ◌/◌, ◌^◌, Bool, true, ◌==◌, ◌&&◌, if◌then◌else◌, Option, none, some, List, [],
  ◌∷◌, ◌++◌, map, length, range, replicate, chunk_by,
}
use stwo.Outcome.{Outcome, ok, err, panic, ◌>>=◌, ◌>>◌, assert}
use stwo.Itertools.{Itertools}
use stwo.Fields.M31.Carrier.{M31}
use stwo.Fields.Qm31.{Qm31, qm31_ring}
use stwo.Utils.{bit_reverse_index}
use stwo.Queries.{Queries}

pub data InsufficientWitnessError : Type 0 where
  insufficient_witness : InsufficientWitnessError

pub record SparseEvaluation : Type 0 where
  pub subset_evals : List (List Qm31)
  pub subset_domain_initial_indexes : List ℕ

abbrev pub all_of_length : ℕ → List (List Qm31) → Bool
all_of_length n [] = true
all_of_length n (e ∷ evals) = length e == n && all_of_length n evals

unfoldable pub new : {E : Type 0} → List (List Qm31) → List ℕ → ℕ → Outcome E SparseEvaluation
new subset_evals subset_domain_initial_indexes fold_step = do
  assert (all_of_length (2 ^ fold_step) subset_evals)
  assert (length subset_evals == length subset_domain_initial_indexes)
  ok (record {
    subset_evals = subset_evals;
    subset_domain_initial_indexes = subset_domain_initial_indexes;
  })

abbrev pub Rebuilt : Type 0 → Type 0
Rebuilt A = Outcome InsufficientWitnessError A

-- What is left of the iterators over the queries of a subset, the query evaluations and the witness.
pub record Iterators : Type 0 where
  pub queries : List ℕ
  pub query_evals : List Qm31
  pub witness : List Qm31

abbrev pub next_query_eval : List ℕ → List Qm31 → List Qm31 → Rebuilt (Qm31 × Iterators)
next_query_eval queries [] witness = panic
next_query_eval queries (e ∷ query_evals) witness =
    ok (e, record { queries = queries; query_evals = query_evals; witness = witness })

abbrev pub next_witness_eval : List ℕ → List Qm31 → List Qm31 → Rebuilt (Qm31 × Iterators)
next_witness_eval queries query_evals [] = err insufficient_witness
next_witness_eval queries query_evals (w ∷ witness) =
    ok (w, record { queries = queries; query_evals = query_evals; witness = witness })

-- At a query its evaluation, elsewhere the next of the witness.
unfoldable pub next_eval : ℕ → List ℕ → List Qm31 → List Qm31 → Rebuilt (Qm31 × Iterators)
next_eval position [] query_evals witness = next_witness_eval [] query_evals witness
next_eval position (q ∷ queries) query_evals witness =
    if q == position
    then next_query_eval queries query_evals witness
    else next_witness_eval (q ∷ queries) query_evals witness

-- The evaluations at `count` positions from `position` on.
unfoldable pub subset_eval : ℕ → ℕ → Iterators → Rebuilt (List Qm31 × Iterators)
unfolding next_eval
subset_eval zero position its = ok ([], its)
subset_eval (suc count) position its =
    next_eval position its.queries its.query_evals its.witness >>= λ (e, its').
    subset_eval count (suc position) its' >>= λ (evals, left). ok (e ∷ evals, left)

pub record Rebuild : Type 0 where
  pub decommitment_positions : List ℕ
  pub subset_evals : List (List Qm31)
  pub subset_domain_index_initials : List ℕ
  pub query_evals : List Qm31
  pub witness : List Qm31

-- The loop over the subsets of the queries.
unfoldable pub rebuild_subsets : ℕ → ℕ → List (ℕ × List ℕ) → List Qm31 → List Qm31 → Rebuilt Rebuild
unfolding subset_eval
rebuild_subsets fold_step log_domain_size [] query_evals witness = ok (record {
  decommitment_positions = [];
  subset_evals = [];
  subset_domain_index_initials = [];
  query_evals = query_evals;
  witness = witness;
})
rebuild_subsets fold_step log_domain_size ((first, others) ∷ subsets) query_evals witness =
    let subset_start = first / 2 ^ fold_step * 2 ^ fold_step in
    subset_eval (2 ^ fold_step) subset_start
      (record { queries = first ∷ others; query_evals = query_evals; witness = witness })
    >>= λ (evals, left).
        rebuild_subsets fold_step log_domain_size subsets left.query_evals left.witness >>= λ rest.
        ok (record rest {
          decommitment_positions =
              range subset_start (2 ^ fold_step) ++ rest.decommitment_positions;
          subset_evals = evals ∷ rest.subset_evals;
          subset_domain_index_initials =
              bit_reverse_index subset_start log_domain_size ∷ rest.subset_domain_index_initials;
        })

abbrev pub same_subset : ℕ → ℕ → ℕ → Bool
same_subset fold_step a b = a / 2 ^ fold_step == b / 2 ^ fold_step

-- The positions, the evaluations, and the witness that is left.
unfoldable pub compute_decommitment_positions_and_rebuild_evals :
    Queries → List Qm31 → List Qm31 → ℕ → Rebuilt (List ℕ × SparseEvaluation × List Qm31)
unfolding rebuild_subsets new
compute_decommitment_positions_and_rebuild_evals queries query_evals witness_evals fold_step = do
  rebuilt ←
      rebuild_subsets fold_step queries.log_domain_size
        (chunk_by (same_subset fold_step) queries.positions) query_evals witness_evals
  sparse_evaluation ← new rebuilt.subset_evals rebuilt.subset_domain_index_initials fold_step
  ok (rebuilt.decommitment_positions, sparse_evaluation, rebuilt.witness)

-- Appends a row of values to the columns.
abbrev pub push_row : List (List M31) → List M31 → List (List M31)
push_row [] row = []
push_row (col ∷ cols) [] = col ∷ cols
push_row (col ∷ cols) (v ∷ row) = (col ++ v ∷ []) ∷ push_row cols row

abbrev pub to_m31_array : Qm31 → List M31
to_m31_array x = x.0.0 ∷ x.0.1 ∷ x.1.0 ∷ x.1.1 ∷ []

-- The coordinates of the next `leaf_size` values, in order.
unfoldable pub leaf_row : ℕ → List Qm31 → Option (List M31 × List Qm31)
leaf_row zero values = some ([], values)
leaf_row (suc n) [] = none
leaf_row (suc n) (v ∷ values) = elim (leaf_row n values) [
  | none ↦ none
  | some (row, left) ↦ some (to_m31_array v ++ row, left)
]

unfoldable pub fill_rows : ℕ → List ℕ → List Qm31 → List (List M31) → Option (List (List M31))
unfolding leaf_row
fill_rows leaf_size [] values merkle_values = some merkle_values
fill_rows leaf_size (p ∷ positions) values merkle_values = elim (leaf_row leaf_size values) [
  | none ↦ none
  | some (row, left) ↦ fill_rows leaf_size positions left (push_row merkle_values row)
]

-- `none`: the values run out.
unfoldable pub build_merkle_verification_inputs :
    Itertools → List ℕ → List Qm31 → ℕ → Option (List ℕ × List (List M31))
unfolding fill_rows
build_merkle_verification_inputs it decommitment_positions values leaf_log_size =
    let merkle_positions =
      it.dedup_by ℕ ◌==◌ (map (λ p. p / 2 ^ leaf_log_size) decommitment_positions) in
    elim (fill_rows (2 ^ leaf_log_size) merkle_positions values
      (replicate (4 * 2 ^ leaf_log_size) [])) [
        | none ↦ none
        | some merkle_values ↦ some (merkle_positions, merkle_values)
      ]
