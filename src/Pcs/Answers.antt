-- ===== src/Pcs/Answers.antt =====
-- crates/stwo/src/core/pcs/quotients.rs: the answers to the queries of FRI, from the samples of the
-- columns and the values at the queries. `none` is a panic.
use stwo.Prelude.{
  ℕ, suc, Bool, true, ◌==◌, ◌&&◌, Option, some, List, [], ◌∷◌, length, get_elem?, assert, ◌>>=◌,
  ◌>>◌,
}
use stwo.Itertools.{Itertools}
use stwo.Algebra.{◌⊗◌, 𝟙}
use stwo.Fields.M31.Carrier.{M31, m31_ring}
use stwo.Fields.Cm31.{cm31_ring}
use stwo.Fields.Qm31.{Qm31, qm31_ring}
use stwo.Utils.{bit_reverse_index}
use stwo.Circle.{CirclePoint, add as point_add, repeated_double}
use stwo.Constraints.{into_ef}
use stwo.Constraints.Lines.{PointSample, secure_from}
use stwo.Domain as circle_domain
use stwo.Domain.{CircleDomain}
use stwo.Pcs.TreeVec.{TreeVec, ColumnVec, concat, collect, flatten}
use stwo.Pcs.IndexMap.{IndexMap}
use stwo.Pcs.Quotients.{
  ColumnSampleBatch, QuotientConstants, new_vec, quotient_constants, accumulate_row_quotients,
}

abbrev pub Randomized : Type 0
Randomized = List (PointSample × Qm31)

-- The next power of the random coefficient for each sample, and the power after them.
unfoldable pub with_random_pows : Qm31 → Qm31 → List PointSample → Randomized × Qm31
with_random_pows random_coeff pow [] = ([], pow)
with_random_pows random_coeff pow (sample ∷ samples) =
    let rest = with_random_pows random_coeff (pow ⊗ random_coeff) samples in
    ((sample, pow) ∷ rest.0, rest.1)

-- The samples of a column, after a periodicity check if there are two.
unfoldable pub with_periodicity : CirclePoint M31 → ℕ → List PointSample → List PointSample
with_periodicity lifting_domain_generator log_size (prev ∷ sample ∷ []) =
    let period_generator = repeated_double lifting_domain_generator log_size in
    record {
      point = point_add sample.point (into_ef secure_from period_generator);
      value = sample.value;
    }
    ∷ prev
    ∷ sample
    ∷ []
with_periodicity lifting_domain_generator log_size samples = samples

unfoldable pub build_tree :
    CirclePoint M31 → Qm31 → Qm31 → List (List PointSample) → List ℕ → List Randomized × Qm31
unfolding with_random_pows with_periodicity
build_tree generator random_coeff pow (samples ∷ columns) (log_size ∷ sizes) =
    let column = with_random_pows random_coeff pow (with_periodicity generator log_size samples) in
    let rest = build_tree generator random_coeff column.1 columns sizes in
    (column.0 ∷ rest.0, rest.1)
build_tree generator random_coeff pow _ _ = ([], pow)

unfoldable pub build_trees :
    CirclePoint M31
    → Qm31
    → Qm31
    → TreeVec (List (List PointSample))
    → List (List ℕ)
    → TreeVec (List Randomized)
unfolding build_tree
build_trees generator random_coeff pow (samples_per_tree ∷ samples) (sizes_per_tree ∷ sizes) =
    let tree = build_tree generator random_coeff pow samples_per_tree sizes_per_tree in
    tree.0 ∷ build_trees generator random_coeff tree.1 samples sizes
build_trees generator random_coeff pow _ _ = []

unfoldable pub build_samples_with_randomness_and_periodicity :
    TreeVec (List (List PointSample))
    → List (List ℕ)
    → ℕ
    → Qm31
    → Option (TreeVec (List Randomized))
unfolding build_trees
build_samples_with_randomness_and_periodicity samples column_log_sizes lifting_log_size
      random_coeff =
    do
      canonic ← circle_domain.new lifting_log_size
      some (build_trees canonic.coset.step random_coeff 𝟙 samples column_log_sizes)

abbrev pub all_of_length : {A : Type 0} → ℕ → List (List A) → Bool
all_of_length n [] = true
all_of_length n (xs ∷ rest) = length xs == n && all_of_length n rest

module _ (it : Itertools) where
  -- The loop over the query positions, from row idx on.
  unfoldable pub answer_rows :
      List ColumnSampleBatch
      → QuotientConstants
      → CircleDomain
      → ℕ
      → ColumnVec (List M31)
      → ℕ
      → List ℕ
      → Option (List Qm31)
  answer_rows sample_batches constants lifting_domain lifting_log_size queried_values idx [] =
      some []
  answer_rows sample_batches constants lifting_domain lifting_log_size queried_values idx
        (position ∷ rest) =
      do
        queried_values_at_row ← collect (λ (col : List M31). get_elem? col idx) queried_values
        let domain_point =
            circle_domain.at lifting_domain (bit_reverse_index position lifting_log_size)
        row ←
            accumulate_row_quotients it sample_batches queried_values_at_row constants domain_point
        rows ←
            answer_rows sample_batches constants lifting_domain lifting_log_size queried_values
              (suc idx) rest
        some (row ∷ rows)

  unfoldable pub fri_answers :
      IndexMap
      → TreeVec (List ℕ)
      → TreeVec (List (List PointSample))
      → Qm31
      → List ℕ
      → TreeVec (ColumnVec (List M31))
      → ℕ
      → Option (List Qm31)
  unfolding build_samples_with_randomness_and_periodicity answer_rows
  fri_answers im column_log_sizes samples random_coeff query_positions queried_values
        lifting_log_size =
      do
        let queried_values = flatten queried_values
        assert (all_of_length (length query_positions) queried_values)
        samples_with_randomness ←
            build_samples_with_randomness_and_periodicity samples column_log_sizes lifting_log_size
              random_coeff
        let sample_batches = new_vec im (concat samples_with_randomness)
        canonic ← circle_domain.new lifting_log_size
        lifting_domain ← circle_domain.circle_domain canonic
        constants ← quotient_constants sample_batches
        answer_rows sample_batches constants lifting_domain lifting_log_size queried_values 0
            query_positions
