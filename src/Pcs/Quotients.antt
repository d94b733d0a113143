-- ===== src/Pcs/Quotients.antt =====
-- crates/stwo/src/core/pcs/quotients.rs: the quotients that the verifier of FRI is asked for. `none` is a
-- panic. The third-party map is a parameter.
use stwo.Prelude.{ap, ℕ, suc, Option, some, List, [], ◌∷◌, map, get_elem?, ◌>>=◌}
use stwo.Itertools.{Itertools}
use stwo.Algebra.{◌⊕◌, ◌⊖◌, ◌⊗◌, 𝟘}
use stwo.Fields.M31.Carrier.{M31, m31_ring}
use stwo.Fields.Cm31.{Cm31, cm31_ring}
use stwo.Fields.Cm31.Inverse.{cm31_field}
use stwo.Fields.Qm31.{Qm31, qm31_ring}
use stwo.Fields.Qm31.Inverse.{qm31_field}
use stwo.Fields.Extension.{from}
use stwo.Fields.BatchInverse.Interleaved.{batch_inverse}
use stwo.Fft.Inverse.{by_base}
use stwo.Circle.{CirclePoint}
use stwo.Constraints.Lines.{PointSample, complex_conjugate_line_coeffs}
use stwo.Pcs.TreeVec.{collect}
use stwo.Pcs.IndexMap.{IndexMap}

pub record NumeratorData : Type 0 where
  pub column_index : ℕ
  pub sample_value : Qm31
  pub random_coeff : Qm31

pub record ColumnSampleBatch : Type 0 where
  pub point : CirclePoint Qm31
  pub cols_vals_randpows : List NumeratorData

-- The coefficients a, b and c of a line.
abbrev pub Coeffs : Type 0
Coeffs = Qm31 × Qm31 × Qm31

pub record QuotientConstants : Type 0 where
  pub line_coeffs : List (List Coeffs)

abbrev pub point_discrete : Discrete (CirclePoint Qm31)
point_discrete p q = elim (qm31_field.dec_eq p.x q.x) [
  | no ne ↦ no (λ e. ne (ap (λ (a : CirclePoint Qm31). a.x) e))
  | yes e ↦ elim (qm31_field.dec_eq p.y q.y) [
    | no ne ↦ no (λ e'. ne (ap (λ (a : CirclePoint Qm31). a.y) e'))
    | yes e' ↦ yes (λ i. record { x = e i; y = e' i })
  ]
]

-- The product with an element of `CM31`.
unfoldable pub mul_cm31 : Qm31 → Cm31 → Qm31
mul_cm31 x y = (x.0 ⊗ y, x.1 ⊗ y)

module _ (im : IndexMap) where
  abbrev pub Grouped : Type 0
  Grouped = im.Map (CirclePoint Qm31) (List NumeratorData)

  unfoldable pub group_column : ℕ → List (PointSample × Qm31) → Grouped → Grouped
  group_column column_index [] grouped = grouped
  group_column column_index ((sample, rand_pow) ∷ samples) grouped =
      group_column column_index samples (
        im.entry_push (CirclePoint Qm31) NumeratorData point_discrete grouped sample.point (record {
          column_index = column_index;
          sample_value = sample.value;
          random_coeff = rand_pow;
        }))

  unfoldable pub group_columns : ℕ → List (List (PointSample × Qm31)) → Grouped → Grouped
  unfolding group_column
  group_columns column_index [] grouped = grouped
  group_columns column_index (samples ∷ columns) grouped =
      group_columns (suc column_index) columns (group_column column_index samples grouped)

  unfoldable pub new_vec : List (List (PointSample × Qm31)) → List ColumnSampleBatch
  unfolding group_columns
  new_vec samples_with_rand =
      map
        (λ (entry : CirclePoint Qm31 × List NumeratorData). record {
          point = entry.0;
          cols_vals_randpows = entry.1;
        })
        (im.into_iter (CirclePoint Qm31) NumeratorData
          (group_columns 0 samples_with_rand (im.default (CirclePoint Qm31) NumeratorData)))

unfoldable pub column_line_coeffs : List ColumnSampleBatch → Option (List (List Coeffs))
column_line_coeffs sample_batches =
    collect
      (λ (batch : ColumnSampleBatch).
        collect
          (λ (n : NumeratorData).
            complex_conjugate_line_coeffs (record { point = batch.point; value = n.sample_value })
              n.random_coeff)
          batch.cols_vals_randpows)
      sample_batches

unfoldable pub quotient_constants : List ColumnSampleBatch → Option QuotientConstants
unfolding column_line_coeffs
quotient_constants sample_batches =
    column_line_coeffs sample_batches >>= λ coeffs. some (record { line_coeffs = coeffs })

-- The equation of the line through a point and its conjugate.
unfoldable pub denominator : CirclePoint M31 → CirclePoint Qm31 → Cm31
denominator domain_point sample_point =
    let prx = sample_point.x.0 in
    let pry = sample_point.y.0 in
    let pix = sample_point.x.1 in
    let piy = sample_point.y.1 in
    (prx ⊖ from domain_point.x) ⊗ piy ⊖ (pry ⊖ from domain_point.y) ⊗ pix

unfoldable pub denominator_inverses : List (CirclePoint Qm31) → CirclePoint M31 → Option (List Cm31)
unfolding denominator
denominator_inverses sample_points domain_point =
    batch_inverse (map (denominator domain_point) sample_points)

-- The sum over the columns of a batch.
unfoldable pub accumulate_numerator :
    List (NumeratorData × Coeffs) → List M31 → CirclePoint M31 → Qm31 → Option Qm31
accumulate_numerator [] queried_values_at_row domain_point numerator = some numerator
accumulate_numerator ((n, (a, b, c)) ∷ columns) queried_values_at_row domain_point numerator = do
  queried ← get_elem? queried_values_at_row n.column_index
  let value = by_base c queried
  let linear_term = by_base a domain_point.y ⊕ b
  accumulate_numerator columns queried_values_at_row domain_point
      (numerator ⊕ (value ⊖ linear_term))

-- The sum without the linear terms.
unfoldable pub partial_sum : List (NumeratorData × Coeffs) → List M31 → Qm31 → Option Qm31
partial_sum [] queried_values_at_row numerator = some numerator
partial_sum ((n, (a, b, c)) ∷ columns) queried_values_at_row numerator = do
  queried ← get_elem? queried_values_at_row n.column_index
  partial_sum columns queried_values_at_row (numerator ⊕ (by_base c queried ⊖ b))

module _ (it : Itertools) where
  -- The sum over the batches.
  unfoldable pub accumulate_batches :
      List ColumnSampleBatch
      → List (List Coeffs)
      → List Cm31
      → List M31
      → CirclePoint M31
      → Qm31
      → Option Qm31
  unfolding accumulate_numerator mul_cm31
  accumulate_batches (batch ∷ batches) (coeffs ∷ line_coeffs) (inv ∷ inverses) row domain_point
        acc =
      do
        columns ← it.zip_eq NumeratorData Coeffs batch.cols_vals_randpows coeffs
        numerator ← accumulate_numerator columns row domain_point 𝟘
        accumulate_batches batches line_coeffs inverses row domain_point
            (acc ⊕ mul_cm31 numerator inv)
  accumulate_batches _ _ _ row domain_point acc = some acc

  unfoldable pub accumulate_row_quotients :
      List ColumnSampleBatch → List M31 → QuotientConstants → CirclePoint M31 → Option Qm31
  unfolding denominator_inverses accumulate_batches
  accumulate_row_quotients sample_batches queried_values_at_row constants domain_point = do
    let sample_points = map (λ (b : ColumnSampleBatch). b.point) sample_batches
    inverses ← denominator_inverses sample_points domain_point
    accumulate_batches sample_batches constants.line_coeffs inverses queried_values_at_row
        domain_point 𝟘

  unfoldable pub accumulate_row_partial_numerators :
      ColumnSampleBatch → List M31 → List Coeffs → Option Qm31
  unfolding partial_sum
  accumulate_row_partial_numerators batch queried_values_at_row coeffs = do
    columns ← it.zip_eq NumeratorData Coeffs batch.cols_vals_randpows coeffs
    partial_sum columns queried_values_at_row 𝟘
