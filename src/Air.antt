-- ===== src/Air.antt =====
-- crates/stwo/src/core/air: the components of an AIR as the verifier sees them, and the accumulator of
-- their constraints. `none` is a panic.
use stwo.Prelude.{
  ℕ, zero, suc, Bool, true, false, ◌==◌, if◌then◌else◌, Option, none, some, List, [], ◌∷◌, length,
  get_elem?, set, replicate, assert, ◌>>=◌, ◌>>◌,
}
use stwo.Algebra.{◌⊕◌, ◌⊗◌, 𝟘}
use stwo.Fields.Qm31.{Qm31, qm31_ring}
use stwo.Circle.{CirclePoint}
use stwo.Merkle.{maximum}
use stwo.Pcs.TreeVec.{TreeVec, ColumnVec, zip_lists, collect, concat_cols}

abbrev pub preprocessed_trace_idx : ℕ
preprocessed_trace_idx = 0

pub record PointEvaluationAccumulator : Type 0 where
  pub random_coeff : Qm31
  pub accumulation : Qm31

unfoldable pub new_accumulator : Qm31 → PointEvaluationAccumulator
new_accumulator random_coeff = record { random_coeff = random_coeff; accumulation = 𝟘 }

unfoldable pub accumulate : PointEvaluationAccumulator → Qm31 → PointEvaluationAccumulator
accumulate acc evaluation = record acc {
  accumulation = acc.accumulation ⊗ acc.random_coeff ⊕ evaluation;
}

unfoldable pub finalize : PointEvaluationAccumulator → Qm31
finalize acc = acc.accumulation

-- The trait `Component`. A method may panic.
pub record Component : Type 0 where
  pub n_constraints : ℕ
  pub max_constraint_log_degree_bound : ℕ
  pub trace_log_degree_bounds : TreeVec (ColumnVec ℕ)
  pub mask_points : CirclePoint Qm31 → ℕ → Option (TreeVec (ColumnVec (List (CirclePoint Qm31))))
  pub preprocessed_column_indices : ColumnVec ℕ
  pub evaluate_constraint_quotients_at_point :
      CirclePoint Qm31
      → TreeVec (ColumnVec (List Qm31))
      → PointEvaluationAccumulator
      → ℕ
      → Option PointEvaluationAccumulator

pub record Components : Type 0 where
  pub components : List Component
  pub n_preprocessed_columns : ℕ

-- An assignment to the element at an index, which panics out of range.
abbrev pub assign : {A : Type 0} → List A → ℕ → A → Option (List A)
assign xs i x = get_elem? xs i >>= λ old. some (set xs i x)

abbrev pub max_of : List ℕ → Option ℕ
max_of [] = none
max_of (x ∷ xs) = some (maximum (x ∷ xs))

unfoldable pub composition_log_degree_bound : Components → Option ℕ
composition_log_degree_bound c =
    max_of (stwo.Prelude.map (λ (k : Component). k.max_constraint_log_degree_bound) c.components)

unfoldable pub mark_columns :
    CirclePoint Qm31
    → List ℕ
    → ColumnVec (List (CirclePoint Qm31))
    → Option (ColumnVec (List (CirclePoint Qm31)))
mark_columns point [] columns = some columns
mark_columns point (idx ∷ indices) columns =
    assign columns idx (point ∷ []) >>= λ columns'. mark_columns point indices columns'

unfoldable pub mark_components :
    CirclePoint Qm31
    → List Component
    → ColumnVec (List (CirclePoint Qm31))
    → Option (ColumnVec (List (CirclePoint Qm31)))
unfolding mark_columns
mark_components point [] columns = some columns
mark_components point (component ∷ components) columns =
    mark_columns point component.preprocessed_column_indices columns >>= λ columns'.
    mark_components point components columns'

unfoldable pub mask_points :
    Components
    → CirclePoint Qm31
    → ℕ
    → Bool
    → Option (TreeVec (ColumnVec (List (CirclePoint Qm31))))
unfolding mark_components
mask_points c point max_log_degree_bound include_all_preprocessed_columns = do
  masks ← collect (λ (k : Component). k.mask_points point max_log_degree_bound) c.components
  preprocessed ← elim include_all_preprocessed_columns [
    | true ↦ some (replicate c.n_preprocessed_columns (point ∷ []))
    | false ↦ mark_components point c.components (replicate c.n_preprocessed_columns [])
  ]
  assign (concat_cols masks) preprocessed_trace_idx preprocessed

unfoldable pub evaluate_components :
    CirclePoint Qm31
    → TreeVec (ColumnVec (List Qm31))
    → ℕ
    → List Component
    → PointEvaluationAccumulator
    → Option PointEvaluationAccumulator
evaluate_components point mask_values max_log_degree_bound [] acc = some acc
evaluate_components point mask_values max_log_degree_bound (component ∷ components) acc =
    component.evaluate_constraint_quotients_at_point point mask_values acc max_log_degree_bound
    >>= λ acc'. evaluate_components point mask_values max_log_degree_bound components acc'

unfoldable pub eval_composition_polynomial_at_point :
    Components → CirclePoint Qm31 → TreeVec (ColumnVec (List Qm31)) → Qm31 → ℕ → Option Qm31
unfolding evaluate_components finalize new_accumulator
eval_composition_polynomial_at_point c point mask_values random_coeff max_log_degree_bound =
    evaluate_components point mask_values max_log_degree_bound c.components
      (new_accumulator random_coeff)
    >>= λ acc. some (finalize acc)

-- The sizes of the preprocessed columns that are known so far.
pub record Sizes : Type 0 where
  pub log_sizes : ColumnVec ℕ
  pub visited : ColumnVec Bool

-- The columns of one component; a column that is already visited must have the same size.
unfoldable pub visit_columns : List (ℕ × ℕ) → Sizes → Option Sizes
visit_columns [] sizes = some sizes
visit_columns ((column_index, log_size) ∷ columns) sizes = do
  column_log_size ← get_elem? sizes.log_sizes column_index
  visited ← get_elem? sizes.visited column_index
  sizes' ← elim visited [
    | true ↦ assert (column_log_size == log_size) >> some sizes
    | false ↦ some (record {
      log_sizes = set sizes.log_sizes column_index log_size;
      visited = set sizes.visited column_index true;
    })
  ]
  visit_columns columns sizes'

unfoldable pub visit_components : List Component → Sizes → Option Sizes
unfolding visit_columns
visit_components [] sizes = some sizes
visit_components (component ∷ components) sizes = do
  log_sizes ← get_elem? component.trace_log_degree_bounds preprocessed_trace_idx
  sizes' ← visit_columns (zip_lists component.preprocessed_column_indices log_sizes) sizes
  visit_components components sizes'

abbrev pub all_true : List Bool → Bool
all_true [] = true
all_true (b ∷ bs) = if b then all_true bs else false

unfoldable pub column_log_sizes : Components → Option (TreeVec (ColumnVec ℕ))
unfolding visit_components
column_log_sizes c = do
  sizes ← visit_components c.components (record {
    log_sizes = replicate c.n_preprocessed_columns 0;
    visited = replicate c.n_preprocessed_columns false;
  })
  assert (all_true sizes.visited)
  assign
      (concat_cols (stwo.Prelude.map (λ (k : Component). k.trace_log_degree_bounds) c.components))
      preprocessed_trace_idx sizes.log_sizes
