-- ===== src/Fri/SparseFolding.antt =====
-- The folding of `SparseEvaluation` of crates/stwo/src/core/fri.rs. `none` is a panic.
use stwo.Prelude.{
  ℕ, ◌-◌, true, false, leb, ◌==◌, Option, some, List, [], ◌∷◌, get_elem?, assert, ◌>>=◌, ◌>>◌,
}
use stwo.Itertools.{Itertools}
use stwo.Algebra.{◌⊗◌}
use stwo.Fields.Qm31.{Qm31, qm31_ring}
use stwo.Circle.Coset as coset
use stwo.Domain as circle_domain
use stwo.Domain.{CircleDomain}
use stwo.Line as line
use stwo.Line.{LineDomain}
use stwo.Fri.Folding.{fold_coset, fold_circle_into_line}
use stwo.Fri.Sparse.{SparseEvaluation}

unfoldable pub fold_line_subsets :
    LineDomain → Qm31 → ℕ → List (List Qm31) → List ℕ → Option (List Qm31)
fold_line_subsets source_domain fold_alpha fold_step (eval ∷ evals) (initial ∷ initials) = do
  c ← coset.new (coset.index_at source_domain.coset initial) fold_step
  fold_domain ← line.new c
  folded ← fold_coset eval fold_domain fold_alpha
  rest ← fold_line_subsets source_domain fold_alpha fold_step evals initials
  some (folded ∷ rest)
fold_line_subsets source_domain fold_alpha fold_step _ _ = some []

unfoldable pub fold_line : SparseEvaluation → Qm31 → LineDomain → ℕ → Option (List Qm31)
unfolding fold_line_subsets
fold_line sparse fold_alpha source_domain fold_step =
    fold_line_subsets source_domain fold_alpha fold_step sparse.subset_evals
      sparse.subset_domain_initial_indexes

-- One subset of `fold_circle`.
unfoldable pub fold_circle_subset :
    Itertools → CircleDomain → Qm31 → ℕ → List Qm31 → ℕ → Option Qm31
fold_circle_subset it source_domain fold_alpha fold_step eval initial = do
  let fold_domain_initial = circle_domain.index_at source_domain initial
  c ← coset.new fold_domain_initial (fold_step - 1)
  buffer ← fold_circle_into_line it eval (record { half_coset = c }) fold_alpha
  elim (fold_step == 1) [
    | true ↦ get_elem? buffer 0
    | false ↦ do
      line_fold_domain ← line.new c
      fold_coset buffer line_fold_domain (fold_alpha ⊗ fold_alpha)
  ]

unfoldable pub fold_circle_subsets :
    Itertools → CircleDomain → Qm31 → ℕ → List (List Qm31) → List ℕ → Option (List Qm31)
unfolding fold_circle_subset
fold_circle_subsets it source_domain fold_alpha fold_step (eval ∷ evals) (initial ∷ initials) = do
  folded ← fold_circle_subset it source_domain fold_alpha fold_step eval initial
  rest ← fold_circle_subsets it source_domain fold_alpha fold_step evals initials
  some (folded ∷ rest)
fold_circle_subsets it source_domain fold_alpha fold_step _ _ = some []

unfoldable pub fold_circle :
    Itertools → SparseEvaluation → Qm31 → CircleDomain → ℕ → Option (List Qm31)
unfolding fold_circle_subsets
fold_circle it sparse fold_alpha source_domain fold_step = do
  assert (leb 1 fold_step)
  fold_circle_subsets it source_domain fold_alpha fold_step sparse.subset_evals
      sparse.subset_domain_initial_indexes
