-- ===== src/Fri/Folding.antt =====
-- The folding routines of crates/stwo/src/core/fri.rs. `none` is a panic.
pub mod Pairs
pub mod Evaluations
pub mod Polynomials
mod Tests
use stwo.Prelude.{
  ℕ, zero, suc, ◌*◌, ◌/◌, ◌^◌, leb, Option, some, List, [], ◌∷◌, length, get_elem?, set, assert,
  ◌>>=◌, ◌>>◌,
}
use stwo.Itertools.{Itertools}
use stwo.Algebra.{field_ring, inverse, ◌⊕◌, ◌⊗◌}
use stwo.Fields.M31.Carrier.{M31, m31_ring}
use stwo.Fields.M31.Inverse.{m31_field}
use stwo.Fields.Qm31.{Qm31, qm31_ring}
use stwo.Fft.{ibutterfly}
use stwo.Fft.Inverse.{by_base}
use stwo.Utils.{bit_reverse_index}
use stwo.Domain as circle_domain
use stwo.Domain.{CircleDomain}
use stwo.Line as line
use stwo.Line.{LineDomain}

-- f0 + alpha * f1 for the outcome (f0, f1) of the inverse butterfly.
unfoldable pub fold_pair : Qm31 → Qm31 × Qm31 → M31 → Option Qm31
unfolding ibutterfly
fold_pair alpha f x =
    inverse x >>= λ itwid. let g = ibutterfly by_base f itwid in some (g.0 ⊕ alpha ⊗ g.1)

unfoldable pub fold_line_pairs : LineDomain → Qm31 → ℕ → List (Qm31 × Qm31) → Option (List Qm31)
unfolding fold_pair
fold_line_pairs domain alpha i [] = some []
fold_line_pairs domain alpha i (f ∷ pairs) = do
  let x = line.at domain (bit_reverse_index (i * 2) (line.log_size domain))
  folded ← fold_pair alpha f x
  rest ← fold_line_pairs domain alpha (suc i) pairs
  some (folded ∷ rest)

unfoldable pub fold_line :
    Itertools → List Qm31 → LineDomain → Qm31 → Option (LineDomain × List Qm31)
unfolding fold_line_pairs
fold_line it eval domain alpha = do
  assert (leb 2 (length eval))
  folded_values ← fold_line_pairs domain alpha 0 (it.tuples Qm31 eval)
  double ← line.double domain
  some (double, folded_values)

-- The inner loop of `fold_coset` from index j on, `count` rounds, each of which writes to an index
-- that has been read.
unfoldable pub fold_coset_pass : LineDomain → Qm31 → ℕ → ℕ → List Qm31 → Option (List Qm31)
unfolding fold_pair
fold_coset_pass domain alpha zero j eval = some eval
fold_coset_pass domain alpha (suc count) j eval = do
  let x = line.at domain (bit_reverse_index j (line.log_size domain))
  f0 ← get_elem? eval j
  f1 ← get_elem? eval (suc j)
  folded ← fold_pair alpha (f0, f1) x
  fold_coset_pass domain alpha count (suc (suc j)) (set eval (j / 2) folded)

-- The outer loop, for the rounds that are left.
unfoldable pub fold_coset_loop : ℕ → LineDomain → Qm31 → List Qm31 → Option (List Qm31)
unfolding fold_coset_pass
fold_coset_loop zero domain alpha eval = some eval
fold_coset_loop (suc rounds) domain alpha eval = do
  eval' ← fold_coset_pass domain alpha (2 ^ rounds) 0 eval
  domain' ← line.double domain
  fold_coset_loop rounds domain' (alpha ⊗ alpha) eval'

unfoldable pub fold_coset : List Qm31 → LineDomain → Qm31 → Option Qm31
unfolding fold_coset_loop
fold_coset eval domain alpha =
    fold_coset_loop (line.log_size domain) domain alpha eval >>= λ folded. get_elem? folded 0

unfoldable pub fold_circle_pairs : CircleDomain → Qm31 → ℕ → List (Qm31 × Qm31) → Option (List Qm31)
fold_circle_pairs src_domain alpha i [] = some []
fold_circle_pairs src_domain alpha i (f ∷ pairs) = do
  let p =
      circle_domain.at src_domain (bit_reverse_index (i * 2) (circle_domain.log_size src_domain))
  itwid ← inverse p.y
  let g = ibutterfly by_base f itwid
  rest ← fold_circle_pairs src_domain alpha (suc i) pairs
  some ((alpha ⊗ g.1 ⊕ g.0) ∷ rest)

unfoldable pub fold_circle_into_line :
    Itertools → List Qm31 → CircleDomain → Qm31 → Option (List Qm31)
unfolding fold_circle_pairs
fold_circle_into_line it src src_domain alpha =
    fold_circle_pairs src_domain alpha 0 (it.tuples Qm31 src)
