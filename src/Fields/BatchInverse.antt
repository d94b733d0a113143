-- ===== src/Fields/BatchInverse.antt =====
-- `batch_inverse_classic` of crates/stwo/src/core/fields/mod.rs: the inverses of a column with one
-- inversion. `none` is the panic of an inversion of zero.
pub mod Sound
pub mod Interleaved
use stwo.Prelude.{Option, none, some, List, [], ◌∷◌, ◌>>=◌}
use stwo.Algebra.{Field, field_ring, inverse, ◌⊗◌, 𝟙}

module _ {K : Type 0} ⦃f : Field K⦄ where
  -- The first pass behind the entry `prev`: each entry is the one before it times the element.
  unfoldable pub first_pass : K → List K → List K
  first_pass prev [] = []
  first_pass prev (c ∷ column) = let d = prev ⊗ c in d ∷ first_pass d column

  unfoldable pub last_entry : K → List K → K
  last_entry d [] = d
  last_entry d (x ∷ dst) = last_entry x dst

  -- The second pass, from the last entry down: `prev` stands before `dst` in the array. It returns
  -- the new entries and `curr_inverse`.
  unfoldable pub second_pass : K → List K → List K → K → List K × K
  second_pass prev (d ∷ dst) (c ∷ column) curr_inverse =
      let (out, curr) = second_pass d dst column curr_inverse in (prev ⊗ curr ∷ out, curr ⊗ c)
  second_pass prev _ _ curr_inverse = ([], curr_inverse)

  unfoldable pub batch_inverse_classic : List K → Option (List K)
  unfolding first_pass last_entry second_pass
  batch_inverse_classic [] = some []
  batch_inverse_classic (first ∷ column) =
      let dst = first_pass first column in
      inverse (last_entry first dst) >>= λ curr_inverse.
      let (out, curr) = second_pass first dst column curr_inverse in some (curr ∷ out)
