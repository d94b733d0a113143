-- ===== src/Fields/BatchInverse/Interleaved.antt =====
-- `batch_inverse` of crates/stwo/src/core/fields/mod.rs, with four products in turn. An array is the list
-- of its entries; `none` is a panic.
use stwo.Prelude.{
  ℕ, zero, suc, ◌+◌, ◌-◌, ◌%◌, true, false, leb, ◌==◌, not, ◌||◌, Option, some, List, [], ◌∷◌, ◌++◌,
  length, get_or, set, take, drop, replicate, ◌>>=◌, assert, ◌>>◌,
}
use stwo.Algebra.{Field, field_ring, ◌⊗◌, 𝟙}
use stwo.Fields.BatchInverse.{batch_inverse_classic}

module _ {K : Type 0} ⦃f : Field K⦄ where
  -- The first pass from index i on: the entries of `dst`.
  unfoldable pub cumulative_products : ℕ → List K → List K → List K
  cumulative_products i cum_prod [] = []
  cumulative_products i cum_prod (c ∷ column) =
      let d = get_or cum_prod (i % 4) 𝟙 ⊗ c in
      d ∷ cumulative_products (suc i) (set cum_prod (i % 4) d) column

  -- The second pass, from index `count + 3` down to 4: `dst` and `tail_inverses`.
  unfoldable pub interleaved_pass : ℕ → List K → List K → List K → List K × List K
  interleaved_pass zero column dst tail_inverses = (dst, tail_inverses)
  interleaved_pass (suc count) column dst tail_inverses =
      let i = count + 4 in
      let t = get_or tail_inverses (i % 4) 𝟙 in
      interleaved_pass count column (set dst i (get_or dst count 𝟙 ⊗ t))
        (set tail_inverses (i % 4) (t ⊗ get_or column i 𝟙))

  unfoldable pub batch_inverse_in_place : List K → Option (List K)
  unfolding cumulative_products interleaved_pass
  batch_inverse_in_place column =
      let n = length column in
      elim (leb n 4 || not (n % 4 == 0)) [
        | true ↦ batch_inverse_classic column
        | false ↦
            let dst = cumulative_products 0 (replicate 4 𝟙) column in
            batch_inverse_classic (drop (n - 4) dst) >>= λ tail_inverses.
            let (dst', tail) = interleaved_pass (n - 4) column dst tail_inverses in
            some (tail ++ drop 4 dst')
      ]

  unfoldable pub batch_inverse : List K → Option (List K)
  unfolding batch_inverse_in_place
  batch_inverse column = batch_inverse_in_place column

  -- `chunks` of both slices; a chunk has at least one element.
  unfoldable pub invert_chunks : ℕ → ℕ → List K → Option (List K)
  unfolding batch_inverse_in_place
  invert_chunks zero chunk_size column = some []
  invert_chunks (suc chunks) chunk_size column = do
    first ← batch_inverse_in_place (take chunk_size column)
    rest ← invert_chunks chunks chunk_size (drop chunk_size column)
    some (first ++ rest)

  unfoldable pub batch_inverse_chunked : List K → ℕ → Option (List K)
  unfolding invert_chunks
  batch_inverse_chunked column chunk_size = do
    assert (not (chunk_size == 0))
    invert_chunks (length column) chunk_size column
