-- ===== src/Fri/Verifier/Sampling.antt =====
-- The query stage of FRI (crates/stwo/src/core/fri.rs).
use stwo.Prelude.{ℕ, ◌^◌, ◌≤◌, ◌<◌, ◌≡◌, refl, some, List, length, All}
use stwo.Queries.{Queries, draw_queries}
use stwo.Queries as queries
use stwo.Queries.Draw.{draw_queries_returns}
use stwo.Queries.Order.{IsAscending, from_iter-IsAscending, from_iter-All}
use stwo.Domain as circle_domain
use stwo.Fri.Verifier.{MerkleChannel, FriVerifier, sample_query_positions}

module _ {Hash : Type 0} (c : MerkleChannel Hash)
    (words_drawn : (channel : c.State) → 0 < length (c.draw_u32s channel).0) where
  -- If each draw of the channel yields a word, the domain of the first layer has a log size below 32 and
  -- the configuration asks for at least one query, then as many draws as queries are enough for
  -- `sample_query_positions` to return positions. They are in ascending order without repetition and lie in the domain of the first layer, and the verifier keeps
  -- them with the log size of that domain for the decommitment.
  pub sample_query_positions_returns :
      (fuel : ℕ) (v : FriVerifier Hash) (channel : c.State)
      → circle_domain.log_size v.first_layer.column_commitment_domain < 32
      → 0 < v.config.n_queries
      → v.config.n_queries ≤ fuel
      → (positions : List ℕ) × (v' : FriVerifier Hash) × (channel' : c.State)
        × (sample_query_positions c fuel v channel ≡ some (positions, v', channel'))
        × IsAscending positions
        × All (λ p. p < 2 ^ circle_domain.log_size v.first_layer.column_commitment_domain) positions
        × (v'.queries
            ≡ some (record {
              positions = positions;
              log_domain_size = circle_domain.log_size v.first_layer.column_commitment_domain;
            }))
  unfolding sample_query_positions queries.new
  sample_query_positions_returns fuel v channel small h k =
      let log_size = circle_domain.log_size v.first_layer.column_commitment_domain in
      let (drawn, channel', e, len, below) =
        draw_queries_returns c.draw_u32s words_drawn channel log_size v.config.n_queries fuel small
          h k in
      (
        (queries.new drawn log_size).positions,
        record v { queries = some (queries.new drawn log_size) },
        channel',
        rw (e, sample_query_positions) refl,
        from_iter-IsAscending drawn,
        from_iter-All (λ p. p < 2 ^ log_size) drawn below,
        refl,
      )
