-- ===== src/Queries/Tests.antt =====
-- The queries (crates/stwo/src/core/queries.rs) of a channel that draws two words at a time.
use stwo.Prelude.{
  ℕ, ◌+◌, ◌-◌, ◌/◌, ◌^◌, ◌<◌, none, some, List, [], ◌∷◌, ◌≡◌, All, length, map, arith,
}
use stwo.Itertools.Reference.{reference}
use stwo.Queries.{fold, new, draw_queries}
use stwo.Queries.Draw.{draw_queries_returns, draw_queries_diverges}
use stwo.Queries.Order.{fold-new}

abbrev draw : ℕ → List ℕ × ℕ
draw n = (n ∷ (n + 5) ∷ [], n + 10)

draw_queries_returns_example :
    (positions : List ℕ) × (channel' : ℕ) × (draw_queries draw 3 7 4 3 ≡ some (positions, channel'))
    × (length positions ≡ 3)
    × All (λ p. p < 2 ^ 4) positions
draw_queries_returns_example =
    draw_queries_returns draw (λ channel. omega arith) 7 4 3 3 (omega arith) (omega arith)
      (omega arith)

draw_queries_diverges_example : draw_queries draw 1000 4 7 0 ≡ none
draw_queries_diverges_example = draw_queries_diverges draw 1000 7 4

fold-new_example :
    fold reference (new (13 ∷ 2 ∷ 12 ∷ 3 ∷ []) 4) 2
    ≡ some (new (map (λ p. p / 2 ^ 2) (13 ∷ 2 ∷ 12 ∷ 3 ∷ [])) (4 - 2))
fold-new_example = fold-new reference (13 ∷ 2 ∷ 12 ∷ 3 ∷ []) 4 2 (omega arith) (omega arith)
