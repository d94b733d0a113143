-- ===== src/Queries.antt =====
-- crates/stwo/src/core/queries.rs: the positions that the verifier asks for. `none` is a failed
-- assertion. A `usize` has 64 bits, and shifting it by as many panics.
pub mod Draw
pub mod Order
mod Tests
use stwo.Prelude.{
  ℕ, zero, suc, ◌+◌, ◌-◌, ◌/◌, ◌%◌, ◌^◌, Bool, true, false, leb, ltb, ◌==◌, if◌then◌else◌, Option,
  none, some, List, [], ◌∷◌, ◌++◌, map, length, assert, ◌>>=◌, ◌>>◌,
}
use Prim.Native.Nat.{bit_and}
use stwo.Itertools.{Itertools}

pub record Queries : Type 0 where
  pub positions : List ℕ
  pub log_domain_size : ℕ

-- Insertion into a `BTreeSet`, as the ascending list of its elements.
unfoldable pub btree_insert : ℕ → List ℕ → List ℕ
btree_insert x [] = x ∷ []
btree_insert x (y ∷ ys) =
    let rest = btree_insert x ys in
    if ltb x y then x ∷ y ∷ ys else (if x == y then y ∷ ys else y ∷ rest)

unfoldable pub btree_from_iter : List ℕ → List ℕ
unfolding btree_insert
btree_from_iter [] = []
btree_from_iter (x ∷ xs) = btree_insert x (btree_from_iter xs)

unfoldable pub new : List ℕ → ℕ → Queries
unfolding btree_from_iter
new raw_positions log_domain_size = record {
  positions = btree_from_iter raw_positions;
  log_domain_size = log_domain_size;
}

unfoldable pub fold : Itertools → Queries → ℕ → Option Queries
fold it q n_folds = do
  assert (leb n_folds q.log_domain_size)
  assert (ltb n_folds 64)
  some (record {
    positions = it.dedup_by ℕ ◌==◌ (map (λ p. p / 2 ^ n_folds) q.positions);
    log_domain_size = q.log_domain_size - n_folds;
  })

-- The inner loop of `draw_queries`, over the words of one draw: whether it returns, and the
-- positions.
unfoldable pub draw_words : ℕ → ℕ → List ℕ → List ℕ → Bool × List ℕ
draw_words query_mask n_queries raw_positions [] = (false, raw_positions)
draw_words query_mask n_queries raw_positions (word ∷ words) =
    let pushed = raw_positions ++ bit_and word query_mask ∷ [] in
    let rest = draw_words query_mask n_queries pushed words in
    if length pushed == n_queries then (true, pushed) else rest

-- `draw_queries`; `draw_u32s` is that of the channel. `none`: the loop has not returned after `fuel`
-- draws, or the mask of 32 bits is shifted by 32 or more, which panics.
module _ {Channel : Type 0} (draw_u32s : Channel → List ℕ × Channel) where
  unfoldable pub draw_loop : ℕ → ℕ → ℕ → Channel → List ℕ → Option (List ℕ × Channel)
  unfolding draw_words
  draw_loop zero query_mask n_queries channel raw_positions = none
  draw_loop (suc fuel) query_mask n_queries channel raw_positions =
      let (random_words, channel') = draw_u32s channel in
      let (done, pushed) = draw_words query_mask n_queries raw_positions random_words in
      elim done [
        | true ↦ some (pushed, channel')
        | false ↦ draw_loop fuel query_mask n_queries channel' pushed
      ]

  unfoldable pub draw_queries : ℕ → Channel → ℕ → ℕ → Option (List ℕ × Channel)
  unfolding draw_loop
  draw_queries fuel channel log_domain_size n_queries = elim (ltb log_domain_size 32) [
    | true ↦ draw_loop fuel (2 ^ log_domain_size - 1) n_queries channel []
    | false ↦ none
  ]
