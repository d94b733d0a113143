-- ===== src/Pcs/Positions.antt =====
-- crates/stwo/src/core/pcs/utils.rs: positions in the preprocessed tree, and the size of the lifting
-- domain. `none` is a failed assertion.
use stwo.Prelude.{
  ℕ, ◌+◌, ◌-◌, ◌*◌, ◌/◌, ◌%◌, ◌^◌, leb, ltb, ◌==◌, if◌then◌else◌, Option, none, some, List, [], map,
  assert, ◌>>◌,
}
use stwo.Pcs.{PcsConfig}

-- `pos >> 1 << up` and `pos >> down << 1`, with the lowest bit of `pos` kept; the shifts fit a word.
unfoldable pub prepare_preprocessed_query_positions : List ℕ → ℕ → ℕ → List ℕ
prepare_preprocessed_query_positions query_positions max_log_size pp_max_log_size =
    if pp_max_log_size == 0
    then []
    else if ltb max_log_size pp_max_log_size
    then map (λ pos. pos / 2 * 2 ^ (pp_max_log_size - max_log_size + 1) + pos % 2) query_positions
    else map (λ pos. pos / 2 ^ (max_log_size - pp_max_log_size + 1) * 2 + pos % 2) query_positions

unfoldable pub get_lifting_log_size : PcsConfig → ℕ → Option ℕ
get_lifting_log_size config log_trace_size =
    let lifting_log_size : ℕ = elim config.lifting_log_size [
      | none ↦ log_trace_size
      | some size ↦ size
    ] in
    assert (leb log_trace_size lifting_log_size) >> some lifting_log_size
