-- ===== src/Utils.antt =====
-- crates/stwo/src/core/utils.rs: orders of indices. A `usize` has 64 bits.
pub mod Reverse
pub mod Orders
mod Tests
use stwo.Prelude.{
  ℕ, zero, suc, ◌+◌, ◌-◌, ◌*◌, ◌/◌, ◌%◌, ◌^◌, ◌==◌, ltb, leb, if◌then◌else◌, Option, none, some,
  assert, ◌>>=◌, ◌>>◌,
}

-- The low `w` bits of `i`, the lowest first.
unfoldable pub reverse : ℕ → ℕ → ℕ
reverse zero i = 0
reverse (suc w) i = i % 2 * 2 ^ w + reverse w (i / 2)

unfoldable pub bit_reverse_index : ℕ → ℕ → ℕ
unfolding reverse
bit_reverse_index i log_size = if log_size == 0 then i else reverse 64 i / 2 ^ (64 - log_size)

-- `a << k` on 64 bits. `none`: the shift is not smaller than the width, which panics.
unfoldable pub shift_left : ℕ → ℕ → Option ℕ
shift_left a k = if ltb k 64 then some (a * 2 ^ k % 2 ^ 64) else none

-- `none`: a shift or a subtraction overflows.
unfoldable pub circle_domain_index_to_coset_index : ℕ → ℕ → Option ℕ
unfolding shift_left
circle_domain_index_to_coset_index circle_index log_domain_size = do
  n ← shift_left 1 log_domain_size
  if ltb circle_index (n / 2)
      then some (circle_index * 2)
      else assert (leb circle_index (n - 1)) >> some ((n - 1 - circle_index) * 2 + 1)

unfoldable pub coset_index_to_circle_domain_index : ℕ → ℕ → Option ℕ
unfolding shift_left
coset_index_to_circle_domain_index coset_index log_domain_size =
    if coset_index % 2 == 0 then some (coset_index / 2) else (do
      n ← shift_left 2 log_domain_size
      assert (leb coset_index n)
      some ((n - coset_index) / 2))
