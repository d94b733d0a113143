-- ===== src/Utils/Tests.antt =====
-- The orders of indices of crates/stwo/src/core/utils.rs at concrete sizes.
use stwo.Prelude.{ℕ, some, none, ◌<◌, ◌≡◌, refl, arith}
use stwo.Utils.{
  bit_reverse_index, circle_domain_index_to_coset_index, coset_index_to_circle_domain_index,
  reverse,
}
use stwo.Utils.Orders.{index_round_trip}
use stwo.Utils.Reverse.{bit_reverse_index_involution}

reversed_three : bit_reverse_index 3 4 ≡ 12
unfolding bit_reverse_index reverse
reversed_three = refl

bit_reverse_index_involution_example :
    (bit_reverse_index 3 4 < 16) × (bit_reverse_index (bit_reverse_index 3 4) 4 ≡ 3)
bit_reverse_index_involution_example = bit_reverse_index_involution 3 4 (omega arith) (omega arith)

index_round_trip_example :
    (j k : ℕ) × (circle_domain_index_to_coset_index 5 3 ≡ some j)
    × (coset_index_to_circle_domain_index 5 3 ≡ some k)
    × (j < 8)
    × (k < 8)
    × (coset_index_to_circle_domain_index j 3 ≡ some 5)
    × (circle_domain_index_to_coset_index k 3 ≡ some 5)
index_round_trip_example = index_round_trip 2 5 (omega arith) (omega arith)

-- The shift drops the only bit, and the subtraction from zero overflows.
overflow : coset_index_to_circle_domain_index 1 63 ≡ none
unfolding coset_index_to_circle_domain_index
overflow = refl
