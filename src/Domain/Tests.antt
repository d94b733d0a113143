-- ===== src/Domain/Tests.antt =====
-- The domains of crates/stwo/src/core/poly/circle at concrete sizes.
use stwo.Prelude.{ℕ, ◌≡◌, arith, some, true}
use stwo.Circle.Coset.{index_at as coset_index_at}
use stwo.Utils.{circle_domain_index_to_coset_index}
use stwo.Domain.{CircleDomain, CanonicCoset, index_at, new, circle_domain, is_canonic}
use stwo.Domain.Canonic.{circle_domain-index}

circle_domain-index_example :
    (c : CanonicCoset) × (d : CircleDomain) × (j : ℕ) × (new 3 ≡ some c)
    × (circle_domain c ≡ some d)
    × (is_canonic d ≡ true)
    × (circle_domain_index_to_coset_index 5 3 ≡ some j)
    × (index_at d 5 ≡ coset_index_at c.coset j)
circle_domain-index_example = circle_domain-index 2 5 (omega arith) (omega arith)
