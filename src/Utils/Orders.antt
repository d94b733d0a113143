-- ===== src/Utils/Orders.antt =====
-- The conversions between the index in a circle domain and the index in its coset
-- (crates/stwo/src/core/utils.rs) are inverse to each other.
use stwo.Prelude.{
  ℕ, suc, ◌+◌, ◌-◌, ◌*◌, ◌/◌, ◌%◌, ◌^◌, ◌<◌, ◌≡◌, ap, ◌∙◌, sym, arith, some, if◌then◌else◌, ltb,
  ◌==◌,
}
use stwo.Prelude.Bits.{two_pow-suc, two_pow-pos, two_pow-add}
use stwo.Utils.{shift_left, circle_domain_index_to_coset_index, coset_index_to_circle_domain_index}

two_pow-lt : (k : ℕ) → k < 64 → 2 ^ k < 2 ^ 64
two_pow-lt k h = grind (arith, split, two_pow-pos k, two_pow-pos (63 - k))
  where
    split : 2 * (2 ^ (63 - k) * 2 ^ k) ≡ 2 ^ 64
    split =
        ap (λ t. 2 * t) (sym (two_pow-add (63 - k) k))
        ∙ ap (λ (t : ℕ). 2 * 2 ^ t) {x = 63 - k + k} {y = 63} (omega arith)

shift_left-one : (k : ℕ) → k < 64 → shift_left 1 k ≡ some (2 ^ k)
unfolding shift_left
shift_left-one k h = ground (arith, two_pow-lt k h)

shift_left-two : (k : ℕ) → k < 63 → shift_left 2 k ≡ some (2 * 2 ^ k)
unfolding shift_left
shift_left-two k h = ground (arith, two_pow-lt (suc k) (omega arith), two_pow-suc k)

-- The conversions on a domain of n points.
abbrev pub coset_index : ℕ → ℕ → ℕ
coset_index n i = if ltb i (n / 2) then i * 2 else (n - 1 - i) * 2 + 1

abbrev circle_index : ℕ → ℕ → ℕ
circle_index n i = if i % 2 == 0 then i / 2 else (2 * n - i) / 2

pub coset_index_lem :
    (l i : ℕ)
    → l < 64
    → i < 2 ^ l
    → circle_domain_index_to_coset_index i l ≡ some (coset_index (2 ^ l) i)
unfolding circle_domain_index_to_coset_index
coset_index_lem l i small h = rw (shift_left-one l small) (ground arith)

circle_index_lem :
    (l i : ℕ)
    → l < 63
    → i < 2 ^ l
    → coset_index_to_circle_domain_index i l ≡ some (circle_index (2 ^ l) i)
unfolding coset_index_to_circle_domain_index
circle_index_lem l i small h = rw (shift_left-two l small) (ground arith)

inverse :
    (n i : ℕ)
    → i < 2 * n
    → (coset_index (2 * n) i < 2 * n)
      × (circle_index (2 * n) i < 2 * n)
      × (circle_index (2 * n) (coset_index (2 * n) i) ≡ i)
      × (coset_index (2 * n) (circle_index (2 * n) i) ≡ i)
inverse n i h = (ground arith, ground arith, ground arith, ground arith)

-- On a domain of 2 ^ (l + 1) points, where l + 1 is below 63 so that no shift overflows 64 bits, both
-- conversions of an index give one below the size of the domain, and each is the inverse of the other.
pub index_round_trip :
    (l i : ℕ)
    → suc l < 63
    → i < 2 ^ suc l
    → (j k : ℕ) × (circle_domain_index_to_coset_index i (suc l) ≡ some j)
      × (coset_index_to_circle_domain_index i (suc l) ≡ some k)
      × (j < 2 ^ suc l)
      × (k < 2 ^ suc l)
      × (coset_index_to_circle_domain_index j (suc l) ≡ some i)
      × (circle_domain_index_to_coset_index k (suc l) ≡ some i)
index_round_trip l i small h =
    let size = two_pow-suc l in
    let n = 2 ^ suc l in
    let (below_j, below_k, j_back, k_back) = inverse (2 ^ l) i (omega arith) in
    let j_below : coset_index n i < n = rw size below_j in
    let k_below : circle_index n i < n = rw size below_k in
    (
      coset_index n i,
      circle_index n i,
      coset_index_lem (suc l) i (omega arith) h,
      circle_index_lem (suc l) i small h,
      j_below,
      k_below,
      circle_index_lem (suc l) (coset_index n i) small j_below ∙ ap some (rw size j_back),
      coset_index_lem (suc l) (circle_index n i) (omega arith) k_below ∙ ap some (rw size k_back),
    )
