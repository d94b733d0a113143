-- ===== src/Utils/Reverse.antt =====
-- Bit reversal of crates/stwo/src/core/utils.rs is an involution on the indices of its size.
use stwo.Prelude.{
  ℕ, zero, suc, ◌+◌, ◌-◌, ◌*◌, ◌/◌, ◌%◌, ◌^◌, ◌<◌, ◌≤◌, ◌≡◌, ◌⊎◌, inl, inr, refl, sym, ap, ap₂, ◌∙◌,
  arith, ◌==◌,
}
use stwo.Prelude.{false, Bool-cases}
use stwo.Prelude.Bits.{two_pow-pos, two_pow-suc, two_pow-add}
use native.Mathlib.Nat.{mul-div_cancel}
use stwo.Utils.{reverse, bit_reverse_index}

parity : (i : ℕ) → (i % 2 ≡ 0) ⊎ (i % 2 ≡ 1)
parity i = elim (Bool-cases (i % 2 == 0)) [
  | inl h ↦ inl (ground arith)
  | inr h ↦ inr (ground arith)
]

pub reverse_lt : (w i : ℕ) → reverse w i < 2 ^ w
unfolding reverse
reverse_lt zero i = omega arith
reverse_lt (suc w) i =
    let l = reverse_lt w (i / 2) in
    let e = two_pow-suc w in
    elim (parity i) [ inl h ↦ rw h (omega arith) | inr h ↦ rw h (omega arith) ]

mul_swap : (u v : ℕ) → u * (2 * v) ≡ 2 * (u * v)
mul_swap u v = grind arith

-- The top bit of the argument is the lowest of the result.
reverse_top :
    (w b r : ℕ) → b < 2 → r < 2 ^ w → reverse (suc w) (b * 2 ^ w + r) ≡ 2 * reverse w r + b
unfolding reverse
reverse_top zero b r hb hr = omega arith
reverse_top (suc w) b r hb hr =
    ap₂ (λ u v. u * 2 ^ suc w + reverse (suc w) v) bit rest
    ∙ ap (λ t. r % 2 * 2 ^ suc w + t) (reverse_top w b (r / 2) hb (omega (arith, two_pow-suc w)))
    ∙ regroup (r % 2) (reverse w (r / 2))
  where
    twice : b * 2 ^ suc w ≡ 2 * (b * 2 ^ w)
    twice = ap (λ t. b * t) (two_pow-suc w) ∙ mul_swap b (2 ^ w)

    bit : (b * 2 ^ suc w + r) % 2 ≡ r % 2
    bit = rw twice (omega arith)

    rest : (b * 2 ^ suc w + r) / 2 ≡ b * 2 ^ w + r / 2
    rest = rw twice (omega arith)

    regroup : (u v : ℕ) → u * 2 ^ suc w + (2 * v + b) ≡ 2 * (u * 2 ^ w + v) + b
    regroup u v = rw (two_pow-suc w) (rw (mul_swap u (2 ^ w)) (omega arith))

reverse-reverse : (w i : ℕ) → i < 2 ^ w → reverse w (reverse w i) ≡ i
unfolding reverse
reverse-reverse zero i h = omega arith
reverse-reverse (suc w) i h =
    reverse_top w (i % 2) (reverse w (i / 2)) (omega arith) (reverse_lt w (i / 2))
    ∙ ap (λ t. 2 * t + i % 2) (reverse-reverse w (i / 2) (omega (arith, two_pow-suc w)))
    ∙ omega arith

reverse-zero : (w : ℕ) → reverse w 0 ≡ 0
unfolding reverse
reverse-zero zero = refl
reverse-zero (suc w) = omega (arith, reverse-zero w)

shifted_length : (l k : ℕ) → suc l + k ≡ suc (l + k)
shifted_length l k = omega arith

-- The zeros above the bits of the argument come out below.
reverse_high : (k l i : ℕ) → i < 2 ^ l → reverse (l + k) i ≡ reverse l i * 2 ^ k
unfolding reverse
reverse_high k zero i h =
    let e : i ≡ 0 = omega arith in
    let z : 0 + k ≡ k = omega arith in rw z (rw e (omega (arith, reverse-zero k)))
reverse_high k (suc l) i h =
    ap (λ w. reverse w i) (shifted_length l k)
    ∙ ap₂ (λ u v. i % 2 * u + v) (two_pow-add l k)
        (reverse_high k l (i / 2) (omega (arith, two_pow-suc l)))
    ∙ factor (i % 2) (2 ^ l) (2 ^ k) (reverse l (i / 2))
  where
    factor : (a b c d : ℕ) → a * (b * c) + d * c ≡ (a * b + d) * c
    factor a b c d = grind arith

positive_size : (i l : ℕ) → bit_reverse_index i (suc l) ≡ reverse 64 i / 2 ^ (64 - suc l)
unfolding bit_reverse_index
positive_size i l = let e : (suc l == 0) ≡ false = ground arith in rw e refl

no_bits : (i : ℕ) → i < 1 → bit_reverse_index i 0 ≡ reverse 0 i
unfolding bit_reverse_index reverse
no_bits i h = omega arith

sixty_four : (l : ℕ) → l ≤ 64 → l + (64 - l) ≡ 64
sixty_four l h = omega arith

pub bit_reverse_index_eq : (i l : ℕ) → l ≤ 64 → i < 2 ^ l → bit_reverse_index i l ≡ reverse l i
bit_reverse_index_eq i zero hl hi = no_bits i hi
bit_reverse_index_eq i (suc l) hl hi =
    positive_size i l
    ∙ ap (λ w. reverse w i / 2 ^ (64 - suc l)) (sym (sixty_four (suc l) hl))
    ∙ ap (λ t. t / 2 ^ (64 - suc l)) (reverse_high (64 - suc l) (suc l) i hi)
    ∙ mul-div_cancel (reverse (suc l) i) (two_pow-pos (64 - suc l))

-- On indices of at most 64 bits `bit_reverse_index` stays below the size and is its own inverse.
pub bit_reverse_index_involution :
    (i l : ℕ)
    → l ≤ 64
    → i < 2 ^ l
    → (bit_reverse_index i l < 2 ^ l) × (bit_reverse_index (bit_reverse_index i l) l ≡ i)
bit_reverse_index_involution i l hl hi =
    let e = bit_reverse_index_eq i l hl hi in
    (
      rw e (reverse_lt l i),
      rw e (bit_reverse_index_eq (reverse l i) l hl (reverse_lt l i) ∙ reverse-reverse l i hi),
    )
