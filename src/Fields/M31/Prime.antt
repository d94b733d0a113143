-- ===== src/Fields/M31/Prime.antt =====
-- `P` is prime, by trial division, and Euclid's lemma for it.
use stwo.Prelude.{ℕ, zero, suc, ◌+◌, ◌*◌, ◌/◌, ◌%◌, ◌≤◌, ◌<◌, ◌≡◌, ◌≢◌, ◌==◌, refl, arith}
use stwo.Prelude.{Bool, true, not, ◌&&◌, sym, ◌∙◌, ap, dec_lt}
use native.Mathlib.Nat.{div-add-mod, mod-lt, mul-mod_right, mul-mod_left, add-mul-mod_self_left}
use stwo.Fields.M31.{p}

-- No number from 2 to n + 1 divides m.
no_divisor : ℕ → ℕ → Bool
no_divisor zero m = true
no_divisor (suc n) m = not (m % (n + 2) == 0) && no_divisor n m

no_divisor_sound : (n m d : ℕ) → no_divisor n m ≡ true → 2 ≤ d → d < n + 2 → m % d ≢ 0
unfolding no_divisor
no_divisor_sound zero m d h lo hi = absurd (omega arith)
no_divisor_sound (suc n) m d h lo hi = ground (arith, no_divisor_sound n m d)

no_small_divisor : no_divisor 46340 p ≡ true
unfolding no_divisor
no_small_divisor = refl

-- A divisor from 46342 has a cofactor from 2 below that.
module _ (d : ℕ) (hi : d < p) (large : 46342 ≤ d) (h : p % d ≡ 0) where
  exact : d * (p / d) ≡ p
  exact = omega (arith, div-add-mod p d)

  cofactor_low : 2 ≤ p / d
  cofactor_low = grind (arith, exact)

  cofactor_high : p / d < 46342
  cofactor_high = grind (arith, exact)

  cofactor_divides : p % (p / d) ≡ 0
  cofactor_divides = ap (λ (t : ℕ). t % (p / d)) (sym exact) ∙ mul-mod_left d (p / d)

pub p-prime : (d : ℕ) → 2 ≤ d → d < p → p % d ≢ 0
p-prime d lo hi h = elim (dec_lt d 46342) [
  | yes small ↦ no_divisor_sound 46340 p d no_small_divisor lo small h
  | no large ↦
      let large' : 46342 ≤ d = omega arith in
      no_divisor_sound 46340 p (p / d) no_small_divisor (cofactor_low d hi large' h)
        (cofactor_high d hi large' h) (cofactor_divides d hi large' h)
]

-- One step of Euclid's algorithm at `P` and `a` keeps the product a multiple of `P`.
remainder-mul : (a b : ℕ) → (a * b) % p ≡ 0 → (p % a * b) % p ≡ 0
remainder-mul a b h =
    sym (add-mul-mod_self_left (p % a * b) p (a * b / p * (p / a)))
    ∙ ap (λ (t : ℕ). t % p) {y = p * b} whole
    ∙ mul-mod_right p b
  where
    multiple : a * b ≡ p * (a * b / p)
    multiple = omega (arith, div-add-mod (a * b) p)

    whole : p % a * b + p * (a * b / p * (p / a)) ≡ p * b
    whole =
        omega (arith, ap (λ (t : ℕ). t * b) (div-add-mod p a), ap (λ (t : ℕ). t * (p / a)) multiple)

euclid_fuel : (n a b : ℕ) → a ≤ n → 0 < a → a < p → (a * b) % p ≡ 0 → b % p ≡ 0
euclid_fuel zero a b le pos lt h = absurd (omega arith)
euclid_fuel (suc n) a b le pos lt h = elim (dec_lt 1 a) [
  | yes more ↦
      euclid_fuel n (p % a) b (omega (arith, mod-lt p pos)) (omega (arith, p-prime a more lt))
        (omega (arith, mod-lt p pos)) (remainder-mul a b h)
  | no one ↦ one_left (omega arith) h
]
  where
    one_left : a ≡ 1 → (a * b) % p ≡ 0 → b % p ≡ 0
    one_left e h' = omega (arith, ap (λ (t : ℕ). t * b) e)

-- Euclid's lemma: a product that `P` divides has a factor that `P` divides.
pub euclid : (a b : ℕ) → 0 < a → a < p → (a * b) % p ≡ 0 → b % p ≡ 0
euclid a b = euclid_fuel a a b (omega arith)
