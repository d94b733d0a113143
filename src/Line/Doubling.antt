-- ===== src/Line/Doubling.antt =====
-- Doubling a coset of half odds (crates/stwo/src/core/circle.rs) gives the next one, so the domains of
-- the layers of FRI are all of this form.
use stwo.Prelude.{ℕ, suc, ◌+◌, ◌-◌, ◌*◌, ◌^◌, ◌≤◌, ◌<◌, ◌≡◌, refl, sym, ap, ap₂, ◌∙◌, arith, some}
use stwo.Prelude.Bits.{two_pow-pos, two_pow-suc}
use stwo.Circle.Index.{to_point, subgroup_gen, mul as index_mul}
use stwo.Circle.Index.Order.{order}
use stwo.Circle.Index.Points.{mul-mod}
use stwo.Circle.Coset.{Coset, half_odds, double}
use stwo.Circle.Coset.Valid.{made, doubled, double_lem, two_times, step-le, new-le}
use stwo.Line.Nonzero.{half_odds-made, next_power}

-- A coset whose points are those of its indices.
at_indices : ℕ → ℕ → ℕ → Coset
at_indices i s n = record {
  initial_index = i;
  initial = to_point i;
  step_size = s;
  step = to_point s;
  log_size = n;
}

generator : (n : ℕ) → n ≤ 31 → subgroup_gen n ≡ some (2 ^ (31 - n))
unfolding subgroup_gen
generator n h = ground arith

shorter :
    (n : ℕ)
    → 2 ≤ n
    → n ≤ 29
    → (2 ^ (29 - (n - 1)) ≡ 2 * 2 ^ (29 - n)) × (2 ^ (31 - (n - 1)) ≡ 2 * 2 ^ (31 - n))
shorter n h k =
    let one : 29 - (n - 1) ≡ suc (29 - n) = omega arith in
    let two : 31 - (n - 1) ≡ suc (31 - n) = omega arith in
    (ap (λ t. 2 ^ t) one ∙ two_pow-suc (29 - n), ap (λ t. 2 ^ t) two ∙ two_pow-suc (31 - n))

-- Twice the step of a coset of half odds is below the order.
bounds : (n : ℕ) → 2 ≤ n → n ≤ 29 → (2 * 2 ^ (29 - n) < order) × (2 * 2 ^ (31 - n) < order)
bounds n h k =
    let third : 31 - (n - 2) ≡ suc (suc (31 - n)) = omega arith in
    let e = ap (λ t. 2 ^ t) third ∙ two_pow-suc (suc (31 - n)) in
    (
      omega (
        arith,
        e,
        two_pow-suc (31 - n),
        step-le (n - 2) (omega arith),
        two_pow-pos (29 - n),
        next_power n k,
      ),
      omega (arith, e, two_pow-suc (31 - n), step-le (n - 2) (omega arith), two_pow-pos (31 - n)),
    )

doubled-made :
    (n : ℕ) → 2 ≤ n → n ≤ 29 → doubled (made (2 ^ (29 - n)) n) ≡ made (2 ^ (29 - (n - 1))) (n - 1)
unfolding doubled made at_indices
doubled-made n h k =
    ap₂
      (λ p q. record {
        initial_index = index_mul i 2;
        initial = p;
        step_size = index_mul s 2;
        step = q;
        log_size = n - 1;
      })
      (sym (two_times i (omega (arith, bounds n h k))))
      (sym (two_times s (omega (arith, bounds n h k))))
    ∙ ap₂ (λ u v. at_indices u v (n - 1)) (omega (arith, mul-mod i 2, bounds n h k, shorter n h k))
        (omega (arith, mul-mod s 2, bounds n h k, shorter n h k))
  where
    i : ℕ
    i = 2 ^ (29 - n)

    s : ℕ
    s = 2 ^ (31 - n)

half_odds_lem : (n : ℕ) → n ≤ 29 → half_odds n ≡ some (made (2 ^ (29 - n)) n)
unfolding half_odds
half_odds_lem n h =
    let width : 31 - (n + 2) ≡ 29 - n = omega arith in
    rw (generator (n + 2) (omega arith), width, new-le (2 ^ (29 - n)) n (omega arith)) refl

-- The coset of half odds of a log size from 2 to 29 doubles to that of the next smaller log size.
pub double-half_odds :
    (n : ℕ) {c : Coset} → 2 ≤ n → n ≤ 29 → half_odds n ≡ some c → double c ≡ half_odds (n - 1)
unfolding made
double-half_odds n h k e =
    ap double (sym (half_odds-made n k e))
    ∙ double_lem (made (2 ^ (29 - n)) n) (omega arith)
    ∙ ap some (doubled-made n h k)
    ∙ sym (half_odds_lem (n - 1) (omega arith))
