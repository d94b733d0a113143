-- ===== src/Line/Nonzero.antt =====
-- The coordinates on a coset of half odds are not zero, and the coset has an exact step.
use stwo.Prelude.{
  ℕ, suc, ◌+◌, ◌-◌, ◌*◌, ◌/◌, ◌%◌, ◌^◌, ◌≤◌, ◌<◌, ◌≡◌, ◌≢◌, refl, sym, ap, ◌∙◌, arith, some, [],
  ◌∷◌, >>=-eq-some,
}
use mathlib.Core.Path.{subst}
use native.Mathlib.Nat.{eq_of_mul-eq-mul_left, div-add-mod}
use stwo.Prelude.Bits.{two_pow-suc, two_pow-add, two_pow-pos}
use stwo.Prelude.Mod.{mod-mul-mod}
use stwo.Algebra.{◌⊕◌, ◌⊗◌, 𝟘}
use stwo.Algebra.Solver.{◌:+◌, ◌:-◌, ◌:*◌, opp, lit0, lit1, x0, ring, cross}
use stwo.Fields.M31.Carrier.{M31, m31_ring}
use stwo.Fields.ExpOps.{square}
use stwo.Circle.{
  CirclePoint, double as point_double, antipode, double_x, identity, add as point_add,
}
use stwo.Circle.Laws.{double_x-double, point_eq}
use stwo.Circle.Index.{to_point, subgroup_gen, mul as index_mul}
use stwo.Circle.Index.Order.{order, half_turn}
use stwo.Circle.Index.Points.{to_point-times, to_point_injective, mul-mod}
use stwo.Circle.Coset.{Coset, at, index_at, half_odds}
use stwo.Circle.Coset.Valid.{IsValid, made, made-IsValid, new-eq-some, two_times, step-le}
use stwo.Circle.Coset.Points.{index_at-mod}
use stwo.Line.Pairs.{IsExact, at-OnCircle}

quarter_turn :
    (p : CirclePoint M31)
    → double_x p.x ≡ (point_double p).x
    → p.x ≡ 𝟘
    → point_double p ≡ antipode identity
quarter_turn p on zero_x = point_eq first second
  where
    first : (point_double p).x ≡ (antipode identity).x
    first =
        sym on
        ∙ ap double_x zero_x
        ∙ unfold double_x square antipode identity cross in
          ring [] (lit0 :* lit0 :+ lit0 :* lit0 :- lit1) (opp lit1) refl

    second : (point_double p).y ≡ (antipode identity).y
    second =
        unfold point_double point_add antipode identity cross in
        (ap (λ x. x ⊗ p.y ⊕ p.y ⊗ x) zero_x
          ∙ ring (p.y ∷ []) (lit0 :* x0 :+ x0 :* lit0) (opp lit0) refl)

parity : (u m k q : ℕ) → 0 < u → u * (4 * k + 1) ≢ u * (2 * m) * 2 * q + u * (2 * m)
parity u m k q pos e = absurd (omega (arith, cancelled))
  where
    factored : u * (2 * m) * 2 * q + u * (2 * m) ≡ u * (2 * (m * (2 * q + 1)))
    factored = grind arith

    cancelled : 4 * k + 1 ≡ 2 * (m * (2 * q + 1))
    cancelled = eq_of_mul-eq-mul_left u pos (4 * k + 1) (2 * (m * (2 * q + 1))) (e ∙ factored)

top : (n : ℕ) → 1 ≤ n → n ≤ 29 → 2 ^ (30 - n) * (2 * 2 ^ (n - 1)) ≡ 2 ^ 30
top n h1 h2 =
    ap (λ t. 2 ^ (30 - n) * t) (sym (two_pow-suc (n - 1)))
    ∙ sym (two_pow-add (30 - n) (suc (n - 1)))
    ∙ ap (λ t. 2 ^ t) whole
  where
    whole : 30 - n + suc (n - 1) ≡ 30
    whole = omega arith

-- An odd multiple of 2 ^ (30 - n) is not half of the order.
odd_multiple : (n k : ℕ) → 1 ≤ n → n ≤ 29 → (2 ^ (30 - n) * (4 * k + 1)) % order ≢ 2 ^ 30
odd_multiple n k h1 h2 e =
    let u = 2 ^ (30 - n) in
    let q = u * (4 * k + 1) / order in
    parity u (2 ^ (n - 1)) k q (two_pow-pos (30 - n)) (
      sym (div-add-mod (u * (4 * k + 1)) order)
      ∙ ap (λ t. order * q + t) e
      ∙ ap (λ t. t * 2 * q + t) (sym (top n h1 h2)))

pub next_power :
    (n : ℕ) → n ≤ 29 → (2 ^ (30 - n) ≡ 2 * 2 ^ (29 - n)) × (2 ^ (31 - n) ≡ 2 * (2 * 2 ^ (29 - n)))
next_power n h =
    let one : 30 - n ≡ suc (29 - n) = omega arith in
    let two : 31 - n ≡ suc (suc (29 - n)) = omega arith in
    (
      ap (λ t. 2 ^ t) one ∙ two_pow-suc (29 - n),
      ap (λ t. 2 ^ t) two ∙ two_pow-suc (suc (29 - n)) ∙ ap (λ t. 2 * t) (two_pow-suc (29 - n)),
    )

half_odds-IsValid : (n : ℕ) → n ≤ 29 → IsValid (made (2 ^ (29 - n)) n)
half_odds-IsValid n h =
    made-IsValid (2 ^ (29 - n)) n
      (omega (arith, next_power n h, step-le n (omega arith), two_pow-pos (29 - n))) (omega arith)

-- Twice the index of point k of a coset of half odds.
twice_index :
    (n k : ℕ)
    → n ≤ 29
    → index_mul (index_at (made (2 ^ (29 - n)) n) k) 2 ≡ (2 ^ (30 - n) * (4 * k + 1)) % order
unfolding made
twice_index n k h =
    mul-mod (index_at c k) 2
    ∙ ap (λ t. t * 2 % order) (index_at-mod c (half_odds-IsValid n h) k)
    ∙ mod-mul-mod (2 ^ (29 - n) + 2 ^ (31 - n) * k) 2 order
    ∙ ap (λ t. t % order) doubles
  where
    c : Coset
    c = made (2 ^ (29 - n)) n

    regroup : (a : ℕ) → (a + 2 * (2 * a) * k) * 2 ≡ 2 * a * (4 * k + 1)
    regroup a = grind arith

    doubles : (2 ^ (29 - n) + 2 ^ (31 - n) * k) * 2 ≡ 2 ^ (30 - n) * (4 * k + 1)
    doubles =
        let (one, two) = next_power n h in
        ap (λ t. (2 ^ (29 - n) + t * k) * 2) two
        ∙ regroup (2 ^ (29 - n))
        ∙ ap (λ t. t * (4 * k + 1)) (sym one)

pub half_odds-made : (n : ℕ) {c : Coset} → n ≤ 29 → half_odds n ≡ some c → made (2 ^ (29 - n)) n ≡ c
unfolding half_odds subgroup_gen
half_odds-made n h e =
    let (i, gen, made_by) = >>=-eq-some (subgroup_gen (n + 2)) _ e in
    let (le, same) = new-eq-some i n made_by in ap (λ t. made t n) (initial i gen) ∙ same
  where
    initial : (i : ℕ) → subgroup_gen (n + 2) ≡ some i → 2 ^ (29 - n) ≡ i
    initial i gen =
        let width : 31 - (n + 2) ≡ 29 - n = omega arith in
        ap (λ t. 2 ^ t) (sym width) ∙ ground arith

pub half_odds-IsExact : (n : ℕ) {c : Coset} → n ≤ 29 → half_odds n ≡ some c → IsExact c
half_odds-IsExact n h e =
    subst IsExact (half_odds-made n h e)
      (record { valid = half_odds-IsValid n h; step = unfold made in refl })

made_ne-zero : (n k : ℕ) → 1 ≤ n → n ≤ 29 → (at (made (2 ^ (29 - n)) n) k).x ≢ 𝟘
unfolding at
made_ne-zero n k h1 h2 zero_x = odd_multiple n k h1 h2 (
    sym (twice_index n k h2)
    ∙ to_point_injective (index_mul i 2) (2 ^ 30) (omega (arith, mul-mod i 2)) (omega arith) (
        two_times i bounded
        ∙ quarter_turn (to_point i) (double_x-double (to_point i) (at-OnCircle c valid k)) zero_x
        ∙ sym half_turn
        ∙ sym (to_point-times (2 ^ 30) (omega arith))))
  where
    c : Coset
    c = made (2 ^ (29 - n)) n

    valid : IsValid c
    valid = half_odds-IsValid n h2

    i : ℕ
    i = index_at c k

    bounded : i ≤ order
    bounded = omega (arith, index_at-mod c valid k)

pub half_odds_ne-zero :
    (n : ℕ) {c : Coset} → 1 ≤ n → n ≤ 29 → half_odds n ≡ some c → (k : ℕ) → (at c k).x ≢ 𝟘
half_odds_ne-zero n h1 h2 e k =
    subst (λ d. (at d k).x ≢ 𝟘) (half_odds-made n h2 e) (made_ne-zero n k h1 h2)

pub half_odds_size : (n : ℕ) {c : Coset} → half_odds n ≡ some c → c.log_size ≡ n
unfolding half_odds subgroup_gen made
half_odds_size n h =
    let (i, e, k) = >>=-eq-some (subgroup_gen (n + 2)) _ h in
    let (le, same) = new-eq-some i n k in ap (λ (c : Coset). c.log_size) (sym same)
