-- ===== src/Domain/Canonic.antt =====
-- The circle domain of a canonic coset (crates/stwo/src/core/poly/circle/canonic.rs) is the coset in
-- the order of `circle_domain_index_to_coset_index`.
use stwo.Prelude.{
  ℕ, suc, ◌+◌, ◌-◌, ◌*◌, ◌%◌, ◌/◌, ◌^◌, ◌≤◌, ◌<◌, ◌≡◌, refl, sym, ap, ◌∙◌, arith, some, false, ltb,
}
use stwo.Prelude.{Bool-cases, inl, inr, dec_lt, lt→ltb, ◌==◌}
use stwo.Prelude.Bits.{two_pow-pos, two_pow-suc, two_pow-add}
use stwo.Circle.Index.{neg as index_neg, mul as index_mul, subgroup_gen}
use stwo.Circle.Index.Order.{order}
use stwo.Circle.Index.Points.{neg-mod, mul-mod}
use stwo.Circle.Coset.{Coset, odds, half_odds, size as coset_size, index_at as coset_index_at}
use stwo.Circle.Coset.Valid.{made, made-IsValid, new-le}
use stwo.Circle.Coset.Points.{index_at-mod}
use stwo.Utils.{circle_domain_index_to_coset_index}
use stwo.Utils.Orders.{coset_index, coset_index_lem}
use stwo.Domain.{CircleDomain, CanonicCoset, index_at, new, half_coset, circle_domain, is_canonic}

-- The first index of the canonic coset of 2 ^ (l + 1) points.
abbrev first : ℕ → ℕ
first l = 2 ^ (29 - l)

abbrev full : ℕ → Coset
full l = made (first l) (suc l)

abbrev half : ℕ → Coset
half l = made (first l) l

gen_of : (n : ℕ) → n ≤ 31 → subgroup_gen n ≡ some (2 ^ (31 - n))
unfolding subgroup_gen
gen_of n h = ground arith

exponents : (l : ℕ) → l ≤ 29 → (31 - (suc l + 1) ≡ 29 - l) × (31 - (l + 2) ≡ 29 - l)
exponents l h = (omega arith, omega arith)

halved : (l : ℕ) → 2 ^ suc l / 2 ≡ 2 ^ l
halved l = omega (arith, two_pow-suc l)

not_ltb : (a b : ℕ) → ltb a b ≡ false → b ≤ a
not_ltb a b h = ground arith

compared_reduced : (s l : ℕ) → 0 < l → s < order → (s % order == s) ≡ ltb 0 l
compared_reduced s l h k = ground arith

compared_order : (s l : ℕ) → l ≡ 0 → s ≡ order → (s % order == s) ≡ ltb 0 l
compared_order s l h k = ground arith

odd : (u v : ℕ) → 2 * u * (v * 2 + 1) ≡ 4 * (u * v) + 2 * u
odd u v = grind arith

abbrev domain : ℕ → CircleDomain
domain l = record { half_coset = half l }

module _ (l : ℕ) (hl : l ≤ 29) where
  quarter_turn : first l * 2 ^ l * 4 ≡ order
  quarter_turn =
      ap (λ t. t * 4)
        (sym (two_pow-add (29 - l) l)
          ∙ ap (λ (t : ℕ). 2 ^ t) {x = 29 - l + l} {y = 29} (omega arith))

  full_step : 2 ^ (31 - suc l) ≡ 2 * first l
  full_step =
      ap (λ (t : ℕ). 2 ^ t) {x = 31 - suc l} {y = suc (29 - l)} (omega arith) ∙ two_pow-suc (29 - l)

  half_step : 2 ^ (31 - l) ≡ 4 * first l
  half_step =
      ap (λ (t : ℕ). 2 ^ t) {x = 31 - l} {y = suc (31 - suc l)} (omega arith)
      ∙ two_pow-suc (31 - suc l)
      ∙ omega (arith, full_step)

  first_lt : first l < order
  first_lt = grind (arith, quarter_turn, two_pow-pos l, two_pow-pos (29 - l))

  full_index : (k : ℕ) → coset_index_at (full l) k ≡ (first l + 2 * first l * k) % order
  unfolding made
  full_index k =
      index_at-mod (full l) (made-IsValid (first l) (suc l) first_lt (omega arith)) k
      ∙ ap (λ t. (first l + t * k) % order) full_step

  half_index : (k : ℕ) → coset_index_at (half l) k ≡ (first l + 4 * first l * k) % order
  unfolding made
  half_index k =
      index_at-mod (half l) (made-IsValid (first l) l first_lt (omega arith)) k
      ∙ ap (λ t. (first l + t * k) % order) half_step

  odds_made : odds (suc l) ≡ some (full l)
  unfolding odds
  odds_made = rw (gen_of (suc l + 1) (omega arith)) (
      new-le (2 ^ (31 - (suc l + 1))) (suc l) (omega arith)
      ∙ ap (λ t. some (made (2 ^ t) (suc l))) (exponents l hl).0)

  half_odds_made : half_odds l ≡ some (half l)
  unfolding half_odds
  half_odds_made = rw (gen_of (l + 2) (omega arith)) (
      new-le (2 ^ (31 - (l + 2))) l (omega arith)
      ∙ ap (λ t. some (made (2 ^ t) l)) (exponents l hl).1)

  -- The index at position k of the second half, against the coset at the position 2 * d + 1 that
  -- mirrors it.
  mirrored :
      (k d : ℕ)
      → 2 ^ l ≡ k + 1 + d
      → index_neg (coset_index_at (half l) k) ≡ coset_index_at (full l) (d * 2 + 1)
  mirrored k d e =
      ap index_neg low
      ∙ neg-mod (first l + 4 * first l * k) (omega (arith, parts, products k, products d))
      ∙ ap (λ t. t % order) sides
      ∙ sym (full_index (d * 2 + 1))
    where
      products : (m : ℕ) → 4 * first l * m ≡ 4 * (first l * m)
      products m = grind arith

      parts : 4 * (first l * k) + 4 * first l + 4 * (first l * d) ≡ order
      parts = grind (arith, quarter_turn, ap (λ t. first l * t * 4) e)

      low : coset_index_at (half l) k ≡ first l + 4 * first l * k
      low = half_index k ∙ omega (arith, parts, products k, two_pow-pos (29 - l))

      sides : order - (first l + 4 * first l * k) ≡ first l + 2 * first l * (d * 2 + 1)
      sides = omega (arith, parts, products k, products d, odd (first l) d)

  doubled_position : (k : ℕ) → coset_index_at (half l) k ≡ coset_index_at (full l) (k * 2)
  doubled_position k =
      half_index k
      ∙ ap (λ t. (first l + t) % order) (regroup (first l) k)
      ∙ sym (full_index (k * 2))
    where
      regroup : (u v : ℕ) → 4 * u * v ≡ 2 * u * (v * 2)
      regroup u v = grind arith

  domain_index :
      (i : ℕ)
      → i < 2 ^ suc l
      → index_at (domain l) i ≡ coset_index_at (full l) (coset_index (2 ^ suc l) i)
  unfolding index_at coset_size made
  domain_index i hi = rw (halved l) (elim (Bool-cases (ltb i (2 ^ l))) [
    | inl h ↦ rw h (doubled_position i)
    | inr h ↦ rw h (
        mirrored (i - 2 ^ l) (2 ^ suc l - 1 - i)
          (omega (arith, two_pow-suc l, not_ltb i (2 ^ l) h)))
  ])

  canonic_made : new (suc l) ≡ some (record { coset = full l })
  unfolding new
  canonic_made = rw (lt→ltb 0 (suc l) (omega arith)) (rw odds_made refl)

  canonic_domain_made : circle_domain (record { coset = full l }) ≡ some (domain l)
  unfolding circle_domain half_coset made
  canonic_domain_made = let e : suc l - 1 ≡ l = omega arith in rw e (rw half_odds_made refl)

  canonic_index : index_mul (first l) 4 ≡ (4 * first l) % order
  canonic_index = mul-mod (first l) 4 ∙ ap (λ t. t % order) (grind arith)

  below : 0 < l → 4 * first l < order
  below h =
      let e : 2 ^ l ≡ 2 * 2 ^ (l - 1) =
        ap (λ (t : ℕ). 2 ^ t) {x = l} {y = suc (l - 1)} (omega arith) ∙ two_pow-suc (l - 1) in
      grind (arith, quarter_turn, e, two_pow-pos (l - 1), two_pow-pos (29 - l))

  whole : l ≡ 0 → 4 * first l ≡ order
  whole e = ap (λ (t : ℕ). 4 * 2 ^ (29 - t)) e

  canonic_test : is_canonic (domain l) ≡ ltb 0 l
  unfolding is_canonic made
  canonic_test = rw canonic_index (
      rw half_step (elim (dec_lt 0 l) [
        | yes h ↦ compared_reduced (4 * first l) l h (below h)
        | no h ↦ compared_order (4 * first l) l (omega arith) (whole (omega arith))
      ]))

-- The canonic coset of 2 ^ (l + 1) points exists for l ≤ 29, and so does its circle domain, which is
-- `is_canonic` unless l = 0, and has at position i the index that the coset has at the position given by
-- `circle_domain_index_to_coset_index`, which gives one.
pub circle_domain-index :
    (l i : ℕ)
    → l ≤ 29
    → i < 2 ^ suc l
    → (c : CanonicCoset) × (d : CircleDomain) × (j : ℕ) × (new (suc l) ≡ some c)
      × (circle_domain c ≡ some d)
      × (is_canonic d ≡ ltb 0 l)
      × (circle_domain_index_to_coset_index i (suc l) ≡ some j)
      × (index_at d i ≡ coset_index_at c.coset j)
circle_domain-index l i hl hi = (
  record { coset = full l },
  domain l,
  coset_index (2 ^ suc l) i,
  canonic_made l hl,
  canonic_domain_made l hl,
  canonic_test l hl,
  coset_index_lem (suc l) i (omega arith) hi,
  domain_index l hl i hi,
)
