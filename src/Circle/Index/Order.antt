-- ===== src/Circle/Index/Order.antt =====
-- The generator of the circle over `M31` has the order 2 ^ 31.
use native.Mathlib.Nat.{pow-suc}
use stwo.Prelude.{ℕ, zero, suc, ◌+◌, ◌*◌, ◌/◌, ◌%◌, ◌^◌, ◌≡◌, ◌≢◌, refl, sym, ap, ◌∙◌}
use stwo.Prelude.{arith, dec_lt}
use stwo.Prelude.Bits.{mod_double, two_pow-pos, two_pow-suc}
use stwo.Fields.M31.{add as m31_add, sub as m31_sub, mul as m31_mul, neg as m31_neg}
use stwo.Fields.M31.Carrier.{M31, m31_ring, ext}
use stwo.Algebra.{Ring}
use stwo.Circle.{CirclePoint, identity, add, double, repeated_double, antipode}
use stwo.Circle.Laws.{OnCircle, point_eq, identity-add, add-identity}
use stwo.Circle.Multiples.{
  times, times-add, times-mul, times-double, identity-times, repeated_double-times,
}
use stwo.Circle.Index.{m31_circle_gen}

module _ {ℓ} {F : Type ℓ} ⦃r : Ring F⦄ where
  times_vanish : (g : CirclePoint F) (m n : ℕ) → times g m ≡ identity → times g (m * n) ≡ identity
  times_vanish g m n h = sym (times-mul g m n) ∙ ap (λ t. times t n) h ∙ identity-times n

  -- An odd multiple of a point of order 2 ^ (n + 1) does not vanish.
  odd_multiple :
      (g : CirclePoint F) (n d : ℕ)
      → times g (2 ^ suc n) ≡ identity
      → times g d ≡ identity
      → d % 2 ≡ 1
      → times g (2 ^ n) ≡ identity
  odd_multiple g n d all h odd =
      sym (add-identity _)
      ∙ ap (add (times g (2 ^ n))) (sym (times_vanish g (2 ^ suc n) (d / 2) all))
      ∙ sym (times-add g (2 ^ n) (2 ^ suc n * (d / 2)))
      ∙ ap (times g) {x = 2 ^ n + 2 ^ suc n * (d / 2)} {y = d * 2 ^ n} sizes
      ∙ times_vanish g d (2 ^ n) h
    where
      sizes : 2 ^ n + 2 ^ suc n * (d / 2) ≡ d * 2 ^ n
      sizes = omega (
        arith,
        ap (λ (t : ℕ). t * (d / 2)) (pow-suc 2 n),
        ap (λ (t : ℕ). t * 2 ^ n) {x = d} {y = 1 + 2 * (d / 2)} (omega arith),
      )

  doubled : (g : CirclePoint F) (m n : ℕ) → m + m ≡ n → times (double g) m ≡ times g n
  doubled g m n e = times-double g m ∙ ap (times g) e

  -- If the order is 2 ^ (n + 1), it divides the number of every multiple that vanishes.
  pub order_divides :
      (n : ℕ) (g : CirclePoint F) (d : ℕ)
      → times g (2 ^ n) ≢ identity
      → times g (2 ^ suc n) ≡ identity
      → times g d ≡ identity
      → d % 2 ^ suc n ≡ 0
  order_divides zero g d half all h = elim (dec_lt 0 (d % 2)) [
    | yes odd ↦ absurd (half (odd_multiple g 0 d all h (omega arith)))
    | no even ↦ omega arith
  ]
  order_divides (suc n) g d half all h = elim (dec_lt 0 (d % 2)) [
    | yes odd ↦ absurd (half (odd_multiple g (suc n) d all h (omega arith)))
    | no even ↦ omega (
      arith,
      ap (λ (t : ℕ). d % t) (two_pow-suc (suc n)),
      mod_double d (2 ^ suc n) (two_pow-pos (suc n)),
      order_divides n (double g) (d / 2)
          (λ e. half (sym (doubled g (2 ^ n) (2 ^ suc n) (omega (arith, pow-suc 2 n))) ∙ e))
          (doubled g (2 ^ suc n) (2 ^ suc (suc n)) (omega (arith, pow-suc 2 (suc n))) ∙ all)
          (doubled g (d / 2) d (omega arith) ∙ h),
    )
  ]

abbrev pub order : ℕ
order = 2 ^ 31

pub gen-OnCircle : OnCircle m31_circle_gen
unfolding m31_circle_gen m31_ring m31_add m31_mul
gen-OnCircle = ext refl

x_at_31 : (repeated_double m31_circle_gen 31).x.0 ≡ 1
unfolding repeated_double double add m31_circle_gen m31_ring m31_add m31_mul m31_sub
x_at_31 = refl

y_at_31 : (repeated_double m31_circle_gen 31).y.0 ≡ 0
unfolding repeated_double double add m31_circle_gen m31_ring m31_add m31_mul m31_sub
y_at_31 = refl

x_at_30 : (repeated_double m31_circle_gen 30).x.0 ≡ 2147483646
unfolding repeated_double double add m31_circle_gen m31_ring m31_add m31_mul m31_sub
x_at_30 = refl

y_at_30 : (repeated_double m31_circle_gen 30).y.0 ≡ 0
unfolding repeated_double double add m31_circle_gen m31_ring m31_add m31_mul m31_sub
y_at_30 = refl

-- Half of the circle is half a turn.
pub half_turn : times m31_circle_gen (2 ^ 30) ≡ antipode identity
half_turn = sym (repeated_double-times m31_circle_gen 30) ∙ at_30
  where
    at_30 : repeated_double m31_circle_gen 30 ≡ antipode identity
    at_30 = unfold antipode identity m31_ring m31_neg in point_eq (ext x_at_30) (ext y_at_30)

pub times-order : times m31_circle_gen order ≡ identity
times-order = sym (repeated_double-times m31_circle_gen 31) ∙ at_31
  where
    at_31 : repeated_double m31_circle_gen 31 ≡ identity
    at_31 = unfold identity m31_ring in point_eq (ext x_at_31) (ext y_at_31)

pub times-half_order : times m31_circle_gen (2 ^ 30) ≢ identity
times-half_order e = differ (repeated_double-times m31_circle_gen 30 ∙ e)
  where
    differ : repeated_double m31_circle_gen 30 ≢ identity
    differ h =
        unfold identity m31_ring in (omega (arith, x_at_30, ap (λ (t : CirclePoint M31). t.x.0) h))

-- A multiple of the generator vanishes only at the multiples of its order.
pub times-identity : (d : ℕ) → times m31_circle_gen d ≡ identity → d % order ≡ 0
times-identity d = order_divides 30 m31_circle_gen d times-half_order times-order

-- The multiple depends only on the number modulo the order.
pub times-mod : (d : ℕ) → times m31_circle_gen (d % order) ≡ times m31_circle_gen d
times-mod d =
    sym (identity-add _)
    ∙ ap (λ t. add t (times m31_circle_gen (d % order)))
        (sym (times_vanish m31_circle_gen order (d / order) times-order))
    ∙ sym (times-add m31_circle_gen (order * (d / order)) (d % order))
    ∙ ap (times m31_circle_gen) {x = order * (d / order) + d % order} (omega arith)
