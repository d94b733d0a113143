-- ===== src/Line/Pairs.antt =====
-- The x-coordinates of a `LineDomain` (crates/stwo/src/core/poly/line.rs) in bit-reversed order: pairs
-- of opposite values, which doubling takes to one.
use stwo.Prelude.{
  ℕ, suc, ◌+◌, ◌-◌, ◌*◌, ◌/◌, ◌%◌, ◌^◌, ◌≤◌, ◌<◌, ◌≡◌, refl, sym, ap, ap₂, ◌∙◌, arith, [], ◌∷◌,
}
use stwo.Prelude.Bits.{two_pow-suc, two_pow-add}
use stwo.Algebra.{⊝}
use stwo.Algebra.Solver.{◌:-◌, ◌:*◌, opp, lit0, lit1, x0, x1, ring, cross}
use stwo.Fields.M31.Carrier.{M31, m31_ring}
use stwo.Circle.{CirclePoint, add as point_add, antipode, double_x, identity}
use stwo.Circle.Laws.{add_assoc, double_x-double, OnCircle}
use stwo.Circle.Index.{to_point}
use stwo.Circle.Index.Order.{order, half_turn}
use stwo.Circle.Index.Points.{to_point-OnCircle, to_point-times, to_point-mul, mul-mod}
use stwo.Circle.Multiples.{times, times-add}
use stwo.Circle.Coset.{Coset, at, index_at}
use stwo.Circle.Coset.Valid.{IsValid, doubled, double_lem}
use stwo.Circle.Coset.Points.{at-add, at-double, index_at-mod}
use stwo.Utils.{reverse, bit_reverse_index}
use stwo.Utils.Reverse.{bit_reverse_index_eq}

-- The step of a coset has the order of its size.
pub record IsExact (c : Coset) : Type 0 where
  pub valid : IsValid c
  pub step : c.step_size ≡ 2 ^ (31 - c.log_size)

-- Twice the index, without and with one more.
pub bit_reverse_even :
    (i l : ℕ) → suc l ≤ 64 → i < 2 ^ l → bit_reverse_index (i * 2) (suc l) ≡ bit_reverse_index i l
unfolding reverse
bit_reverse_even i l hl hi =
    bit_reverse_index_eq (i * 2) (suc l) hl (omega (arith, two_pow-suc l))
    ∙ ap₂ (λ u v. u * 2 ^ l + reverse l v) low rest
    ∙ omega arith
    ∙ sym (bit_reverse_index_eq i l (omega arith) hi)
  where
    low : i * 2 % 2 ≡ 0
    low = omega arith

    rest : i * 2 / 2 ≡ i
    rest = omega arith

pub bit_reverse_odd :
    (i l : ℕ)
    → suc l ≤ 64
    → i < 2 ^ l
    → bit_reverse_index (suc (i * 2)) (suc l) ≡ bit_reverse_index i l + 2 ^ l
unfolding reverse
bit_reverse_odd i l hl hi =
    bit_reverse_index_eq (suc (i * 2)) (suc l) hl (omega (arith, two_pow-suc l))
    ∙ ap₂ (λ u v. u * 2 ^ l + reverse l v) low rest
    ∙ omega arith
    ∙ ap (λ t. t + 2 ^ l) (sym (bit_reverse_index_eq i l (omega arith) hi))
  where
    low : suc (i * 2) % 2 ≡ 1
    low = omega arith

    rest : suc (i * 2) / 2 ≡ i
    rest = omega arith

pub at-OnCircle : (c : Coset) → IsValid c → (k : ℕ) → OnCircle (at c k)
unfolding at
at-OnCircle c v k = to_point-OnCircle (index_at c k) (omega (arith, index_at-mod c v k))

-- Half a turn from point k.
pub at_half_turn :
    (c : Coset) → IsExact c → (l k : ℕ) → c.log_size ≡ suc l → (at c (k + 2 ^ l)).x ≡ ⊝ (at c k).x
at_half_turn c e l k size =
    ap (λ (p : CirclePoint M31). p.x)
      (at-add c e.valid (k + 2 ^ l)
        ∙ ap (point_add (to_point c.initial_index)) (times-add (to_point c.step_size) k (2 ^ l))
        ∙ sym (add_assoc _ _ _)
        ∙ ap₂ point_add (sym (at-add c e.valid k))
            (half ∙ to_point-times (2 ^ 30) (omega arith) ∙ half_turn))
    ∙ turned (at c k)
  where
    turn : c.step_size * 2 ^ l % order ≡ 2 ^ 30
    turn =
        rw (e.step, size, sym (two_pow-add (31 - suc l) l))
          (ap (λ t. 2 ^ t % order) {x = 31 - suc l + l} {y = 30}
            (omega (arith, e.valid.log_bounded)))

    half : times (to_point c.step_size) (2 ^ l) ≡ to_point (2 ^ 30)
    half =
        sym (to_point-mul c.step_size (2 ^ l) e.valid.step_bounded)
        ∙ ap to_point (mul-mod c.step_size (2 ^ l) ∙ turn)

    turned : (p : CirclePoint M31) → (point_add p (antipode identity)).x ≡ ⊝ p.x
    turned p =
        unfold point_add antipode identity cross in
        ring (p.x ∷ p.y ∷ []) (x0 :* opp lit1 :- x1 :* opp lit0) (opp x0) refl

-- The points of the doubled domain.
pub at-doubled :
    (c : Coset) → IsValid c → 0 < c.log_size → (k : ℕ) → (at (doubled c) k).x ≡ double_x (at c k).x
at-doubled c v pos k =
    ap (λ (p : CirclePoint M31). p.x) (at-double c v (doubled c) k (double_lem c pos))
    ∙ sym (double_x-double (at c k) (at-OnCircle c v k))
