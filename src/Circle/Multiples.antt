-- ===== src/Circle/Multiples.antt =====
-- The scalar multiples of circle.rs, `mul` and `repeated_double`, against repeated addition.
use Prim.Native.Nat.add
use native.Mathlib.Nat.{pow-suc}
use stwo.Prelude.{ℕ, zero, suc, ◌+◌, ◌*◌, ◌/◌, ◌%◌, ◌^◌, ◌<◌, ◌==◌, ◌≡◌, refl, sym, ap, ◌∙◌, arith}
use stwo.Prelude.{if◌then◌else◌, Bool-cases, inl, inr, ==→eq}
use stwo.Prelude.{[]}
use stwo.Algebra.{Ring}
use stwo.Algebra.Solver.{opp, lit0, ring, cross}
use stwo.Circle.{CirclePoint, identity, add, double, conjugate, mul_loop, mul, repeated_double}
use stwo.Circle.Laws.{
  OnCircle, add_assoc, identity-add, add-identity, add-OnCircle, identity-OnCircle, conjugate-add,
  point_eq,
}

module _ {ℓ} {F : Type ℓ} ⦃r : Ring F⦄ where
  -- The sum of `n` copies.
  unfoldable pub times : CirclePoint F → ℕ → CirclePoint F
  times p zero = identity
  times p (suc n) = add p (times p n)

  pub times-add : (p : CirclePoint F) (m n : ℕ) → times p (m + n) ≡ add (times p m) (times p n)
  unfolding times
  times-add p zero n = rw (add.zero n) (sym (identity-add _))
  times-add p (suc m) n = rw (add.suc m n, times-add p m n) (sym (add_assoc _ _ _))

  pub times-mul : (p : CirclePoint F) (m n : ℕ) → times (times p m) n ≡ times p (m * n)
  unfolding times
  times-mul p m zero = ap (times p) {x = 0} (omega arith)
  times-mul p m (suc n) =
      rw (times-mul p m n)
        (sym (times-add p m (m * n)) ∙ ap (times p) {x = m + m * n} (omega arith))

  pub times-OnCircle : (p : CirclePoint F) (n : ℕ) → OnCircle p → OnCircle (times p n)
  unfolding times
  times-OnCircle p zero h = identity-OnCircle
  times-OnCircle p (suc n) h = add-OnCircle p (times p n) h (times-OnCircle p n h)

  pub times-one : (p : CirclePoint F) → times p 1 ≡ p
  unfolding times
  times-one p = add-identity p

  pub identity-times : (n : ℕ) → times identity n ≡ identity {F = F}
  unfolding times
  identity-times zero = refl
  identity-times (suc n) = identity-add _ ∙ identity-times n

  pub times-double : (p : CirclePoint F) (n : ℕ) → times (double p) n ≡ times p (n + n)
  unfolding times double
  times-double p zero = refl
  times-double p (suc n) =
      rw (times-double p n) (add_assoc p p _) ∙ ap (times p) {x = suc (suc (n + n))} (omega arith)

  -- One round takes the lowest bit of the scalar.
  round-times :
      (res cur : CirclePoint F) (s : ℕ)
      → add (if s % 2 == 1 then add res cur else res) (times (double cur) (s / 2))
        ≡ add res (times cur s)
  round-times res cur s = elim (Bool-cases (s % 2 == 1)) [
    | inl e ↦
        rw (e, times-double cur (s / 2))
          (add_assoc _ _ _
            ∙ unfold times in
              ap (λ n. add res (times cur n)) {x = suc (s / 2 + s / 2)}
                (omega (arith, ==→eq _ _ e)))
    | inr e ↦ rw (e, times-double cur (s / 2)) (ap (λ n. add res (times cur n)) (ground arith))
  ]

  mul_loop-times :
      (fuel : ℕ) (res cur : CirclePoint F) (s : ℕ)
      → s < 2 ^ fuel
      → mul_loop fuel res cur s ≡ add res (times cur s)
  unfolding mul_loop
  mul_loop-times zero res cur s h = rw s_zero (sym (unfold times in add-identity res))
    where
      s_zero : s ≡ 0
      s_zero = omega arith
  mul_loop-times (suc fuel) res cur s h = elim (Bool-cases (s == 0)) [
    | inl e ↦ rw (e, ==→eq s 0 e) (sym (unfold times in add-identity res))
    | inr e ↦ rw e (
        mul_loop-times fuel _ (double cur) (s / 2) (omega (arith, pow-suc 2 fuel))
        ∙ round-times res cur s)
  ]

  -- On a 128-bit scalar the double-and-add loop ends by its test with the multiple.
  pub mul-times : (p : CirclePoint F) (s : ℕ) → s < 2 ^ 128 → mul p s ≡ times p s
  unfolding mul
  mul-times p s h = mul_loop-times 128 identity p s h ∙ identity-add _

  -- Repeated doubling is the multiple by a power of two.
  pub repeated_double-times : (p : CirclePoint F) (n : ℕ) → repeated_double p n ≡ times p (2 ^ n)
  unfolding repeated_double
  repeated_double-times p zero = sym (times-one p)
  repeated_double-times p (suc n) =
      repeated_double-times (double p) n
      ∙ times-double p (2 ^ n)
      ∙ ap (times p) {x = 2 ^ n + 2 ^ n} (omega (arith, pow-suc 2 n))

  conjugate-identity : conjugate identity ≡ identity {F = F}
  unfolding conjugate identity cross
  conjugate-identity = point_eq refl (ring [] (opp lit0) lit0 refl)

  pub conjugate-times : (p : CirclePoint F) (n : ℕ) → conjugate (times p n) ≡ times (conjugate p) n
  unfolding times
  conjugate-times p zero = conjugate-identity
  conjugate-times p (suc n) =
      conjugate-add p (times p n) ∙ ap (add (conjugate p)) (conjugate-times p n)
