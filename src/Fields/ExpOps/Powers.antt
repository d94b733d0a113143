-- ===== src/Fields/ExpOps/Powers.antt =====
-- The power routines against repeated multiplication.
use Prim.Native.Nat.add
use stwo.Prelude.{ℕ, zero, suc, ◌+◌, ◌*◌, ◌/◌, ◌%◌, ◌^◌, ◌<◌, ◌==◌, ◌≡◌, refl, sym, ap, ◌∙◌, arith}
use stwo.Prelude.{if◌then◌else◌, Bool-cases, inl, inr, ==→eq}
use native.Mathlib.Nat.{pow-suc}
use stwo.Prelude.{[], ◌∷◌}
use stwo.Algebra.{Ring, ◌⊗◌, ⊝, 𝟙}
use stwo.Algebra.Solver.{◌:*◌, opp, x0, x1, x2, x3, ring, cross}
use stwo.Algebra.Laws.{mul-one}
use stwo.Fields.ExpOps.{square, pow_loop, pow, sqn, pow2147483645}

module _ {ℓ} {A : Type ℓ} ⦃r : Ring A⦄ where
  -- The product of `n` copies.
  unfoldable pub npow : A → ℕ → A
  npow a zero = 𝟙
  npow a (suc n) = a ⊗ npow a n

  pub npow-add : (a : A) (m n : ℕ) → npow a (m + n) ≡ npow a m ⊗ npow a n
  unfolding npow
  npow-add a zero n = rw (add.zero n) (sym (r.one-mul _))
  npow-add a (suc m) n = rw (add.suc m n, npow-add a m n) (sym (r.mul_assoc _ _ _))

  pub npow-mul : (a : A) (m n : ℕ) → npow (npow a m) n ≡ npow a (m * n)
  unfolding npow
  npow-mul a m zero = ap (npow a) {x = 0} (omega arith)
  npow-mul a m (suc n) =
      rw (npow-mul a m n) (sym (npow-add a m (m * n)) ∙ ap (npow a) {x = m + m * n} (omega arith))

  pub npow-one : (a : A) → npow a 1 ≡ a
  unfolding npow
  npow-one a = mul-one a

  pub square-npow : (a : A) (n : ℕ) → square (npow a n) ≡ npow a (n + n)
  unfolding square
  square-npow a n = sym (npow-add a n n)

  sqn-npow_of : (n : ℕ) (a : A) (k : ℕ) → sqn n (npow a k) ≡ npow a (k * 2 ^ n)
  unfolding sqn
  sqn-npow_of zero a k = ap (npow a) {x = k} (omega arith)
  sqn-npow_of (suc n) a k =
      rw (← npow-add a k k) (sqn-npow_of n a (k + k))
      ∙ ap (npow a) {x = (k + k) * 2 ^ n} (omega (arith, ap (λ (t : ℕ). k * t) (pow-suc 2 n)))

  -- One line of the tree: if u = v ^ k and w = v ^ l, then sqn n u * w = v ^ (k * 2 ^ n + l).
  tree_step :
      (v u w : A) (n k l m : ℕ)
      → u ≡ npow v k
      → w ≡ npow v l
      → k * 2 ^ n + l ≡ m
      → sqn n u ⊗ w ≡ npow v m
  tree_step v u w n k l m eu ew em =
      rw (eu, ew, sqn-npow_of n v k) (sym (npow-add v _ l) ∙ ap (npow v) em)

  -- The multiplication tree of `pow2147483645` computes v ^ (P - 2).
  pub pow2147483645-npow : (v : A) → pow2147483645 v ≡ npow v 2147483645
  unfolding pow2147483645
  pow2147483645-npow v =
      let e = sym (npow-one v) in
      let e0 = tree_step v v v 2 1 1 5 e e refl in
      let e1 = tree_step v _ _ 1 5 5 15 e0 e0 refl in
      let e2 = tree_step v _ _ 3 15 5 125 e1 e0 refl in
      let e3 = tree_step v _ _ 1 125 5 255 e2 e0 refl in
      let e4 = tree_step v _ _ 8 255 255 65535 e3 e3 refl in
      let e5 = tree_step v _ _ 8 65535 255 16777215 e4 e3 refl in
      tree_step v _ _ 7 16777215 125 2147483645 e5 e2 refl

  pub npow-square : (a : A) (n : ℕ) → npow (square a) n ≡ npow a (n + n)
  unfolding npow square
  npow-square a zero = refl
  npow-square a (suc n) =
      rw (npow-square a n) (r.mul_assoc a a _) ∙ ap (npow a) {x = suc (suc (n + n))} (omega arith)

  -- One round takes the lowest bit of the exponent.
  round-npow :
      (res base : A) (exp : ℕ)
      → (if exp % 2 == 1 then res ⊗ base else res) ⊗ npow (square base) (exp / 2)
        ≡ res ⊗ npow base exp
  round-npow res base exp = elim (Bool-cases (exp % 2 == 1)) [
    | inl e ↦
        rw (e, npow-square base (exp / 2))
          (r.mul_assoc _ _ _
            ∙ unfold npow in
              ap (λ n. res ⊗ npow base n) {x = suc (exp / 2 + exp / 2)}
                (omega (arith, ==→eq _ _ e)))
    | inr e ↦ rw (e, npow-square base (exp / 2)) (ap (λ n. res ⊗ npow base n) (ground arith))
  ]

  pow_loop-npow :
      (fuel : ℕ) (res base : A) (exp : ℕ)
      → exp < 2 ^ fuel
      → pow_loop fuel res base exp ≡ res ⊗ npow base exp
  unfolding pow_loop
  pow_loop-npow zero res base exp h = rw exp_zero (sym (unfold npow in mul-one res))
    where
      exp_zero : exp ≡ 0
      exp_zero = omega arith
  pow_loop-npow (suc fuel) res base exp h = elim (Bool-cases (exp == 0)) [
    | inl e ↦ rw (e, ==→eq exp 0 e) (sym (unfold npow in mul-one res))
    | inr e ↦ rw e (
        pow_loop-npow fuel _ (square base) (exp / 2) (omega (arith, pow-suc 2 fuel))
        ∙ round-npow res base exp)
  ]

  -- On a 128-bit exponent the loop ends by its test and returns the power.
  pub pow-npow : (a : A) (exp : ℕ) → exp < 2 ^ 128 → pow a exp ≡ npow a exp
  unfolding pow
  pow-npow a exp h = pow_loop-npow 128 𝟙 a exp h ∙ r.one-mul _

  pub mul-npow : (a b : A) (n : ℕ) → npow (a ⊗ b) n ≡ npow a n ⊗ npow b n
  unfolding npow cross
  mul-npow a b zero = sym (r.one-mul _)
  mul-npow a b (suc n) = rw (mul-npow a b n) (
      ring (a ∷ b ∷ npow a n ∷ npow b n ∷ []) (x0 :* x1 :* (x2 :* x3)) (x0 :* x2 :* (x1 :* x3))
        refl)

  pub one-npow : (n : ℕ) → npow 𝟙 n ≡ 𝟙 {A = A}
  unfolding npow
  one-npow zero = refl
  one-npow (suc n) = r.one-mul _ ∙ one-npow n

  -- At an odd exponent the sign comes out.
  pub npow-neg_odd : (a : A) (n : ℕ) → npow (⊝ a) (suc (n + n)) ≡ ⊝ (npow a (suc (n + n)))
  unfolding npow cross square
  npow-neg_odd a n =
      rw (← npow-square (⊝ a) n, ← npow-square a n, even)
        (ring (a ∷ npow (a ⊗ a) n ∷ []) (opp x0 :* x1) (opp (x0 :* x1)) refl)
    where
      even : ⊝ a ⊗ ⊝ a ≡ a ⊗ a
      even = ring (a ∷ []) (opp x0 :* opp x0) (x0 :* x0) refl
