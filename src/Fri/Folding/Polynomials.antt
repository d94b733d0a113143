-- ===== src/Fri/Folding/Polynomials.antt =====
-- `fold_line` (crates/stwo/src/core/fri.rs) on the values of a polynomial.
use stwo.Prelude.{
  ℕ, suc, ◌-◌, ◌^◌, ◌≤◌, ◌<◌, ◌≡◌, ◌≢◌, sym, ap, ◌∙◌, some, List, ◌++◌, length, map, range,
  length-append, arith,
}
use stwo.Prelude.Bits.{two_pow-suc}
use stwo.Itertools.{Itertools}
use stwo.Algebra.{𝟘}
use stwo.Fields.M31.Carrier.{M31, m31_ring}
use stwo.Fields.Qm31.{Qm31, qm31_ring}
use stwo.Circle.Coset.Valid.{doubled}
use stwo.Poly.Values.{combine, length-combine}
use stwo.Line.{LineDomain, LinePoly, at, log_size, double, eval_at_point, secure_from}
use stwo.Line.Pairs.{IsExact}
use stwo.Line.Nonzero.{half_odds-IsExact, half_odds_ne-zero, half_odds_size}
use stwo.Circle.Coset.{half_odds}
use stwo.Line.Evaluate.{poly_value, eval_at_point-poly_value, poly_value-append, poly_value-combine}
use stwo.Fri.Folding.{fold_line}
use stwo.Fri.Folding.Pairs.{Splits, folded}
use stwo.Fri.Folding.Evaluations.{evaluations, value_at, fold_line-evaluations, double_succeeds}

-- The values of a polynomial at base field elements.
abbrev pub Evaluates : LinePoly → (M31 → Qm31) → Type 0
Evaluates p f = (x : M31) → eval_at_point p (secure_from x) ≡ some (f x)

same_evaluations :
    (f g : M31 → Qm31) (d : LineDomain) (is : List ℕ)
    → ((x : M31) → f x ≡ g x)
    → map (value_at f d) is ≡ map (value_at g d) is
same_evaluations f g d is same = ap (λ h. map (value_at h d) is) (λ i x. same x i)

length_both :
    (n : ℕ) (ls rs : List Qm31)
    → length ls ≡ 2 ^ n
    → length rs ≡ 2 ^ n
    → length (ls ++ rs) ≡ 2 ^ suc n
length_both n ls rs hl hr = omega (arith, length-append ls rs, two_pow-suc n)

folds_to :
    (alpha : Qm31) (n : ℕ) (ls rs : List Qm31) (y : M31)
    → length ls ≡ 2 ^ n
    → length rs ≡ 2 ^ n
    → folded alpha (poly_value n ls) (poly_value n rs) y ≡ poly_value n (combine alpha ls rs) y
unfolding folded
folds_to alpha n ls rs y hl hr = sym (poly_value-combine alpha n ls rs y hl hr)

fold_line-poly_value :
    (it : Itertools) (d : LineDomain) (log_half n : ℕ) (ls rs : List Qm31) (alpha : Qm31)
    → IsExact d.coset
    → log_size d ≡ suc log_half
    → ((i : ℕ) → i < 2 ^ log_size d → at d i ≢ 𝟘)
    → length ls ≡ 2 ^ n
    → length rs ≡ 2 ^ n
    → (f g : M31 → Qm31) × (d' : LineDomain) × Evaluates
        (record { coeffs = ls ++ rs; log_size = suc n })
        f
      × Evaluates (record { coeffs = combine alpha ls rs; log_size = n }) g
      × (double d ≡ some d')
      × (fold_line it (evaluations f d) d alpha ≡ some (d', evaluations g d'))
fold_line-poly_value it d log_half n ls rs alpha exact size nonzero hl hr =
    let even = poly_value n ls in
    let odd = poly_value n rs in
    let f = poly_value (suc n) (ls ++ rs) in
    let g = poly_value n (combine alpha ls rs) in
    let splits : Splits f even odd = record { split = λ x. poly_value-append n ls rs x hl } in
    let d' : LineDomain = record { coset = doubled d.coset } in
    (
      f,
      g,
      d',
      λ x. eval_at_point-poly_value (suc n) (ls ++ rs) x (length_both n ls rs hl hr),
      λ y.
          eval_at_point-poly_value n (combine alpha ls rs) y
            (length-combine alpha ls rs (hl ∙ sym hr) ∙ hl),
      double_succeeds d exact log_half size f even odd splits nonzero,
      fold_line-evaluations d exact log_half size f even odd splits nonzero it alpha
          ∙ ap (λ es. some (d', es))
              (same_evaluations (folded alpha even odd) g d' (range 0 (2 ^ log_size d'))
                (λ y. folds_to alpha n ls rs y hl hr)),
    )

-- Take the polynomial with coefficients ls ++ rs, both of length 2 ^ n, and the domain of a coset of
-- half odds of a log size from 1 to 29. `fold_line` on its values, in bit-reversed order, succeeds and
-- gives the doubled domain and on it, in the same order, the values of the polynomial with the
-- coefficients 2 * (l + alpha * r).
pub fold_line-eval_at_point :
    (it : Itertools) (log_domain_size : ℕ) (d : LineDomain) (n : ℕ) (ls rs : List Qm31)
    (alpha : Qm31)
    → 1 ≤ log_domain_size
    → log_domain_size ≤ 29
    → half_odds log_domain_size ≡ some d.coset
    → length ls ≡ 2 ^ n
    → length rs ≡ 2 ^ n
    → (f g : M31 → Qm31) × (d' : LineDomain) × Evaluates
        (record { coeffs = ls ++ rs; log_size = suc n })
        f
      × Evaluates (record { coeffs = combine alpha ls rs; log_size = n }) g
      × (double d ≡ some d')
      × (fold_line it (evaluations f d) d alpha ≡ some (d', evaluations g d'))
unfolding log_size at
fold_line-eval_at_point it size d n ls rs alpha h1 h2 made_by hl hr =
    fold_line-poly_value it d (size - 1) n ls rs alpha (half_odds-IsExact size h2 made_by)
      (half_odds_size size made_by ∙ omega arith) (λ i lt. half_odds_ne-zero size h1 h2 made_by i)
      hl hr
