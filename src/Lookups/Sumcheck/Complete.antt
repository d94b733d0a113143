-- ===== src/Lookups/Sumcheck/Complete.antt =====
-- The partial verifier of the sum-check protocol (crates/stwo/src/prover/lookups/sumcheck.rs) accepts the
-- proofs of the prover.
use mathlib.Core.Path.{subst}
use stwo.Prelude.{
  ℕ, zero, suc, ◌-◌, ◌≤◌, Bool, true, false, leb, ◌==◌, some, List, [], ◌∷◌, map, length, assert,
  ◌>>◌, ◌≡◌, refl, sym, ap, ap₂, ◌∙◌, arith, >>=-eq-some, some_inj, ==→eq,
}
use stwo.Outcome.{ok}
use stwo.Algebra.{field_ring, inverse, ◌⊕◌, ◌⊗◌, 𝟘, 𝟙}
use stwo.Algebra.Solver.{◌:+◌, ◌:*◌, lit0, x0, x1, x2, x3, x4, ring, cross}
use stwo.Fields.M31.Inverse.{m31_field}
use stwo.Fields.Cm31.{cm31_ring}
use stwo.Fields.Qm31.{Qm31, qm31_ring}
use stwo.Fields.Qm31.Inverse.{qm31_field}
use stwo.Fri.{checked_sub}
use stwo.Air.{max_of}
use stwo.Fri.Verifier.{MerkleChannel, eqb}
use stwo.Fri.Verifier.LastLayer.{eqb→eq}
use stwo.Lookups.{horner_eval}
use stwo.Lookups.{random_linear_combination as combine_values}
use stwo.Lookups.Univariate.{UnivariatePoly, eval_at_point, degree, scale}
use stwo.Lookups.Values.{eval-add, eval-scale, length-add, length-scale}
use stwo.Lookups.Sumcheck.{
  MultivariatePolyOracle, Proved, max_degree, random_linear_combination, two_pow, from_shift,
  assert_round, scale_claims, round_poly, round_polys, fix_polys, prove_rounds, prove_batch,
}
use stwo.Lookups.Sumcheck.Verifier.{verify_rounds, partially_verify}

eqb_same : (x y : Qm31) → x ≡ y → eqb x y ≡ true
eqb_same x y h = go (qm31_field.dec_eq x y)
  where
    go : (d : Dec (x ≡ y)) → (elim d [ yes e ↦ true | no ne ↦ false ]) ≡ true
    go (yes e) = refl
    go (no ne) = absurd (ne h)

-- The values of the combination are the combination of the values.
eval-random_linear_combination :
    (polys : List (UnivariatePoly Qm31)) (alpha t : Qm31)
    → eval_at_point (random_linear_combination polys alpha) t
      ≡ horner_eval (map (λ p. eval_at_point p t) polys) alpha
unfolding random_linear_combination horner_eval eval_at_point
eval-random_linear_combination [] alpha t = refl
eval-random_linear_combination (poly ∷ polys) alpha t =
    eval-add (scale (random_linear_combination polys alpha) alpha) poly t
    ∙ ap (λ s. s ⊕ eval_at_point poly t)
        (eval-scale (random_linear_combination polys alpha) alpha t
          ∙ ap (λ s. s ⊗ alpha) (eval-random_linear_combination polys alpha t))

-- Each polynomial has a degree of at most 3, and its values at 0 and 1 add up to the claim.
Sums : List (UnivariatePoly Qm31) → List Qm31 → Type 0
Sums [] [] = Unit
Sums (poly ∷ polys) (claim ∷ claims) =
    (length poly ≤ suc max_degree)
    × (eval_at_point poly 𝟘 ⊕ eval_at_point poly 𝟙 ≡ claim)
    × Sums polys claims
Sums _ _ = ⊥

Sums-length :
    (polys : List (UnivariatePoly Qm31)) (claims : List Qm31)
    → Sums polys claims
    → length polys ≡ length claims
unfolding Sums
Sums-length [] [] h = refl
Sums-length [] (claim ∷ claims) h = absurd h
Sums-length (poly ∷ polys) [] h = absurd h
Sums-length (poly ∷ polys) (claim ∷ claims) h = ap (λ n. suc n) (Sums-length polys claims h.2)

Sums-degree :
    (polys : List (UnivariatePoly Qm31)) (claims : List Qm31) (alpha : Qm31)
    → Sums polys claims
    → length (random_linear_combination polys alpha) ≤ suc max_degree
unfolding Sums random_linear_combination
Sums-degree [] claims alpha h = omega arith
Sums-degree (poly ∷ polys) [] alpha h = absurd h
Sums-degree (poly ∷ polys) (claim ∷ claims) alpha h =
    let rest = random_linear_combination polys alpha in
    length-add (scale rest alpha) poly (suc max_degree)
      (rw (length-scale rest alpha) (Sums-degree polys claims alpha h.2)) h.0

Sums-claims :
    (polys : List (UnivariatePoly Qm31)) (claims : List Qm31) (alpha : Qm31)
    → Sums polys claims
    → horner_eval (map (λ p. eval_at_point p 𝟘) polys) alpha
        ⊕ horner_eval (map (λ p. eval_at_point p 𝟙) polys) alpha
      ≡ horner_eval claims alpha
unfolding Sums horner_eval cross
Sums-claims [] [] alpha h = ring [] (lit0 :+ lit0) lit0 refl
Sums-claims [] (claim ∷ claims) alpha h = absurd h
Sums-claims (poly ∷ polys) [] alpha h = absurd h
Sums-claims (poly ∷ polys) (claim ∷ claims) alpha h =
    ring
      (horner_eval (map (λ p. eval_at_point p 𝟘) polys) alpha
        ∷ horner_eval (map (λ p. eval_at_point p 𝟙) polys) alpha
        ∷ alpha
        ∷ eval_at_point poly 𝟘
        ∷ eval_at_point poly 𝟙
        ∷ [])
      (x0 :* x2 :+ x3 :+ (x1 :* x2 :+ x4)) ((x0 :+ x1) :* x2 :+ (x3 :+ x4)) refl
    ∙ ap₂ (λ s u. s ⊗ alpha ⊕ u) (Sums-claims polys claims alpha h.2) h.1

length-map : {A B : Type 0} (f : A → B) (xs : List A) → length (map f xs) ≡ length xs
length-map f [] = refl
length-map f (x ∷ xs) = ap (λ n. suc n) (length-map f xs)

assert-eq-some : (b : Bool) {u : Unit {0}} → assert b ≡ some u → b ≡ true
assert-eq-some true h = refl
assert-eq-some false h = cc

assert_round-Sums :
    (q : UnivariatePoly Qm31) (claim : Qm31) {p : UnivariatePoly Qm31}
    → assert_round q claim ≡ some p
    → (length p ≤ suc max_degree) × (eval_at_point p 𝟘 ⊕ eval_at_point p 𝟙 ≡ claim)
unfolding assert_round degree
assert_round-Sums q claim h =
    let equal = eqb (eval_at_point q 𝟘 ⊕ eval_at_point q 𝟙) claim in
    let (u, e1, h1) = >>=-eq-some (assert equal >> assert (leb (length q - 1) max_degree)) _ h in
    let (u', e2, h2) = >>=-eq-some (assert equal) _ e1 in
    let small = assert-eq-some (leb (length q - 1) max_degree) h2 in
    subst (λ p. (length p ≤ suc max_degree) × (eval_at_point p 𝟘 ⊕ eval_at_point p 𝟙 ≡ claim))
      (some_inj h1) (ground arith, eqb→eq _ claim (assert-eq-some equal e2))

module _ {Hash O : Type 0} (c : MerkleChannel Hash) (g : MultivariatePolyOracle O) where
  round_poly-Sums :
      (n : ℕ) (poly : O) (claim : Qm31) {p : UnivariatePoly Qm31}
      → round_poly c g n poly claim ≡ some p
      → (length p ≤ suc max_degree) × (eval_at_point p 𝟘 ⊕ eval_at_point p 𝟙 ≡ claim)
  unfolding round_poly
  round_poly-Sums n poly claim h =
      let (half, e1, h1) = >>=-eq-some (inverse ⦃f = m31_field⦄ (two_pow 1)) _ h in
      assert_round-Sums _ claim h1

  round_polys-Sums :
      (n : ℕ) (polys : List O) (claims : List Qm31) {ps : List (UnivariatePoly Qm31)}
      → length polys ≡ length claims
      → round_polys c g n polys claims ≡ some ps
      → Sums ps claims
  unfolding round_polys Sums
  round_polys-Sums n [] [] same h = subst (λ ps. Sums ps []) (some_inj h) tt
  round_polys-Sums n [] (claim ∷ claims) same h = absurd (omega arith)
  round_polys-Sums n (poly ∷ polys) [] same h = absurd (omega arith)
  round_polys-Sums n (poly ∷ polys) (claim ∷ claims) same h =
      let (first, e1, h1) = >>=-eq-some (round_poly c g n poly claim) _ h in
      let (rest, e2, h2) = >>=-eq-some (round_polys c g n polys claims) _ h1 in
      let (small, sums) = round_poly-Sums n poly claim e1 in
      subst (λ ps. Sums ps (claim ∷ claims)) (some_inj h2)
        (small, sums, round_polys-Sums n polys claims (omega arith) e2)

  length-fix_polys :
      (n : ℕ) (challenge : Qm31) (polys : List O)
      → length (fix_polys c g n challenge polys) ≡ length polys
  unfolding fix_polys
  length-fix_polys n challenge [] = refl
  length-fix_polys n challenge (poly ∷ polys) = ap (λ k. suc k) (length-fix_polys n challenge polys)

  verify_rounds-cons :
      (round : ℕ) (claim : Qm31) (poly : UnivariatePoly Qm31) (polys : List (UnivariatePoly Qm31))
      (channel : c.State) {rest : List Qm31 × Qm31 × c.State}
      → length poly ≤ suc max_degree
      → claim ≡ eval_at_point poly 𝟘 ⊕ eval_at_point poly 𝟙
      → verify_rounds c
          (suc round)
          (eval_at_point poly (c.draw_secure_felt (c.mix_felts channel poly)).0)
          polys
          (c.draw_secure_felt (c.mix_felts channel poly)).1
        ≡ ok rest
      → verify_rounds c round claim (poly ∷ polys) channel
        ≡ ok ((c.draw_secure_felt (c.mix_felts channel poly)).0 ∷ rest.0, rest.1, rest.2)
  unfolding verify_rounds degree
  verify_rounds-cons round claim poly polys channel small total h =
      let in_degree : leb (length poly - 1) max_degree ≡ true = ground arith in
      rw (in_degree, eqb_same claim (eval_at_point poly 𝟘 ⊕ eval_at_point poly 𝟙) total, h) refl

  Verified : ℕ → List Qm31 → Qm31 → c.State → Proved c g → Type 0
  Verified round claims lambda channel r =
      verify_rounds c round (horner_eval claims lambda) r.proof channel
      ≡ ok (r.assignment, horner_eval r.claims lambda, r.channel)

  prove_rounds-verified :
      (n round : ℕ) (claims : List Qm31) (polys : List O) (lambda : Qm31) (channel : c.State)
      {r : Proved c g}
      → length polys ≡ length claims
      → prove_rounds c g n claims polys lambda channel ≡ some r
      → Verified round claims lambda channel r
  unfolding prove_rounds verify_rounds Verified
  prove_rounds-verified zero round claims polys lambda channel same h =
      subst (Verified round claims lambda channel) (some_inj h) refl
  prove_rounds-verified (suc n) round claims polys lambda channel same h =
      let (ps, e1, h1) = >>=-eq-some (round_polys c g (suc n) polys claims) _ h in
      let sums = round_polys-Sums (suc n) polys claims same e1 in
      let combined = random_linear_combination ps lambda in
      let drawn = c.draw_secure_felt (c.mix_felts channel combined) in
      let challenge = drawn.0 in
      let claims' = map (λ p. eval_at_point p challenge) ps in
      let polys' = fix_polys c g (suc n) challenge polys in
      let (rest, e2, h2) = >>=-eq-some (prove_rounds c g n claims' polys' lambda drawn.1) _ h1 in
      let same' : length polys' ≡ length claims' =
        length-fix_polys (suc n) challenge polys
        ∙ same
        ∙ sym (Sums-length ps claims sums)
        ∙ sym (length-map (λ p. eval_at_point p challenge) ps) in
      let ih = prove_rounds-verified n (suc round) claims' polys' lambda drawn.1 same' e2 in
      let total : horner_eval claims lambda ≡ eval_at_point combined 𝟘 ⊕ eval_at_point combined 𝟙 =
        sym (
          ap₂ (λ s u. s ⊕ u) (eval-random_linear_combination ps lambda 𝟘)
            (eval-random_linear_combination ps lambda 𝟙)
          ∙ Sums-claims ps claims lambda sums) in
      subst (Verified round claims lambda channel) (some_inj h2) (
        verify_rounds-cons round (horner_eval claims lambda) combined rest.proof channel
          (Sums-degree ps claims lambda sums) total
          (rw (eval-random_linear_combination ps lambda challenge) ih))

  length-scale_claims :
      (n : ℕ) (claims : List Qm31) (polys : List O) {scaled : List Qm31}
      → scale_claims c g n claims polys ≡ some scaled
      → length scaled ≡ length claims
  unfolding scale_claims
  length-scale_claims n [] polys h = ap length (sym (some_inj h))
  length-scale_claims n (claim ∷ claims) [] h = ap length (sym (some_inj h))
  length-scale_claims n (claim ∷ claims) (poly ∷ polys) h =
      let (unused, e1, h1) = >>=-eq-some (checked_sub n (g.n_variables poly)) _ h in
      let (factor, e2, h2) = >>=-eq-some (from_shift unused) _ h1 in
      let (rest, e3, h3) = >>=-eq-some (scale_claims c g n claims polys) _ h2 in
      ap length (sym (some_inj h3)) ∙ ap (λ k. suc k) (length-scale_claims n claims polys e3)

  -- If the prover returns, then the partial verifier accepts its proof for the combination of the claims
  -- by the powers of lambda, each claim multiplied for the variables that its polynomial does not have.
  -- It draws the assignment of the prover, leaves the channel as the prover does, and the evaluation
  -- that it returns is the combination of the evaluations that the prover claims.
  pub partially_verify-prove_batch :
      (claims : List Qm31) (polys : List O) (lambda : Qm31) (channel : c.State) (r : Proved c g)
      → prove_batch c g claims polys lambda channel ≡ some r
      → (n : ℕ) × (scaled : List Qm31) × (max_of (map g.n_variables polys) ≡ some n)
        × (scale_claims c g n claims polys ≡ some scaled)
        × (partially_verify c
              (combine_values scaled lambda)
              (record { round_polys = r.proof })
              channel
            ≡ ok (r.assignment, combine_values r.claims lambda, r.channel))
  unfolding prove_batch partially_verify combine_values Verified
  partially_verify-prove_batch claims polys lambda channel r h =
      let (n, e1, h1) = >>=-eq-some (max_of (map g.n_variables polys)) _ h in
      let (u, e2, h2) = >>=-eq-some (assert (length claims == length polys)) _ h1 in
      let (scaled, e3, h3) = >>=-eq-some (scale_claims c g n claims polys) _ h2 in
      let same =
        length-scale_claims n claims polys e3
        ∙ ==→eq (length claims) (length polys)
            (assert-eq-some (length claims == length polys) e2) in
      (n, scaled, e1, e3, prove_rounds-verified n 0 scaled polys lambda channel (sym same) h3)
