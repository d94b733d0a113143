-- ===== src/Lookups/Sumcheck/Rounds.antt =====
-- The rounds of a sum-check (crates/stwo/src/prover/lookups/sumcheck.rs) that `partially_verify` accepts.
use mathlib.Core.Path.{subst}
use stwo.Prelude.{ℕ, suc, ◌≤◌, leb, List, [], ◌∷◌, ◌≡◌, refl, ap, arith, length}
use stwo.Outcome.{ok, ◌>>◌, guard, >>=-eq-ok, guard-eq-ok, ok_inj}
use stwo.Algebra.{field_ring, ◌⊕◌, 𝟘, 𝟙}
use stwo.Fields.Cm31.{cm31_ring}
use stwo.Fields.Qm31.{Qm31, qm31_ring}
use stwo.Fields.Qm31.Inverse.{qm31_field}
use stwo.Fri.Verifier.{MerkleChannel, eqb}
use stwo.Fri.Verifier.LastLayer.{eqb→eq}
use stwo.Lookups.Univariate.{UnivariatePoly, eval_at_point, degree}
use stwo.Lookups.Sumcheck.{SumcheckProof, SumcheckError, max_degree}
use stwo.Lookups.Sumcheck.Verifier.{verify_rounds, partially_verify}

module _ {Hash : Type 0} (c : MerkleChannel Hash) where
  -- The challenge of a round and the channel after it, which has taken up the polynomial before.
  abbrev pub drawn : UnivariatePoly Qm31 → c.State → Qm31 × c.State
  drawn poly channel = c.draw_secure_felt (c.mix_felts channel poly)

  -- From a claim and a channel, through the polynomials of the rounds, to the point of the challenges,
  -- the evaluation that is claimed there and the last channel.
  pub data AreRounds
      : Qm31 → List (UnivariatePoly Qm31) → c.State → List Qm31 → Qm31 → c.State → Type 0 where
    done : (claim : Qm31) (channel : c.State) → AreRounds claim [] channel [] claim channel
    round :
        (claim : Qm31) (poly : UnivariatePoly Qm31) (polys : List (UnivariatePoly Qm31))
        (channel channel' : c.State) (point : List Qm31) (eval : Qm31)
        → degree poly ≤ max_degree
        → claim ≡ eval_at_point poly 𝟘 ⊕ eval_at_point poly 𝟙
        → AreRounds
            (eval_at_point poly (drawn poly channel).0)
            polys
            (drawn poly channel).1
            point
            eval
            channel'
        → AreRounds claim (poly ∷ polys) channel ((drawn poly channel).0 ∷ point) eval channel'

  verify_rounds-AreRounds :
      (n : ℕ) (claim : Qm31) (polys : List (UnivariatePoly Qm31)) (channel : c.State)
      (r : List Qm31 × Qm31 × c.State)
      → verify_rounds c n claim polys channel ≡ ok r
      → AreRounds claim polys channel r.0 r.1 r.2
  unfolding verify_rounds
  verify_rounds-AreRounds n claim [] channel r h =
      subst (λ (p : List Qm31 × Qm31 × c.State). AreRounds claim [] channel p.0 p.1 p.2) (ok_inj h)
        (AreRounds.done claim channel)
  verify_rounds-AreRounds n claim (poly ∷ polys) channel r h =
      let sum = eval_at_point poly 𝟘 ⊕ eval_at_point poly 𝟙 in
      let low = guard (leb (degree poly) max_degree) (SumcheckError.degree_invalid n) in
      let summed = guard (eqb claim sum) (SumcheckError.sum_invalid claim sum n) in
      let (u, e, h1) = >>=-eq-ok (low >> summed) _ h in
      let (u1, e1, e2) = >>=-eq-ok low (λ _. summed) e in
      let (rest, e3, h3) =
        >>=-eq-ok
          (verify_rounds c (suc n) (eval_at_point poly (drawn poly channel).0) polys
            (drawn poly channel).1)
          _ h1 in
      let small = guard-eq-ok (leb (degree poly) max_degree) _ e1 in
      subst (λ (p : List Qm31 × Qm31 × c.State). AreRounds claim (poly ∷ polys) channel p.0 p.1 p.2)
        (ok_inj h3)
        (AreRounds.round claim poly polys channel rest.2 rest.0 rest.1 (ground arith)
          (eqb→eq claim sum (guard-eq-ok _ _ e2))
          (verify_rounds-AreRounds (suc n) _ polys _ rest e3))

  pub partially_verify-AreRounds :
      (claim : Qm31) (proof : SumcheckProof) (channel : c.State) {r : List Qm31 × Qm31 × c.State}
      → partially_verify c claim proof channel ≡ ok r
      → AreRounds claim proof.round_polys channel r.0 r.1 r.2
  unfolding partially_verify
  partially_verify-AreRounds claim proof channel {r} h =
      verify_rounds-AreRounds 0 claim proof.round_polys channel r h

  -- A round for each polynomial.
  pub length-AreRounds :
      {claim eval : Qm31} {polys : List (UnivariatePoly Qm31)} {channel channel' : c.State}
      {point : List Qm31}
      → AreRounds claim polys channel point eval channel'
      → length point ≡ length polys
  length-AreRounds (done claim channel) = refl
  length-AreRounds (round claim poly polys channel channel' point eval low summed rest) =
      ap (λ n. suc n) (length-AreRounds rest)
