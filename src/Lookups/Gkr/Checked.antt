-- ===== src/Lookups/Gkr/Checked.antt =====
-- What the partial verifier of batches (crates/stwo/src/prover/lookups/gkr_verifier.rs) has checked in each
-- layer that succeeds.
use mathlib.Core.Path.{subst}
use stwo.Prelude.{
  ℕ, suc, ◌+◌, ◌-◌, true, length-append, List, [], ◌∷◌, ◌++◌, map, length, ◌≡◌, refl, sym, ap, ◌∙◌,
  arith,
}
use stwo.Outcome.{map_err-eq-ok, ok, guard, map_err, ok_inj, >>=-eq-ok, guard-eq-ok}
use stwo.Fields.Cm31.{cm31_ring}
use stwo.Fields.Qm31.{Qm31, qm31_ring}
use stwo.Fri.Verifier.{MerkleChannel, eqb}
use stwo.Fri.Verifier.LastLayer.{eqb→eq}
use stwo.Lookups.{random_linear_combination}
use stwo.Lookups.Sumcheck.{SumcheckProof}
use stwo.Lookups.Sumcheck.Verifier.{partially_verify}
use stwo.Lookups.Gkr.Active.{active, layer_evals-lengths, active-set_outputs, active-reduce_claims}
use stwo.Lookups.Sumcheck.Rounds.{AreRounds, length-AreRounds, partially_verify-AreRounds}
use stwo.Lookups.Gkr.{GkrError, Instance, set_outputs, sumcheck_claims, layer_evals}
use stwo.Lookups.Gkr.Batch.{
  Layer, mix_claims, mix_masks, reduce_instance, reduce_claims, verify_layer, verify_layers,
}

length-reduce_claims :
    (n layer : ℕ) (challenge : Qm31) (is : List Instance) {out : List Instance}
    → reduce_claims n layer challenge is ≡ ok out
    → length out ≡ length is
unfolding reduce_claims
length-reduce_claims n layer challenge [] h = ap length (sym (ok_inj h))
length-reduce_claims n layer challenge (i ∷ is) h =
    let (first, e1, h1) = >>=-eq-ok (reduce_instance n layer challenge i) _ h in
    let (rest, e2, h2) = >>=-eq-ok (reduce_claims n layer challenge is) _ h1 in
    ap length (sym (ok_inj h2)) ∙ ap (λ k. suc k) (length-reduce_claims n layer challenge is e2)

length-map : {A B : Type 0} (f : A → B) (xs : List A) → length (map f xs) ≡ length xs
length-map f [] = refl
length-map f (x ∷ xs) = ap (λ n. suc n) (length-map f xs)

length-set_outputs : (n : ℕ) (is : List Instance) → length (set_outputs n is) ≡ length is
unfolding set_outputs
length-set_outputs n is = length-map _ is

module _ {Hash : Type 0} (c : MerkleChannel Hash) where
  abbrev alpha : ℕ → Layer c → Qm31
  alpha n_remaining s =
      (c.draw_secure_felt (mix_claims c (set_outputs n_remaining s.states) s.channel)).0

  abbrev lambda : ℕ → Layer c → Qm31
  lambda n_remaining s =
      (c.draw_secure_felt
        (c.draw_secure_felt (mix_claims c (set_outputs n_remaining s.states) s.channel)).1).0

  abbrev drawn : ℕ → Layer c → c.State
  drawn n_remaining s =
      (c.draw_secure_felt
        (c.draw_secure_felt (mix_claims c (set_outputs n_remaining s.states) s.channel)).1).1

  -- The sum-check of the layer is verified for the claims, and its evaluation is that of the gates on the
  -- masks at its point, which the next layer extends.
  pub record IsChecked (n_layers layer : ℕ) (sumcheck_proof : SumcheckProof) (s s' : Layer c)
      : Type 0 where
    pub claims : List Qm31
    pub of_claims :
        sumcheck_claims n_layers
          (lambda (n_layers - layer) s)
          (set_outputs (n_layers - layer) s.states)
        ≡ ok claims
    pub point : List Qm31
    pub eval : Qm31
    pub channel : c.State
    pub sumcheck :
        AreRounds c
          (random_linear_combination claims (alpha (n_layers - layer) s))
          sumcheck_proof.round_polys
          (drawn (n_layers - layer) s)
          point
          eval
          channel
    pub evals : List Qm31
    pub of_gates :
        layer_evals
          (set_outputs (n_layers - layer) s.states)
          n_layers
          layer
          (lambda (n_layers - layer) s)
          s.ood_point
          point
          0
          (set_outputs (n_layers - layer) s.states)
        ≡ ok evals
    pub circuit : eval ≡ random_linear_combination evals (alpha (n_layers - layer) s)
    pub mixed : c.State
    pub of_masks :
        mix_masks c n_layers layer (set_outputs (n_layers - layer) s.states) channel ≡ ok mixed
    pub extended : s'.ood_point ≡ point ++ (c.draw_secure_felt mixed).0 ∷ []
    pub reduced :
        reduce_claims n_layers layer
          (c.draw_secure_felt mixed).0
          (set_outputs (n_layers - layer) s.states)
        ≡ ok s'.states
    pub next_channel : s'.channel ≡ (c.draw_secure_felt mixed).1

  verify_layer-IsChecked :
      (n_layers layer : ℕ) (sumcheck_proof : SumcheckProof) (s s' : Layer c)
      → verify_layer c n_layers layer sumcheck_proof s ≡ ok s'
      → IsChecked n_layers layer sumcheck_proof s s'
  unfolding verify_layer
  verify_layer-IsChecked n layer proof s s' h =
      let all = set_outputs (n - layer) s.states in
      let (claims, e1, h1) = >>=-eq-ok (sumcheck_claims n (lambda (n - layer) s) all) _ h in
      let ((point, eval, channel), e2, h2) =
        >>=-eq-ok
          (map_err (GkrError.invalid_sumcheck layer) (
            partially_verify c (random_linear_combination claims (alpha (n - layer) s)) proof
              (drawn (n - layer) s)))
          _ h1 in
      let (evals, e3, h3) =
        >>=-eq-ok (layer_evals all n layer (lambda (n - layer) s) s.ood_point point 0 all) _ h2 in
      let layer_eval = random_linear_combination evals (alpha (n - layer) s) in
      let (u, e4, h4) =
        >>=-eq-ok
          (guard (eqb eval layer_eval) (GkrError.circuit_check_failure eval layer_eval layer)) _
          h3 in
      let (mixed, e5, h5) = >>=-eq-ok (mix_masks c n layer all channel) _ h4 in
      let challenge = (c.draw_secure_felt mixed).0 in
      let (states, e6, h6) = >>=-eq-ok (reduce_claims n layer challenge all) _ h5 in
      subst (IsChecked n layer proof s) (ok_inj h6) (record {
        claims = claims;
        of_claims = e1;
        point = point;
        eval = eval;
        channel = channel;
        sumcheck =
            partially_verify-AreRounds c _ proof _
              (map_err-eq-ok (GkrError.invalid_sumcheck layer) _ e2);
        evals = evals;
        of_gates = e3;
        circuit = eqb→eq eval layer_eval (guard-eq-ok _ _ e4);
        mixed = mixed;
        of_masks = e5;
        extended = refl;
        reduced = e6;
        next_channel = refl;
      })

  -- The layers from the given one on, each checked.
  pub data AllChecked (n_layers : ℕ) : ℕ → List SumcheckProof → Layer c → Layer c → Type 0 where
    done : (layer : ℕ) (s : Layer c) → AllChecked n_layers layer [] s s
    next :
        (layer : ℕ) (proof : SumcheckProof) (proofs : List SumcheckProof) (s s' last : Layer c)
        → IsChecked n_layers layer proof s s'
        → AllChecked n_layers (suc layer) proofs s' last
        → AllChecked n_layers layer (proof ∷ proofs) s last

  pub verify_layers-AllChecked :
      (n layer : ℕ) (proofs : List SumcheckProof) (s last : Layer c)
      → verify_layers c n layer proofs s ≡ ok last
      → AllChecked n layer proofs s last × (length last.states ≡ length s.states)
  unfolding verify_layers
  verify_layers-AllChecked n layer [] s last h = (
    subst (AllChecked n layer [] s) (ok_inj h) (AllChecked.done layer s),
    ap (λ (l : Layer c). length l.states) (sym (ok_inj h)),
  )
  verify_layers-AllChecked n layer (proof ∷ proofs) s last h =
      let (s', e, h1) = >>=-eq-ok (verify_layer c n layer proof s) _ h in
      let checked = verify_layer-IsChecked n layer proof s s' e in
      let (rest, len) = verify_layers-AllChecked n (suc layer) proofs s' last h1 in
      (
        AllChecked.next layer proof proofs s s' last checked rest,
        len
            ∙ length-reduce_claims n layer (c.draw_secure_felt checked.mixed).0
                (set_outputs (n - layer) s.states) checked.reduced
            ∙ length-set_outputs (n - layer) s.states,
      )

  -- The sum-check of each layer has a round for each layer before it.
  abbrev pub HasRounds : ℕ → List SumcheckProof → Type 0
  HasRounds n [] = Unit
  HasRounds n (proof ∷ proofs) = (length proof.round_polys ≡ n) × HasRounds (suc n) proofs

  -- With an active instance each layer extends the point by one coordinate.
  pub AllChecked-HasRounds :
      (n : ℕ) {layer : ℕ} {proofs : List SumcheckProof} {s last : Layer c}
      → AllChecked n layer proofs s last
      → active (set_outputs (n - layer) s.states) ≡ true
      → HasRounds (length s.ood_point) proofs
        × (length last.ood_point ≡ length s.ood_point + length proofs)
  AllChecked-HasRounds n (done layer s) act = (tt, omega arith)
  AllChecked-HasRounds n (next layer proof proofs s s' last checked rest) act =
      let all = set_outputs (n - layer) s.states in
      let challenge = (c.draw_secure_felt checked.mixed).0 in
      let len =
        layer_evals-lengths all n layer _ s.ood_point checked.point 0 all checked.of_gates act in
      let rounds = length-AreRounds c checked.sumcheck in
      let (counts, total) = AllChecked-HasRounds n rest (
        active-set_outputs (n - suc layer) s'.states
          (active-reduce_claims n layer challenge all checked.reduced act)) in
      let one : length s'.ood_point ≡ suc (length s.ood_point) =
        ap length checked.extended ∙ omega (arith, length-append checked.point (challenge ∷ [])) in
      ((sym rounds ∙ len, subst (λ n. HasRounds n proofs) one counts), omega arith)
