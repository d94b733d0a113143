-- ===== src/Fri/Verifier/Returns.antt =====
-- The commitment stage of FRI (crates/stwo/src/core/fri.rs) on a proof of which only the size of the last
-- polynomial is known.
use stwo.Prelude.{
  ℕ, zero, suc, ◌+◌, ◌-◌, ◌^◌, ◌≤◌, ◌<◌, Bool, true, false, leb, ltb, ◌==◌, ◌&&◌, Option, none,
  some, List, [], ◌∷◌, ◌≡◌, ◌≢◌, refl, sym, ap, ◌∙◌, arith, length,
}
use stwo.Prelude as prelude
use stwo.Outcome.{Outcome, ok, err, panic, ◌>>=◌, ◌>>◌, guard, unwrap, ok_or}
use stwo.Circle.Coset.{Coset, repeated_double, half_odds, odds}
use stwo.Circle.Index.{subgroup_gen}
use stwo.Circle.Coset.Valid.{new-le, made, double_lem, doubled}
use stwo.Domain as circle_domain
use stwo.Line as line
use stwo.Line.{LineDomain, LinePoly}
use stwo.Line.Nonzero.{half_odds_size}
use stwo.Line.HalfOdds.{new-half_odds}
use stwo.Fri.{FriConfig, FriVerificationError, checked_sub, fold_bound}
use stwo.Fri.Layers.{FriLayerProof}
use stwo.Fri.Verifier.{
  MerkleChannel, FriProof, FriVerifier, Committed, inner_fold_step, is_last, commit_layers,
  check_degree, commit,
}
use stwo.Fri.Verifier.Commit.{
  fold_bound-eq-some, line_double_size, repeated_double_size, line_size, line_new_keeps,
  canonic_size, checked_sub-eq-some,
}
use stwo.Outcome.{unwrap-eq-ok, ok_or-eq-ok}

>>=-returns :
    {E A B : Type 0} (m : Outcome E A) (f : A → Outcome E B)
    → m ≢ panic
    → ((a : A) → m ≡ ok a → f a ≢ panic)
    → (m >>= f) ≢ panic
>>=-returns (ok a) f h k = k a refl
>>=-returns (err e) f h k = λ p. cc
>>=-returns panic f h k = absurd (h refl)

ok_or-returns : {E A : Type 0} (o : Option A) (e : E) → ok_or o e ≢ panic
ok_or-returns none e = λ p. cc
ok_or-returns (some a) e = λ p. cc

guard-returns : {E : Type 0} (b : Bool) (e : E) → guard b e ≢ panic
guard-returns true e = λ p. cc
guard-returns false e = λ p. cc

two_checks-returns :
    {E A : Type 0} (a : Bool) (m : Outcome E (Unit {0})) (e : E) (x : A)
    → m ≢ panic
    → (guard a e >> m >> ok x) ≢ panic
two_checks-returns true (ok u) e x h = λ p. cc
two_checks-returns true (err f) e x h = λ p. cc
two_checks-returns true panic e x h = absurd (h refl)
two_checks-returns false m e x h = λ p. cc

unwrap-returns : {E A : Type 0} (o : Option A) {a : A} → o ≡ some a → unwrap {E = E} o ≢ panic
unwrap-returns none h = λ p. cc
unwrap-returns (some a) h = λ p. cc

check_degree-returns :
    (config : FriConfig) (p : LinePoly)
    → p.log_size < 64
    → length p.coeffs ≡ 2 ^ p.log_size
    → check_degree config p ≢ panic
unfolding check_degree line.len
check_degree-returns config p small sized =
    >>=-returns (unwrap (line.len p)) _
      (unwrap-returns (line.len p) {a = 2 ^ p.log_size} (ground arith)) (λ n e. guard-returns _ _)

inner_fold_step-returns :
    (config : FriConfig) (bound : ℕ) (last : Bool) → inner_fold_step config bound last ≢ panic
unfolding inner_fold_step
inner_fold_step-returns config bound false = λ p. cc
inner_fold_step-returns config bound true =
    >>=-returns (ok_or (checked_sub bound config.log_last_layer_degree_bound) _) _
      (ok_or-returns _ _)
      (λ res e.
        >>=-returns
          (guard (leb 1 res && leb res config.fold_step)
            FriVerificationError.invalid_num_fri_layers)
          _ (guard-returns _ _) (λ u e'. λ p. cc))

repeated_double-some :
    (n : ℕ) (c : Coset) → n ≤ c.log_size → (d : Coset) × (repeated_double c n ≡ some d)
unfolding repeated_double
repeated_double-some zero c h = (c, refl)
repeated_double-some (suc n) c h =
    let (d, e) = repeated_double-some n c (omega arith) in
    let size = repeated_double_size n c e in (doubled d, rw e (double_lem d (omega arith)))

line_double_some :
    (n : ℕ) (d : LineDomain)
    → n ≤ line.log_size d
    → (d' : LineDomain) × (line.repeated_double d n ≡ some d')
unfolding line.repeated_double line.log_size
line_double_some n d h =
    let (c, e) = repeated_double-some n d.coset h in (record { coset = c }, rw e refl)

subgroup_gen-some : (n : ℕ) → n ≤ 31 → subgroup_gen n ≡ some (2 ^ (31 - n))
unfolding subgroup_gen
subgroup_gen-some n h = ground arith

assert_positive : (n : ℕ) → 1 ≤ n → prelude.assert (ltb 0 n) ≡ some tt
assert_positive n h = ground arith

canonic_some :
    (n : ℕ) → 1 ≤ n → n ≤ 30 → (k : circle_domain.CanonicCoset) × (circle_domain.new n ≡ some k)
unfolding circle_domain.new odds
canonic_some n positive h = (
  record { coset = made (2 ^ (31 - (n + 1))) n },
  rw
      (
        assert_positive n positive,
        subgroup_gen-some (n + 1) (omega arith),
        new-le (2 ^ (31 - (n + 1))) n (omega arith),
      )
      refl,
)

circle_domain-some :
    (k : circle_domain.CanonicCoset)
    → k.coset.log_size ≤ 30
    → (d : circle_domain.CircleDomain) × (circle_domain.circle_domain k ≡ some d)
unfolding circle_domain.circle_domain circle_domain.half_coset
circle_domain-some k h =
    let (c, d, e1, e2) = new-half_odds (k.coset.log_size - 1) (omega arith) in
    (record { half_coset = c }, rw e1 refl)

module _ {Hash : Type 0} (c : MerkleChannel Hash) (config : FriConfig) where
  commit_layers-returns :
      (index bound : ℕ) (domain : LineDomain) (channel : c.State)
      (proofs : List (FriLayerProof Hash))
      → bound ≤ line.log_size domain
      → commit_layers c config index bound domain channel proofs ≢ panic
  unfolding commit_layers
  commit_layers-returns index bound domain channel [] h = λ p. cc
  commit_layers-returns index bound domain channel (proof ∷ proofs) h =
      >>=-returns (inner_fold_step config bound (is_last proofs)) _
        (inner_fold_step-returns config bound (is_last proofs))
        (λ step es.
          >>=-returns (ok_or (fold_bound bound step) _) _ (ok_or-returns _ _) (λ bound' eb.
            let (le, size) = fold_bound-eq-some bound step (ok_or-eq-ok _ _ eb) in
            let (d, ed) = line_double_some step domain (omega arith) in
            >>=-returns (unwrap (line.repeated_double domain step)) _ (unwrap-returns _ ed)
              (λ domain' ed'.
                let shrunk = line_double_size step domain (unwrap-eq-ok _ ed') in
                >>=-returns (commit_layers c config (suc index) bound' domain' _ proofs) _
                  (commit_layers-returns (suc index) bound' domain' _ proofs (omega arith))
                  (λ rest er. λ p. cc))))

  -- What follows the subtraction of the step of the first layer.
  rest :
      (channel : c.State) (proof : FriProof Hash) (bound : ℕ)
      (found : Committed c → FriVerifier Hash × c.State)
      → proof.last_layer_poly.log_size < 64
      → length proof.last_layer_poly.coeffs ≡ 2 ^ proof.last_layer_poly.log_size
      → bound + config.log_blowup_factor ≤ 29
      → (unwrap (half_odds (bound + config.log_blowup_factor)) >>= λ half_odds.
          unwrap (line.new half_odds) >>= λ layer_domain.
          commit_layers c config 0 bound layer_domain channel proof.inner_layers >>= λ done.
          guard
            (done.layer_bound == config.log_last_layer_degree_bound)
            FriVerificationError.invalid_num_fri_layers
          >> check_degree config proof.last_layer_poly
          >> ok (found done))
        ≢ panic
  rest channel proof bound found fits sized small =
      let (odds, domain, eo, ed) = new-half_odds (bound + config.log_blowup_factor) small in
      rw (eo, ed)
        (>>=-returns (commit_layers c config 0 bound domain channel proof.inner_layers) _
          (commit_layers-returns 0 bound domain channel proof.inner_layers (
            let size =
              line_size domain odds (line_new_keeps odds ed)
              ∙ half_odds_size (bound + config.log_blowup_factor) eo in
            omega arith))
          (λ done e.
            two_checks-returns (done.layer_bound == config.log_last_layer_degree_bound)
              (check_degree config proof.last_layer_poly) _ (found done)
              (check_degree-returns config proof.last_layer_poly fits sized)))

  -- The commitment stage does not panic on a proof whose last polynomial has as many coefficients as its
  -- log size says, for a log size below 64, and which is arbitrary otherwise, if the domain of the column
  -- is that of a canonic coset of a log size from 1 to 30 and the blowup and the fold step are positive.
  pub commit-returns :
      (channel : c.State) (proof : FriProof Hash) (column_bound : ℕ)
      → proof.last_layer_poly.log_size < 64
      → length proof.last_layer_poly.coeffs ≡ 2 ^ proof.last_layer_poly.log_size
      → 1 ≤ config.log_blowup_factor
      → 1 ≤ config.fold_step
      → column_bound + config.log_blowup_factor ≤ 30
      → commit c channel config proof column_bound ≢ panic
  unfolding commit
  commit-returns channel proof column_bound fits sized blown positive small =
      let (k, ek) = canonic_some (column_bound + config.log_blowup_factor) (omega arith) small in
      >>=-returns (unwrap (circle_domain.new (column_bound + config.log_blowup_factor))) _
        (unwrap-returns _ ek)
        (λ canonic e1.
          let (pos, size) = canonic_size _ (unwrap-eq-ok _ e1) in
          let (d, ed) = circle_domain-some canonic (omega arith) in
          >>=-returns (unwrap (circle_domain.circle_domain canonic)) _ (unwrap-returns _ ed)
            (λ domain e2.
              >>=-returns (ok_or (checked_sub column_bound config.fold_step) _) _
                (ok_or-returns _ _)
                (λ bound e3.
                  let (le, sub) =
                    checked_sub-eq-some column_bound config.fold_step (ok_or-eq-ok _ _ e3) in
                  rest (c.draw_secure_felt (c.mix_root channel proof.first_layer.commitment)).1
                    proof bound _ fits sized (omega arith))))
