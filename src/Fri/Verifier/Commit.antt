-- ===== src/Fri/Verifier/Commit.antt =====
-- What the commitment stage of FRI (crates/stwo/src/core/fri.rs) has checked when it succeeds.
use mathlib.Core.Path.{subst}
use stwo.Prelude.{
  ℕ, zero, suc, ◌+◌, ◌-◌, ◌^◌, ◌≤◌, ◌<◌, Bool, true, false, leb, ltb, ◌==◌, ◌&&◌, if◌then◌else◌,
  Option, none, some, List, [], ◌∷◌, ◌≡◌, refl, sym, ap, ◌∙◌, arith, length, All, ==→eq, Bool-cases,
  inl, inr, some_inj,
}
use stwo.Prelude as prelude
use stwo.Outcome.{
  ok, ◌>>◌, guard, unwrap, ok_or, >>=-eq-ok, unwrap-eq-ok, ok_or-eq-ok, guard-eq-ok, ok_inj,
}
use stwo.Circle.Coset.{Coset, double, repeated_double, half_odds, odds}
use stwo.Circle.Index.{subgroup_gen}
use stwo.Circle.Coset.Valid.{new-eq-some, made}
use stwo.Domain as circle_domain
use stwo.Line as line
use stwo.Line.Nonzero.{half_odds_size}
use stwo.Line.{LineDomain, LinePoly}
use stwo.Merkle.{log_packed_leaf_size}
use stwo.Fri.{FriConfig, FriVerificationError, checked_sub, fold_bound}
use stwo.Fri.Layers.{FriLayerProof, FriInnerLayerVerifier, leaf_log_size}
use stwo.Fri.Verifier.{
  MerkleChannel, FriProof, FriVerifier, Committed, inner_fold_step, is_last, commit_layers,
  check_degree, commit,
}

pub repeated_double_size :
    (n : ℕ) (c : Coset) {d : Coset} → repeated_double c n ≡ some d → d.log_size + n ≡ c.log_size
unfolding repeated_double double
repeated_double_size zero c h = ground arith
repeated_double_size (suc n) c h =
    let (c', e, k) = prelude.>>=-eq-some (repeated_double c n) double h in
    let ih = repeated_double_size n c e in ground arith

pub line_double_size :
    (n : ℕ) (d : LineDomain) {d' : LineDomain}
    → line.repeated_double d n ≡ some d'
    → line.log_size d' + n ≡ line.log_size d
unfolding line.repeated_double line.log_size
line_double_size n d h =
    let (c', e, k) = prelude.>>=-eq-some (repeated_double d.coset n) _ h in
    let size = repeated_double_size n d.coset e in ground arith

pub inner_fold_step_bounds :
    (config : FriConfig) (bound : ℕ) (last : Bool) {step : ℕ}
    → 1 ≤ config.fold_step
    → inner_fold_step config bound last ≡ ok step
    → (1 ≤ step) × (step ≤ config.fold_step)
unfolding inner_fold_step
inner_fold_step_bounds config bound false h e = ground arith
inner_fold_step_bounds config bound true h e = ground arith

pub fold_bound-eq-some :
    (bound step : ℕ) {b : ℕ} → fold_bound bound step ≡ some b → (step ≤ bound) × (b + step ≡ bound)
unfolding fold_bound
fold_bound-eq-some bound step h = ground arith

abbrev pub total_fold : {Hash : Type 0} → List (FriInnerLayerVerifier Hash) → ℕ
total_fold [] = 0
total_fold (layer ∷ layers) = layer.fold_step + total_fold layers

-- A layer folds by at least 1, by at most the step of the configuration and by less than the log of
-- its domain, and the tree of its commitment is not a single leaf.
pub record IsProper {Hash : Type 0} (config : FriConfig) (layer : FriInnerLayerVerifier Hash)
    : Type 0 where
  pub folds : 1 ≤ layer.fold_step
  pub folds_at_most : layer.fold_step ≤ config.fold_step
  pub domain_large : layer.fold_step + config.log_blowup_factor ≤ line.log_size layer.domain
  pub tree_height : 0 < line.log_size layer.domain - leaf_log_size layer.pack_leaves

packed_height :
    (log_size fold_step blowup : ℕ)
    → 1 ≤ fold_step
    → 1 ≤ blowup
    → fold_step + blowup ≤ log_size
    → 0 < log_size - leaf_log_size (leb log_packed_leaf_size log_size && ltb 1 fold_step)
packed_height log_size fold_step blowup h k l = ground arith

module _ {Hash : Type 0} (c : MerkleChannel Hash) (config : FriConfig)
    (positive : 1 ≤ config.fold_step) (blown : 1 ≤ config.log_blowup_factor) where
  Summary : ℕ → List (FriLayerProof Hash) → Committed c → Type 0
  Summary bound proofs r =
      (length r.inner_layers ≡ length proofs)
      × (total_fold r.inner_layers + r.layer_bound ≡ bound)
      × (line.log_size r.layer_domain ≡ r.layer_bound + config.log_blowup_factor)
      × All (IsProper config) r.inner_layers

  commit_layers-Summary :
      (index bound : ℕ) (domain : LineDomain) (channel : c.State)
      (proofs : List (FriLayerProof Hash)) (r : Committed c)
      → line.log_size domain ≡ bound + config.log_blowup_factor
      → commit_layers c config index bound domain channel proofs ≡ ok r
      → Summary bound proofs r
  unfolding commit_layers Summary
  commit_layers-Summary index bound domain channel [] r size h =
      subst (Summary bound []) (ok_inj h) (refl, omega arith, size, tt)
  commit_layers-Summary index bound domain channel (proof ∷ proofs) r size h =
      let (step, es, h1) = >>=-eq-ok (inner_fold_step config bound (is_last proofs)) _ h in
      let (bound', eb, h2) =
        >>=-eq-ok (ok_or (fold_bound bound step) FriVerificationError.invalid_num_fri_layers) _
          h1 in
      let (domain', ed, h3) = >>=-eq-ok (unwrap (line.repeated_double domain step)) _ h2 in
      let (rest, er, h4) =
        >>=-eq-ok (commit_layers c config (suc index) bound' domain' _ proofs) _ h3 in
      let (f1, f2) = inner_fold_step_bounds config bound (is_last proofs) positive es in
      let (f3, f4) = fold_bound-eq-some bound step (ok_or-eq-ok (fold_bound bound step) _ eb) in
      let shrunk =
        line_double_size step domain (unwrap-eq-ok (line.repeated_double domain step) ed) in
      let (len, sum, last, all) =
        commit_layers-Summary (suc index) bound' domain' _ proofs rest (omega arith) er in
      subst (Summary bound (proof ∷ proofs)) (ok_inj h4) (
        omega arith,
        omega arith,
        last,
        (
          record {
            folds = f1;
            folds_at_most = f2;
            domain_large = omega arith;
            tree_height =
                packed_height (line.log_size domain) step config.log_blowup_factor f1 blown
                  (omega arith);
          },
          all,
        ),
      )

pub line_new_keeps : (d : Coset) {l : LineDomain} → line.new d ≡ some l → l.coset ≡ d
unfolding line.new
line_new_keeps d h = ground arith

pub line_size : (l : LineDomain) (d : Coset) → l.coset ≡ d → line.log_size l ≡ d.log_size
unfolding line.log_size
line_size l d h = ap (λ (c : Coset). c.log_size) h

pub canonic_size :
    (n : ℕ) {k : circle_domain.CanonicCoset}
    → circle_domain.new n ≡ some k
    → (1 ≤ n) × (k.coset.log_size ≡ n)
unfolding circle_domain.new odds subgroup_gen made
canonic_size n h =
    let (u, positive, h1) = prelude.>>=-eq-some (prelude.assert (ltb 0 n)) _ h in
    let (c, e, same) = prelude.>>=-eq-some (odds n) _ h1 in
    let (i, e', made_by) = prelude.>>=-eq-some (subgroup_gen (n + 1)) _ e in
    let (le, shape) = new-eq-some i n made_by in
    (
      ground arith,
      sym (ap (λ (k : circle_domain.CanonicCoset). k.coset.log_size) (some_inj same))
          ∙ ap (λ (c : Coset). c.log_size) (sym shape),
    )

pub canonic_bound : (n : ℕ) {k : circle_domain.CanonicCoset} → circle_domain.new n ≡ some k → n ≤ 30
unfolding circle_domain.new odds subgroup_gen
canonic_bound n h =
    let (u, positive, h1) = prelude.>>=-eq-some (prelude.assert (ltb 0 n)) _ h in
    let (c, e, same) = prelude.>>=-eq-some (odds n) _ h1 in
    let (i, e', made_by) = prelude.>>=-eq-some (subgroup_gen (n + 1)) _ e in ground arith

line_len-eq-some :
    (p : LinePoly) {n : ℕ}
    → line.len p ≡ some n
    → (line.len p ≡ some (length p.coeffs)) × (n ≡ length p.coeffs)
unfolding line.len
line_len-eq-some p h = (ground arith, ground arith)

check_degree-eq-ok :
    (config : FriConfig) (p : LinePoly)
    → check_degree config p ≡ ok tt
    → (line.len p ≡ some (length p.coeffs))
      × (length p.coeffs ≤ 2 ^ config.log_last_layer_degree_bound)
unfolding check_degree
check_degree-eq-ok config p h =
    let (n, e, k) = >>=-eq-ok (unwrap (line.len p)) _ h in
    let (sized, same) = line_len-eq-some p (unwrap-eq-ok (line.len p) e) in
    let test = guard-eq-ok (leb n (2 ^ config.log_last_layer_degree_bound)) _ k in
    (sized, ground arith)

pub circle_domain_size :
    (k : circle_domain.CanonicCoset) {d : circle_domain.CircleDomain}
    → 1 ≤ k.coset.log_size
    → circle_domain.circle_domain k ≡ some d
    → circle_domain.log_size d ≡ k.coset.log_size
unfolding circle_domain.circle_domain circle_domain.half_coset circle_domain.log_size
circle_domain_size k pos h =
    let (c, e, same) = prelude.>>=-eq-some (half_odds (k.coset.log_size - 1)) _ h in
    let size = half_odds_size (k.coset.log_size - 1) e in
    ap (λ (d : circle_domain.CircleDomain). d.half_coset.log_size + 1) (sym (some_inj same))
    ∙ omega arith

pub checked_sub-eq-some : (a b : ℕ) {n : ℕ} → checked_sub a b ≡ some n → (b ≤ a) × (n + b ≡ a)
checked_sub-eq-some a b h = ground arith

-- What a verifier that the commitment stage returns satisfies.
pub record Accepted {Hash : Type 0} (config : FriConfig) (proof : FriProof Hash) (column_bound : ℕ)
    (v : FriVerifier Hash) : Type 0 where
  pub n_layers : length v.inner_layers ≡ length proof.inner_layers
  pub folds :
      config.fold_step + total_fold v.inner_layers + config.log_last_layer_degree_bound
      ≡ column_bound
  pub first_domain :
      circle_domain.log_size v.first_layer.column_commitment_domain
      ≡ column_bound + config.log_blowup_factor
  pub last_domain :
      line.log_size v.last_layer_domain
      ≡ config.log_last_layer_degree_bound + config.log_blowup_factor
  pub first_bounded : column_bound + config.log_blowup_factor ≤ 30
  pub last_len : line.len v.last_layer_poly ≡ some (length v.last_layer_poly.coeffs)
  pub degree : length v.last_layer_poly.coeffs ≤ 2 ^ config.log_last_layer_degree_bound
  pub proper : All (IsProper config) v.inner_layers

module _ {Hash : Type 0} (c : MerkleChannel Hash) (config : FriConfig)
    (positive : 1 ≤ config.fold_step) (blown : 1 ≤ config.log_blowup_factor) where
  -- If the commitment stage of a proof succeeds, where the configuration folds by at least 1 and has
  -- a blowup of at least 2, then the layers of the proof are those of the verifier, the folds of all
  -- layers take the bound of the column to the bound of the last layer, the first and the last domain
  -- are larger by the blowup, the last polynomial has as many coefficients as its log size says and is
  -- within its bound, and each inner layer folds by a
  -- step between 1 and that of the configuration, on a domain whose Merkle tree has a positive height.
  pub commit-Accepted :
      (channel : c.State) (proof : FriProof Hash) (column_bound : ℕ) (v : FriVerifier Hash)
      (channel' : c.State)
      → commit c channel config proof column_bound ≡ ok (v, channel')
      → Accepted config proof column_bound v
  unfolding commit Summary
  commit-Accepted channel proof column_bound v channel' h =
      let (canonic, e1, h1) =
        >>=-eq-ok (unwrap (circle_domain.new (column_bound + config.log_blowup_factor))) _ h in
      let (domain, e2, h2) = >>=-eq-ok (unwrap (circle_domain.circle_domain canonic)) _ h1 in
      let (bound, e3, h3) =
        >>=-eq-ok
          (ok_or (checked_sub column_bound config.fold_step)
            FriVerificationError.invalid_num_fri_layers)
          _ h2 in
      let (odds, e4, h4) = >>=-eq-ok (unwrap (half_odds (bound + config.log_blowup_factor))) _ h3 in
      let (layer_domain, e5, h5) = >>=-eq-ok (unwrap (line.new odds)) _ h4 in
      let (done, e6, h6) =
        >>=-eq-ok (commit_layers c config 0 bound layer_domain _ proof.inner_layers) _ h5 in
      let bounds =
        guard (done.layer_bound == config.log_last_layer_degree_bound)
          FriVerificationError.invalid_num_fri_layers in
      let degrees = check_degree config proof.last_layer_poly in
      let (u, e7, h7) = >>=-eq-ok (bounds >> degrees) _ h6 in
      let (u', e8, e9) = >>=-eq-ok bounds (λ _. degrees) e7 in
      let last_bound =
        ==→eq done.layer_bound config.log_last_layer_degree_bound (guard-eq-ok _ _ e8) in
      let (sized, small) = check_degree-eq-ok config proof.last_layer_poly e9 in
      let (pos, size1) = canonic_size _ (unwrap-eq-ok (circle_domain.new _) e1) in
      let size2 =
        circle_domain_size canonic (omega arith)
          (unwrap-eq-ok (circle_domain.circle_domain canonic) e2) in
      let (le, sub) = checked_sub-eq-some column_bound config.fold_step (ok_or-eq-ok _ _ e3) in
      let size3 =
        half_odds_size (bound + config.log_blowup_factor) (unwrap-eq-ok (half_odds _) e4) in
      let same = line_new_keeps odds (unwrap-eq-ok (line.new odds) e5) in
      let start = line_size layer_domain odds same ∙ size3 in
      let (len, sum, last, all) =
        commit_layers-Summary c config positive blown 0 bound layer_domain _ proof.inner_layers done
          start e6 in
      subst (Accepted config proof column_bound)
        (ap (λ (p : FriVerifier Hash × c.State). p.0) (ok_inj h7))
        (record {
          n_layers = len;
          folds = omega arith;
          first_domain = omega arith;
          last_domain = omega arith;
          first_bounded = canonic_bound _ (unwrap-eq-ok (circle_domain.new _) e1);
          last_len = sized;
          degree = small;
          proper = all;
        })
