-- ===== src/Stark/Accepts.antt =====
-- The verifier of crates/stwo/src/core/verifier.rs returns, and what it has established when it accepts.
use mathlib.Core.Path.{subst}
use stwo.Prelude.{
  some_inj, ℕ, ◌*◌, Bool, Option, none, some, List, [], ◌∷◌, ◌++◌, ◌≡◌, refl, sym, ap, ◌∙◌, length,
  get_elem?, replicate,
}
use stwo.Outcome.{ok_inj, ok, unwrap, ok_or, >>=-eq-ok, unwrap-eq-ok, ok_or-eq-ok, guard-eq-ok}
use stwo.Itertools.{Itertools}
use stwo.Fields.Cm31.{cm31_ring}
use stwo.Fields.Qm31.{Qm31, qm31_ring}
use stwo.Circle.Laws.{OnCircle}
use stwo.Circle.Random.{get_random_point, returned-OnCircle}
use stwo.Merkle.{MerkleHasherLifted, MerkleVerifierLifted}
use stwo.Merkle as merkle_verifier
use stwo.Fri.Verifier.{MerkleChannel}
use stwo.Fri.Verifier.LastLayer.{eqb→eq}
use stwo.Pcs.IndexMap.{IndexMap}
use stwo.Pcs.Verifier.{
  VerificationError, CommitmentSchemeProof, CommitmentSchemeVerifier, last, commit,
}
use stwo.Air.{
  preprocessed_trace_idx, Component, Components, mask_points, eval_composition_polynomial_at_point,
}
use stwo.Stark.{
  secure_extension_degree, extract_composition_oods_eval, Drawn, degree_bound, draw_oods,
  check_oods,
}

module _ (it : Itertools) (im : IndexMap) (h : MerkleHasherLifted) (c : MerkleChannel h.Hash) where
  open h use {Hash}

  commit-config :
      (v : CommitmentSchemeVerifier Hash) (commitment : Hash) (log_sizes : List ℕ)
      (channel : c.State) {v' : CommitmentSchemeVerifier Hash} {channel' : c.State}
      → commit it im h c v commitment log_sizes channel ≡ some (v', channel')
      → v'.config ≡ v.config
  unfolding commit merkle_verifier.new
  commit-config v commitment log_sizes channel {v'} {channel'} e = go _ e
    where
      go :
          (o : Option (MerkleVerifierLifted Hash))
          → (elim o as (λ _. Option (CommitmentSchemeVerifier Hash × c.State)) [
            | none ↦ none
            | some verifier ↦
                some (record v { trees = v.trees ++ verifier ∷ [] }, c.mix_root channel commitment)
          ])
            ≡ some (v', channel')
          → v'.config ≡ v.config
      go none k = cc
      go (some t) k =
          sym (ap (λ (p : CommitmentSchemeVerifier Hash × c.State). p.0.config) (some_inj k))

  -- The commitment of the composition polynomial has joined the trees, and then a point on the circle has
  -- been drawn, with the mask points of the components.
  pub record IsDrawn (components : List Component) (channel : c.State)
      (v : CommitmentSchemeVerifier Hash) (proof : CommitmentSchemeProof Hash)
      (include_all_preprocessed_columns : Bool) (d : Drawn it im h c) : Type 0 where
    pub preprocessed : MerkleVerifierLifted Hash
    pub of_preprocessed : get_elem? v.trees preprocessed_trace_idx ≡ some preprocessed
    pub air : d.air ≡ record {
      components = components;
      n_preprocessed_columns = length preprocessed.column_log_sizes;
    }
    pub bound :
        degree_bound it im h c d.air v preprocessed include_all_preprocessed_columns
        ≡ ok d.max_log_degree_bound
    pub coeff : d.random_coeff ≡ (c.draw_secure_felt channel).0
    pub commitment : Hash
    pub of_commitment : last proof.commitments ≡ some commitment
    pub channel' : c.State
    pub committed :
        commit it im h c v commitment
          (replicate (2 * secure_extension_degree) d.max_log_degree_bound)
          (c.draw_secure_felt channel).1
        ≡ some (d.commitment_scheme, channel')
    pub same_config : d.commitment_scheme.config ≡ v.config
    pub drawn : get_random_point c.draw_secure_felt channel' ≡ some (d.oods_point, d.channel)
    pub on_circle : OnCircle d.oods_point
    pub masks :
        mask_points d.air d.oods_point d.max_log_degree_bound include_all_preprocessed_columns
        ≡ some d.masks

  pub draw_oods-IsDrawn :
      (components : List Component) (channel : c.State) (v : CommitmentSchemeVerifier Hash)
      (proof : CommitmentSchemeProof Hash) (include_all_preprocessed_columns : Bool)
      (d : Drawn it im h c)
      → draw_oods it im h c components channel v proof include_all_preprocessed_columns ≡ ok d
      → IsDrawn components channel v proof include_all_preprocessed_columns d
  unfolding draw_oods
  draw_oods-IsDrawn components channel v proof include d e =
      let (preprocessed, e1, h1) =
        >>=-eq-ok (unwrap (get_elem? v.trees preprocessed_trace_idx)) _ e in
      let air : Components = record {
        components = components;
        n_preprocessed_columns = length preprocessed.column_log_sizes;
      } in
      let (bound, e2, h2) = >>=-eq-ok (degree_bound it im h c air v preprocessed include) _ h1 in
      let (commitment, e3, h3) = >>=-eq-ok (unwrap (last proof.commitments)) _ h2 in
      let ((v', channel'), e4, h4) =
        >>=-eq-ok
          (unwrap (
            commit it im h c v commitment (replicate (2 * secure_extension_degree) bound)
              (c.draw_secure_felt channel).1))
          _ h3 in
      let ((oods_point, channel''), e5, h5) =
        >>=-eq-ok (unwrap (get_random_point c.draw_secure_felt channel')) _ h4 in
      let (masks, e6, h6) = >>=-eq-ok (unwrap (mask_points air oods_point bound include)) _ h5 in
      subst (IsDrawn components channel v proof include) (ok_inj h6) (record {
        preprocessed = preprocessed;
        of_preprocessed = unwrap-eq-ok _ e1;
        air = refl;
        bound = e2;
        coeff = refl;
        commitment = commitment;
        of_commitment = unwrap-eq-ok _ e3;
        channel' = channel';
        committed = unwrap-eq-ok _ e4;
        same_config = commit-config v commitment _ _ (unwrap-eq-ok _ e4);
        drawn = unwrap-eq-ok _ e5;
        on_circle = returned-OnCircle c.draw_secure_felt channel' (unwrap-eq-ok _ e5);
        masks = unwrap-eq-ok _ e6;
      })

  -- The values at the point satisfy the equation of the composition polynomial.
  pub record IsConsistent (proof : CommitmentSchemeProof Hash) (d : Drawn it im h c) : Type 0 where
    pub composition_eval : Qm31
    pub extracted :
        extract_composition_oods_eval proof d.oods_point d.max_log_degree_bound
        ≡ some (some composition_eval)
    pub evaluated :
        eval_composition_polynomial_at_point d.air d.oods_point proof.sampled_values d.random_coeff
          d.max_log_degree_bound
        ≡ some composition_eval

  pub check_oods-IsConsistent :
      (d : Drawn it im h c) (proof : CommitmentSchemeProof Hash)
      → check_oods it im h c d proof ≡ ok tt
      → IsConsistent proof d
  unfolding check_oods
  check_oods-IsConsistent d proof e =
      let (extracted, e1, h1) =
        >>=-eq-ok (unwrap (extract_composition_oods_eval proof d.oods_point d.max_log_degree_bound))
          _ e in
      let (composition_eval, e2, h2) =
        >>=-eq-ok (ok_or extracted VerificationError.invalid_structure) _ h1 in
      let (expected, e3, h3) =
        >>=-eq-ok
          (unwrap (
            eval_composition_polynomial_at_point d.air d.oods_point proof.sampled_values
              d.random_coeff d.max_log_degree_bound))
          _ h2 in
      record {
        composition_eval = composition_eval;
        extracted = unwrap-eq-ok _ e1 ∙ ap some (ok_or-eq-ok extracted _ e2);
        evaluated =
            unwrap-eq-ok _ e3
            ∙ ap some (sym (eqb→eq composition_eval expected (guard-eq-ok _ _ h3)));
      }
