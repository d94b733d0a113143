-- ===== src/Stark/Returns.antt =====
-- That the verifier of crates/stwo/src/core/verifier.rs ends, and what it has established when it accepts.
use mathlib.Core.Path.{subst}
use stwo.Prelude.{◌≤◌, ◌<◌, Bool, Option, some, List, ◌≡◌, refl, length}
use stwo.Outcome.{ok, err, panic, >>=-eq-ok, ok_inj}
use stwo.Itertools.{Itertools}
use stwo.Merkle.{MerkleHasherLifted}
use stwo.Fri.Verifier.{MerkleChannel}
use stwo.Pcs.{PcsConfig}
use stwo.Pcs.IndexMap.{IndexMap}
use stwo.Pcs.Verifier.{
  VerificationError, Verification, CommitmentSchemeProof, CommitmentSchemeVerifier, verify_values,
}
use stwo.Pcs.Verifier.Returns.{IsVerified, verify_values-IsVerified}
use stwo.Air.{Component}
use stwo.Stark.{Drawn, draw_oods, check_oods, sample_points, verify_oods, after_oods, verify_ex}
use stwo.Stark.Accepts.{IsDrawn, IsConsistent, draw_oods-IsDrawn, check_oods-IsConsistent}

module _ (it : Itertools) (im : IndexMap) (h : MerkleHasherLifted) (c : MerkleChannel h.Hash)
    (words_drawn : (channel : c.State) → 0 < length (c.draw_u32s channel).0) where
  open h use {Hash}

  -- What a proof that is accepted satisfies.
  pub record IsAccepted (components : List Component) (channel : c.State)
      (v : CommitmentSchemeVerifier Hash) (proof : CommitmentSchemeProof Hash)
      (include_all_preprocessed_columns : Bool) : Type 0 where
    pub drawn : Drawn it im h c
    pub is_drawn :
        IsDrawn it im h c components channel v proof include_all_preprocessed_columns drawn
    pub is_consistent : IsConsistent it im h c proof drawn
    pub is_verified :
        IsVerified it im h c words_drawn drawn.commitment_scheme
          (sample_points it im h c drawn)
          proof
          drawn.channel

  verify_oods-parts :
      (components : List Component) (channel : c.State) (v : CommitmentSchemeVerifier Hash)
      (proof : CommitmentSchemeProof Hash) (include : Bool) (d : Drawn it im h c)
      → verify_oods it im h c components channel v proof include ≡ ok d
      → IsDrawn it im h c components channel v proof include d × IsConsistent it im h c proof d
  unfolding verify_oods
  verify_oods-parts components channel v proof include d e =
      let (d', e1, h1) = >>=-eq-ok (draw_oods it im h c components channel v proof include) _ e in
      let (u, e2, h2) = >>=-eq-ok (check_oods it im h c d' proof) (λ _. ok d') h1 in
      let same : d' ≡ d = ok_inj h2 in
      (
        subst (IsDrawn it im h c components channel v proof include) same
            (draw_oods-IsDrawn it im h c components channel v proof include d' e1),
        subst (IsConsistent it im h c proof) same (check_oods-IsConsistent it im h c d' proof e2),
      )

  -- The result of the last stage, which makes the proof accepted.
  Concluded :
      List Component
      → c.State
      → CommitmentSchemeVerifier Hash
      → CommitmentSchemeProof Hash
      → Bool
      → Option (Verification (Unit {0}))
      → Type 0
  Concluded components channel v proof include o =
      (result : Verification (Unit {0})) × (o ≡ some result)
      × (result ≡ ok tt → IsAccepted components channel v proof include)

  values-Concluded :
      (components : List Component) (channel : c.State) (v : CommitmentSchemeVerifier Hash)
      (proof : CommitmentSchemeProof Hash) (include : Bool) (d : Drawn it im h c)
      → 1 ≤ v.config.fri_config.n_queries
      → 1 ≤ v.config.fri_config.fold_step
      → 1 ≤ v.config.fri_config.log_blowup_factor
      → IsDrawn it im h c components channel v proof include d
      → IsConsistent it im h c proof d
      → Concluded components channel v proof include (
          verify_values it im h c v.config.fri_config.n_queries d.commitment_scheme
            (sample_points it im h c d)
            proof
            d.channel)
  unfolding Concluded
  values-Concluded components channel v proof include d asks folds blown is_drawn is_consistent =
      let config = is_drawn.same_config in
      let (result, returned, verified) =
        verify_values-IsVerified it im h c words_drawn d.commitment_scheme
          (sample_points it im h c d) proof d.channel (rw config asks) (rw config folds)
          (rw config blown) in
      (
        result,
        subst
            (λ (k : PcsConfig).
              verify_values it im h c k.fri_config.n_queries d.commitment_scheme
                (sample_points it im h c d) proof d.channel
              ≡ some result)
            config returned,
        λ k. record {
          drawn = d;
          is_drawn = is_drawn;
          is_consistent = is_consistent;
          is_verified = verified k;
        },
      )

  panic-Concluded :
      (components : List Component) (channel : c.State) (v : CommitmentSchemeVerifier Hash)
      (proof : CommitmentSchemeProof Hash) (include : Bool)
      → Concluded components channel v proof include (some panic)
  unfolding Concluded
  panic-Concluded components channel v proof include = (panic, refl, λ k. cc)

  err-Concluded :
      (components : List Component) (channel : c.State) (v : CommitmentSchemeVerifier Hash)
      (proof : CommitmentSchemeProof Hash) (include : Bool) (reason : VerificationError)
      → Concluded components channel v proof include (some (err reason))
  unfolding Concluded
  err-Concluded components channel v proof include reason = (err reason, refl, λ k. cc)

  after_oods-Concluded :
      (components : List Component) (channel : c.State) (v : CommitmentSchemeVerifier Hash)
      (proof : CommitmentSchemeProof Hash) (include : Bool) (o : Verification (Drawn it im h c))
      → 1 ≤ v.config.fri_config.n_queries
      → 1 ≤ v.config.fri_config.fold_step
      → 1 ≤ v.config.fri_config.log_blowup_factor
      → ((d : Drawn it im h c)
          → o ≡ ok d
          → IsDrawn it im h c components channel v proof include d × IsConsistent it im h c proof d)
      → Concluded components channel v proof include
          (after_oods it im h c v.config.fri_config.n_queries proof o)
  unfolding after_oods
  after_oods-Concluded components channel v proof include panic asks folds blown parts =
      panic-Concluded components channel v proof include
  after_oods-Concluded components channel v proof include (err reason) asks folds blown parts =
      err-Concluded components channel v proof include reason
  after_oods-Concluded components channel v proof include (ok d) asks folds blown parts =
      values-Concluded components channel v proof include d asks folds blown (parts d refl).0
        (parts d refl).1

  -- If each draw of the channel yields a word and the configuration asks for at least one query, folds by
  -- at least 1 and has a blowup of at least 2, then as many draws of queries as the configuration asks
  -- for are enough for `verify_ex` to end: it accepts, gives an error or panics, and never asks for more
  -- draws. If it accepts, then the commitment of the composition polynomial has joined the trees before a
  -- point on the circle was drawn, the value of the composition polynomial that the proof claims at that
  -- point is what the constraints of the components give on the claimed values, and the commitment scheme
  -- has verified the claimed values at the mask points and at the point.
  pub verify_ex-IsAccepted :
      (components : List Component) (channel : c.State) (v : CommitmentSchemeVerifier Hash)
      (proof : CommitmentSchemeProof Hash) (include_all_preprocessed_columns : Bool)
      → 1 ≤ v.config.fri_config.n_queries
      → 1 ≤ v.config.fri_config.fold_step
      → 1 ≤ v.config.fri_config.log_blowup_factor
      → (result : Verification (Unit {0})) × (verify_ex it im h c v.config.fri_config.n_queries
            components channel v proof include_all_preprocessed_columns
          ≡ some result)
        × (result ≡ ok tt → IsAccepted components channel v proof include_all_preprocessed_columns)
  unfolding verify_ex Concluded
  verify_ex-IsAccepted components channel v proof include asks folds blown =
      after_oods-Concluded components channel v proof include
        (verify_oods it im h c components channel v proof include) asks folds blown
        (verify_oods-parts components channel v proof include)
