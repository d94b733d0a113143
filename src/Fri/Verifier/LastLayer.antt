-- ===== src/Fri/Verifier/LastLayer.antt =====
-- What the check of the last layer of FRI (crates/stwo/src/core/fri.rs) says of the values.
use stwo.Prelude.{ℕ, true, false, List, [], ◌∷◌, some, ◌≡◌, sym, ap, ◌∙◌}
use stwo.Outcome.{ok, guard, unwrap, >>=-eq-ok}
use stwo.Fields.Qm31.{Qm31}
use stwo.Fields.Qm31.Inverse.{qm31_field}
use stwo.Utils.{bit_reverse_index}
use stwo.Line as line
use stwo.Line.{LineDomain, LinePoly, secure_from}
use stwo.Fri.{FriVerificationError}
use stwo.Queries.{Queries, fold}
use stwo.Itertools.{Itertools}
use stwo.Merkle.{MerkleHasherLifted}
use stwo.Fri.Layers.{verify}
use stwo.Fri.Sparse.{SparseEvaluation}
use stwo.Fri.SparseFolding.{fold_circle}
use stwo.Fri.Verifier.Folds.{
  FirstRebuilt, verify-FirstRebuilt, AllFolded, decommit_layers-AllFolded,
}
use stwo.Fri.Verifier.{
  FriVerifier, eqb, check_last_layer, decommit_inner_layers, decommit_on_queries, decommit,
}
use stwo.Outcome.{unwrap-eq-ok, guard-eq-ok}

pub eqb→eq : (x y : Qm31) → eqb x y ≡ true → x ≡ y
eqb→eq x y h = go (qm31_field.dec_eq x y) h
  where
    go : (d : Dec (x ≡ y)) → (elim d [ yes e ↦ true | no ne ↦ false ]) ≡ true → x ≡ y
    go (yes e) h = e
    go (no ne) h = cc

-- The value at each query is that of the polynomial at the point of the query.
abbrev pub AgreeAt : LineDomain → LinePoly → List ℕ → List Qm31 → Type 0
AgreeAt domain poly (query ∷ queries) (query_eval ∷ query_evals) =
    (line.eval_at_point poly
        (secure_from (line.at domain (bit_reverse_index query (line.log_size domain))))
      ≡ some query_eval)
    × AgreeAt domain poly queries query_evals
AgreeAt domain poly _ _ = Unit

module _ (it : Itertools) (h : MerkleHasherLifted) where
  pub check_last_layer-AgreeAt :
      (domain : LineDomain) (poly : LinePoly) (queries : List ℕ) (query_evals : List Qm31)
      → check_last_layer it h domain poly queries query_evals ≡ ok tt
      → AgreeAt domain poly queries query_evals
  unfolding check_last_layer
  check_last_layer-AgreeAt domain poly [] query_evals e = tt
  check_last_layer-AgreeAt domain poly (query ∷ queries) [] e = tt
  check_last_layer-AgreeAt domain poly (query ∷ queries) (query_eval ∷ query_evals) e =
      let x = line.at domain (bit_reverse_index query (line.log_size domain)) in
      let (expected, e1, h1) = >>=-eq-ok (unwrap (line.eval_at_point poly (secure_from x))) _ e in
      let (u, e2, h2) =
        >>=-eq-ok
          (guard (eqb query_eval expected) FriVerificationError.last_layer_evaluations_invalid) _
          h1 in
      (
        unwrap-eq-ok _ e1 ∙ ap some (sym (eqb→eq query_eval expected (guard-eq-ok _ _ e2))),
        check_last_layer-AgreeAt domain poly queries query_evals h2,
      )

  -- What a decommitment that succeeds has found. The first layer is opened at the evaluations at the
  -- queries of the verifier, its folding is taken through all inner layers, and what they leave is on
  -- the polynomial of the last layer.
  pub record IsDecommitted (v : FriVerifier h.Hash) (evals : List Qm31) : Type 0 where
    pub queries : Queries
    pub of_queries : v.queries ≡ some queries
    pub sparse : SparseEvaluation
    pub first_layer : FirstRebuilt it h v.first_layer queries evals sparse
    pub first_queries : Queries
    pub of_first_queries : fold it queries v.config.fold_step ≡ some first_queries
    pub first_evals : List Qm31
    pub of_first_evals :
        fold_circle it sparse v.first_layer.folding_alpha v.first_layer.column_commitment_domain
          v.config.fold_step
        ≡ some first_evals
    pub last_queries : Queries
    pub last_evals : List Qm31
    pub inner_layers :
        AllFolded it h v.inner_layers first_queries first_evals last_queries last_evals
    pub agree : AgreeAt v.last_layer_domain v.last_layer_poly last_queries.positions last_evals

  -- If a decommitment succeeds, then the evaluations at the queries of the verifier and the whole witness
  -- of the first layer rebuild the values that the Merkle tree of its commitment is opened at; folding
  -- them on the domain of the column gives the evaluations at the folded queries; in the same way each
  -- inner layer in turn takes the evaluations at its queries, through values that the tree of its
  -- commitment is opened at, to those at its folded queries; and the evaluations that the last of them
  -- leaves, paired in order with the queries that are left, are the values of the polynomial of the last
  -- layer. A tree of height zero is not opened.
  pub decommit-AgreeAt :
      (v : FriVerifier h.Hash) (evals : List Qm31)
      → decommit it h v evals ≡ ok tt
      → IsDecommitted v evals
  unfolding decommit decommit_on_queries decommit_inner_layers
  decommit-AgreeAt v evals e =
      let (queries, e1, h1) = >>=-eq-ok (unwrap v.queries) _ e in
      let (sparse, e2, h2) = >>=-eq-ok (verify it h v.first_layer queries evals) _ h1 in
      let (first_queries, e3, h3) = >>=-eq-ok (unwrap (fold it queries v.config.fold_step)) _ h2 in
      let (last, e4, h4) = >>=-eq-ok (decommit_inner_layers it h v first_queries sparse) _ h3 in
      let (first_evals, e5, h5) =
        >>=-eq-ok
          (unwrap (
            fold_circle it sparse v.first_layer.folding_alpha v.first_layer.column_commitment_domain
              v.config.fold_step))
          _ e4 in
      record {
        queries = queries;
        of_queries = unwrap-eq-ok _ e1;
        sparse = sparse;
        first_layer = verify-FirstRebuilt it h v.first_layer queries evals e2;
        first_queries = first_queries;
        of_first_queries = unwrap-eq-ok _ e3;
        first_evals = first_evals;
        of_first_evals = unwrap-eq-ok _ e5;
        last_queries = last.0;
        last_evals = last.1;
        inner_layers =
            decommit_layers-AllFolded it h v.inner_layers first_queries first_evals last h5;
        agree =
            check_last_layer-AgreeAt v.last_layer_domain v.last_layer_poly last.0.positions last.1
              h4;
      }
