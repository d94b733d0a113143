-- ===== src/Merkle/Accepts.antt =====
-- What a successful Merkle verification (crates/stwo/src/core/vcs_lifted/verifier.rs) has checked.
use mathlib.Core.Path.{subst}
use stwo.Prelude.{
  ℕ, suc, ◌<◌, true, false, ◌==◌, ◌≡◌, refl, sym, ap, ap₂, ◌∙◌, arith, some, List, [], ◌∷◌, map,
  length, replicate, All, dec_lt, ◌⊎◌, inl, inr,
}
use stwo.Outcome.{
  ok, err, assert, guard, unwrap, >>=-eq-ok, assert-eq-ok, guard-eq-ok, unwrap-eq-ok, ok_inj,
}
use stwo.Itertools.{Itertools}
use stwo.Fields.M31.Carrier.{M31}
use stwo.Merkle.{
  MerkleHasherLifted, MerkleVerifierLifted, MerkleDecommitmentLifted, MerkleVerificationError,
  Checked, check_duplicates, dedup_columns, build_leaves, all_consumed, hash_layers, check_root,
  next_row, hash_leaf, no_more, verify,
}

module _ (h : MerkleHasherLifted) where
  check_root-eq-ok :
      (root : h.Hash) (nodes : List (ℕ × h.Hash))
      → check_root h root nodes ≡ ok tt
      → (idx : ℕ) × (nodes ≡ (idx, root) ∷ [])
  unfolding check_root
  check_root-eq-ok root [] e = cc
  check_root-eq-ok root (node ∷ []) e =
      let same = of_decided (h.hash_eq node.1 root) e in
      (node.0, ap (λ (t : h.Hash). (node.0, t) ∷ []) same)
    where
      of_decided :
          (d : Dec (node.1 ≡ root))
          → ◌≡◌ {A = Checked (Unit {0})}
              (elim d [ yes e ↦ ok tt | no ne ↦ err MerkleVerificationError.root_mismatch ])
              (ok tt)
          → node.1 ≡ root
      of_decided (yes same) e' = same
      of_decided (no ne) e' = cc
  check_root-eq-ok root (node ∷ second ∷ nodes) e = cc

  no_more-eq-true : (witness : List h.Hash) → no_more h witness ≡ true → witness ≡ []
  no_more-eq-true [] e = refl
  no_more-eq-true (w ∷ witness) e = cc

  settled :
      (m : Checked (List (ℕ × h.Hash) × List h.Hash)) (hashed : List (ℕ × h.Hash) × List h.Hash)
      (nodes : List (ℕ × h.Hash))
      → m ≡ ok hashed
      → hashed.0 ≡ nodes
      → hashed.1 ≡ []
      → m ≡ ok (nodes, [])
  settled m hashed nodes e top used = e ∙ ap₂ (λ ns left. ok (ns, left)) top used

  -- A row in front of the columns, and the columns of the given number whose rows these are.
  abbrev pub prepend : List M31 → List (List M31) → List (List M31)
  prepend (v ∷ row) (col ∷ cols) = (v ∷ col) ∷ prepend row cols
  prepend row cols = []

  abbrev pub columns_of : ℕ → List (List M31) → List (List M31)
  columns_of n [] = replicate n []
  columns_of n (row ∷ rows) = prepend row (columns_of n rows)

  -- The leaf of each row, at its position.
  abbrev pub leaves_of : List ℕ → List (List M31) → List (ℕ × h.Hash)
  leaves_of (pos ∷ positions) (row ∷ rows) = (pos, hash_leaf h row) ∷ leaves_of positions rows
  leaves_of positions rows = []

  next_row-eq-ok :
      (cols : List (List M31)) {row : List M31} {rest : List (List M31)}
      → next_row cols ≡ ok (row, rest)
      → (cols ≡ prepend row rest) × (length row ≡ length cols) × (length rest ≡ length cols)
  unfolding next_row
  next_row-eq-ok [] e =
      let same = ok_inj e in
      (
        ap₂ prepend (ap (λ (p : List M31 × List (List M31)). p.0) same)
            (ap (λ (p : List M31 × List (List M31)). p.1) same),
        ap (λ (p : List M31 × List (List M31)). length p.0) (sym same),
        ap (λ (p : List M31 × List (List M31)). length p.1) (sym same),
      )
  next_row-eq-ok ([] ∷ cols) e = cc
  next_row-eq-ok ((v ∷ col) ∷ cols) e =
      let ((row', rest'), e1, h1) = >>=-eq-ok (next_row cols) _ e in
      let (front, width, left) = next_row-eq-ok cols e1 in
      let same = ok_inj h1 in
      (
        ap (λ t. (v ∷ col) ∷ t) front
            ∙ ap (λ (p : List M31 × List (List M31)). prepend p.0 p.1) same,
        ap (λ (p : List M31 × List (List M31)). length p.0) (sym same) ∙ ap (λ n. suc n) width,
        ap (λ (p : List M31 × List (List M31)). length p.1) (sym same) ∙ ap (λ n. suc n) left,
      )

  all_consumed-eq-true :
      (cols : List (List M31)) → all_consumed cols ≡ true → cols ≡ replicate (length cols) []
  unfolding all_consumed
  all_consumed-eq-true [] e = refl
  all_consumed-eq-true ([] ∷ cols) e = ap (λ t. [] ∷ t) (all_consumed-eq-true cols e)
  all_consumed-eq-true ((v ∷ col) ∷ cols) e = cc

  -- The columns are those of the rows, and the leaves are the hashes of the rows.
  pub record IsHashed (positions : List ℕ) (columns : List (List M31)) (leaves : List (ℕ × h.Hash))
      : Type 0 where
    pub rows : List (List M31)
    pub n_rows : length rows ≡ length positions
    pub complete : All (λ row. length row ≡ length columns) rows
    pub transposed : columns ≡ columns_of (length columns) rows
    pub hashed : leaves ≡ leaves_of positions rows

  build_leaves-IsHashed :
      (positions : List ℕ) (cols : List (List M31)) {leaves : List (ℕ × h.Hash)}
      {rest : List (List M31)}
      → build_leaves h positions cols ≡ ok (leaves, rest)
      → all_consumed rest ≡ true
      → IsHashed positions cols leaves
  unfolding build_leaves
  build_leaves-IsHashed [] cols e used =
      let same = ok_inj e in
      record {
        rows = [];
        n_rows = refl;
        complete = tt;
        transposed =
            all_consumed-eq-true cols
              (ap (λ (p : List (ℕ × h.Hash) × List (List M31)). all_consumed p.1) same ∙ used);
        hashed = ap (λ (p : List (ℕ × h.Hash) × List (List M31)). p.0) (sym same);
      }
  build_leaves-IsHashed (pos ∷ positions) cols e used =
      let ((row, cols'), e1, h1) = >>=-eq-ok (next_row cols) _ e in
      let ((leaves', rest'), e2, h2) = >>=-eq-ok (build_leaves h positions cols') _ h1 in
      let same = ok_inj h2 in
      let (front, width, left) = next_row-eq-ok cols e1 in
      let tail =
        build_leaves-IsHashed positions cols' e2
          (ap (λ (p : List (ℕ × h.Hash) × List (List M31)). all_consumed p.1) same ∙ used) in
      record {
        rows = row ∷ tail.rows;
        n_rows = ap (λ n. suc n) tail.n_rows;
        complete = (width, subst (λ n. All (λ r. length r ≡ n) tail.rows) left tail.complete);
        transposed =
            front ∙ ap (prepend row) (tail.transposed ∙ ap (λ n. columns_of n tail.rows) left);
        hashed =
            ap (λ (p : List (ℕ × h.Hash) × List (List M31)). p.0) (sym same)
            ∙ ap (λ t. (pos, hash_leaf h row) ∷ t) tail.hashed;
      }

  -- What a tree that is verified satisfies. The columns are those of the queried values, sorted by their
  -- sizes and without repeated positions.
  pub record IsOpened (it : Itertools) (v : MerkleVerifierLifted h.Hash) (positions : List ℕ)
      (values : List (List M31)) (decommitment : MerkleDecommitmentLifted h.Hash) : Type 0 where
    pub duplicates : check_duplicates 0 positions values ≡ ok tt
    pub sized : List (List M31 × ℕ)
    pub of_values : it.zip_eq (List M31) ℕ values v.column_log_sizes ≡ some sized
    pub columns : List (List M31)
    pub of_sized :
        dedup_columns it positions
          (map (λ (c : List M31 × ℕ). c.0) (it.sorted_by_key (List M31 × ℕ) (λ c. c.1) sized))
        ≡ ok columns
    pub leaves : List (ℕ × h.Hash)
    pub of_columns : IsHashed (it.dedup_by ℕ ◌==◌ positions) columns leaves
    pub idx : ℕ
    pub of_leaves :
        hash_layers h v.height leaves decommitment.hash_witness ≡ ok ((idx, v.root) ∷ [], [])

  -- If the verification of a tree of positive height succeeds, then the rows of repeated positions agree,
  -- the queried values without those of repeated positions, as columns in the order of their sizes, are
  -- the transpose of rows of one value of each column, of which there are as many as positions without
  -- repetition, and hashing from the leaves of exactly these rows to the top gives exactly the root and
  -- takes up the whole witness.
  pub verify-eq-ok :
      (it : Itertools) (v : MerkleVerifierLifted h.Hash) (positions : List ℕ)
      (values : List (List M31)) (decommitment : MerkleDecommitmentLifted h.Hash)
      → 0 < v.height
      → verify h it v positions values decommitment ≡ ok tt
      → IsOpened it v positions values decommitment
  unfolding verify
  verify-eq-ok it v positions values decommitment pos e =
      let high : (v.height == 0) ≡ false = ground arith in
      let (u1, e1, h1) =
        >>=-eq-ok (check_duplicates 0 positions values) _ (rw (high, verify) at e) in
      let (zipped, e2, h2) =
        >>=-eq-ok (unwrap (it.zip_eq (List M31) ℕ values v.column_log_sizes)) _ h1 in
      let (columns, e3, h3) =
        >>=-eq-ok
          (dedup_columns it positions
            (map (λ (c : List M31 × ℕ). c.0) (it.sorted_by_key (List M31 × ℕ) (λ c. c.1) zipped)))
          _ h2 in
      let (built, e4, h4) =
        >>=-eq-ok (build_leaves h (it.dedup_by ℕ ◌==◌ positions) columns) _ h3 in
      let (u5, e5, h5) = >>=-eq-ok (assert (all_consumed built.1)) _ h4 in
      let (hashed, e6, h6) =
        >>=-eq-ok (hash_layers h v.height built.0 decommitment.hash_witness) _ h5 in
      let (u7, e7, h7) =
        >>=-eq-ok (guard (no_more h hashed.1) MerkleVerificationError.witness_too_long) _ h6 in
      let (idx, top) = check_root-eq-ok v.root hashed.0 h7 in
      record {
        duplicates = e1;
        sized = zipped;
        of_values = unwrap-eq-ok (it.zip_eq (List M31) ℕ values v.column_log_sizes) e2;
        columns = columns;
        of_sized = e3;
        leaves = built.0;
        of_columns =
            build_leaves-IsHashed (it.dedup_by ℕ ◌==◌ positions) columns e4
              (assert-eq-ok (all_consumed built.1) e5);
        idx = idx;
        of_leaves =
            settled (hash_layers h v.height built.0 decommitment.hash_witness) hashed
              ((idx, v.root) ∷ []) e6 top
              (no_more-eq-true hashed.1 (guard-eq-ok (no_more h hashed.1) _ e7));
      }

  -- A tree of height zero is not verified.
  abbrev pub Opened :
      Itertools
      → MerkleVerifierLifted h.Hash
      → List ℕ
      → List (List M31)
      → MerkleDecommitmentLifted h.Hash
      → Type 0
  Opened it v positions values decommitment =
      (v.height ≡ 0) ⊎ IsOpened it v positions values decommitment

  pub verify-Opened :
      (it : Itertools) (v : MerkleVerifierLifted h.Hash) (positions : List ℕ)
      (values : List (List M31)) (decommitment : MerkleDecommitmentLifted h.Hash)
      → verify h it v positions values decommitment ≡ ok tt
      → Opened it v positions values decommitment
  verify-Opened it v positions values decommitment e = elim (dec_lt 0 v.height) [
    | yes high ↦ inr (verify-eq-ok it v positions values decommitment high e)
    | no low ↦ inl (omega arith)
  ]
