-- ===== src/Pcs/Verifier/Trees.antt =====
-- What the verification of the commitment trees (crates/stwo/src/core/pcs/verifier.rs) has checked when it
-- succeeds.
use stwo.Prelude.{some_inj, ℕ, some, List, [], ◌∷◌, map, ◌≡◌, refl, sym, ap, ◌∙◌, All, >>=-eq-some}
use stwo.Outcome.{Outcome, ok, err, panic, unwrap, map_err-eq-ok, >>=-eq-ok, unwrap-eq-ok}
use mathlib.Core.List.{map-map}
use stwo.Itertools.{Itertools}
use stwo.Fields.M31.Carrier.{M31}
use stwo.Merkle.Accepts.{Opened, verify-Opened}
use stwo.Merkle.{MerkleHasherLifted, MerkleVerifierLifted, MerkleDecommitmentLifted}
use stwo.Fri.Verifier.{MerkleChannel}
use stwo.Pcs.TreeVec.{TreeVec, zip_eq}
use stwo.Pcs.TreeVec as tree_vec
use stwo.Pcs.IndexMap.{IndexMap}
use stwo.Pcs.Verifier.{VerificationError, collect_results, Decommitted, verify_trees}

collect_results-cons :
    {E : Type 0} (r : Outcome E (Unit {0})) (results : List (Outcome E (Unit {0})))
    → collect_results (r ∷ results) ≡ ok tt
    → (r ≡ ok tt) × (collect_results results ≡ ok tt)
collect_results-cons panic results h = cc
collect_results-cons (ok tt) results h = (refl, h)
collect_results-cons {E} (err reason) results h = refused (collect_results results) h
  where
    refused :
        (o : Outcome E (Unit {0}))
        → (elim o [ panic ↦ panic | err later ↦ err reason | ok done ↦ err reason ]) ≡ ok tt
        → (◌≡◌ {A = Outcome E (Unit {0})} (err reason) (ok tt)) × (o ≡ ok tt)
    refused panic k = cc
    refused (err later) k = cc
    refused (ok done) k = cc

collect_results-All :
    {E A : Type 0} (f : A → Outcome E (Unit {0})) (xs : List A)
    → collect_results (map f xs) ≡ ok tt
    → All (λ x. f x ≡ ok tt) xs
collect_results-All f [] h = tt
collect_results-All f (x ∷ xs) h =
    let (one, rest) = collect_results-cons (f x) (map f xs) h in
    (one, collect_results-All f xs rest)

All-map :
    {A : Type 0} {P Q : A → Type 0} → ((x : A) → P x → Q x) → (xs : List A) → All P xs → All Q xs
All-map f [] all = tt
All-map f (x ∷ xs) (one, all) = (f x one, All-map f xs all)

-- What `zip_eq` returns has the two lists as its parts.
pub zip_eq-parts :
    (it : Itertools) {A B : Type 0} (xs : List A) (ys : List B) {zs : List (A × B)}
    → it.zip_eq A B xs ys ≡ some zs
    → (map (λ (z : A × B). z.0) zs ≡ xs) × (map (λ (z : A × B). z.1) zs ≡ ys)
zip_eq-parts it {A} {B} [] [] h =
    let e = some_inj (sym (it.zip_eq-nil A B) ∙ h) in
    (ap (map (λ (z : A × B). z.0)) (sym e), ap (map (λ (z : A × B). z.1)) (sym e))
zip_eq-parts it {A} {B} [] (y ∷ ys) h = let none_there = it.zip_eq_shorter A B y ys in cc
zip_eq-parts it {A} {B} (x ∷ xs) [] h = let none_there = it.zip_eq_longer A B x xs in cc
zip_eq-parts it {A} {B} (x ∷ xs) (y ∷ ys) h =
    let (rest, e, same) =
      >>=-eq-some (it.zip_eq A B xs ys) (λ rest. some ((x, y) ∷ rest))
        (sym (it.zip_eq-cons A B x y xs ys) ∙ h) in
    let (left, right) = zip_eq-parts it xs ys e in
    let whole = some_inj same in
    (
      ap (map (λ (z : A × B). z.0)) (sym whole) ∙ ap (λ l. x ∷ l) left,
      ap (map (λ (z : A × B). z.1)) (sym whole) ∙ ap (λ l. y ∷ l) right,
    )

-- The trees, decommitments, values and positions correspond one to one, and each tree has been verified.
module _ (it : Itertools) (im : IndexMap) (h : MerkleHasherLifted) (c : MerkleChannel h.Hash) where
  open h use {Hash}

  abbrev Check : Type 0
  Check = Decommitted it im h c

  pub record Authenticated (trees : TreeVec (MerkleVerifierLifted Hash))
      (decommitments : TreeVec (MerkleDecommitmentLifted Hash))
      (queried_values : TreeVec (List (List M31))) (positions : TreeVec (List ℕ)) : Type 0 where
    pub checks : List Check
    pub of_trees : map (λ (t : Check). t.0.0.0) checks ≡ trees
    pub of_decommitments : map (λ (t : Check). t.0.0.1) checks ≡ decommitments
    pub of_values : map (λ (t : Check). t.0.1) checks ≡ queried_values
    pub of_positions : map (λ (t : Check). t.1) checks ≡ positions
    pub verified : All (λ (t : Check). Opened h it t.0.0.0 t.1 t.0.1 t.0.0.1) checks

  pub verify_trees-Authenticated :
      (trees : TreeVec (MerkleVerifierLifted Hash))
      (decommitments : TreeVec (MerkleDecommitmentLifted Hash))
      (queried_values : TreeVec (List (List M31))) (positions : TreeVec (List ℕ))
      → verify_trees it im h c trees decommitments queried_values positions ≡ ok tt
      → Authenticated trees decommitments queried_values positions
  unfolding verify_trees zip_eq tree_vec.map
  verify_trees-Authenticated trees decommitments queried_values positions e =
      let (with_decommitments, e1, h1) = >>=-eq-ok (unwrap (zip_eq it trees decommitments)) _ e in
      let (with_values, e2, h2) =
        >>=-eq-ok (unwrap (zip_eq it with_decommitments queried_values)) _ h1 in
      let (checks, e3, h3) = >>=-eq-ok (unwrap (zip_eq it with_values positions)) _ h2 in
      let (t1, d1) = zip_eq-parts it trees decommitments (unwrap-eq-ok _ e1) in
      let (t2, v2) = zip_eq-parts it with_decommitments queried_values (unwrap-eq-ok _ e2) in
      let (t3, p3) = zip_eq-parts it with_values positions (unwrap-eq-ok _ e3) in
      let inner = sym (map-map _ _ checks) ∙ ap (map (λ t. t.0)) t3 ∙ t2 in
      record {
        checks = checks;
        of_trees = sym (map-map _ _ checks) ∙ ap (map (λ t. t.0)) inner ∙ t1;
        of_decommitments = sym (map-map _ _ checks) ∙ ap (map (λ t. t.1)) inner ∙ d1;
        of_values = sym (map-map _ _ checks) ∙ ap (map (λ t. t.1)) t3 ∙ v2;
        of_positions = p3;
        verified =
            All-map (λ t. verify-Opened h it t.0.0.0 t.1 t.0.1 t.0.0.1) checks
              (collect_results-All _ checks (map_err-eq-ok VerificationError.merkle _ h3));
      }
