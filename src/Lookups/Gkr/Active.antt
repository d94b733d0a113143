-- ===== src/Lookups/Gkr/Active.antt =====
-- The point of a layer of the partial verifier (crates/stwo/src/prover/lookups/gkr_verifier.rs) grows by one
-- coordinate in each layer.
use stwo.Prelude.{
  ℕ, zero, suc, ◌+◌, ◌-◌, ◌≤◌, ◌==◌, Bool, true, false, leb, if◌then◌else◌, Option, none, some,
  List, [], ◌∷◌, ◌++◌, drop, map, length, get_elem?, ◌≡◌, refl, sym, ap, ◌∙◌, arith, length-append,
  Bool-cases, inl, inr, ==→eq, assert, some_inj,
}
use stwo.Prelude as prelude
use stwo.Outcome.{ok, unwrap, >>=-eq-ok, unwrap-eq-ok, ok_inj}
use stwo.Fields.Cm31.{cm31_ring}
use stwo.Fields.Qm31.{Qm31, qm31_ring}
use stwo.Fri.{checked_sub}
use stwo.Air.{max_of}
use stwo.Merkle.{maximum, max}
use stwo.Lookups.{eq}
use stwo.Lookups.Gkr.{
  Gate, GkrMask, Instance, n_layers_of, instances, set_outputs, mask_at, eval, slice_from,
  mask_error, layer_evals, Verified,
}
use stwo.Lookups.Gkr.Batch.{reduce_instance, reduce_claims}

-- An instance has claims.
abbrev has : Option (List Qm31) → Bool
has none = false
has (some claims) = true

abbrev pub active : List Instance → Bool
active [] = false
active (i ∷ is) = if has i.claims_to_verify then true else active is

length-drop : {A : Type 0} (n : ℕ) (xs : List A) → length (drop n xs) ≡ length xs - n
length-drop zero xs = omega arith
length-drop (suc n) [] = omega arith
length-drop (suc n) (x ∷ xs) = length-drop n xs ∙ omega arith

slice_from-eq-some :
    (n : ℕ) (xs : List Qm31) {ys : List Qm31}
    → slice_from n xs ≡ some ys
    → (n ≤ length xs) × (length ys ≡ length xs - n)
slice_from-eq-some n xs h = elim (Bool-cases (leb n (length xs))) [
  | inl fits ↦ (ground arith, ap length (sym (some_inj (rw fits at h))) ∙ length-drop n xs)
  | inr short ↦ (let wrong = rw short at h in cc)
]

eq-eq-some : (x y : List Qm31) {r : Qm31} → eq x y ≡ some r → length x ≡ length y
unfolding eq
eq-eq-some x y h =
    let (u, e, k) = prelude.>>=-eq-some (assert (length x == length y)) _ h in ground arith

-- With an active instance the point of the sum-check is as long as the point of the layer.
pub layer_evals-lengths :
    (all : List Instance) (n layer : ℕ) (lambda : Qm31) (ood_point point : List Qm31) (index : ℕ)
    (is : List Instance) {evals : List Qm31}
    → layer_evals all n layer lambda ood_point point index is ≡ ok evals
    → active is ≡ true
    → length point ≡ length ood_point
unfolding layer_evals
layer_evals-lengths all n layer lambda ood_point point index [] h act = cc
layer_evals-lengths all n layer lambda ood_point point index (i ∷ is) {evals} h act =
    by_claims i.claims_to_verify refl
      (λ g a. layer_evals-lengths all n layer lambda ood_point point (suc index) is g a)
  where
    by_claims :
        (o : Option (List Qm31))
        → i.claims_to_verify ≡ o
        → (layer_evals all n layer lambda ood_point point (suc index) is ≡ ok evals
            → active is ≡ true
            → length point ≡ length ood_point)
        → length point ≡ length ood_point
    by_claims none e rest = rest (rw (e, layer_evals) at h) (rw e at act)
    by_claims (some claims) e rest =
        let (unused, e1, h1) =
          >>=-eq-ok (unwrap (checked_sub n (n_layers_of i))) _ (rw (e, layer_evals) at h) in
        let (mask, e2, h2) = >>=-eq-ok (unwrap (mask_at n layer i)) _ h1 in
        let output_of : Verified (List Qm31) = elim (eval i.gate mask.columns) [
          | none ↦ mask_error all layer (n - layer) index
          | some output ↦ ok output
        ] in
        let (output, e3, h3) = >>=-eq-ok output_of _ h2 in
        let (p, e4, h4) = >>=-eq-ok (unwrap (slice_from unused ood_point)) _ h3 in
        let (q, e5, h5) = >>=-eq-ok (unwrap (slice_from unused point)) _ h4 in
        let (r, e6, h6) = >>=-eq-ok (unwrap (eq p q)) _ h5 in
        let (fits, len) = slice_from-eq-some unused ood_point (unwrap-eq-ok _ e4) in
        let (fits', len') = slice_from-eq-some unused point (unwrap-eq-ok _ e5) in
        let same = eq-eq-some p q (unwrap-eq-ok _ e6) in omega arith

pub active-set_outputs :
    (k : ℕ) (is : List Instance) → active is ≡ true → active (set_outputs k is) ≡ true
unfolding set_outputs
active-set_outputs k [] act = act
active-set_outputs k (i ∷ is) act = ground (arith, active-set_outputs k is)

-- Reducing the claims of an instance leaves it with claims if it has them.
has-reduce_instance :
    (n layer : ℕ) (challenge : Qm31) (i : Instance) {out : Instance}
    → reduce_instance n layer challenge i ≡ ok out
    → has out.claims_to_verify ≡ has i.claims_to_verify
unfolding reduce_instance
has-reduce_instance n layer challenge i {out} h = by_claims i.claims_to_verify refl
  where
    by_claims :
        (o : Option (List Qm31))
        → i.claims_to_verify ≡ o
        → has out.claims_to_verify ≡ has i.claims_to_verify
    by_claims none e =
        ap (λ (j : Instance). has j.claims_to_verify) (sym (ok_inj (rw (e, reduce_instance) at h)))
    by_claims (some claims) e =
        let (mask, e1, h1) =
          >>=-eq-ok (unwrap (mask_at n layer i)) _ (rw (e, reduce_instance) at h) in
        ap (λ (j : Instance). has j.claims_to_verify) (sym (ok_inj h1)) ∙ sym (ap has e)

one_active :
    (here before after : Bool)
    → (if here then true else before) ≡ true
    → (before ≡ true → after ≡ true)
    → (if here then true else after) ≡ true
one_active true before after h k = refl
one_active false before after h k = k h

pub active-reduce_claims :
    (n layer : ℕ) (challenge : Qm31) (is : List Instance) {out : List Instance}
    → reduce_claims n layer challenge is ≡ ok out
    → active is ≡ true
    → active out ≡ true
unfolding reduce_claims
active-reduce_claims n layer challenge [] h act = cc
active-reduce_claims n layer challenge (i ∷ is) h act =
    let (first, e1, h1) = >>=-eq-ok (reduce_instance n layer challenge i) _ h in
    let (rest, e2, h2) = >>=-eq-ok (reduce_claims n layer challenge is) _ h1 in
    let kept = has-reduce_instance n layer challenge i e1 in
    ap active (sym (ok_inj h2))
    ∙ ap (λ t. if t then true else active rest) kept
    ∙ one_active (has i.claims_to_verify) (active is) (active rest) act
        (active-reduce_claims n layer challenge is e2)

abbrev occurs : ℕ → List ℕ → Bool
occurs n [] = false
occurs n (x ∷ xs) = if x == n then true else occurs n xs

head_occurs : (x : ℕ) (xs : List ℕ) → occurs x (x ∷ xs) ≡ true
head_occurs x xs = ground arith

next_occurs : (x m : ℕ) (ys : List ℕ) → occurs m ys ≡ true → occurs m (x ∷ ys) ≡ true
next_occurs x m ys h = elim (Bool-cases (x == m)) [
  | inl same ↦ rw same refl
  | inr other ↦ rw other h
]

max_right : (x m : ℕ) → leb x m ≡ true → max x m ≡ m
max_right x m h = rw h refl

max_left : (x m : ℕ) → leb x m ≡ false → max x m ≡ x
max_left x m h = rw h refl

larger_occurs : (x m : ℕ) (ys : List ℕ) → occurs m ys ≡ true → occurs (max x m) (x ∷ ys) ≡ true
larger_occurs x m ys h = elim (Bool-cases (leb x m)) [
  | inl small ↦ ap (λ t. occurs t (x ∷ ys)) (max_right x m small) ∙ next_occurs x m ys h
  | inr large ↦ ap (λ t. occurs t (x ∷ ys)) (max_left x m large) ∙ head_occurs x ys
]

occurs-maximum : (x : ℕ) (xs : List ℕ) → occurs (maximum (x ∷ xs)) (x ∷ xs) ≡ true
occurs-maximum x [] = ground arith
occurs-maximum x (y ∷ xs) = larger_occurs x (maximum (y ∷ xs)) (y ∷ xs) (occurs-maximum y xs)

active-occurs :
    (n : ℕ) (gates : List Gate) (masks : List (List GkrMask)) (claims : List (List Qm31))
    → length gates ≡ length masks
    → length masks ≡ length claims
    → occurs n (map length masks) ≡ true
    → active (set_outputs n (instances gates masks claims)) ≡ true
unfolding set_outputs instances
active-occurs n gates [] claims h k m = cc
active-occurs n [] (masks ∷ rest) claims h k m = absurd (omega arith)
active-occurs n (gate ∷ gates) (masks ∷ rest) [] h k m = absurd (omega arith)
active-occurs n (gate ∷ gates) (masks ∷ rest) (claim ∷ claims) h k m =
    elim (Bool-cases (length masks == n)) [
      | inl here ↦ rw here refl
      | inr later ↦
          rw later (active-occurs n gates rest claims (omega arith) (omega arith) (rw later at m))
    ]

-- The instances of the largest number of layers are active from the first layer on.
pub active_outputs :
    (gates : List Gate) (masks : List (List GkrMask)) (claims : List (List Qm31)) (n : ℕ)
    → length gates ≡ length masks
    → length masks ≡ length claims
    → max_of (map length masks) ≡ some n
    → active (set_outputs (n - 0) (instances gates masks claims)) ≡ true
active_outputs gates [] claims n h k m = cc
active_outputs gates (first ∷ masks) claims n h k m =
    active-occurs (n - 0) gates (first ∷ masks) claims h k (
      ap (λ t. occurs t (map length (first ∷ masks))) same
      ∙ occurs-maximum (length first) (map length masks))
  where
    same : n - 0 ≡ maximum (map length (first ∷ masks))
    same = let e : n - 0 ≡ n = omega arith in e ∙ sym (some_inj m)
