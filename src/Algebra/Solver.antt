-- ===== src/Algebra/Solver.antt =====
-- A decision procedure for identities of commutative rings, by reflection. A term is brought to a
-- difference of two sums of monomials; two terms are equal if their crosswise sums are the same
-- sorted list.
use stwo.Prelude.{ℕ, ◌≡◌, refl, sym, ap, ◌∙◌, Bool, true, false, if◌then◌else◌}
use stwo.Prelude.{List, [], ◌∷◌, ◌++◌, leb, ltb, get_or, Bool-cases, inl, inr}
use stwo.Algebra.{Ring, ◌⊕◌, ◌⊖◌, ◌⊗◌, ⊝, 𝟘, 𝟙}
use stwo.Algebra.Laws.{
  add-zero, add_left_comm, add_interchange, neg-add_cancel, add_right_cancel, add-mul, mul-zero,
  zero-mul, mul-one, mul_left_comm,
}

infixl 65 ◌:+◌ ◌:-◌
infixl 70 ◌:*◌
pub data Term : Type 0 where
  var : ℕ → Term
  lit0 : Term
  lit1 : Term
  ◌:+◌ : Term → Term → Term
  ◌:-◌ : Term → Term → Term
  ◌:*◌ : Term → Term → Term
  opp : Term → Term

abbrev pub x0 : Term
x0 = var 0

abbrev pub x1 : Term
x1 = var 1

abbrev pub x2 : Term
x2 = var 2

abbrev pub x3 : Term
x3 = var 3

abbrev pub x4 : Term
x4 = var 4

abbrev pub x5 : Term
x5 = var 5

abbrev pub x6 : Term
x6 = var 6

abbrev pub x7 : Term
x7 = var 7

abbrev Mono : Type 0
Mono = List ℕ

abbrev Poly : Type 0
Poly = List Mono

insert_var : ℕ → Mono → Mono
insert_var i [] = i ∷ []
insert_var i (j ∷ m) = let rest = insert_var i m in if leb i j then i ∷ j ∷ m else j ∷ rest

sort_vars : Mono → Mono
unfolding insert_var
sort_vars [] = []
sort_vars (i ∷ m) = insert_var i (sort_vars m)

precedes : Mono → Mono → Bool
precedes [] n = true
precedes (i ∷ m) [] = false
precedes (i ∷ m) (j ∷ n) =
    let rest = precedes m n in if ltb i j then true else (if ltb j i then false else rest)

insert_mono : Mono → Poly → Poly
unfolding precedes
insert_mono m [] = m ∷ []
insert_mono m (n ∷ p) = let rest = insert_mono m p in if precedes m n then m ∷ n ∷ p else n ∷ rest

canon : Poly → Poly
unfolding insert_mono sort_vars
canon [] = []
canon (m ∷ p) = insert_mono (sort_vars m) (canon p)

scale : Mono → Poly → Poly
scale m [] = []
scale m (n ∷ p) = (m ++ n) ∷ scale m p

product : Poly → Poly → Poly
unfolding scale
product [] q = []
product (m ∷ p) q = scale m q ++ product p q

-- The positive and the negative monomials.
norm : Term → Poly × Poly
unfolding product
norm (var i) = ((i ∷ []) ∷ [], [])
norm lit0 = ([], [])
norm lit1 = ([] ∷ [], [])
norm (s :+ t) = ((norm s).0 ++ (norm t).0, (norm s).1 ++ (norm t).1)
norm (s :- t) = ((norm s).0 ++ (norm t).1, (norm s).1 ++ (norm t).0)
norm (s :* t) = (
  product (norm s).0 (norm t).0 ++ product (norm s).1 (norm t).1,
  product (norm s).0 (norm t).1 ++ product (norm s).1 (norm t).0,
)
norm (opp t) = ((norm t).1, (norm t).0)

-- The sorted monomials of the left side and the negated right side.
unfoldable pub cross : Term → Term → Poly
unfolding norm canon
cross s t = canon ((norm s).0 ++ (norm t).1)

module _ {ℓ} {A : Type ℓ} ⦃r : Ring A⦄ where
  abbrev pub eval : List A → Term → A
  eval ρ (var i) = get_or ρ i 𝟘
  eval ρ lit0 = 𝟘
  eval ρ lit1 = 𝟙
  eval ρ (s :+ t) = eval ρ s ⊕ eval ρ t
  eval ρ (s :- t) = eval ρ s ⊖ eval ρ t
  eval ρ (s :* t) = eval ρ s ⊗ eval ρ t
  eval ρ (opp t) = ⊝ (eval ρ t)

  mono : List A → Mono → A
  mono ρ [] = 𝟙
  mono ρ (i ∷ m) = get_or ρ i 𝟘 ⊗ mono ρ m

  poly : List A → Poly → A
  poly ρ [] = 𝟘
  poly ρ (m ∷ p) = mono ρ m ⊕ poly ρ p

  mono-insert_var : (ρ : List A) (i : ℕ) (m : Mono) → mono ρ (insert_var i m) ≡ mono ρ (i ∷ m)
  unfolding mono insert_var
  mono-insert_var ρ i [] = refl
  mono-insert_var ρ i (j ∷ m) = elim (Bool-cases (leb i j)) [
    | inl e ↦ rw e refl
    | inr e ↦ rw (e, mono-insert_var ρ i m) (mul_left_comm _ _ _)
  ]

  mono-sort_vars : (ρ : List A) (m : Mono) → mono ρ (sort_vars m) ≡ mono ρ m
  unfolding mono sort_vars
  mono-sort_vars ρ [] = refl
  mono-sort_vars ρ (i ∷ m) = rw (mono-insert_var ρ i, mono, mono-sort_vars ρ m) refl

  poly-insert_mono : (ρ : List A) (m : Mono) (p : Poly) → poly ρ (insert_mono m p) ≡ poly ρ (m ∷ p)
  unfolding poly insert_mono
  poly-insert_mono ρ m [] = refl
  poly-insert_mono ρ m (n ∷ p) = elim (Bool-cases (precedes m n)) [
    | inl e ↦ rw e refl
    | inr e ↦ rw (e, poly-insert_mono ρ m p) (add_left_comm _ _ _)
  ]

  poly-canon : (ρ : List A) (p : Poly) → poly ρ (canon p) ≡ poly ρ p
  unfolding poly canon
  poly-canon ρ [] = refl
  poly-canon ρ (m ∷ p) =
      poly-insert_mono ρ (sort_vars m) (canon p) ∙ rw (mono-sort_vars ρ m, poly-canon ρ p) refl

  poly-append : (ρ : List A) (p q : Poly) → poly ρ (p ++ q) ≡ poly ρ p ⊕ poly ρ q
  unfolding poly
  poly-append ρ [] q = sym (r.zero-add _)
  poly-append ρ (m ∷ p) q = rw (poly-append ρ p q) (sym (r.add_assoc _ _ _))

  mono-append : (ρ : List A) (m n : Mono) → mono ρ (m ++ n) ≡ mono ρ m ⊗ mono ρ n
  unfolding mono
  mono-append ρ [] n = sym (r.one-mul _)
  mono-append ρ (i ∷ m) n = rw (mono-append ρ m n) (sym (r.mul_assoc _ _ _))

  poly-scale : (ρ : List A) (m : Mono) (p : Poly) → poly ρ (scale m p) ≡ mono ρ m ⊗ poly ρ p
  unfolding poly scale
  poly-scale ρ m [] = sym (mul-zero _)
  poly-scale ρ m (n ∷ p) = rw (mono-append ρ m n, poly-scale ρ m p) (sym (r.mul-add _ _ _))

  poly-product : (ρ : List A) (p q : Poly) → poly ρ (product p q) ≡ poly ρ p ⊗ poly ρ q
  unfolding poly product
  poly-product ρ [] q = sym (zero-mul _)
  poly-product ρ (m ∷ p) q =
      poly-append ρ (scale m q) (product p q)
      ∙ rw (poly-scale ρ m q, poly-product ρ p q) (sym (add-mul _ _ _))

  -- A term and its negative part make its positive part.
  abbrev Split : A → A → A → Type ℓ
  Split a n p = a ⊕ n ≡ p

  neg-Split : (a n p : A) → Split a n p → Split (⊝ a) p n
  neg-Split a n p h = rw (← h) (neg-add_cancel a n)

  add-Split : (a n p b m q : A) → Split a n p → Split b m q → Split (a ⊕ b) (n ⊕ m) (p ⊕ q)
  add-Split a n p b m q h k = rw (← h, ← k) (add_interchange a b n m)

  shuffle : (u x v w : A) → u ⊕ (x ⊕ (v ⊕ w)) ≡ ((u ⊕ v) ⊕ x) ⊕ w
  shuffle u x v w =
      ap (λ t. u ⊕ t) (add_left_comm x v w)
      ∙ sym (rw (r.add_assoc (u ⊕ v) x w) (r.add_assoc u v (x ⊕ w)))

  mul-Split :
      (a n p b m q : A) → Split a n p → Split b m q → Split (a ⊗ b) (p ⊗ m ⊕ n ⊗ q) (p ⊗ q ⊕ n ⊗ m)
  mul-Split a n p b m q h k =
      rw (← h, ← k, r.mul-add n b m, r.mul-add (a ⊕ n) b m, add-mul a n b)
        (shuffle (a ⊗ b) ((a ⊕ n) ⊗ m) (n ⊗ b) (n ⊗ m))

  norm-Split : (ρ : List A) (t : Term) → Split (eval ρ t) (poly ρ (norm t).1) (poly ρ (norm t).0)
  unfolding norm poly mono
  norm-Split ρ (var i) = add-zero _ ∙ sym (add-zero _ ∙ mul-one _)
  norm-Split ρ lit0 = add-zero _
  norm-Split ρ lit1 = refl
  norm-Split ρ (s :+ t) =
      rw (poly-append ρ (norm s).1, poly-append ρ (norm s).0)
        (add-Split _ _ _ _ _ _ (norm-Split ρ s) (norm-Split ρ t))
  norm-Split ρ (s :- t) =
      rw (poly-append ρ (norm s).1, poly-append ρ (norm s).0, r.sub_lem)
        (add-Split _ _ _ _ _ _ (norm-Split ρ s) (neg-Split _ _ _ (norm-Split ρ t)))
  norm-Split ρ (s :* t) =
      simp (poly-append ρ, poly-product ρ) (mul-Split _ _ _ _ _ _ (norm-Split ρ s) (norm-Split ρ t))
  norm-Split ρ (opp t) = neg-Split _ _ _ (norm-Split ρ t)

  cross-poly :
      (ρ : List A) (s t : Term)
      → cross s t ≡ cross t s
      → poly ρ (norm s).0 ⊕ poly ρ (norm t).1 ≡ poly ρ (norm t).0 ⊕ poly ρ (norm s).1
  unfolding cross
  cross-poly ρ s t h =
      sym (poly-append ρ (norm s).0 (norm t).1)
      ∙ sym (poly-canon ρ _)
      ∙ ap (poly ρ) h
      ∙ poly-canon ρ _
      ∙ poly-append ρ (norm t).0 (norm s).1

  Split-eq : (a b n m p q : A) → Split a n p → Split b m q → p ⊕ m ≡ q ⊕ n → a ≡ b
  Split-eq a b n m p q h k e = add_right_cancel (n ⊕ m) a b (
      sym (r.add_assoc a n m)
      ∙ ap (λ t. t ⊕ m) h
      ∙ e
      ∙ ap (λ t. t ⊕ n) (sym k)
      ∙ r.add_assoc b m n
      ∙ ap (λ t. b ⊕ t) (r.add_comm m n))

  -- The solver: `ring ρ s t refl` under `unfolding cross`.
  pub ring : (ρ : List A) (s t : Term) → cross s t ≡ cross t s → eval ρ s ≡ eval ρ t
  ring ρ s t h = Split-eq _ _ _ _ _ _ (norm-Split ρ s) (norm-Split ρ t) (cross-poly ρ s t h)

  square_diff_test : (a b : A) → (a ⊕ b) ⊗ (a ⊖ b) ≡ a ⊗ a ⊖ b ⊗ b
  unfolding cross
  square_diff_test a b = ring (a ∷ b ∷ []) ((x0 :+ x1) :* (x0 :- x1)) (x0 :* x0 :- x1 :* x1) refl
