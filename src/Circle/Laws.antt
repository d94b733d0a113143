-- ===== src/Circle/Laws.antt =====
-- The group laws of the circle.
use stwo.Prelude.{◌≡◌, refl, sym, ap, ◌∙◌, [], ◌∷◌}
use stwo.Algebra.{Ring, ◌⊕◌, ◌⊖◌, ◌⊗◌, 𝟙}
use stwo.Algebra.Solver.{◌:+◌, ◌:-◌, ◌:*◌, opp, lit0, lit1, x0, x1, x2, x3, x4, x5, ring, cross}
use stwo.Fields.ExpOps.{square}
use stwo.Circle.{CirclePoint, identity, add, double, double_x, conjugate, neg, sub, antipode}

module _ {ℓ} {F : Type ℓ} ⦃r : Ring F⦄ where
  -- The point satisfies the equation of the circle.
  abbrev pub OnCircle : CirclePoint F → Type ℓ
  OnCircle p = p.x ⊗ p.x ⊕ p.y ⊗ p.y ≡ 𝟙

  pub point_eq :
      {a b c d : F}
      → a ≡ c
      → b ≡ d
      → ◌≡◌ {A = CirclePoint F} (record { x = a; y = b }) (record { x = c; y = d })
  point_eq p q = λ i. record { x = p i; y = q i }

  pub add_assoc : (p q s : CirclePoint F) → add (add p q) s ≡ add p (add q s)
  unfolding add cross
  add_assoc p q s =
      point_eq
        (ring (p.x ∷ p.y ∷ q.x ∷ q.y ∷ s.x ∷ s.y ∷ [])
          ((x0 :* x2 :- x1 :* x3) :* x4 :- (x0 :* x3 :+ x1 :* x2) :* x5)
          (x0 :* (x2 :* x4 :- x3 :* x5) :- x1 :* (x2 :* x5 :+ x3 :* x4)) refl)
        (ring (p.x ∷ p.y ∷ q.x ∷ q.y ∷ s.x ∷ s.y ∷ [])
          ((x0 :* x2 :- x1 :* x3) :* x5 :+ (x0 :* x3 :+ x1 :* x2) :* x4)
          (x0 :* (x2 :* x5 :+ x3 :* x4) :+ x1 :* (x2 :* x4 :- x3 :* x5)) refl)

  pub add_comm : (p q : CirclePoint F) → add p q ≡ add q p
  unfolding add cross
  add_comm p q =
      point_eq
        (ring (p.x ∷ p.y ∷ q.x ∷ q.y ∷ []) (x0 :* x2 :- x1 :* x3) (x2 :* x0 :- x3 :* x1) refl)
        (ring (p.x ∷ p.y ∷ q.x ∷ q.y ∷ []) (x0 :* x3 :+ x1 :* x2) (x2 :* x1 :+ x3 :* x0) refl)

  pub add_left_comm : (p q s : CirclePoint F) → add p (add q s) ≡ add q (add p s)
  add_left_comm p q s = sym (add_assoc p q s) ∙ ap (λ t. add t s) (add_comm p q) ∙ add_assoc q p s

  pub add_interchange :
      (p q s t : CirclePoint F) → add (add p q) (add s t) ≡ add (add p s) (add q t)
  add_interchange p q s t =
      add_assoc p q (add s t) ∙ ap (add p) (add_left_comm q s t) ∙ sym (add_assoc p s (add q t))

  pub identity-add : (p : CirclePoint F) → add identity p ≡ p
  unfolding add identity cross
  identity-add p =
      point_eq (ring (p.x ∷ p.y ∷ []) (lit1 :* x0 :- lit0 :* x1) x0 refl)
        (ring (p.x ∷ p.y ∷ []) (lit1 :* x1 :+ lit0 :* x0) x1 refl)

  pub add-identity : (p : CirclePoint F) → add p identity ≡ p
  add-identity p = add_comm p identity ∙ identity-add p

  pub identity-OnCircle : OnCircle identity
  unfolding identity cross
  identity-OnCircle = ring [] (lit1 :* lit1 :+ lit0 :* lit0) lit1 refl

  -- The circle is closed under addition.
  pub add-OnCircle : (p q : CirclePoint F) → OnCircle p → OnCircle q → OnCircle (add p q)
  unfolding add cross
  add-OnCircle p q hp hq =
      ring (p.x ∷ p.y ∷ q.x ∷ q.y ∷ [])
        ((x0 :* x2 :- x1 :* x3) :* (x0 :* x2 :- x1 :* x3)
          :+ (x0 :* x3 :+ x1 :* x2) :* (x0 :* x3 :+ x1 :* x2))
        ((x0 :* x0 :+ x1 :* x1) :* (x2 :* x2 :+ x3 :* x3)) refl
      ∙ rw (hp, hq) (r.one-mul 𝟙)

  pub conjugate-OnCircle : (p : CirclePoint F) → OnCircle p → OnCircle (conjugate p)
  unfolding conjugate cross
  conjugate-OnCircle p h =
      ring (p.x ∷ p.y ∷ []) (x0 :* x0 :+ opp x1 :* opp x1) (x0 :* x0 :+ x1 :* x1) refl ∙ h

  -- On the circle the conjugate is the inverse.
  pub sub_self : (p : CirclePoint F) → OnCircle p → sub p p ≡ identity
  unfolding sub neg add conjugate identity cross
  sub_self p h =
      point_eq (ring (p.x ∷ p.y ∷ []) (x0 :* x0 :- x1 :* opp x1) (x0 :* x0 :+ x1 :* x1) refl ∙ h)
        (ring (p.x ∷ p.y ∷ []) (x0 :* opp x1 :+ x1 :* x0) lit0 refl)

  -- Conjugation is an additive map.
  pub conjugate-add : (p q : CirclePoint F) → conjugate (add p q) ≡ add (conjugate p) (conjugate q)
  unfolding add conjugate cross
  conjugate-add p q =
      point_eq
        (ring (p.x ∷ p.y ∷ q.x ∷ q.y ∷ []) (x0 :* x2 :- x1 :* x3) (x0 :* x2 :- opp x1 :* opp x3)
          refl)
        (ring (p.x ∷ p.y ∷ q.x ∷ q.y ∷ []) (opp (x0 :* x3 :+ x1 :* x2))
          (x0 :* opp x3 :+ opp x1 :* x2) refl)

  -- The doubling map on x-coordinates is the doubling of points on the circle.
  pub double_x-double : (p : CirclePoint F) → OnCircle p → double_x p.x ≡ (double p).x
  unfolding double_x double add square cross
  double_x-double p h =
      ap (λ t. p.x ⊗ p.x ⊕ p.x ⊗ p.x ⊖ t) (sym h)
      ∙ ring (p.x ∷ p.y ∷ []) (x0 :* x0 :+ x0 :* x0 :- (x0 :* x0 :+ x1 :* x1))
          (x0 :* x0 :- x1 :* x1) refl

  pub antipode-double : (p : CirclePoint F) → double (antipode p) ≡ double p
  unfolding double add antipode cross
  antipode-double p =
      point_eq
        (ring (p.x ∷ p.y ∷ []) (opp x0 :* opp x0 :- opp x1 :* opp x1) (x0 :* x0 :- x1 :* x1) refl)
        (ring (p.x ∷ p.y ∷ []) (opp x0 :* opp x1 :+ opp x1 :* opp x0) (x0 :* x1 :+ x1 :* x0) refl)
