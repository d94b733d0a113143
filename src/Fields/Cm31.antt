-- ===== src/Fields/Cm31.antt =====
-- crates/stwo/src/core/fields/cm31.rs: pairs (a, b) for a + bi.
pub mod Inverse
use stwo.Prelude.{◌≡◌, refl, List, [], ◌∷◌}
use stwo.Algebra.{Ring, ◌⊕◌, ◌⊖◌, ◌⊗◌}
use stwo.Algebra.Solver.{◌:+◌, ◌:-◌, ◌:*◌, opp, lit0, lit1, x0, x1, x2, x3, x4, x5, ring, cross}
use stwo.Fields.M31.Carrier.{M31, m31_ring}
use stwo.Fields.Extension.{pair_eq, add, neg, sub, one, zero}

abbrev pub Cm31 : Type 0
Cm31 = M31 × M31

-- (a + bi) * (c + di) = (ac - bd) + (ad + bc)i.
unfoldable pub mul : Cm31 → Cm31 → Cm31
mul x y = (x.0 ⊗ y.0 ⊖ x.1 ⊗ y.1, x.0 ⊗ y.1 ⊕ x.1 ⊗ y.0)

instance unfoldable pub cm31_ring : Ring Cm31
unfolding mul add neg sub one zero cross
cm31_ring = record {
  zero = zero;
  one = one;
  add = add;
  sub = sub;
  mul = mul;
  neg = neg;
  add_assoc = λ a b c. pair_eq (m31_ring.add_assoc _ _ _) (m31_ring.add_assoc _ _ _);
  add_comm = λ a b. pair_eq (m31_ring.add_comm _ _) (m31_ring.add_comm _ _);
  zero-add = λ a. pair_eq (m31_ring.zero-add _) (m31_ring.zero-add _);
  neg-add = λ a. pair_eq (m31_ring.neg-add _) (m31_ring.neg-add _);
  sub_lem = λ a b. pair_eq (m31_ring.sub_lem _ _) (m31_ring.sub_lem _ _);
  mul_assoc = λ a b c.
      pair_eq
        (ring (a.0 ∷ a.1 ∷ b.0 ∷ b.1 ∷ c.0 ∷ c.1 ∷ [])
          ((x0 :* x2 :- x1 :* x3) :* x4 :- (x0 :* x3 :+ x1 :* x2) :* x5)
          (x0 :* (x2 :* x4 :- x3 :* x5) :- x1 :* (x2 :* x5 :+ x3 :* x4)) refl)
        (ring (a.0 ∷ a.1 ∷ b.0 ∷ b.1 ∷ c.0 ∷ c.1 ∷ [])
          ((x0 :* x2 :- x1 :* x3) :* x5 :+ (x0 :* x3 :+ x1 :* x2) :* x4)
          (x0 :* (x2 :* x5 :+ x3 :* x4) :+ x1 :* (x2 :* x4 :- x3 :* x5)) refl);
  mul_comm = λ a b.
      pair_eq (ring (a.0 ∷ a.1 ∷ b.0 ∷ b.1 ∷ []) (x0 :* x2 :- x1 :* x3) (x2 :* x0 :- x3 :* x1) refl)
        (ring (a.0 ∷ a.1 ∷ b.0 ∷ b.1 ∷ []) (x0 :* x3 :+ x1 :* x2) (x2 :* x1 :+ x3 :* x0) refl);
  one-mul = λ a.
      pair_eq (ring (a.0 ∷ a.1 ∷ []) (lit1 :* x0 :- lit0 :* x1) x0 refl)
        (ring (a.0 ∷ a.1 ∷ []) (lit1 :* x1 :+ lit0 :* x0) x1 refl);
  mul-add = λ a b c.
      pair_eq
        (ring (a.0 ∷ a.1 ∷ b.0 ∷ b.1 ∷ c.0 ∷ c.1 ∷ []) (x0 :* (x2 :+ x4) :- x1 :* (x3 :+ x5))
          ((x0 :* x2 :- x1 :* x3) :+ (x0 :* x4 :- x1 :* x5)) refl)
        (ring (a.0 ∷ a.1 ∷ b.0 ∷ b.1 ∷ c.0 ∷ c.1 ∷ []) (x0 :* (x3 :+ x5) :+ x1 :* (x2 :+ x4))
          ((x0 :* x3 :+ x1 :* x2) :+ (x0 :* x5 :+ x1 :* x4)) refl);
}
