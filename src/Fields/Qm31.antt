-- ===== src/Fields/Qm31.antt =====
-- crates/stwo/src/core/fields/qm31.rs: pairs (a, b) of `CM31` for a + bu, with u ^ 2 = 2 + i.
pub mod Inverse
use stwo.Prelude.{◌≡◌, refl, List, [], ◌∷◌, arith}
use stwo.Algebra.{Ring, ◌⊕◌, ◌⊖◌, ◌⊗◌}
use stwo.Algebra.Solver.{◌:+◌, ◌:-◌, ◌:*◌, opp, lit0, lit1, x0, x1, x2, x3, x4, x5, x6, ring, cross}
use stwo.Fields.M31.Carrier.{M31, m31_ring}
use stwo.Fields.Cm31.{Cm31, cm31_ring}
use stwo.Fields.Extension.{pair_eq, add, neg, sub, one, zero}

abbrev pub Qm31 : Type 0
Qm31 = Cm31 × Cm31

-- The constant `R`, 2 + i.
unfoldable pub r : Cm31
r = ((2, omega arith), (1, omega arith))

-- (a + bu) * (c + du) = (ac + rbd) + (ad + bc)u.
unfoldable pub mul : Qm31 → Qm31 → Qm31
mul x y = (x.0 ⊗ y.0 ⊕ r ⊗ x.1 ⊗ y.1, x.0 ⊗ y.1 ⊕ x.1 ⊗ y.0)

instance unfoldable pub qm31_ring : Ring Qm31
unfolding mul add neg sub one zero cross
qm31_ring = record {
  zero = zero;
  one = one;
  add = add;
  sub = sub;
  mul = mul;
  neg = neg;
  add_assoc = λ a b c. pair_eq (cm31_ring.add_assoc _ _ _) (cm31_ring.add_assoc _ _ _);
  add_comm = λ a b. pair_eq (cm31_ring.add_comm _ _) (cm31_ring.add_comm _ _);
  zero-add = λ a. pair_eq (cm31_ring.zero-add _) (cm31_ring.zero-add _);
  neg-add = λ a. pair_eq (cm31_ring.neg-add _) (cm31_ring.neg-add _);
  sub_lem = λ a b. pair_eq (cm31_ring.sub_lem _ _) (cm31_ring.sub_lem _ _);
  mul_assoc = λ a b c.
      pair_eq
        (ring (a.0 ∷ a.1 ∷ b.0 ∷ b.1 ∷ c.0 ∷ c.1 ∷ r ∷ [])
          ((x0 :* x2 :+ x6 :* x1 :* x3) :* x4 :+ x6 :* (x0 :* x3 :+ x1 :* x2) :* x5)
          (x0 :* (x2 :* x4 :+ x6 :* x3 :* x5) :+ x6 :* x1 :* (x2 :* x5 :+ x3 :* x4)) refl)
        (ring (a.0 ∷ a.1 ∷ b.0 ∷ b.1 ∷ c.0 ∷ c.1 ∷ r ∷ [])
          ((x0 :* x2 :+ x6 :* x1 :* x3) :* x5 :+ (x0 :* x3 :+ x1 :* x2) :* x4)
          (x0 :* (x2 :* x5 :+ x3 :* x4) :+ x1 :* (x2 :* x4 :+ x6 :* x3 :* x5)) refl);
  mul_comm = λ a b.
      pair_eq
        (ring (a.0 ∷ a.1 ∷ b.0 ∷ b.1 ∷ r ∷ []) (x0 :* x2 :+ x4 :* x1 :* x3)
          (x2 :* x0 :+ x4 :* x3 :* x1) refl)
        (ring (a.0 ∷ a.1 ∷ b.0 ∷ b.1 ∷ []) (x0 :* x3 :+ x1 :* x2) (x2 :* x1 :+ x3 :* x0) refl);
  one-mul = λ a.
      pair_eq (ring (a.0 ∷ a.1 ∷ r ∷ []) (lit1 :* x0 :+ x2 :* lit0 :* x1) x0 refl)
        (ring (a.0 ∷ a.1 ∷ []) (lit1 :* x1 :+ lit0 :* x0) x1 refl);
  mul-add = λ a b c.
      pair_eq
        (ring (a.0 ∷ a.1 ∷ b.0 ∷ b.1 ∷ c.0 ∷ c.1 ∷ r ∷ [])
          (x0 :* (x2 :+ x4) :+ x6 :* x1 :* (x3 :+ x5))
          ((x0 :* x2 :+ x6 :* x1 :* x3) :+ (x0 :* x4 :+ x6 :* x1 :* x5)) refl)
        (ring (a.0 ∷ a.1 ∷ b.0 ∷ b.1 ∷ c.0 ∷ c.1 ∷ []) (x0 :* (x3 :+ x5) :+ x1 :* (x2 :+ x4))
          ((x0 :* x3 :+ x1 :* x2) :+ (x0 :* x5 :+ x1 :* x4)) refl);
}
