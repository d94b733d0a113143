-- ===== src/Line/HalfOdds.antt =====
-- The cosets of half odds satisfy the assertions of `LineDomain::new`, crates/stwo/src/core/poly/line.rs.
use stwo.Prelude.{
  ℕ, zero, suc, ◌≤◌, ◌<◌, Bool, true, false, ◌&&◌, Option, none, some, ◌>>=◌, ◌≡◌, refl, arith,
  >>=-eq-some, sym, ◌==◌, ==→eq, Bool-cases, inl, inr,
}
use mathlib.Core.Path.{subst}
use stwo.Fields.M31.Carrier.{m31_ring}
use stwo.Fields.M31 as m31
use stwo.Fields.M31.Inverse.{M31-discrete}
use stwo.Circle as circle
use stwo.Circle.Index as index
use stwo.Circle.Coset.{Coset, half_odds}
use stwo.Circle.Coset as coset
use stwo.Line.{LineDomain, new}

and-eq-true : (a b : Bool) → (a && b) ≡ true → (a ≡ true) × (b ≡ true)
and-eq-true true b h = (refl, h)
and-eq-true false b h = cc

is_some : {A : Type 0} → Option A → Bool
is_some none = false
is_some (some a) = true

domain_of : ℕ → Option LineDomain
domain_of n = half_odds n >>= new

-- The first n log sizes.
all_below : ℕ → Bool
unfolding is_some domain_of
all_below zero = true
all_below (suc n) = is_some (domain_of n) && all_below n

all_below_30 : all_below 30 ≡ true
unfolding all_below is_some domain_of half_odds new coset.size circle.log_order M31-discrete
    index.to_point circle.mul circle.add m31_ring m31.sub m31.mul circle.identity circle.double
    index.m31_circle_gen m31.add circle.double_x
all_below_30 = refl

below : (m n : ℕ) → n < m → all_below m ≡ true → is_some (domain_of n) ≡ true
unfolding all_below
below zero n h e = absurd (omega arith)
below (suc m) n h e =
    let (first, rest) = and-eq-true (is_some (domain_of m)) (all_below m) e in
    elim (Bool-cases (n == m)) [
      | inl same ↦ subst (λ k. is_some (domain_of k) ≡ true) (sym (==→eq n m same)) first
      | inr other ↦ below m n (ground arith) rest
    ]

is_some_inv : {A : Type 0} (o : Option A) → is_some o ≡ true → (a : A) × (o ≡ some a)
unfolding is_some
is_some_inv none h = cc
is_some_inv (some a) h = (a, refl)

pub new-half_odds :
    (n : ℕ) → n ≤ 29 → (c : Coset) × (d : LineDomain) × (half_odds n ≡ some c) × (new c ≡ some d)
unfolding domain_of
new-half_odds n h =
    let (d, e) = is_some_inv (domain_of n) (below 30 n (omega arith) all_below_30) in
    let (c, e1, e2) = >>=-eq-some (half_odds n) new e in (c, d, e1, e2)
