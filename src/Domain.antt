-- ===== src/Domain.antt =====
-- crates/stwo/src/core/poly/circle/domain.rs and canonic.rs: the domains of polynomials on the
-- circle. `none` is a failed assertion.
pub mod Canonic
mod Tests
use stwo.Prelude.{
  ℕ, zero, suc, ◌+◌, ◌-◌, ◌^◌, leb, ltb, if◌then◌else◌, Option, none, some, List, [], ◌∷◌, ◌++◌,
  map,
}
use stwo.Prelude.{◌>>=◌, ◌>>◌, assert, Bool, ◌==◌}
use stwo.Fields.M31.Carrier.{M31, m31_ring}
use stwo.Circle.{CirclePoint, add as point_add}
use stwo.Circle.Index.{to_point, add as index_add, mul as index_mul, neg as index_neg}
use stwo.Circle.Coset.{Coset, collect, CosetIterator}
use stwo.Circle.Coset as coset

pub record CircleDomain : Type 0 where
  pub half_coset : Coset

unfoldable pub log_size : CircleDomain → ℕ
log_size d = d.half_coset.log_size + 1

unfoldable pub size : CircleDomain → ℕ
unfolding log_size
size d = 2 ^ log_size d

unfoldable pub index_at : CircleDomain → ℕ → ℕ
index_at d i =
    if ltb i (coset.size d.half_coset)
    then coset.index_at d.half_coset i
    else index_neg (coset.index_at d.half_coset (i - coset.size d.half_coset))

unfoldable pub at : CircleDomain → ℕ → CirclePoint M31
unfolding index_at
at d i = to_point (index_at d i)

-- The items of the chained iterators.
abbrev items : {T : Type 0} → (T → T → T) → CosetIterator T → List T
items add it = collect add it.remaining it

unfoldable pub iter : CircleDomain → List (CirclePoint M31)
iter d =
    items point_add (coset.iter d.half_coset)
    ++ items point_add (coset.iter (coset.conjugate d.half_coset))

unfoldable pub iter_indices : CircleDomain → List ℕ
iter_indices d =
    items index_add (coset.iter_indices d.half_coset)
    ++ items index_add (coset.iter_indices (coset.conjugate d.half_coset))

unfoldable pub is_canonic : CircleDomain → Bool
is_canonic d = index_mul d.half_coset.initial_index 4 == d.half_coset.step_size

abbrev upto : ℕ → List ℕ
upto n = go n 0
  where
    go : ℕ → ℕ → List ℕ
    go zero i = []
    go (suc n) i = i ∷ go n (suc i)

unfoldable pub split : CircleDomain → ℕ → Option (CircleDomain × List ℕ)
split d log_parts = do
  assert (leb log_parts d.half_coset.log_size)
  subdomain ← coset.new d.half_coset.initial_index (d.half_coset.log_size - log_parts)
  some (
    record { half_coset = subdomain },
    map (index_mul d.half_coset.step_size) (upto (2 ^ log_parts)),
  )

unfoldable pub shift : CircleDomain → ℕ → CircleDomain
shift d shift_size = record { half_coset = coset.shift d.half_coset shift_size }

pub record CanonicCoset : Type 0 where
  pub coset : Coset

unfoldable pub new : ℕ → Option CanonicCoset
new log_size = do assert (ltb 0 log_size); c ← coset.odds log_size; some (record { coset = c })

unfoldable pub half_coset : CanonicCoset → Option Coset
half_coset c = coset.half_odds (c.coset.log_size - 1)

unfoldable pub circle_domain : CanonicCoset → Option CircleDomain
unfolding half_coset
circle_domain c = half_coset c >>= λ h. some (record { half_coset = h })
