-- ===== src/Circle/Coset.antt =====
-- The types `Coset` and `CosetIterator` of crates/stwo/src/core/circle.rs. `none` is a failed
-- assertion.
pub mod Valid
pub mod Points
use stwo.Prelude.{
  ℕ, zero, suc, ◌+◌, ◌-◌, ◌^◌, leb, ltb, if◌then◌else◌, Option, none, some, List, [], ◌∷◌,
}
use stwo.Prelude.{◌>>=◌, ◌>>◌, assert, Bool, true, false, ◌==◌, ◌&&◌}
use stwo.Fields.M31.Carrier.{M31, m31_ring}
use stwo.Circle.{CirclePoint, add as point_add, double as point_double}
use stwo.Circle.Index.{to_point, subgroup_gen, add as index_add, mul as index_mul, neg as index_neg}
use stwo.Circle.Index.{m31_circle_log_order}

pub record Coset : Type 0 where
  pub initial_index : ℕ
  pub initial : CirclePoint M31
  pub step_size : ℕ
  pub step : CirclePoint M31
  pub log_size : ℕ

unfoldable pub new : ℕ → ℕ → Option Coset
unfolding subgroup_gen
new initial_index log_size = do
  assert (leb log_size m31_circle_log_order)
  step_size ← subgroup_gen log_size
  some (record {
    initial_index = initial_index;
    initial = to_point initial_index;
    step_size = step_size;
    step = to_point step_size;
    log_size = log_size;
  })

unfoldable pub subgroup : ℕ → Option Coset
unfolding new
subgroup log_size = new 0 log_size

unfoldable pub odds : ℕ → Option Coset
unfolding new
odds log_size = do initial ← subgroup_gen (log_size + 1); new initial log_size

unfoldable pub half_odds : ℕ → Option Coset
unfolding new
half_odds log_size = do initial ← subgroup_gen (log_size + 2); new initial log_size

unfoldable pub size : Coset → ℕ
size c = 2 ^ c.log_size

pub record CosetIterator (T : Type 0) : Type 0 where
  pub cur : T
  pub step : T
  pub remaining : ℕ

module _ {T : Type 0} (add : T → T → T) where
  unfoldable pub next_of : CosetIterator T → ℕ → Option (T × CosetIterator T)
  next_of it zero = none
  next_of it (suc remaining) =
      some (it.cur, record it { cur = add it.cur it.step; remaining = remaining })

  unfoldable pub next : CosetIterator T → Option (T × CosetIterator T)
  unfolding next_of
  next it = next_of it it.remaining

  -- The items that the calls of `next` return until `None`, in at most `fuel` calls.
  unfoldable pub collect : ℕ → CosetIterator T → List T
  unfolding next
  collect zero it = []
  collect (suc fuel) it = elim (next it) [ none ↦ [] | some (x, it') ↦ x ∷ collect fuel it' ]

unfoldable pub iter : Coset → CosetIterator (CirclePoint M31)
unfolding size
iter c = record { cur = c.initial; step = c.step; remaining = size c }

unfoldable pub iter_indices : Coset → CosetIterator ℕ
unfolding size
iter_indices c = record { cur = c.initial_index; step = c.step_size; remaining = size c }

unfoldable pub double : Coset → Option Coset
double c = do
  assert (ltb 0 c.log_size)
  some (record {
    initial_index = index_mul c.initial_index 2;
    initial = point_double c.initial;
    step_size = index_mul c.step_size 2;
    step = point_double c.step;
    log_size = c.log_size - 1;
  })

unfoldable pub repeated_double : Coset → ℕ → Option Coset
unfolding double
repeated_double c zero = some c
repeated_double c (suc n) = do c' ← repeated_double c n; double c'

unfoldable pub point_eqb : CirclePoint M31 → CirclePoint M31 → Bool
point_eqb p q = p.x.0 == q.x.0 && p.y.0 == q.y.0

-- The derived `PartialEq`.
unfoldable pub eqb : Coset → Coset → Bool
unfolding point_eqb
eqb c d =
    c.initial_index == d.initial_index
    && point_eqb c.initial d.initial
    && c.step_size == d.step_size
    && point_eqb c.step d.step
    && c.log_size == d.log_size

unfoldable pub is_doubling_of : Coset → Coset → Option Bool
unfolding repeated_double eqb
is_doubling_of c other = elim (leb c.log_size other.log_size) [
  | false ↦ some false
  | true ↦ repeated_double other (other.log_size - c.log_size) >>= λ d. some (eqb c d)
]

unfoldable pub index_at : Coset → ℕ → ℕ
index_at c index = index_add c.initial_index (index_mul c.step_size index)

unfoldable pub at : Coset → ℕ → CirclePoint M31
unfolding index_at
at c index = to_point (index_at c index)

unfoldable pub shift : Coset → ℕ → Coset
shift c shift_size =
    let initial_index = index_add c.initial_index shift_size in
    record c { initial_index = initial_index; initial = to_point initial_index }

unfoldable pub conjugate : Coset → Coset
conjugate c =
    let initial_index = index_neg c.initial_index in
    let step_size = index_neg c.step_size in
    record {
      initial_index = initial_index;
      initial = to_point initial_index;
      step_size = step_size;
      step = to_point step_size;
      log_size = c.log_size;
    }
