-- ===== src/Circle/Coset/Valid.antt =====
-- The invariant of a `Coset`: its points are those of its indices, and its step has an order that
-- divides its size.
use stwo.Prelude.{ℕ, ◌+◌, ◌-◌, ◌*◌, ◌%◌, ◌^◌, ◌≤◌, ◌<◌, ◌≡◌, refl, sym, ap, ◌∙◌, arith, some}
use stwo.Prelude.{>>=-eq-some, zero, suc}
use mathlib.Core.Path.{subst}
use stwo.Prelude.Mod.{mod-mul-mod}
use stwo.Prelude.Bits.{two_pow-suc, two_pow-add, two_pow-pos}
use stwo.Fields.M31.Carrier.{m31_ring}
use stwo.Circle.Laws.{add-identity}
use stwo.Circle.{add as point_add, double as point_double}
use stwo.Circle.Index.{to_point, subgroup_gen, mul as index_mul, neg as index_neg}
use stwo.Circle.Index.Order.{order}
use stwo.Circle.Index.Points.{add-mod, mul-mod, neg-mod, to_point-mul}
use stwo.Circle.Multiples.{times}
use stwo.Circle.Coset.{Coset, new, double, repeated_double, shift, conjugate}

pub record IsValid (c : Coset) : Type 0 where
  pub index_reduced : c.initial_index < order
  pub step_bounded : c.step_size ≤ order
  pub log_bounded : c.log_size ≤ 31
  pub initial_point : c.initial ≡ to_point c.initial_index
  pub step_point : c.step ≡ to_point c.step_size
  pub closes : (c.step_size * 2 ^ c.log_size) % order ≡ 0

pub pow_split : (n : ℕ) → n ≤ 31 → 2 ^ (31 - n) * 2 ^ n ≡ order
pow_split n h =
    sym (two_pow-add (31 - n) n) ∙ ap (λ (t : ℕ). 2 ^ t) {x = 31 - n + n} {y = 31} (omega arith)

pub step-le : (n : ℕ) → n ≤ 31 → 2 ^ (31 - n) ≤ order
step-le n h = grind (arith, pow_split n h, two_pow-pos n)

-- What `new` returns.
unfoldable pub made : ℕ → ℕ → Coset
made i n = record {
  initial_index = i;
  initial = to_point i;
  step_size = 2 ^ (31 - n);
  step = to_point (2 ^ (31 - n));
  log_size = n;
}

pub new-eq-some : (i n : ℕ) {c : Coset} → new i n ≡ some c → (n ≤ 31) × (made i n ≡ c)
unfolding new subgroup_gen made
new-eq-some i n h = ground arith

pub new-le : (i n : ℕ) → n ≤ 31 → new i n ≡ some (made i n)
unfolding new subgroup_gen made
new-le i n h = ground arith

pub made-IsValid : (i n : ℕ) → i < order → n ≤ 31 → IsValid (made i n)
unfolding made
made-IsValid i n hi hn = record {
  index_reduced = hi;
  step_bounded = step-le n hn;
  log_bounded = hn;
  initial_point = refl;
  step_point = refl;
  closes = rw (pow_split n hn) refl;
}

pub new-IsValid : (i n : ℕ) {c : Coset} → i < order → new i n ≡ some c → IsValid c
new-IsValid i n hi h = let e = new-eq-some i n h in subst IsValid e.1 (made-IsValid i n hi e.0)

pub two_times : (i : ℕ) → i ≤ order → to_point (index_mul i 2) ≡ point_double (to_point i)
unfolding times point_double
two_times i h = to_point-mul i 2 h ∙ ap (point_add (to_point i)) (add-identity _)

-- What `double` returns.
unfoldable pub doubled : Coset → Coset
doubled c = record {
  initial_index = index_mul c.initial_index 2;
  initial = point_double c.initial;
  step_size = index_mul c.step_size 2;
  step = point_double c.step;
  log_size = c.log_size - 1;
}

pub double-eq-some :
    (c : Coset) {d : Coset} → double c ≡ some d → (0 < c.log_size) × (doubled c ≡ d)
unfolding double doubled
double-eq-some c h = ground arith

pub double_lem : (c : Coset) → 0 < c.log_size → double c ≡ some (doubled c)
unfolding double doubled
double_lem c h = ground arith

doubled-closes :
    (s n : ℕ) → 0 < n → (s * 2 ^ n) % order ≡ 0 → (index_mul s 2 * 2 ^ (n - 1)) % order ≡ 0
doubled-closes s zero pos h = absurd (omega arith)
doubled-closes s (suc n) pos h =
    rw (mul-mod s 2) (mod-mul-mod (s * 2) (2 ^ (suc n - 1)) order)
    ∙ ap (λ (t : ℕ). t % order) {x = s * 2 * 2 ^ (suc n - 1)} {y = s * 2 ^ suc n} same
    ∙ h
  where
    same : s * 2 * 2 ^ (suc n - 1) ≡ s * 2 ^ suc n
    same = omega (
      arith,
      ap (λ (t : ℕ). s * t) (two_pow-suc n),
      ap (λ (t : ℕ). s * 2 ^ t) {x = suc n - 1} {y = n} (omega arith),
    )

pub doubled-IsValid : (c : Coset) → IsValid c → 0 < c.log_size → IsValid (doubled c)
unfolding doubled
doubled-IsValid c v pos = record {
  index_reduced = omega (arith, mul-mod c.initial_index 2);
  step_bounded = omega (arith, mul-mod c.step_size 2);
  log_bounded = omega (arith, v.log_bounded);
  initial_point = ap point_double v.initial_point ∙ sym (two_times c.initial_index (omega arith));
  step_point = ap point_double v.step_point ∙ sym (two_times c.step_size v.step_bounded);
  closes = doubled-closes c.step_size c.log_size pos v.closes;
}

-- Doubling keeps the invariant of a coset.
pub double-IsValid : {c d : Coset} → IsValid c → double c ≡ some d → IsValid d
double-IsValid {c} v h = let e = double-eq-some c h in subst IsValid e.1 (doubled-IsValid c v e.0)

pub repeated_double-IsValid :
    (c : Coset) (n : ℕ) {d : Coset} → IsValid c → repeated_double c n ≡ some d → IsValid d
unfolding repeated_double
repeated_double-IsValid c zero v h = subst IsValid (got h) v
  where
    got : {d : Coset} → some c ≡ some d → c ≡ d
    got e = cc
repeated_double-IsValid c (suc n) v h =
    let (c', first, second) = >>=-eq-some (repeated_double c n) double h in
    double-IsValid (repeated_double-IsValid c n v first) second

-- A negated step closes as the step does.
neg-closes : (s k : ℕ) → s ≤ order → (s * k) % order ≡ 0 → (index_neg s * k) % order ≡ 0
neg-closes s k h e =
    rw (neg-mod s h, mod-mul-mod (order - s) k order)
      (omega (arith, e, ap (λ (t : ℕ). t * k) {x = order - s + s} {y = order} (omega arith)))

pub shift-IsValid : (c : Coset) (s : ℕ) → IsValid c → s < order → IsValid (shift c s)
unfolding shift
shift-IsValid c s v h = record {
  index_reduced = omega (arith, add-mod c.initial_index s (omega arith) (omega arith));
  step_bounded = v.step_bounded;
  log_bounded = v.log_bounded;
  initial_point = refl;
  step_point = v.step_point;
  closes = v.closes;
}

pub conjugate-IsValid : (c : Coset) → IsValid c → IsValid (conjugate c)
unfolding conjugate
conjugate-IsValid c v = record {
  index_reduced = omega (arith, neg-mod c.initial_index (omega arith));
  step_bounded = omega (arith, neg-mod c.step_size v.step_bounded);
  log_bounded = v.log_bounded;
  initial_point = refl;
  step_point = refl;
  closes = neg-closes c.step_size (2 ^ c.log_size) v.step_bounded v.closes;
}
