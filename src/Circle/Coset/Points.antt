-- ===== src/Circle/Coset/Points.antt =====
-- The points of a `Coset`: the iterators against `at`, and `at` of derived cosets.
use mathlib.Core.Path.{subst}
use stwo.Prelude.{
  ℕ, zero, suc, ◌+◌, ◌-◌, ◌*◌, ◌%◌, ◌^◌, ◌≤◌, ◌<◌, ◌≡◌, ◌≢◌, refl, sym, ap, ap₂, ◌∙◌, arith,
}
use stwo.Prelude.{some, length, get_elem?}
use stwo.Fields.M31.Carrier.{M31, m31_ring}
use stwo.Circle.{
  CirclePoint, add as point_add, double as point_double, conjugate as point_conjugate,
}
use stwo.Circle.Laws.{add_assoc, add_comm, add-identity, add_interchange, conjugate-add}
use stwo.Circle.Index.{to_point, add as index_add, mul as index_mul}
use stwo.Circle.Index.Order.{order}
use stwo.Circle.Index.Points.{
  add-mod, mul-mod, to_point-mul, to_point-neg, to_point-add, to_point_injective,
}
use stwo.Circle.Multiples.{times, times-add, times-double, conjugate-times}
use stwo.Circle.Coset.{
  Coset, collect, iter, iter_indices, size, at, index_at, shift, conjugate, new, double,
}
use stwo.Circle.Coset.Valid.{
  IsValid, made, made-IsValid, doubled, two_times, doubled-IsValid, shift-IsValid, new-eq-some,
  double-eq-some, conjugate-IsValid, pow_split,
}
use stwo.Prelude.Bits.{two_pow-pos}

-- The item after `k` steps.
module _ {T : Type 0} (add : T → T → T) where
  unfoldable pub advance : T → T → ℕ → T
  advance cur step zero = cur
  advance cur step (suc k) = advance (add cur step) step k

  pub get_elem?-collect :
      (n k : ℕ) (cur step : T)
      → k < n
      → get_elem? (collect add n (record { cur = cur; step = step; remaining = n })) k
        ≡ some (advance cur step k)
  unfolding collect advance
  get_elem?-collect zero k cur step h = absurd (omega arith)
  get_elem?-collect (suc n) zero cur step h = refl
  get_elem?-collect (suc n) (suc k) cur step h =
      get_elem?-collect n k (add cur step) step (omega arith)

  pub length-collect :
      (n : ℕ) (cur step : T)
      → length (collect add n (record { cur = cur; step = step; remaining = n })) ≡ n
  unfolding collect
  length-collect zero cur step = refl
  length-collect (suc n) cur step = ap suc (length-collect n (add cur step) step)

pub advance-points :
    (k : ℕ) (cur step : CirclePoint M31)
    → advance point_add cur step k ≡ point_add cur (times step k)
unfolding advance times
advance-points zero cur step = sym (add-identity cur)
advance-points (suc k) cur step = advance-points k (point_add cur step) step ∙ add_assoc _ _ _

-- The index after `k` steps.
advance-indices :
    (k cur s : ℕ) → cur < order → s ≤ order → advance index_add cur s k ≡ (cur + s * k) % order
unfolding advance
advance-indices zero cur s h hs = omega arith
advance-indices (suc k) cur s h hs =
    advance-indices k (index_add cur s) s (omega (arith, one)) hs ∙ rw one (omega arith)
  where
    one : index_add cur s ≡ (cur + s) % order
    one = add-mod cur s (omega arith) hs

module _ (c : Coset) (v : IsValid c) where
  pub index_at-mod : (k : ℕ) → index_at c k ≡ (c.initial_index + c.step_size * k) % order
  unfolding index_at
  index_at-mod k = omega (
    arith,
    v.index_reduced,
    mul-mod c.step_size k,
    add-mod c.initial_index (index_mul c.step_size k) (omega (arith, v.index_reduced))
        (omega (arith, mul-mod c.step_size k)),
  )

  pub at-add :
      (k : ℕ) → at c k ≡ point_add (to_point c.initial_index) (times (to_point c.step_size) k)
  unfolding at index_at
  at-add k =
      to_point-add c.initial_index (index_mul c.step_size k) (omega (arith, v.index_reduced))
        (omega (arith, mul-mod c.step_size k))
      ∙ ap (point_add (to_point c.initial_index)) (to_point-mul c.step_size k v.step_bounded)

  -- Iteration yields the point of each index below the size, in order.
  pub iter-at :
      (k : ℕ) → k < size c → get_elem? (collect point_add (size c) (iter c)) k ≡ some (at c k)
  unfolding iter size
  iter-at k h =
      get_elem?-collect point_add (2 ^ c.log_size) k c.initial c.step h
      ∙ ap some (
          advance-points k c.initial c.step
          ∙ ap₂ (λ a b. point_add a (times b k)) v.initial_point v.step_point
          ∙ sym (at-add k))

  pub iter_indices-index_at :
      (k : ℕ)
      → k < size c
      → get_elem? (collect index_add (size c) (iter_indices c)) k ≡ some (index_at c k)
  unfolding iter_indices size
  iter_indices-index_at k h =
      get_elem?-collect index_add (2 ^ c.log_size) k c.initial_index c.step_size h
      ∙ ap some (
          advance-indices k c.initial_index c.step_size v.index_reduced v.step_bounded
          ∙ sym (index_at-mod k))

  -- After `size` steps the coset begins again.
  pub at-size : at c (size c) ≡ at c 0
  unfolding at size
  at-size = ap to_point (index_at-mod (2 ^ c.log_size) ∙ wraps ∙ sym (index_at-mod 0))
    where
      wraps :
          (c.initial_index + c.step_size * 2 ^ c.log_size) % order
          ≡ (c.initial_index + c.step_size * 0) % order
      wraps = omega (arith, v.closes)

module _ (c : Coset) (v : IsValid c) where
  twofold : (k : ℕ) → 0 < c.log_size → at (doubled c) k ≡ point_double (at c k)
  twofold k pos =
      at-add (doubled c) (doubled-IsValid c v pos) k ∙ parts ∙ ap point_double (sym (at-add c v k))
    where
      i : CirclePoint M31
      i = to_point c.initial_index

      s : CirclePoint M31
      s = to_point c.step_size

      parts :
          point_add (to_point (doubled c).initial_index) (times (to_point (doubled c).step_size) k)
          ≡ point_double (point_add i (times s k))
      parts =
          unfold doubled in
          ap₂ (λ a b. point_add a (times b k))
            (two_times c.initial_index (omega (arith, v.index_reduced)))
            (two_times c.step_size v.step_bounded)
          ∙ ap (point_add (point_double i)) (times-double s k ∙ times-add s k k)
          ∙ unfold point_double in add_interchange i i (times s k) (times s k)

  -- If `double` of a valid coset returns a coset, then each point of that is the double of the point
  -- of the coset at the same position.
  pub at-double : (d : Coset) (k : ℕ) → double c ≡ some d → at d k ≡ point_double (at c k)
  at-double d k h =
      let (pos, same) = double-eq-some c h in
      subst (λ e. at e k ≡ point_double (at c k)) same (twofold k pos)

  -- Shifting a coset adds the point of the shift.
  pub at-shift : (s k : ℕ) → s < order → at (shift c s) k ≡ point_add (at c k) (to_point s)
  unfolding shift
  at-shift s k h =
      at-add (shift c s) (shift-IsValid c s v h) k
      ∙ ap (λ t. point_add t (times (to_point c.step_size) k))
          (to_point-add c.initial_index s (omega (arith, v.index_reduced)) (omega arith))
      ∙ add_assoc _ _ _
      ∙ ap (point_add (to_point c.initial_index)) (add_comm _ _)
      ∙ sym (add_assoc _ _ _)
      ∙ ap (λ t. point_add t (to_point s)) (sym (at-add c v k))

  -- The conjugate coset has the conjugate points.
  pub at-conjugate : (k : ℕ) → at (conjugate c) k ≡ point_conjugate (at c k)
  unfolding conjugate
  at-conjugate k =
      at-add (conjugate c) (conjugate-IsValid c v) k
      ∙ ap₂ (λ a b. point_add a (times b k))
          (to_point-neg c.initial_index (omega (arith, v.index_reduced)))
          (to_point-neg c.step_size v.step_bounded)
      ∙ ap (point_add (point_conjugate (to_point c.initial_index)))
          (sym (conjugate-times (to_point c.step_size) k))
      ∙ sym (conjugate-add (to_point c.initial_index) (times (to_point c.step_size) k))
      ∙ ap point_conjugate (sym (at-add c v k))

made_size : (i n : ℕ) {m k : ℕ} → m ≡ 2 ^ (made i n).log_size → k < m → k < 2 ^ n
unfolding made
made_size i n e h = omega arith

at_injective :
    (i n k l : ℕ)
    → i < order
    → n ≤ 31
    → k < 2 ^ n
    → l < 2 ^ n
    → at (made i n) k ≡ at (made i n) l
    → k ≡ l
unfolding made at
at_injective i n k l hi hn hk hl e = grind (arith, two_pow-pos (31 - n), same_offset)
  where
    c : Coset
    c = made i n

    v : IsValid c
    v = made-IsValid i n hi hn

    fits : (m : ℕ) → m < 2 ^ n → 2 ^ (31 - n) * m < order
    fits m h = grind (arith, pow_split n hn, two_pow-pos (31 - n))

    indices : (i + 2 ^ (31 - n) * k) % order ≡ (i + 2 ^ (31 - n) * l) % order
    indices =
        sym (index_at-mod c v k)
        ∙ to_point_injective (index_at c k) (index_at c l) (omega (arith, index_at-mod c v k))
            (omega (arith, index_at-mod c v l)) e
        ∙ index_at-mod c v l

    same_offset : 2 ^ (31 - n) * k ≡ 2 ^ (31 - n) * l
    same_offset = omega (arith, fits k hk, fits l hl, indices)

-- If `new` returns a coset, for an initial index below the order of the circle, then its points at
-- different positions below its size are different.
pub at_distinct :
    (i n k l : ℕ) (c : Coset)
    → i < order
    → new i n ≡ some c
    → k < size c
    → l < size c
    → k ≢ l
    → at c k ≢ at c l
unfolding size
at_distinct i n k l c hi h hk hl ne e =
    let (bounded, same) = new-eq-some i n h in
    let sized = ap (λ (d : Coset). 2 ^ d.log_size) (sym same) in
    ne (
      at_injective i n k l hi bounded (made_size i n sized hk) (made_size i n sized hl)
        (subst (λ d. at d k ≡ at d l) (sym same) e))
