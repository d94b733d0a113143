-- ===== src/Fri/Folding/Evaluations.antt =====
-- `fold_line` (crates/stwo/src/core/fri.rs) on all values of a function on a domain.
use stwo.Prelude.{
  ℕ, zero, suc, ◌+◌, ◌*◌, ◌^◌, ◌≤◌, ◌<◌, ◌≡◌, ◌≢◌, refl, sym, ap, ap₂, ◌∙◌, arith, leb, true, List,
  ◌∷◌, map, length, range, some,
}
use stwo.Prelude.Bits.{two_pow-suc, two_pow-pos}
use stwo.Itertools.{Itertools}
use stwo.Algebra.{⊝, 𝟘}
use stwo.Fields.M31.Carrier.{M31, m31_ring}
use stwo.Fields.Qm31.{Qm31, qm31_ring}
use stwo.Circle.{double_x}
use stwo.Circle.Coset.Valid.{doubled, double_lem}
use stwo.Utils.{bit_reverse_index}
use stwo.Utils.Reverse.{bit_reverse_index_involution}
use stwo.Line.{LineDomain, at, log_size, double}
use stwo.Line.Pairs.{IsExact, bit_reverse_even, bit_reverse_odd, at_half_turn, at-doubled}
use stwo.Fri.Folding.{fold_line, fold_line_pairs, fold_pair}
use stwo.Fri.Folding.Pairs.{Splits, folded, fold_pair-opposite}

-- The value at position i of an evaluation, which is in bit-reversed order.
abbrev pub value_at : (M31 → Qm31) → LineDomain → ℕ → Qm31
value_at f d i = f (at d (bit_reverse_index i (log_size d)))

-- The values of a function on a domain, in bit-reversed order.
abbrev pub evaluations : (M31 → Qm31) → LineDomain → List Qm31
evaluations f d = map (value_at f d) (range 0 (2 ^ log_size d))

pair_of : (ℕ → Qm31) → ℕ → Qm31 × Qm31
pair_of g i = (g (i * 2), g (suc (i * 2)))

module _ (it : Itertools) (g : ℕ → Qm31) where
  tuples-range :
      (count i : ℕ)
      → it.tuples Qm31 (map g (range (i * 2) (2 * count))) ≡ map (pair_of g) (range i count)
  unfolding pair_of
  tuples-range zero i =
      let nothing : 2 * zero ≡ 0 = omega arith in
      ap (λ n. it.tuples Qm31 (map g (range (i * 2) n))) nothing ∙ it.tuples-nil Qm31
  tuples-range (suc count) i =
      ap (λ n. it.tuples Qm31 (map g (range (i * 2) n))) more
      ∙ it.tuples_pair Qm31 (g (i * 2)) (g (suc (i * 2)))
          (map g (range (suc (suc (i * 2))) (2 * count)))
      ∙ ap (λ n. (g (i * 2), g (suc (i * 2))) ∷ it.tuples Qm31 (map g (range n (2 * count))))
          following
      ∙ ap (λ ps. (g (i * 2), g (suc (i * 2))) ∷ ps) (tuples-range count (suc i))
    where
      more : 2 * suc count ≡ suc (suc (2 * count))
      more = omega arith

      following : suc (suc (i * 2)) ≡ suc i * 2
      following = omega arith

module _ (g h : ℕ → Qm31) (d : LineDomain) (alpha : Qm31) (n : ℕ)
    (each : (i : ℕ)
      → i < n
      → fold_pair alpha (pair_of g i) (at d (bit_reverse_index (i * 2) (log_size d)))
        ≡ some (h i)) where
  fold_line_pairs-range :
      (count i : ℕ)
      → i + count ≤ n
      → fold_line_pairs d alpha i (map (pair_of g) (range i count)) ≡ some (map h (range i count))
  unfolding fold_line_pairs
  fold_line_pairs-range zero i le = refl
  fold_line_pairs-range (suc count) i le =
      rw (each i (omega arith), fold_line_pairs-range count (suc i) (omega arith)) refl

length-evaluations : (g : ℕ → Qm31) (n i : ℕ) → length (map g (range i n)) ≡ n
length-evaluations g zero i = refl
length-evaluations g (suc n) i = ap suc (length-evaluations g n (suc i))

at_least_two : (n : ℕ) → 0 < n → leb 2 (2 * n) ≡ true
at_least_two n h = ground arith

module _ (d : LineDomain) (e : IsExact d.coset) (l : ℕ) (size : log_size d ≡ suc l)
    (f even odd : M31 → Qm31) (s : Splits f even odd)
    (nonzero : (i : ℕ) → i < 2 ^ log_size d → at d i ≢ 𝟘) where
  abbrev doubled_domain : LineDomain
  doubled_domain = record { coset = doubled d.coset }

  coset_size : d.coset.log_size ≡ suc l
  unfolding log_size
  coset_size = size

  next_size : log_size doubled_domain ≡ l
  unfolding log_size doubled
  next_size = omega (arith, coset_size)

  small : suc l ≤ 31
  small = omega (arith, coset_size, e.valid.log_bounded)

  position : ℕ → ℕ
  position i = bit_reverse_index i l

  position_lt : (i : ℕ) → i < 2 ^ l → position i < 2 ^ log_size d
  unfolding position
  position_lt i h =
      let (lt, back) = bit_reverse_index_involution i l (omega (arith, small)) h in
      rw size (omega (arith, two_pow-suc l))

  opposite_at : (k : ℕ) → at d (k + 2 ^ l) ≡ ⊝ (at d k)
  unfolding at
  opposite_at k = at_half_turn d.coset e l k coset_size

  at_next_point : (k : ℕ) → at doubled_domain k ≡ double_x (at d k)
  unfolding at
  at_next_point k = at-doubled d.coset e.valid (omega (arith, coset_size)) k

  pair_folds :
      (alpha : Qm31) (i : ℕ)
      → i < 2 ^ l
      → fold_pair alpha (pair_of (value_at f d) i) (at d (bit_reverse_index (i * 2) (log_size d)))
        ≡ some (value_at (folded alpha even odd) doubled_domain i)
  unfolding pair_of position
  pair_folds alpha i h =
      ap₂ (λ u v. fold_pair alpha (f (at d u), f (at d v)) (at d u))
        (ap (bit_reverse_index (i * 2)) size ∙ bit_reverse_even i l (omega (arith, small)) h)
        (ap (bit_reverse_index (suc (i * 2))) size ∙ bit_reverse_odd i l (omega (arith, small)) h)
      ∙ ap (λ y. fold_pair alpha (f (at d (position i)), f y) (at d (position i)))
          (opposite_at (position i))
      ∙ fold_pair-opposite f even odd s alpha (at d (position i))
          (nonzero (position i) (position_lt i h))
      ∙ ap (λ y. some (folded alpha even odd y))
          (sym (
            ap (λ m. at doubled_domain (bit_reverse_index i m)) next_size
            ∙ at_next_point (position i)))

  pairs_fold :
      (it : Itertools) (alpha : Qm31)
      → fold_line_pairs d alpha 0 (it.tuples Qm31 (evaluations f d))
        ≡ some (evaluations (folded alpha even odd) doubled_domain)
  pairs_fold it alpha =
      ap (λ n. fold_line_pairs d alpha 0 (it.tuples Qm31 (map (value_at f d) (range 0 n))))
        (ap (λ m. 2 ^ m) size ∙ two_pow-suc l)
      ∙ ap (fold_line_pairs d alpha 0) (tuples-range it (value_at f d) (2 ^ l) 0)
      ∙ fold_line_pairs-range (value_at f d) (value_at (folded alpha even odd) doubled_domain) d
          alpha (2 ^ l) (pair_folds alpha) (2 ^ l) 0 (omega arith)
      ∙ ap (λ m. some (map (value_at (folded alpha even odd) doubled_domain) (range 0 (2 ^ m))))
          (sym next_size)

  enough : leb 2 (length (evaluations f d)) ≡ true
  enough =
      ap (leb 2) (
        length-evaluations (value_at f d) (2 ^ log_size d) 0 ∙ ap (λ m. 2 ^ m) size ∙ two_pow-suc l)
      ∙ at_least_two (2 ^ l) (two_pow-pos l)

  pub double_succeeds : double d ≡ some doubled_domain
  unfolding double
  double_succeeds = rw (double_lem d.coset (omega (arith, coset_size))) refl

  -- `fold_line` on the values of a function.
  pub fold_line-evaluations :
      (it : Itertools) (alpha : Qm31)
      → fold_line it (evaluations f d) d alpha
        ≡ some (
          record { coset = doubled d.coset },
          evaluations (folded alpha even odd) (record { coset = doubled d.coset }),
        )
  unfolding fold_line
  fold_line-evaluations it alpha = rw (enough, pairs_fold it alpha, double_succeeds) refl
