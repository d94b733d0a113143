-- ===== src/Queries/Order.antt =====
-- The set of query positions (crates/stwo/src/core/queries.rs) is ascending, and folding it is the set
-- of the folded positions.
use stwo.Prelude.{
  All, Bool, if◌then◌else◌, ℕ, ◌-◌, ◌/◌, ◌^◌, ◌≤◌, ◌<◌, true, false, ltb, leb, ◌==◌, some, List, [],
  ◌∷◌, ◌≡◌, refl, sym, ap, ◌∙◌, arith, map, Bool-cases, inl, inr, dec_lt, ==→eq, lt→ltb,
}
use stwo.Prelude.Bits.{two_pow-pos}
use native.Mathlib.Nat.{mul-div-le, lt-mul-div-succ}
use stwo.Itertools.{Itertools}
use stwo.Queries.{new, fold, btree_insert, btree_from_iter}

-- Each position is smaller than the next.
abbrev pub IsAscending : List ℕ → Type 0
IsAscending [] = Unit
IsAscending (x ∷ []) = Unit
IsAscending (x ∷ y ∷ xs) = (x < y) × IsAscending (y ∷ xs)

insert-IsAscending : (x : ℕ) (ys : List ℕ) → IsAscending ys → IsAscending (btree_insert x ys)
unfolding btree_insert
insert-IsAscending x [] h = tt
insert-IsAscending x (y ∷ []) h = ground arith
insert-IsAscending x (y ∷ z ∷ ys) h = ground (arith, insert-IsAscending x (z ∷ ys) h.1)

pub from_iter-IsAscending : (xs : List ℕ) → IsAscending (btree_from_iter xs)
unfolding btree_from_iter
from_iter-IsAscending [] = tt
from_iter-IsAscending (x ∷ xs) =
    insert-IsAscending x (btree_from_iter xs) (from_iter-IsAscending xs)

insert_twice : (x : ℕ) (ys : List ℕ) → btree_insert x (btree_insert x ys) ≡ btree_insert x ys
unfolding btree_insert
insert_twice x [] = ground arith
insert_twice x (y ∷ ys) = ground (arith, insert_twice x ys)

insert_comm :
    (a b : ℕ) (ys : List ℕ)
    → btree_insert a (btree_insert b ys) ≡ btree_insert b (btree_insert a ys)
unfolding btree_insert
insert_comm a b [] = ground arith
insert_comm a b (y ∷ ys) = ground (arith, insert_comm a b ys)

at_equal : (x y : ℕ) (ys : List ℕ) → x ≡ y → btree_insert x (y ∷ ys) ≡ y ∷ ys
unfolding btree_insert
at_equal x y ys h = ground arith

at_greater :
    (x y : ℕ) (ys : List ℕ)
    → ltb x y ≡ false
    → (x == y) ≡ false
    → btree_insert x (y ∷ ys) ≡ y ∷ btree_insert x ys
unfolding btree_insert
at_greater x y ys h k = rw h (rw k refl)

at_less : (x y : ℕ) (ys : List ℕ) → x < y → btree_insert x (y ∷ ys) ≡ x ∷ y ∷ ys
unfolding btree_insert
at_less x y ys h = ground arith

from_iter-map-insert :
    (s : ℕ → ℕ) (x : ℕ) (ys : List ℕ)
    → btree_from_iter (map s (btree_insert x ys)) ≡ btree_insert (s x) (btree_from_iter (map s ys))
unfolding btree_from_iter
from_iter-map-insert s x [] = refl
from_iter-map-insert s x (y ∷ ys) = elim (Bool-cases (ltb x y)) [
  | inl less ↦ rw (less, btree_insert) refl
  | inr more ↦ elim (Bool-cases (x == y)) [
    | inl same ↦
        let e : x ≡ y = ==→eq x y same in
        ap (λ l. btree_from_iter (map s l)) (at_equal x y ys e)
        ∙ sym (insert_twice (s y) (btree_from_iter (map s ys)))
        ∙ ap (λ t. btree_insert (s t) (btree_insert (s y) (btree_from_iter (map s ys)))) (sym e)
    | inr other ↦
        ap (λ l. btree_from_iter (map s l)) (at_greater x y ys more other)
        ∙ ap (btree_insert (s y)) (from_iter-map-insert s x ys)
        ∙ insert_comm (s y) (s x) (btree_from_iter (map s ys))
  ]
]

from_iter-map :
    (s : ℕ → ℕ) (xs : List ℕ)
    → btree_from_iter (map s (btree_from_iter xs)) ≡ btree_from_iter (map s xs)
unfolding btree_from_iter
from_iter-map s [] = refl
from_iter-map s (x ∷ xs) =
    from_iter-map-insert s x (btree_from_iter xs) ∙ ap (btree_insert (s x)) (from_iter-map s xs)

abbrev WeaklyAscending : List ℕ → Type 0
WeaklyAscending [] = Unit
WeaklyAscending (x ∷ []) = Unit
WeaklyAscending (x ∷ y ∷ xs) = (x ≤ y) × WeaklyAscending (y ∷ xs)

-- The set of a weakly ascending list begins with its first item.
set_head :
    (y : ℕ) (xs : List ℕ)
    → WeaklyAscending (y ∷ xs)
    → (rest : List ℕ) × (btree_from_iter (y ∷ xs) ≡ y ∷ rest)
unfolding btree_from_iter
set_head y [] h = ([], unfold btree_insert in refl)
set_head y (z ∷ xs) (le, h) =
    let (rest, e) = set_head z xs h in
    elim (dec_lt y z) [
      | yes less ↦ (z ∷ rest, rw e (at_less y z rest less))
      | no more ↦ (rest, rw e (at_equal y z rest (omega arith) ∙ ap (λ t. t ∷ rest) (omega arith)))
    ]

div_mono : (k a b : ℕ) → 0 < k → a ≤ b → a / k ≤ b / k
div_mono k a b h le = grind (arith, mul-div-le a k, lt-mul-div-succ b h)

module _ (it : Itertools) where
  dedup_ascending : (xs : List ℕ) → WeaklyAscending xs → it.dedup_by ℕ ◌==◌ xs ≡ btree_from_iter xs
  unfolding btree_from_iter btree_insert
  dedup_ascending [] h = it.dedup_by-nil ℕ ◌==◌
  dedup_ascending (x ∷ []) h = it.dedup_by-one ℕ ◌==◌ x
  dedup_ascending (x ∷ y ∷ xs) (le, h) =
      let (rest, e) = set_head y xs h in
      let tail : it.dedup_by ℕ ◌==◌ (y ∷ xs) ≡ y ∷ rest = dedup_ascending (y ∷ xs) h ∙ e in
      elim (Bool-cases (x == y)) [
        | inl same ↦
            let same_head : x ≡ y = ==→eq x y same in
            it.dedup_by_related ℕ ◌==◌ x y xs same
            ∙ ap (λ t. it.dedup_by ℕ ◌==◌ (t ∷ xs)) same_head
            ∙ tail
            ∙ sym (at_equal x y rest same_head)
            ∙ ap (btree_insert x) (sym e)
        | inr other ↦
            it.dedup_by_unrelated ℕ ◌==◌ x y xs other
            ∙ ap (λ l. x ∷ l) tail
            ∙ sym (at_less x y rest (ground arith))
            ∙ ap (btree_insert x) (sym e)
      ]

  shifted : (n : ℕ) (xs : List ℕ) → IsAscending xs → WeaklyAscending (map (λ p. p / 2 ^ n) xs)
  shifted n [] h = tt
  shifted n (x ∷ []) h = tt
  shifted n (x ∷ y ∷ xs) h =
      (div_mono (2 ^ n) x y (two_pow-pos n) (omega arith), shifted n (y ∷ xs) h.1)

  -- Folding the set of queries by less than 64 and no more than the log size gives the set of the folded
  -- queries, on the smaller domain.
  pub fold-new :
      (raw_positions : List ℕ) (log_domain_size n_folds : ℕ)
      → n_folds ≤ log_domain_size
      → n_folds < 64
      → fold it (new raw_positions log_domain_size) n_folds
        ≡ some (new (map (λ p. p / 2 ^ n_folds) raw_positions) (log_domain_size - n_folds))
  unfolding fold new
  fold-new raw l n h small =
      let e : leb n l ≡ true = ground arith in
      rw (e, lt→ltb n 64 small)
        (ap (λ (t : List ℕ). some (record { positions = t; log_domain_size = l - n }))
          (dedup_ascending (map (λ p. p / 2 ^ n) (btree_from_iter raw))
              (shifted n (btree_from_iter raw) (from_iter-IsAscending raw))
            ∙ from_iter-map (λ p. p / 2 ^ n) raw))

All-if :
    (P : ℕ → Type 0) (b : Bool) (xs ys : List ℕ)
    → All P xs
    → All P ys
    → All P (if b then xs else ys)
All-if P true xs ys px py = px
All-if P false xs ys px py = py

-- Insertion keeps what holds of all elements.
insert-All : (P : ℕ → Type 0) (x : ℕ) (ys : List ℕ) → P x → All P ys → All P (btree_insert x ys)
unfolding btree_insert
insert-All P x [] px all = (px, tt)
insert-All P x (y ∷ ys) px all =
    All-if P (ltb x y) (x ∷ y ∷ ys) _ (px, all)
      (All-if P (x == y) (y ∷ ys) (y ∷ btree_insert x ys) all (all.0, insert-All P x ys px all.1))

pub from_iter-All : (P : ℕ → Type 0) (xs : List ℕ) → All P xs → All P (btree_from_iter xs)
unfolding btree_from_iter
from_iter-All P [] all = tt
from_iter-All P (x ∷ xs) all = insert-All P x (btree_from_iter xs) all.0 (from_iter-All P xs all.1)
