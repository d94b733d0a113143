-- ===== src/Pcs/TreeVec.antt =====
-- crates/stwo/src/core/pcs/utils.rs: `TreeVec`, a list with an element for each commitment tree. `none` is
-- a panic.
use stwo.Prelude.{
  ℕ, suc, ◌-◌, leb, ◌==◌, ◌&&◌, if◌then◌else◌, Option, some, List, [], ◌∷◌, ◌++◌, length, get_elem?,
  set, take, drop, replicate, assert, ◌>>=◌, ◌>>◌,
}
use mathlib.Core.List as lists
use stwo.Itertools.{Itertools}
use stwo.Queries.{btree_from_iter}

abbrev pub TreeVec : Type 0 → Type 0
TreeVec T = List T

abbrev pub ColumnVec : Type 0 → Type 0
ColumnVec T = List T

pub record TreeSubspan : Type 0 where
  pub tree_index : ℕ
  pub col_start : ℕ
  pub col_end : ℕ

abbrev pub concat : {T : Type 0} → List (List T) → List T
concat [] = []
concat (xs ∷ rest) = xs ++ concat rest

abbrev pub zip_lists : {T U : Type 0} → List T → List U → List (T × U)
zip_lists (x ∷ xs) (y ∷ ys) = (x, y) ∷ zip_lists xs ys
zip_lists _ _ = []

abbrev pub collect : {T U : Type 0} → (T → Option U) → List T → Option (List U)
collect f [] = some []
collect f (x ∷ xs) = f x >>= λ y. collect f xs >>= λ ys. some (y ∷ ys)

module _ {T U : Type 0} where
  unfoldable pub map : (T → U) → TreeVec T → TreeVec U
  map f trees = lists.map f trees

  unfoldable pub zip : TreeVec T → TreeVec U → TreeVec (T × U)
  zip trees other = zip_lists trees other

  unfoldable pub zip_eq : Itertools → TreeVec T → TreeVec U → Option (TreeVec (T × U))
  zip_eq it trees other = it.zip_eq T U trees other

  unfoldable pub map_cols : (T → U) → TreeVec (ColumnVec T) → TreeVec (ColumnVec U)
  map_cols f trees = lists.map (lists.map f) trees

  unfoldable pub zip_cols :
      Itertools
      → TreeVec (ColumnVec T)
      → TreeVec (ColumnVec U)
      → Option (TreeVec (ColumnVec (T × U)))
  zip_cols it trees other = do
    columns ← it.zip_eq (ColumnVec T) (ColumnVec U) trees other
    collect (λ (c : ColumnVec T × ColumnVec U). it.zip_eq T U c.0 c.1) columns

module _ {T : Type 0} where
  unfoldable pub flatten : TreeVec (ColumnVec T) → ColumnVec T
  flatten trees = concat trees

  unfoldable pub flatten_cols : TreeVec (ColumnVec (List T)) → List T
  flatten_cols trees = concat (concat trees)

  -- A tree that one of the two does not have is empty there.
  unfoldable pub append_cols : TreeVec (ColumnVec T) → TreeVec (ColumnVec T) → TreeVec (ColumnVec T)
  append_cols [] other = other
  append_cols (tree ∷ trees) [] = tree ∷ trees
  append_cols (tree ∷ trees) (tree' ∷ other) = (tree ++ tree') ∷ append_cols trees other

  unfoldable pub concat_cols_from :
      TreeVec (ColumnVec T) → List (TreeVec (ColumnVec T)) → TreeVec (ColumnVec T)
  unfolding append_cols
  concat_cols_from result [] = result
  concat_cols_from result (tree ∷ trees) = concat_cols_from (append_cols result tree) trees

  unfoldable pub concat_cols : List (TreeVec (ColumnVec T)) → TreeVec (ColumnVec T)
  unfolding concat_cols_from
  concat_cols trees = concat_cols_from [] trees

  unfoldable pub get_chunk : TreeVec (ColumnVec T) → TreeSubspan → Option (ColumnVec T)
  get_chunk trees location = do
    tree ← get_elem? trees location.tree_index
    assert (leb location.col_start location.col_end && leb location.col_end (length tree))
    some (take (location.col_end - location.col_start) (drop location.col_start tree))

  unfoldable pub fill_chunks :
      TreeVec (ColumnVec T)
      → List TreeSubspan
      → TreeVec (ColumnVec T)
      → Option (TreeVec (ColumnVec T))
  unfolding get_chunk
  fill_chunks trees [] res = some res
  fill_chunks trees (location ∷ locations) res = do
    chunk ← get_chunk trees location
    fill_chunks trees locations (set res location.tree_index chunk)

  unfoldable pub sub_tree :
      TreeVec (ColumnVec T) → List TreeSubspan → Option (TreeVec (ColumnVec T))
  unfolding fill_chunks
  sub_tree trees locations = do
    let tree_indices = btree_from_iter (lists.map (λ (l : TreeSubspan). l.tree_index) locations)
    assert (length tree_indices == length locations)
    fill_chunks trees locations (replicate (suc (max_index 0 tree_indices)) [])
    where
      max_index : ℕ → List ℕ → ℕ
      max_index largest [] = largest
      max_index largest (i ∷ indices) = max_index (if leb largest i then i else largest) indices
