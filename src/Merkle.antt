-- ===== src/Merkle.antt =====
-- The verifier of Merkle decommitments, crates/stwo/src/core/vcs_lifted/verifier.rs.
pub mod Accepts
mod Tests
use stwo.Prelude.{
  ℕ, zero, suc, ◌+◌, ◌-◌, ◌/◌, ◌%◌, Bool, true, false, leb, ◌==◌, if◌then◌else◌, Option, none, some,
  List, [], ◌∷◌, map, length, get_elem?, get_or, chunk_by, enumerate,
}
use stwo.Outcome.{Outcome, ok, err, panic, ◌>>=◌, ◌>>◌, assert, guard, unwrap}
use stwo.Itertools.{Itertools}
use stwo.Fields.M31.Carrier.{M31}

abbrev pub log_packed_leaf_size : ℕ
log_packed_leaf_size = 2

-- The trait of crates/stwo/src/core/vcs_lifted/merkle_hasher.rs. The hash functions are third-party
-- code.
pub record MerkleHasherLifted : Type 1 where
  pub State : Type 0
  pub Hash : Type 0
  pub default : State
  pub update_leaf : State → List M31 → State
  pub finalize : State → Hash
  pub hash_children : Hash × Hash → Hash
  pub hash_eq : Discrete Hash

pub data MerkleVerificationError : Type 0 where
  witness_too_short witness_too_long root_mismatch : MerkleVerificationError

abbrev pub max : ℕ → ℕ → ℕ
max a b = if leb a b then b else a

abbrev pub maximum : List ℕ → ℕ
maximum [] = 0
maximum (x ∷ xs) = max x (maximum xs)

abbrev pub unwrap_or : Option ℕ → ℕ → ℕ
unwrap_or none d = d
unwrap_or (some n) d = n

-- The test `==` on rows of the columns.
abbrev pub same_value : Option M31 → Option M31 → Option Bool
same_value (some a) (some b) = some (a.0 == b.0)
same_value _ _ = none

-- `a ^ 1` on indices.
abbrev pub sibling : ℕ → ℕ
sibling a = if a % 2 == 0 then a + 1 else a - 1

pub record MerkleDecommitmentLifted (Hash : Type 0) : Type 0 where
  pub hash_witness : List Hash

pub record MerkleVerifierLifted (Hash : Type 0) : Type 0 where
  pub root : Hash
  pub column_log_sizes : List ℕ
  pub height : ℕ

unfoldable pub new : {Hash : Type 0} → Hash → List ℕ → Option ℕ → Option (MerkleVerifierLifted Hash)
new root column_log_sizes lifting_log_size =
    let height = unwrap_or lifting_log_size (maximum column_log_sizes) in
    if leb (maximum column_log_sizes) height
    then some (record { root = root; column_log_sizes = column_log_sizes; height = height })
    else none

abbrev pub Checked : Type 0 → Type 0
Checked A = Outcome MerkleVerificationError A

-- The columns agree at rows i and j.
unfoldable pub check_columns : ℕ → ℕ → List (List M31) → Checked (Unit {0})
check_columns i j [] = ok tt
check_columns i j (col ∷ cols) = do
  a ← unwrap (get_elem? col i)
  b ← unwrap (get_elem? col j)
  assert (a.0 == b.0)
  check_columns i j cols

-- The rows of adjacent equal positions, from row i on, agree.
unfoldable pub check_duplicates : ℕ → List ℕ → List (List M31) → Checked (Unit {0})
unfolding check_columns
check_duplicates i [] cols = ok tt
check_duplicates i (p ∷ []) cols = ok tt
check_duplicates i (p ∷ q ∷ positions) cols = do
  (if p == q then check_columns i (suc i) cols else ok tt)
  check_duplicates (suc i) (q ∷ positions) cols

-- The values of a column without those of repeated positions. A column with more values than
-- positions panics, at the index into the positions or as values that nothing consumes.
unfoldable pub dedup_column : Itertools → List ℕ → List M31 → Checked (List M31)
dedup_column it query_positions vals = do
  assert (leb (length vals) (length query_positions))
  ok (
      map (λ (p : ℕ × M31). p.1)
        (it.dedup_by (ℕ × M31) (λ a b. get_or query_positions a.0 0 == get_or query_positions b.0 0)
          (enumerate 0 vals)))

unfoldable pub dedup_columns : Itertools → List ℕ → List (List M31) → Checked (List (List M31))
unfolding dedup_column
dedup_columns it query_positions [] = ok []
dedup_columns it query_positions (vals ∷ cols) = do
  first ← dedup_column it query_positions vals
  rest ← dedup_columns it query_positions cols
  ok (first ∷ rest)

-- The next item of each iterator.
unfoldable pub next_row : List (List M31) → Checked (List M31 × List (List M31))
next_row [] = ok ([], [])
next_row ([] ∷ cols) = panic
next_row ((v ∷ col) ∷ cols) = next_row cols >>= λ (row, rest). ok (v ∷ row, col ∷ rest)

unfoldable pub all_consumed : List (List M31) → Bool
all_consumed [] = true
all_consumed ([] ∷ cols) = all_consumed cols
all_consumed ((v ∷ col) ∷ cols) = false

module _ (h : MerkleHasherLifted) where
  open h use {Hash}

  abbrev pub hash_leaf : List M31 → Hash
  hash_leaf row = h.finalize (h.update_leaf h.default row)

  unfoldable pub build_leaves :
      List ℕ → List (List M31) → Checked (List (ℕ × Hash) × List (List M31))
  unfolding next_row
  build_leaves [] cols = ok ([], cols)
  build_leaves (pos ∷ positions) cols = next_row cols >>= λ (row, cols').
      build_leaves positions cols' >>= λ (leaves, rest). ok ((pos, hash_leaf row) ∷ leaves, rest)

  -- One chunk of siblings: the node above it, and the witness that is left.
  unfoldable pub hash_chunk :
      (ℕ × Hash) × List (ℕ × Hash) → List Hash → Checked ((ℕ × Hash) × List Hash)
  hash_chunk ((idx, hash), second ∷ more) witness =
      ok ((idx / 2, h.hash_children (hash, second.1)), witness)
  hash_chunk ((idx, hash), []) [] = err MerkleVerificationError.witness_too_short
  hash_chunk ((idx, hash), []) (w ∷ witness) =
      ok ((idx / 2, h.hash_children (if idx % 2 == 0 then (hash, w) else (w, hash))), witness)

  unfoldable pub hash_chunks :
      List ((ℕ × Hash) × List (ℕ × Hash)) → List Hash → Checked (List (ℕ × Hash) × List Hash)
  unfolding hash_chunk
  hash_chunks [] witness = ok ([], witness)
  hash_chunks (chunk ∷ chunks) witness = hash_chunk chunk witness >>= λ (node, witness').
      hash_chunks chunks witness' >>= λ (nodes, rest). ok (node ∷ nodes, rest)

  abbrev pub siblings : ℕ × Hash → ℕ × Hash → Bool
  siblings a b = sibling a.0 == b.0

  unfoldable pub hash_layers :
      ℕ → List (ℕ × Hash) → List Hash → Checked (List (ℕ × Hash) × List Hash)
  unfolding hash_chunks
  hash_layers zero layer witness = ok (layer, witness)
  hash_layers (suc height) layer witness =
      hash_chunks (chunk_by siblings layer) witness >>= λ (next_layer, witness').
      hash_layers height next_layer witness'

  -- `try_into().unwrap()` into an array of one node.
  unfoldable pub check_root : Hash → List (ℕ × Hash) → Checked (Unit {0})
  check_root root ((idx, computed_root) ∷ []) = elim (h.hash_eq computed_root root) [
    | yes e ↦ ok tt
    | no ne ↦ err MerkleVerificationError.root_mismatch
  ]
  check_root root _ = panic

  abbrev pub no_more : List Hash → Bool
  no_more [] = true
  no_more _ = false

  module _ (it : Itertools) where
    unfoldable pub verify :
        MerkleVerifierLifted Hash
        → List ℕ
        → List (List M31)
        → MerkleDecommitmentLifted Hash
        → Checked (Unit {0})
    unfolding check_duplicates dedup_columns build_leaves all_consumed hash_layers check_root
    verify v query_positions queried_values decommitment = elim (v.height == 0) [
      | true ↦ ok tt
      | false ↦ do
        check_duplicates 0 query_positions queried_values
        zipped ← unwrap (it.zip_eq (List M31) ℕ queried_values v.column_log_sizes)
        let sorted = it.sorted_by_key (List M31 × ℕ) (λ c. c.1) zipped
        columns ← dedup_columns it query_positions (map (λ (c : List M31 × ℕ). c.0) sorted)
        built ← build_leaves (it.dedup_by ℕ ◌==◌ query_positions) columns
        assert (all_consumed built.1)
        hashed ← hash_layers v.height built.0 decommitment.hash_witness
        guard (no_more hashed.1) MerkleVerificationError.witness_too_long
        check_root v.root hashed.0
    ]
