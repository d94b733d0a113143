-- ===== src/Merkle/Tests.antt =====
-- The verification of both leaves of a tree of height 1, with numbers for hashes.
use stwo.Prelude.{ℕ, ◌+◌, ◌*◌, List, [], ◌∷◌, ◌≡◌, refl, ℕ_discrete, arith}
use stwo.Outcome.{ok}
use stwo.Itertools.Reference.{reference}
use stwo.Algebra.{𝟘, 𝟙}
use stwo.Fields.M31.Carrier.{M31, m31_ring}
use stwo.Merkle.{MerkleHasherLifted, MerkleVerifierLifted, MerkleDecommitmentLifted, verify}
use stwo.Merkle.Accepts.{IsOpened, verify-eq-ok}

abbrev weigh : List M31 → ℕ
weigh [] = 0
weigh (v ∷ row) = v.0 + 5 * weigh row

abbrev weights : MerkleHasherLifted
weights = record {
  State = ℕ;
  Hash = ℕ;
  default = 0;
  update_leaf = λ s row. s + weigh row;
  finalize = λ s. s;
  hash_children = λ children. 7 * children.0 + children.1;
  hash_eq = ℕ_discrete;
}

abbrev tree : MerkleVerifierLifted ℕ
tree = record { root = 8; column_log_sizes = 1 ∷ 1 ∷ []; height = 1 }

abbrev both : List ℕ
both = 0 ∷ 1 ∷ []

abbrev queried : List (List M31)
queried = (𝟙 ∷ 𝟙 ∷ []) ∷ (𝟘 ∷ 𝟘 ∷ []) ∷ []

abbrev no_witness : MerkleDecommitmentLifted ℕ
no_witness = record { hash_witness = [] }

verify_lem : verify weights reference tree both queried no_witness ≡ ok tt
unfolding verify m31_ring ℕ_discrete
verify_lem = refl

verify-eq-ok_example : IsOpened weights reference tree both queried no_witness
verify-eq-ok_example =
    verify-eq-ok weights reference tree both queried no_witness (omega arith) verify_lem
