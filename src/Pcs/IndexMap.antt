-- ===== src/Pcs/IndexMap.antt =====
-- What the quotients use of the crate indexmap: a map that keeps its keys in the order of their insertion.
pub mod Reference
use stwo.Prelude.{Bool, true, false, List, [], ◌∷◌, ◌++◌, ◌≡◌, if◌then◌else◌}

-- The entries after `map.entry(key).or_insert_with(Vec::new).push(value)`: an entry that is there keeps
-- its place, a new one comes last.
abbrev pub push_entry : {K V : Type 0} → Discrete K → K → V → List (K × List V) → List (K × List V)
push_entry eq key value [] = (key, value ∷ []) ∷ []
push_entry eq key value ((k, values) ∷ entries) =
    let rest = push_entry eq key value entries in
    elim (eq key k) [ yes e ↦ (k, values ++ value ∷ []) ∷ entries | no ne ↦ (k, values) ∷ rest ]

pub record IndexMap : Type 1 where
  pub Map : Type 0 → Type 0 → Type 0
  pub default : (K V : Type 0) → Map K (List V)
  pub entry_push : (K V : Type 0) → Discrete K → Map K (List V) → K → V → Map K (List V)
  pub into_iter : (K V : Type 0) → Map K (List V) → List (K × List V)
  pub into_iter-default : (K V : Type 0) → into_iter K V (default K V) ≡ []
  pub into_iter-entry_push :
      (K V : Type 0) (eq : Discrete K) (m : Map K (List V)) (key : K) (value : V)
      → into_iter K V (entry_push K V eq m key value) ≡ push_entry eq key value (into_iter K V m)
