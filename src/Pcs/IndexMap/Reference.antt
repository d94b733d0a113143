-- ===== src/Pcs/IndexMap/Reference.antt =====
-- An instance of the parameter for the crate indexmap: the list of the entries.
use stwo.Prelude.{List, [], refl}
use stwo.Pcs.IndexMap.{IndexMap, push_entry}

abbrev pub reference : IndexMap
reference = record {
  Map = λ K V. List (K × V);
  default = λ K V. [];
  entry_push = λ K V eq m key value. push_entry eq key value m;
  into_iter = λ K V m. m;
  into_iter-default = λ K V. refl;
  into_iter-entry_push = λ K V eq m key value. refl;
}
