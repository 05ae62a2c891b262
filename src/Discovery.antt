-- ===== src/Discovery.antt =====
-- pkg/discovery/worker: how the results of several discovery workers are brought together.
pub mod Grouped
pub mod Namespaces
pub mod ContainerSpecs
pub mod Collector
mod Examples
use kubeturbo.Prelude.{Option, none, some, List, [], ◌∷◌, String, string_eq}
use kubeturbo.Prelude.Dict.{Dict, lookup, insert}

-- The loop over what the workers found. The first value of a key goes into the map, and each further
-- one is merged into the one that is there, which the loop changes through its pointer.
unfoldable pub merge_by :
    {A : Type 0} → (A → String) → (A → A → A) → Dict String A → List A → Dict String A
merge_by key merge dict [] = dict
merge_by key merge dict (a ∷ xs) =
    merge_by key merge
      (insert (key a) (elim (lookup (key a) dict) [ none ↦ a | some b ↦ merge b a ]) dict) xs
