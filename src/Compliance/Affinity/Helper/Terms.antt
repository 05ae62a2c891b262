-- ===== src/Compliance/Affinity/Helper/Terms.antt =====
-- Whether a term of a pod's affinity is met at a node, in affinity_helper.go of
-- pkg/discovery/worker/compliance.
use kubeturbo.Prelude.{
  ◌≡◌, refl, ap, Bool, true, false, ◌&&◌, ◌||◌, not, Option, none, some, List, [], ◌∷◌, ◌==◌,
  string_eq, any, if◌then◌else◌, arith, Option-cases, inl, inr,
}
use kubeturbo.Compliance.Affinity.Helper.{
  Labels, LabelledNode, LabelledPod, PodAffinityTerm, nodes_have_same_topology_key,
  get_namespaces_from_pod_affinity_term, pod_matches_terms_namespace_and_selector, is_self,
  any_pod_loop, any_pod_matches_pod_affinity_term,
}

-- One round of the loop, in Booleans.
loop_join :
    (self hit same exists n s : Bool) (unseen seen : Bool × Bool)
    → unseen ≡ (n, exists || s)
    → seen ≡ (n, true)
    → (if self then unseen else (if hit then (if same then (true, true) else seen) else unseen))
      ≡ (((not self && hit) && same) || n, exists || ((not self && hit) || s))
loop_join true hit same exists n s unseen seen e e' = e
loop_join false false same exists n s unseen seen e e' = e
loop_join false true true true n s unseen seen e e' = refl
loop_join false true true false n s unseen seen e e' = refl
loop_join false true false true n s unseen seen e e' = e'
loop_join false true false false n s unseen seen e e' = e'

module _ {Selector : Type 0} (as_selector : Selector → Option (Labels → Bool))
    (pod : LabelledPod Selector) (node : LabelledNode) where
  -- Another pod that the term selects, and one of those whose node is in the node's domain.
  abbrev pub selected :
      PodAffinityTerm Selector → (Labels → Bool) → LabelledPod Selector × LabelledNode → Bool
  selected term selector (existing, other) =
      not (is_self as_selector pod existing)
      && pod_matches_terms_namespace_and_selector as_selector existing
          (get_namespaces_from_pod_affinity_term as_selector pod term) selector

  abbrev pub near :
      PodAffinityTerm Selector → (Labels → Bool) → LabelledPod Selector × LabelledNode → Bool
  near term selector (existing, other) =
      selected term selector (existing, other)
      && nodes_have_same_topology_key node other term.topology_key

  any_pod_loop_lem :
      (term : PodAffinityTerm Selector) (selector : Labels → Bool) (exists : Bool)
      (pods : List (LabelledPod Selector × LabelledNode))
      → any_pod_loop as_selector pod node term.topology_key
          (get_namespaces_from_pod_affinity_term as_selector pod term)
          selector
          exists
          pods
        ≡ (any (near term selector) pods, exists || any (selected term selector) pods)
  unfolding any_pod_loop
  any_pod_loop_lem term selector true [] = refl
  any_pod_loop_lem term selector false [] = refl
  any_pod_loop_lem term selector exists ((existing, other) ∷ pods) =
      loop_join (is_self as_selector pod existing)
        (pod_matches_terms_namespace_and_selector as_selector existing
          (get_namespaces_from_pod_affinity_term as_selector pod term) selector)
        (nodes_have_same_topology_key node other term.topology_key) exists
        (any (near term selector) pods) (any (selected term selector) pods)
        (any_pod_loop as_selector pod node term.topology_key
          (get_namespaces_from_pod_affinity_term as_selector pod term) selector exists pods)
        (any_pod_loop as_selector pod node term.topology_key
          (get_namespaces_from_pod_affinity_term as_selector pod term) selector true pods)
        (any_pod_loop_lem term selector exists pods) (any_pod_loop_lem term selector true pods)

  -- A term with a topology key and a selector that can be parsed is matched if another pod that it
  -- selects runs on a node of the same domain, and there is a match at all if another pod is selected
  -- anywhere; a term with an empty key or a selector that cannot be parsed is an error.
  pub any_pod_matches_pod_affinity_term_lem :
      (term : PodAffinityTerm Selector) (pods : List (LabelledPod Selector × LabelledNode))
      → any_pod_matches_pod_affinity_term as_selector pod pods node term ≡ (
          if term.topology_key == "" then none else elim (as_selector term.label_selector) [
            | none ↦ none
            | some selector ↦
                some (any (near term selector) pods, any (selected term selector) pods)
          ])
  unfolding any_pod_matches_pod_affinity_term
  any_pod_matches_pod_affinity_term_lem term pods =
      elim (Option-cases (as_selector term.label_selector)) [
        | inl error ↦ ground (arith, error)
        | inr (selector, parsed) ↦
            rw (parsed, any_pod_matches_pod_affinity_term)
              (ap (λ r. if term.topology_key == "" then none else some r)
                (any_pod_loop_lem term selector false pods))
      ]
