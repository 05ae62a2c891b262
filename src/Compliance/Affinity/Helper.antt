-- ===== src/Compliance/Affinity/Helper.antt =====
-- The affinity between pods in pkg/discovery/worker/compliance/affinity_helper.go.
pub mod Existing
pub mod Terms
use kubeturbo.Prelude.{
  Bool, true, false, ◌&&◌, ◌||◌, not, Option, none, some, List, [], ◌∷◌, ◌++◌, String, ◌==◌,
  string_eq, any, if◌then◌else◌,
}
use kubeturbo.Prelude.Dict.{Dict, lookup}

abbrev pub Labels : Type 0
Labels = Dict String String

-- A nil map of labels is `none`.
pub record LabelledNode : Type 0 where
  pub name : String
  pub labels : Option Labels

pub record PodAffinityTerm (Selector : Type 0) : Type 0 where
  pub topology_key : String
  pub namespaces : List String
  pub label_selector : Selector

-- The terms required during scheduling; a nil pointer is `none`.
pub record LabelledPod (Selector : Type 0) : Type 0 where
  pub name : String
  pub namespace : String
  pub labels : Labels
  pub pod_affinity : Option (List (PodAffinityTerm Selector))
  pub pod_anti_affinity : Option (List (PodAffinityTerm Selector))

unfoldable pub nodes_have_same_topology_key : LabelledNode → LabelledNode → String → Bool
nodes_have_same_topology_key a b key = if key == "" then false else elim a.labels [
  | none ↦ false
  | some la ↦ elim b.labels [
    | none ↦ false
    | some lb ↦ elim (lookup key la) [
      | none ↦ false
      | some va ↦ elim (lookup key lb) [ none ↦ false | some vb ↦ va == vb ]
    ]
  ]
]

-- `as_selector` is LabelSelectorAsSelector of the Kubernetes API with the method Matches of its result;
-- `none` is an error.
module _ {Selector : Type 0} (as_selector : Selector → Option (Labels → Bool)) where
  abbrev pub terms_of : Option (List (PodAffinityTerm Selector)) → List (PodAffinityTerm Selector)
  terms_of none = []
  terms_of (some terms) = terms

  abbrev pub get_namespaces_from_pod_affinity_term :
      LabelledPod Selector → PodAffinityTerm Selector → List String
  get_namespaces_from_pod_affinity_term pod term = elim term.namespaces [
    | [] ↦ pod.namespace ∷ []
    | n ∷ ns ↦ n ∷ ns
  ]

  abbrev pub pod_matches_terms_namespace_and_selector :
      LabelledPod Selector → List String → (Labels → Bool) → Bool
  pod_matches_terms_namespace_and_selector pod namespaces selector =
      any (λ n. n == pod.namespace) namespaces && selector pod.labels

  abbrev pub is_self : LabelledPod Selector → LabelledPod Selector → Bool
  is_self pod existing = pod.name == existing.name && pod.namespace == existing.namespace

  -- What a pointer to the variable of a loop over the terms points at when the loop is over.
  abbrev pub last_term :
      PodAffinityTerm Selector → List (PodAffinityTerm Selector) → PodAffinityTerm Selector
  last_term t [] = t
  last_term t (u ∷ us) = last_term u us

  -- The loop over the anti affinity terms of one pod; each match keeps the pointer `kept`.
  unfoldable pub term_matches :
      LabelledPod Selector
      → LabelledPod Selector
      → LabelledNode
      → PodAffinityTerm Selector
      → List (PodAffinityTerm Selector)
      → Option (List (PodAffinityTerm Selector × LabelledNode))
  term_matches pod existing node kept [] = some []
  term_matches pod existing node kept (t ∷ ts) =
      let rest = term_matches pod existing node kept ts in
      elim (as_selector t.label_selector) [
        | none ↦ none
        | some selector ↦
            if pod_matches_terms_namespace_and_selector pod
              (get_namespaces_from_pod_affinity_term existing t) selector
            then elim rest [ none ↦ none | some ms ↦ some ((kept, node) ∷ ms) ]
            else rest
      ]

  abbrev pub pod_term_matches :
      LabelledPod Selector
      → LabelledPod Selector
      → LabelledNode
      → List (PodAffinityTerm Selector)
      → Option (List (PodAffinityTerm Selector × LabelledNode))
  pod_term_matches pod existing node [] = some []
  pod_term_matches pod existing node (t ∷ ts) =
      term_matches pod existing node (last_term t ts) (t ∷ ts)

  -- The pods with their nodes stand for `allPodsNodesMap`.
  unfoldable pub get_matching_anti_affinity_terms :
      LabelledPod Selector
      → List (LabelledPod Selector × LabelledNode)
      → Option (List (PodAffinityTerm Selector × LabelledNode))
  get_matching_anti_affinity_terms pod [] = some []
  get_matching_anti_affinity_terms pod ((existing, node) ∷ pods) =
      let rest = get_matching_anti_affinity_terms pod pods in
      if is_self pod existing
      then rest
      else elim (pod_term_matches pod existing node (terms_of existing.pod_anti_affinity)) [
        | none ↦ none
        | some ms ↦ elim rest [ none ↦ none | some ns ↦ some (ms ++ ns) ]
      ]

  unfoldable pub no_term_blocks :
      LabelledNode → List (PodAffinityTerm Selector × LabelledNode) → Bool
  no_term_blocks node [] = true
  no_term_blocks node ((t, other) ∷ ms) =
      if t.topology_key == ""
      then false
      else (if nodes_have_same_topology_key node other t.topology_key
          then false
          else no_term_blocks node ms)

  unfoldable pub satisfies_existing_pods_anti_affinity :
      LabelledPod Selector → LabelledNode → List (LabelledPod Selector × LabelledNode) → Bool
  satisfies_existing_pods_anti_affinity pod node pods =
      elim (get_matching_anti_affinity_terms pod pods) [
        | none ↦ false
        | some ms ↦ no_term_blocks node ms
      ]

  -- The loop of anyPodMatchesPodAffinityTerm, with its variable `matchingPodExists`.
  unfoldable pub any_pod_loop :
      LabelledPod Selector
      → LabelledNode
      → String
      → List String
      → (Labels → Bool)
      → Bool
      → List (LabelledPod Selector × LabelledNode)
      → Bool × Bool
  any_pod_loop pod node key namespaces selector exists [] = (false, exists)
  any_pod_loop pod node key namespaces selector exists ((existing, other) ∷ pods) =
      let unseen = any_pod_loop pod node key namespaces selector exists pods in
      let seen = any_pod_loop pod node key namespaces selector true pods in
      if is_self pod existing
      then unseen
      else (if pod_matches_terms_namespace_and_selector existing namespaces selector
          then (if nodes_have_same_topology_key node other key then (true, true) else seen)
          else unseen)

  unfoldable pub any_pod_matches_pod_affinity_term :
      LabelledPod Selector
      → List (LabelledPod Selector × LabelledNode)
      → LabelledNode
      → PodAffinityTerm Selector
      → Option (Bool × Bool)
  any_pod_matches_pod_affinity_term pod pods node term =
      if term.topology_key == "" then none else elim (as_selector term.label_selector) [
        | none ↦ none
        | some selector ↦ some (
            any_pod_loop pod node term.topology_key (get_namespaces_from_pod_affinity_term pod term)
              selector false pods)
      ]

  -- The loop over the affinity terms: a term that no other pod matches does not count if the pod
  -- matches it itself.
  unfoldable pub affinity_holds :
      LabelledPod Selector
      → LabelledNode
      → List (LabelledPod Selector × LabelledNode)
      → List (PodAffinityTerm Selector)
      → Bool
  affinity_holds pod node pods [] = true
  affinity_holds pod node pods (t ∷ ts) =
      let rest = affinity_holds pod node pods ts in
      elim (any_pod_matches_pod_affinity_term pod pods node t) [
        | none ↦ false
        | some (matched, exists) ↦
            if matched
            then rest
            else (if exists then false else elim (as_selector t.label_selector) [
              | none ↦ false
              | some selector ↦
                  if pod_matches_terms_namespace_and_selector pod
                    (get_namespaces_from_pod_affinity_term pod t) selector
                  then rest
                  else false
            ])
      ]

  unfoldable pub anti_affinity_holds :
      LabelledPod Selector
      → LabelledNode
      → List (LabelledPod Selector × LabelledNode)
      → List (PodAffinityTerm Selector)
      → Bool
  anti_affinity_holds pod node pods [] = true
  anti_affinity_holds pod node pods (t ∷ ts) =
      let rest = anti_affinity_holds pod node pods ts in
      elim (any_pod_matches_pod_affinity_term pod pods node t) [
        | none ↦ false
        | some (matched, exists) ↦ if matched then false else rest
      ]

  -- Without terms of its own the pod passes both loops.
  unfoldable pub inter_pod_affinity_matches :
      LabelledPod Selector → LabelledNode → List (LabelledPod Selector × LabelledNode) → Bool
  inter_pod_affinity_matches pod node pods =
      satisfies_existing_pods_anti_affinity pod node pods
      && affinity_holds pod node pods (terms_of pod.pod_affinity)
      && anti_affinity_holds pod node pods (terms_of pod.pod_anti_affinity)
