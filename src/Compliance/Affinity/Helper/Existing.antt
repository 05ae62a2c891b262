-- ===== src/Compliance/Affinity/Helper/Existing.antt =====
-- Whether the pods that run already keep a pod off a node, in affinity_helper.go of
-- pkg/discovery/worker/compliance.
use kubeturbo.Prelude.{
  ◌≡◌, refl, ◌∙◌, Bool, true, false, ◌&&◌, ◌||◌, not, Option, some, List, [], ◌∷◌, ◌++◌, ◌==◌,
  string_eq, any, arith, Bool-cases, inl, inr,
}
use kubeturbo.Compliance.Affinity.Helper.{
  Labels, LabelledNode, LabelledPod, PodAffinityTerm, nodes_have_same_topology_key, terms_of,
  get_namespaces_from_pod_affinity_term, pod_matches_terms_namespace_and_selector, is_self,
  last_term, term_matches, pod_term_matches, get_matching_anti_affinity_terms, no_term_blocks,
  satisfies_existing_pods_anti_affinity,
}

module _ {Selector : Type 0} (selects : Selector → Labels → Bool) (pod : LabelledPod Selector)
    (node : LabelledNode) where
  -- Selectors that can all be parsed.
  abbrev pub parsed : Selector → Option (Labels → Bool)
  parsed s = some (selects s)

  -- The pod is one that the other pod's term is about.
  abbrev pub concerns : LabelledPod Selector → PodAffinityTerm Selector → Bool
  concerns existing t =
      pod_matches_terms_namespace_and_selector parsed pod
        (get_namespaces_from_pod_affinity_term parsed existing t) (selects t.label_selector)

  -- The node is in the domain of the other one by the term's key, or the key is not allowed.
  abbrev pub blocks : PodAffinityTerm Selector → LabelledNode → Bool
  blocks t other = t.topology_key == "" || nodes_have_same_topology_key node other t.topology_key

  abbrev pub blocked_by :
      LabelledPod Selector → LabelledNode → List (PodAffinityTerm Selector) → Bool
  blocked_by existing other [] = false
  blocked_by existing other (t ∷ ts) =
      any (concerns existing) (t ∷ ts) && blocks (last_term parsed t ts) other

  no_term_blocks-append :
      (ms ns : List (PodAffinityTerm Selector × LabelledNode))
      → no_term_blocks parsed node (ms ++ ns)
        ≡ (no_term_blocks parsed node ms && no_term_blocks parsed node ns)
  unfolding no_term_blocks
  no_term_blocks-append [] ns = refl
  no_term_blocks-append ((t, other) ∷ ms) ns = ground (arith, no_term_blocks-append ms ns)

  term_matches_lem :
      (existing : LabelledPod Selector) (other : LabelledNode) (kept : PodAffinityTerm Selector)
      (ts : List (PodAffinityTerm Selector))
      → (ms : List (PodAffinityTerm Selector × LabelledNode)) × (term_matches parsed pod existing
            other kept ts
          ≡ some ms)
        × (no_term_blocks parsed node ms ≡ not (any (concerns existing) ts && blocks kept other))
  unfolding term_matches no_term_blocks
  term_matches_lem existing other kept [] = ([], refl, refl)
  term_matches_lem existing other kept (t ∷ ts) =
      let (ms, e, h) = term_matches_lem existing other kept ts in
      elim (Bool-cases (concerns existing t)) [
        | inl about ↦
            ((kept, other) ∷ ms, rw (about, term_matches) (rw e refl), ground (arith, about, h))
        | inr aside ↦ (ms, rw (aside, term_matches) e, ground (arith, aside, h))
      ]

  pod_term_matches_lem :
      (existing : LabelledPod Selector) (other : LabelledNode)
      (ts : List (PodAffinityTerm Selector))
      → (ms : List (PodAffinityTerm Selector × LabelledNode)) × (pod_term_matches parsed pod
            existing other ts
          ≡ some ms)
        × (no_term_blocks parsed node ms ≡ not (blocked_by existing other ts))
  pod_term_matches_lem existing other [] = ([], refl, unfold no_term_blocks in refl)
  pod_term_matches_lem existing other (t ∷ ts) =
      term_matches_lem existing other (last_term parsed t ts) (t ∷ ts)

  abbrev pub keeps_off : LabelledPod Selector × LabelledNode → Bool
  keeps_off (existing, other) =
      not (is_self parsed pod existing)
      && blocked_by existing other (terms_of parsed existing.pod_anti_affinity)

  get_matching_lem :
      (pods : List (LabelledPod Selector × LabelledNode))
      → (ms : List (PodAffinityTerm Selector × LabelledNode)) × (get_matching_anti_affinity_terms
            parsed pod pods
          ≡ some ms)
        × (no_term_blocks parsed node ms ≡ not (any keeps_off pods))
  unfolding get_matching_anti_affinity_terms
  get_matching_lem [] = ([], refl, unfold no_term_blocks in refl)
  get_matching_lem ((existing, other) ∷ pods) =
      let (ns, e, h) = get_matching_lem pods in
      let (ms, e', h') =
        pod_term_matches_lem existing other (terms_of parsed existing.pod_anti_affinity) in
      elim (Bool-cases (is_self parsed pod existing)) [
        | inl self ↦ (ns, rw (self, get_matching_anti_affinity_terms) e, ground (arith, self, h))
        | inr another ↦ (
          ms ++ ns,
          rw (another, get_matching_anti_affinity_terms) (rw e' (rw e refl)),
          no_term_blocks-append ms ns ∙ ground (arith, another, h, h'),
        )
      ]

  -- Where all selectors can be parsed, the pods that run keep a pod off a node exactly if one of them,
  -- other than the pod itself, has an anti affinity term about the pod, and the last of its terms has
  -- no topology key or one by which the two nodes are in one domain.
  pub satisfies_existing-keeps_off :
      (pods : List (LabelledPod Selector × LabelledNode))
      → satisfies_existing_pods_anti_affinity parsed pod node pods ≡ not (any keeps_off pods)
  unfolding satisfies_existing_pods_anti_affinity
  satisfies_existing-keeps_off pods =
      let (ms, e, h) = get_matching_lem pods in rw (e, satisfies_existing_pods_anti_affinity) h

  -- The bug: of the terms of a pod that runs only the last one's topology key is looked at. If by that
  -- key, which is not empty, the nodes are in different domains, the pod passes, although another
  -- term is about it and puts it and the other pod in one domain.
  pub satisfies_existing_last_term :
      (existing : LabelledPod Selector) (other : LabelledNode) (t u : PodAffinityTerm Selector)
      → existing.pod_anti_affinity ≡ some (t ∷ u ∷ [])
      → is_self parsed pod existing ≡ false
      → concerns existing t ≡ true
      → nodes_have_same_topology_key node other t.topology_key ≡ true
      → u.topology_key == "" ≡ false
      → nodes_have_same_topology_key node other u.topology_key ≡ false
      → satisfies_existing_pods_anti_affinity parsed pod node ((existing, other) ∷ []) ≡ true
  satisfies_existing_last_term existing other t u terms another about near key far =
      satisfies_existing-keeps_off ((existing, other) ∷ [])
      ∙ rw terms (ground (arith, another, about, key, far))
