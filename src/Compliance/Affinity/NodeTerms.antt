-- ===== src/Compliance/Affinity/NodeTerms.antt =====
-- The node affinity of a pod in pkg/discovery/worker/compliance/affinity_helper.go.
use kubeturbo.Prelude.{
  ◌≡◌, refl, ◌↔◌, ◌⊎◌, ◌∙◌, sym, ap, Bool, true, false, Option, none, some, List, [], ◌∷◌, All, Any,
  arith, if◌then◌else◌, Bool-cases, inl, inr, false≢true,
}

-- `as_selector` is NodeSelectorRequirementsAsSelector on the term's expressions, with the method
-- Matches of its result on the labels of a node; `none` is an error.
module _ {Term Node : Type 0} (as_selector : Term → Option (Node → Bool)) where
  unfoldable pub node_matches_node_selector_terms : Node → List Term → Bool
  node_matches_node_selector_terms node [] = false
  node_matches_node_selector_terms node (t ∷ ts) =
      let rest = node_matches_node_selector_terms node ts in
      elim (as_selector t) [ none ↦ false | some selector ↦ if selector node then true else rest ]

  -- The nested options are the pointers to the affinity, its node affinity, and what is required there.
  unfoldable pub matches_node_affinity : Option (Option (Option (List Term))) → Node → Bool
  matches_node_affinity none node = true
  matches_node_affinity (some none) node = true
  matches_node_affinity (some (some none)) node = true
  matches_node_affinity (some (some (some terms))) node =
      node_matches_node_selector_terms node terms

  unfoldable pub matches_pv_node_affinity : List Term → Node → Bool
  matches_pv_node_affinity [] node = true
  matches_pv_node_affinity (t ∷ ts) node = node_matches_node_selector_terms node (t ∷ ts)

  -- The term can be parsed and selects the node.
  abbrev pub Selects : Node → Term → Type 0
  Selects node t = (s : Node → Bool) × (as_selector t ≡ some s) × (s node ≡ true)

  abbrev pub Parses : Term → Type 0
  Parses t = (s : Node → Bool) × (as_selector t ≡ some s)

  node_matches-cons :
      (node : Node) (t : Term) (ts : List Term) (s : Node → Bool)
      → as_selector t ≡ some s
      → node_matches_node_selector_terms node (t ∷ ts)
        ≡ (if s node then true else node_matches_node_selector_terms node ts)
  unfolding node_matches_node_selector_terms
  node_matches-cons node t ts s e = rw (e, node_matches_node_selector_terms) refl

  abbrev passes : Node → Option (Node → Bool) → Bool
  passes node none = false
  passes node (some f) = f node

  same_selector :
      (node : Node) (t : Term) (s : Node → Bool)
      → as_selector t ≡ some s
      → Selects node t
      → s node ≡ true
  same_selector node t s e (s', e', hit) = ap (passes node) (sym e ∙ e') ∙ hit

  node_matches-Any :
      (node : Node) (ts : List Term)
      → All Parses ts
      → (node_matches_node_selector_terms node ts ≡ true) ↔ Any (Selects node) ts
  unfolding node_matches_node_selector_terms
  node_matches-Any node [] p = (λ h. absurd (false≢true h), λ a. absurd a)
  node_matches-Any node (t ∷ ts) ((s, e), p) =
      let (to, from) = node_matches-Any node ts p in
      let step = node_matches-cons node t ts s e in
      elim (Bool-cases (s node)) [
        | inl hit ↦ (λ h. inl (s, e, hit), λ a. step ∙ ground (arith, hit))
        | inr other ↦ (
          λ h. inr (to (ground (arith, other, step, h))),
          λ a. step ∙ elim a [
            | inl here ↦ ground (arith, same_selector node t s e here)
            | inr later ↦ ground (arith, other, from later)
          ],
        )
      ]

  -- If all terms can be parsed, a pod whose node affinity requires them, and a volume that has them,
  -- matches exactly the nodes that one of them selects; but where there are none, the pod matches no
  -- node, and the volume every node.
  pub matches-Selects :
      (node : Node) (ts : List Term)
      → All Parses ts
      → ((matches_node_affinity (some (some (some ts))) node ≡ true) ↔ Any (Selects node) ts)
        × ((matches_pv_node_affinity ts node ≡ true) ↔ ((ts ≡ []) ⊎ Any (Selects node) ts))
  unfolding matches_node_affinity matches_pv_node_affinity
  matches-Selects node [] p = (node_matches-Any node [] p, (λ h. inl refl, λ h. refl))
  matches-Selects node (t ∷ ts) p =
      let (to, from) = node_matches-Any node (t ∷ ts) p in
      ((to, from), (λ h. inr (to h), λ h. elim h [ inl e ↦ cc | inr a ↦ from a ]))
