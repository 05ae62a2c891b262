-- ===== src/Compliance/Taints/Collection.antt =====
-- What getTaintCollection of taint_toleration_processor.go in pkg/discovery/worker/compliance
-- collects.
use kubeturbo.Prelude.{
  ◌≡◌, refl, ◌∙◌, Bool, false, ◌&&◌, ◌||◌, Option, none, some, List, [], ◌∷◌, String, ◌==◌,
  string_eq, arith, if◌then◌else◌, Bool-cases, inl, inr, subst,
}
use kubeturbo.Prelude.Dict.{Dict, lookup, lookup-insert}
use kubeturbo.Compliance.Taints.{
  Taint, taint_eq, TaintCollection, Node, is_relevant, taint_key, collect_taint, collect_taints,
  collect_nodes, get_taint_collection, contains,
}

abbrev or_else {ℓ} : {A : Type ℓ} → Option A → Option A → Option A
or_else none b = b
or_else (some a) b = some a

-- Some node has the taint.
abbrev pub on_nodes : Dict String Node → Taint → Bool
on_nodes [] t = false
on_nodes ((uid, node) ∷ nodes) t = contains node.taints t || on_nodes nodes t

lookup-collect_taint :
    (coll : TaintCollection) (x t : Taint)
    → lookup t (collect_taint coll x)
      ≡ or_else (lookup t coll) (if is_relevant t && x == t then some (taint_key t) else none)
unfolding collect_taint
lookup-collect_taint coll x t = elim (Bool-cases (x == t)) [
  | inl same ↦
      let e : x ≡ t = (taint_eq.beq_iff x t).0 same in
      subst
        (λ y.
          lookup y (collect_taint coll x)
          ≡ or_else (lookup y coll) (if is_relevant y && x == y then some (taint_key y) else none))
        e (ground (arith, taint_eq.beq_iff x x, lookup-insert x x (taint_key x) coll))
  | inr other ↦ ground (arith, other, lookup-insert x t (taint_key x) coll)
]

lookup-collect_taints :
    (coll : TaintCollection) (ts : List Taint) (t : Taint)
    → lookup t (collect_taints coll ts)
      ≡ or_else
          (lookup t coll)
          (if is_relevant t && contains ts t then some (taint_key t) else none)
unfolding collect_taints
lookup-collect_taints coll [] t = ground arith
lookup-collect_taints coll (x ∷ ts) t =
    lookup-collect_taints (collect_taint coll x) ts t
    ∙ ground (arith, lookup-collect_taint coll x t)

lookup-collect_nodes :
    (coll : TaintCollection) (nodes : Dict String Node) (t : Taint)
    → lookup t (collect_nodes coll nodes)
      ≡ or_else
          (lookup t coll)
          (if is_relevant t && on_nodes nodes t then some (taint_key t) else none)
unfolding collect_nodes
lookup-collect_nodes coll [] t = ground arith
lookup-collect_nodes coll ((uid, node) ∷ nodes) t =
    lookup-collect_nodes (collect_taints coll node.taints) nodes t
    ∙ ground (arith, lookup-collect_taints coll node.taints t)

-- The collection has exactly the NoSchedule and NoExecute taints of the nodes, but for those that
-- mark a node as unschedulable, each with its text as the key.
pub lookup-get_taint_collection :
    (nodes : Dict String Node) (t : Taint)
    → lookup t (get_taint_collection nodes)
      ≡ (if is_relevant t && on_nodes nodes t then some (taint_key t) else none)
lookup-get_taint_collection nodes t = lookup-collect_nodes [] nodes t ∙ unfold lookup in refl
