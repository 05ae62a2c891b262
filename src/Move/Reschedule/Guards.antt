-- ===== src/Move/Reschedule/Guards.antt =====
-- When rescheduler.go of pkg/action/executor lets a pod be moved.
use mathlib.Core.Option
use kubeturbo.Prelude.{
  ◌≡◌, ◌≢◌, ◌⊎◌, refl, ◌∙◌, sym, ap, true, false, ◌&&◌, not, Option, none, some, List, [], ◌∷◌,
  String, ◌==◌, string_eq, All, Any, Option-cases, Bool-cases, inl, inr, arith, false≢true,
}
use kubeturbo.Prelude.Dict.{lookup}
use kubeturbo.Prelude.Text.{equal_fold}
use kubeturbo.Owner.{OwnerInfo, get_pod_parent_info, is_owner_info_empty}
use kubeturbo.Owner.Choice.{Incomplete, is_owner_info_empty-Incomplete}
use kubeturbo.Move.Clone.{Pod}
use kubeturbo.Quota.{or_empty}
use kubeturbo.Move.Reschedule.{
  Condition, Node, Host, allowed, support_privilege_pod, supported_parent, conditions_allow,
  pre_action_check, owned, get_node, re_schedule, execute,
}

-- The node does not say that it is not ready.
abbrev pub IsNotUnready : Condition → Type 0
IsNotUnready c = c.is_node_ready ≡ true → c.is_true ≡ true

conditions_allow-All : (cs : List Condition) → conditions_allow cs ≡ true → All IsNotUnready cs
unfolding conditions_allow
conditions_allow-All [] e = tt
conditions_allow-All (c ∷ cs) e = elim (Bool-cases (c.is_node_ready && not c.is_true)) [
  | inl unready ↦ absurd (ground (arith, unready))
  | inr fine ↦
      (λ ready. ground (arith, ready, fine), conditions_allow-All cs (ground (arith, fine)))
]

-- The security context that the pod names, if it names one, is empty or in the set, or the set has
-- the wildcard.
abbrev pub AllowedContext : List String → Pod → Type 0
AllowedContext sccs pod =
    (scc : String)
    → lookup "openshift.io/scc" (or_empty pod.annotations) ≡ some scc
    → (scc ≡ "") ⊎ (Any (λ s. s ≡ "*") sccs ⊎ Any (λ s. s ≡ scc) sccs)

-- There is no complete owner, or one of a kind that a move supports, in any case of the letters.
abbrev pub SupportedOwner : OwnerInfo → Type 0
SupportedOwner owner =
    Incomplete owner.kind owner.name owner.uid
    ⊎ ((equal_fold owner.kind "ReplicaSet" ≡ true)
        ⊎ (equal_fold owner.kind "ReplicationController" ≡ true))

allowed-Any :
    (scc : String) (sccs : List String) → allowed scc sccs ≡ true → Any (λ s. s ≡ scc) sccs
allowed-Any scc [] e = false≢true e
allowed-Any scc (s ∷ sccs) e = elim (Bool-cases (s == scc)) [
  | inl here ↦ inl ((string_eq.beq_iff s scc).0 here)
  | inr later ↦ inr (allowed-Any scc sccs (ground (arith, later, e)))
]

support_privilege_pod-AllowedContext :
    (sccs : List String) (pod : Pod)
    → support_privilege_pod pod sccs ≡ true
    → AllowedContext sccs pod
unfolding support_privilege_pod
support_privilege_pod-AllowedContext sccs pod e scc named = elim (Bool-cases (scc == "")) [
  | inl empty ↦ inl ((string_eq.beq_iff scc "").0 empty)
  | inr given ↦ elim (Bool-cases (allowed "*" sccs)) [
    | inl all ↦ inr (inl (allowed-Any "*" sccs all))
    | inr some_only ↦ inr (inr (allowed-Any scc sccs (ground (arith, named, given, some_only, e))))
  ]
]

supported_parent-SupportedOwner :
    (owner : OwnerInfo) → supported_parent owner false ≡ true → SupportedOwner owner
unfolding supported_parent
supported_parent-SupportedOwner owner e = elim (Bool-cases (is_owner_info_empty owner)) [
  | inl empty ↦ inl ((is_owner_info_empty-Incomplete owner).0 empty)
  | inr complete ↦ elim (Bool-cases (equal_fold owner.kind "ReplicaSet")) [
    | inl set ↦ inr (inl set)
    | inr other ↦ inr (inr (ground (arith, complete, other, e)))
  ]
]

pre_action_check-parts :
    (sccs : List String) (pod : Pod) (node : Node)
    → pre_action_check sccs pod node ≡ true
    → (support_privilege_pod pod sccs ≡ true) × (conditions_allow node.conditions ≡ true)
unfolding pre_action_check
pre_action_check-parts sccs pod node e = (ground (arith, e), ground (arith, e))

module _ {S : Type 0} (node_of_name : S → String → Option Node)
    (get_all_nodes : S → Option (List Node)) (unmarshal : String → Option OwnerInfo)
    (scc_allowed_set : List String) (move : Pod → String → OwnerInfo → S → S × Option Pod) where
  -- What must hold for a move.
  abbrev pub MayMove : Pod → Node → OwnerInfo → Type 0
  MayMove pod node owner =
      All IsNotUnready node.conditions
      × (pod.spec.node_name ≢ node.name)
      × AllowedContext scc_allowed_set pod
      × (get_pod_parent_info unmarshal (owned pod) ≡ some owner)
      × SupportedOwner owner

  re_schedule-MayMove :
      (pod : Pod) (node : Node) (s : S)
      → (re_schedule node_of_name get_all_nodes unmarshal scc_allowed_set move pod node s
          ≡ (s, none))
        ⊎ ((owner : OwnerInfo) × MayMove pod node owner
            × (re_schedule node_of_name get_all_nodes unmarshal scc_allowed_set move pod node s
                ≡ move pod node.name owner s))
  unfolding re_schedule
  re_schedule-MayMove pod node s = elim (Bool-cases (pre_action_check scc_allowed_set pod node)) [
    | inr refused ↦ inl (ground (arith, refused))
    | inl passed ↦ elim (Bool-cases (pod.spec.node_name == node.name)) [
      | inl there ↦ inl (ground (arith, passed, there))
      | inr elsewhere ↦ elim (Option-cases (get_pod_parent_info unmarshal (owned pod))) [
        | inl unknown ↦ inl (ground (arith, passed, elsewhere, unknown))
        | inr (owner, known) ↦ elim (Bool-cases (supported_parent owner false)) [
          | inr unsupported ↦ inl (ground (arith, passed, elsewhere, known, unsupported))
          | inl supported ↦
              let (privilege, conditions) =
                pre_action_check-parts scc_allowed_set pod node passed in
              inr (
                owner,
                (
                  conditions_allow-All node.conditions conditions,
                  λ same.
                      false≢true
                        (sym elsewhere ∙ (string_eq.beq_iff pod.spec.node_name node.name).1 same),
                  support_privilege_pod-AllowedContext scc_allowed_set pod privilege,
                  known,
                  supported_parent-SupportedOwner owner supported,
                ),
                ground (arith, passed, elsewhere, known, supported),
              )
        ]
      ]
    ]
  ]

  abbrev outcome : Pod → S × Option Pod → S × Option (Pod × Pod)
  outcome pod r = (r.0, elim r.1 [ none ↦ none | some new ↦ some (pod, new) ])

  outcome-map :
      (pod : Pod) (r : S × Option Pod) → outcome pod r ≡ (r.0, Option.map (λ new. (pod, new)) r.1)
  outcome-map pod (s, none) = refl
  outcome-map pod (s, some new) = refl

  -- An action to move a pod either changes nothing and returns an error, or it is the move of the pod
  -- to the node that was found: the node does not say that it is not ready, and is not the pod's
  -- node, the pod names no security context, an empty one or one of the allowed set, unless that has
  -- the wildcard, and its owner lacks a kind, name or UID, or is a ReplicaSet or a
  -- ReplicationController. The old pod is then the one of the action, and the new one that of the
  -- move, or the error is the move's.
  pub execute-MayMove :
      (new_se : Option Host) (pod : Pod) (s : S)
      → (execute node_of_name get_all_nodes unmarshal scc_allowed_set move new_se pod s ≡ (s, none))
        ⊎ ((node : Node) × (owner : OwnerInfo) × (get_node node_of_name get_all_nodes s new_se
              ≡ some node)
            × MayMove pod node owner
            × (let moved = move pod node.name owner s in
                execute node_of_name get_all_nodes unmarshal scc_allowed_set move new_se pod s
                ≡ (moved.0, Option.map (λ new. (pod, new)) moved.1)))
  unfolding execute
  execute-MayMove new_se pod s =
      elim (Option-cases (get_node node_of_name get_all_nodes s new_se)) [
        | inl missing ↦ inl (rw (missing, execute) refl)
        | inr (node, found) ↦ elim (re_schedule-MayMove pod node s) [
          | inl refused ↦ inl (rw (found, execute) (ap (outcome pod) refused))
          | inr (owner, may, moves) ↦ inr (
            node,
            owner,
            found,
            may,
            rw (found, execute)
                (ap (outcome pod) moves ∙ outcome-map pod (move pod node.name owner s)),
          )
        ]
      ]
