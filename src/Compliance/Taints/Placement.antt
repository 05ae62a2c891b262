-- ===== src/Compliance/Taints/Placement.antt =====
-- What the taint commodities of taint_toleration_processor.go in pkg/discovery/worker/compliance say
-- of a pod and a node: the market may place the pod where every commodity that it buys is sold.
use kubeturbo.Prelude.{
  ◌≡◌, ◌∙◌, ap, Bool, true, false, ◌&&◌, ◌||◌, not, Option, some, List, [], ◌∷◌, String, ◌==◌,
  string_eq, any, arith, if◌then◌else◌, Bool-cases, inl, inr, sym, subst, ==_self, is_some,
  false≢true,
}
use kubeturbo.Prelude.Dict.{Dict, lookup, insert, IsMap, insert-IsMap}
use kubeturbo.Compliance.Dto.{CommodityDto}
use kubeturbo.Compliance.Taints.Collection.{on_nodes, lookup-get_taint_collection}
use kubeturbo.Compliance.Taints.Commodities.{
  has_key, wants, Builds, create_taint_comms_sold-keys, create_taint_comms_bought-keys,
}
use kubeturbo.Compliance.Taints.{
  Taint, taint_eq, TaintCollection, Node, is_relevant, taint_key, collect_taint, collect_taints,
  collect_nodes, get_taint_collection, contains, create_taint_comms_sold, create_taint_comms_bought,
  tolerations_tolerate_taint,
}

collect_taints-IsMap :
    (coll : TaintCollection) (ts : List Taint) → IsMap coll → IsMap (collect_taints coll ts)
unfolding collect_taints collect_taint
collect_taints-IsMap coll [] h = h
collect_taints-IsMap coll (t ∷ ts) h =
    collect_taints-IsMap (collect_taint coll t) ts
      (once (is_relevant t && not (is_some (lookup t coll))))
  where
    once : (b : Bool) → IsMap (if b then insert t (taint_key t) coll else coll)
    once true = insert-IsMap t (taint_key t) coll h
    once false = h

collect_nodes-IsMap :
    (coll : TaintCollection) (nodes : Dict String Node)
    → IsMap coll
    → IsMap (collect_nodes coll nodes)
unfolding collect_nodes
collect_nodes-IsMap coll [] h = h
collect_nodes-IsMap coll ((uid, node) ∷ nodes) h =
    collect_nodes-IsMap (collect_taints coll node.taints) nodes
      (collect_taints-IsMap coll node.taints h)

module _ (wanted : Taint → Bool) where
  wants-lookup :
      (coll : TaintCollection) (key : String)
      → IsMap coll
      → wants wanted coll key ≡ true
      → (t : Taint) × (lookup t coll ≡ some key) × (wanted t ≡ true)
  unfolding lookup
  wants-lookup [] key u h = cc
  wants-lookup ((t, k) ∷ coll) key u h = elim (Bool-cases (wanted t && k == key)) [
    | inl here ↦ (t, ground (arith, ==_self t, string_eq.beq_iff k key), ground arith)
    | inr later ↦
        let (x, found, passes) = wants-lookup coll key u.1 (ground (arith, later)) in
        (x, ground (arith, taint_eq.beq_iff t x), passes)
  ]

  lookup-wants :
      (coll : TaintCollection) (t : Taint) (key : String)
      → lookup t coll ≡ some key
      → wanted t ≡ true
      → wants wanted coll key ≡ true
  unfolding lookup
  lookup-wants [] t key found passes = cc
  lookup-wants ((x, k) ∷ coll) t key found passes =
      ground (arith, taint_eq.beq_iff x t, string_eq.beq_iff k key, lookup-wants coll t key)

-- No two taints of the nodes have the same text: a NoExecute taint with a time of its own on each of
-- two nodes is ruled out.
abbrev pub OneTextEach : Dict String Node → Type 0
OneTextEach nodes =
    (t u : Taint)
    → on_nodes nodes t ≡ true
    → on_nodes nodes u ≡ true
    → taint_key t ≡ taint_key u
    → t ≡ u

on_nodes-lookup :
    (nodes : Dict String Node) (uid : String) (node : Node) (t : Taint)
    → lookup uid nodes ≡ some node
    → contains node.taints t ≡ true
    → on_nodes nodes t ≡ true
unfolding lookup
on_nodes-lookup [] uid node t found has = cc
on_nodes-lookup ((j, n) ∷ nodes) uid node t found has = elim (Bool-cases (j == uid)) [
  | inl here ↦
      let same : n ≡ node = ground (arith, here) in
      subst (λ (x : Node). (contains x.taints t || on_nodes nodes t) ≡ true) (sym same)
        (ground (arith, has))
  | inr later ↦ ground (arith, on_nodes-lookup nodes uid node t (rw later at found) has)
]

module _ (build : String → Option CommodityDto) (builds : Builds build) (nodes : Dict String Node)
    {Toleration : Type 0} (tolerates : Toleration → Taint → Bool) where
  abbrev coll : TaintCollection
  coll = get_taint_collection nodes

  entry :
      (t : Taint) (key : String)
      → lookup t coll ≡ some key
      → (key ≡ taint_key t) × (is_relevant t ≡ true) × (on_nodes nodes t ≡ true)
  entry t key found = ground (arith, lookup-get_taint_collection nodes t, found)

  collected :
      (t : Taint)
      → is_relevant t ≡ true
      → on_nodes nodes t ≡ true
      → lookup t coll ≡ some (taint_key t)
  collected t relevant on = lookup-get_taint_collection nodes t ∙ ground (arith, relevant, on)

  unique : IsMap coll
  unique = collect_nodes-IsMap [] nodes tt

  -- The pod tolerates every taint of the node that counts.
  abbrev pub Tolerated : List Toleration → Node → Type 0
  Tolerated tolerations node =
      (t : Taint)
      → contains node.taints t ≡ true
      → is_relevant t ≡ true
      → tolerations_tolerate_taint tolerates tolerations t ≡ true

  -- Everything that the pod buys the node sells.
  abbrev pub Offered : List CommodityDto → List CommodityDto → Type 0
  Offered sold bought = (key : String) → has_key bought key ≡ true → has_key sold key ≡ true

  module _ (node : Node) (tolerations : List Toleration) (sold bought : List CommodityDto)
      (sells : create_taint_comms_sold build node coll ≡ some sold)
      (buys : create_taint_comms_bought build tolerates tolerations coll ≡ some bought) where
    sold-keys :
        (key : String) → has_key sold key ≡ wants (λ t. not (contains node.taints t)) coll key
    sold-keys key =
        let (cs, e, keys, distinct) = create_taint_comms_sold-keys build builds coll node in
        let same : sold ≡ cs = cc in ap (λ l. has_key l key) same ∙ keys key

    bought-keys :
        (key : String)
        → has_key bought key ≡ wants (λ t. not (any (λ x. tolerates x t) tolerations)) coll key
    bought-keys key =
        let (cs, e, keys, distinct) =
          create_taint_comms_bought-keys build builds coll tolerates tolerations in
        let same : bought ≡ cs = cc in ap (λ l. has_key l key) same ∙ keys key

    -- A pod that tolerates the taints of a node finds there all that it buys.
    Tolerated-Offered : Tolerated tolerations node → Offered sold bought
    Tolerated-Offered tol key h =
        let (t, found, refused) =
          wants-lookup (λ t. not (any (λ x. tolerates x t) tolerations)) coll key unique
            (sym (bought-keys key) ∙ h) in
        let (text, relevant, on) = entry t key found in
        sold-keys key
        ∙ lookup-wants (λ t. not (contains node.taints t)) coll t key found
            (ground (arith, refused, relevant, tol t))

    Offered-Tolerated :
        (uid : String)
        → lookup uid nodes ≡ some node
        → OneTextEach nodes
        → Offered sold bought
        → Tolerated tolerations node
    Offered-Tolerated uid there one offered t has relevant =
        elim (Bool-cases (any (λ x. tolerates x t) tolerations)) [
          | inl fine ↦ fine
          | inr refused ↦
              let on = on_nodes-lookup nodes uid node t there has in
              let asked : has_key bought (taint_key t) ≡ true =
                bought-keys (taint_key t)
                ∙ lookup-wants (λ x. not (any (λ y. tolerates y x) tolerations)) coll t
                    (taint_key t) (collected t relevant on) (ground (arith, refused)) in
              let (u, found, lacks) =
                wants-lookup (λ x. not (contains node.taints x)) coll (taint_key t) unique
                  (sym (sold-keys (taint_key t)) ∙ offered (taint_key t) asked) in
              let (text, also, on_u) = entry u (taint_key t) found in
              let same : t ≡ u = one t u on on_u text in
              absurd (
                false≢true (
                  sym (subst (λ x. not (contains node.taints x) ≡ false) same (ground (arith, has)))
                  ∙ lacks))
        ]

    -- Let the SDK's builder succeed and keep the key, and take a node that the processor knows. A pod
    -- that tolerates every taint of the node that counts finds at the node all the taint commodities
    -- that it buys; and if no two taints of the nodes have the same text, it finds them
    -- there only if it tolerates those taints.
    pub placement :
        (uid : String)
        → lookup uid nodes ≡ some node
        → (Tolerated tolerations node → Offered sold bought)
          × (OneTextEach nodes → Offered sold bought → Tolerated tolerations node)
    placement uid there = (Tolerated-Offered, Offered-Tolerated uid there)

  -- The bug: `TimeAdded` is part of the key of the map. Where the nodes have two taints of the same
  -- text that count, a node that has one and not the other sells the commodity of the taint that it
  -- has, and a pod that does not tolerate the taint buys that commodity. The SDK's builder succeeds
  -- and keeps the key.
  pub same_text_sold :
      (node : Node) (tolerations : List Toleration) (t u : Taint) (sold bought : List CommodityDto)
      → create_taint_comms_sold build node coll ≡ some sold
      → create_taint_comms_bought build tolerates tolerations coll ≡ some bought
      → is_relevant t ≡ true
      → is_relevant u ≡ true
      → on_nodes nodes t ≡ true
      → on_nodes nodes u ≡ true
      → taint_key t ≡ taint_key u
      → contains node.taints t ≡ true
      → contains node.taints u ≡ false
      → tolerations_tolerate_taint tolerates tolerations t ≡ false
      → (has_key bought (taint_key t) ≡ true) × (has_key sold (taint_key t) ≡ true)
  same_text_sold node tolerations t u sold bought sells buys rt ru ot ou text has lacks refused = (
    bought-keys node tolerations sold bought sells buys (taint_key t)
        ∙ lookup-wants (λ x. not (any (λ y. tolerates y x) tolerations)) coll t (taint_key t)
            (collected t rt ot) (ground (arith, refused)),
    sold-keys node tolerations sold bought sells buys (taint_key t)
        ∙ lookup-wants (λ x. not (contains node.taints x)) coll u (taint_key t)
            (collected u ru ou ∙ ap some (sym text)) (ground (arith, lacks)),
  )
