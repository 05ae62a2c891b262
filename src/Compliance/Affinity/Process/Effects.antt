-- ===== src/Compliance/Affinity/Process/Effects.antt =====
-- What ProcessAffinityRules of affinity_processor.go in pkg/discovery/worker/compliance makes every
-- entity sell and buy.
use kubeturbo.Prelude.{
  ℕ, ◌≡◌, refl, ◌∙◌, sym, ap, Bool, true, false, ◌&&◌, ◌||◌, Option, none, some, List, [], ◌∷◌,
  String, ◌==◌, string_eq, nat_eq, if◌then◌else◌, any, arith,
}
use kubeturbo.Compliance.Dto.{CommodityDto, Addr, virtual_machine, container_pod, has_commodity}
use kubeturbo.Compliance.Processor.{State, Result, ok, err, get_entity_dto}
use kubeturbo.Compliance.Processor.Grouping.{find, found, found-get_entity_dto}
use kubeturbo.Compliance.Affinity.Process.Adds.{
  Indexed, Adds, no_sells, no_takes, Adds-none, Adds-trans, Adds-map, Adds-Indexed,
  add_commodities_sold-Adds, add_commodities_bought-Adds,
}
use kubeturbo.Compliance.Affinity.Process.{
  Node, add_commodity_sold_by_node, add_commodity_bought_by_pod, is_empty, provider_node,
  add_affinity_access_commodities, match_nodes,
}

-- The entity that was found is the one at the address.
abbrev pub at_addr : Option Addr → Addr → Bool
at_addr none b = false
at_addr (some a) b = b == a

Indexed-own :
    (s : State) (t : ℕ) (i : String) (a : Addr)
    → Indexed s
    → find s.entity_maps t i ≡ some a
    → find s.entity_maps (s.heap a).entity_type (s.heap a).id ≡ some a
Indexed-own s t i a h e =
    let (type, id) = h t i a e in (λ k. find s.entity_maps (type k) (id k)) ∙ e

add_commodity_sold_by_node-Adds :
    (s : State) (node : Node) (comms : List CommodityDto)
    → Indexed s
    → Adds s
        (add_commodity_sold_by_node s node comms)
        (λ b d. at_addr (find s.entity_maps virtual_machine node.uid) b && has_commodity comms d)
        no_takes
unfolding add_commodity_sold_by_node
add_commodity_sold_by_node-Adds s node comms h =
    go (get_entity_dto s.entity_maps virtual_machine node.uid) refl
      (found-get_entity_dto s.entity_maps virtual_machine node.uid)
  where
    go :
        (r : Result Addr)
        → get_entity_dto s.entity_maps virtual_machine node.uid ≡ r
        → found (get_entity_dto s.entity_maps virtual_machine node.uid)
          ≡ find s.entity_maps virtual_machine node.uid
        → Adds s
            (add_commodity_sold_by_node s node comms)
            (λ b d.
              at_addr (find s.entity_maps virtual_machine node.uid) b && has_commodity comms d)
            no_takes
    go (err e) er same =
        let absent : find s.entity_maps virtual_machine node.uid ≡ none = sym same ∙ ap found er in
        rw (er, add_commodity_sold_by_node)
          (Adds-map (Adds-none s) (λ a d. rw absent refl) (λ a j d. refl))
    go (ok a) er same =
        let there : find s.entity_maps virtual_machine node.uid ≡ some a = sym same ∙ ap found er in
        rw (er, add_commodity_sold_by_node)
          (Adds-map
            (add_commodities_sold-Adds s a (Indexed-own s virtual_machine node.uid a h there) comms)
            (λ b d. rw there refl) (λ b j d. ground arith))

add_commodity_bought_by_pod-Adds :
    (s : State) (pod_uid : String) (node : Node) (comms : List CommodityDto)
    → Indexed s
    → Adds s (add_commodity_bought_by_pod s pod_uid node comms) no_sells (λ b j d.
      at_addr (find s.entity_maps container_pod pod_uid) b
      && (node.uid == j && has_commodity comms d))
unfolding add_commodity_bought_by_pod
add_commodity_bought_by_pod-Adds s pod_uid node comms h =
    go (get_entity_dto s.entity_maps container_pod pod_uid) refl
      (found-get_entity_dto s.entity_maps container_pod pod_uid)
  where
    go :
        (r : Result Addr)
        → get_entity_dto s.entity_maps container_pod pod_uid ≡ r
        → found (get_entity_dto s.entity_maps container_pod pod_uid)
          ≡ find s.entity_maps container_pod pod_uid
        → Adds s (add_commodity_bought_by_pod s pod_uid node comms) no_sells (λ b j d.
          at_addr (find s.entity_maps container_pod pod_uid) b
          && (node.uid == j && has_commodity comms d))
    go (err e) er same =
        let absent : find s.entity_maps container_pod pod_uid ≡ none = sym same ∙ ap found er in
        rw (er, add_commodity_bought_by_pod)
          (Adds-map (Adds-none s) (λ a d. refl) (λ a j d. rw absent refl))
    go (ok a) er same =
        let there : find s.entity_maps container_pod pod_uid ≡ some a = sym same ∙ ap found er in
        rw (er, add_commodity_bought_by_pod)
          (Adds-map
            (add_commodities_bought-Adds s a (Indexed-own s container_pod pod_uid a h there)
              (record { provider_type = virtual_machine; id = node.uid }) comms)
            (λ b d. ground arith) (λ b j d. rw there refl))

has_commodity_nil : (d : CommodityDto) → has_commodity [] d ≡ false
unfolding has_commodity
has_commodity_nil d = refl

sold_step :
    (s : State) (node : Node) (comms : List CommodityDto)
    → Indexed s
    → Adds s
        (if is_empty comms then s else add_commodity_sold_by_node s node comms)
        (λ b d. at_addr (find s.entity_maps virtual_machine node.uid) b && has_commodity comms d)
        no_takes
sold_step s node [] h =
    Adds-map (Adds-none s) (λ b d. ground (arith, has_commodity_nil d)) (λ b j d. refl)
sold_step s node (c ∷ cs) h = add_commodity_sold_by_node-Adds s node (c ∷ cs) h

bought_step :
    (s : State) (pod_uid : String) (node : Node) (comms : List CommodityDto)
    → Indexed s
    → Adds s
        (if is_empty comms then s else add_commodity_bought_by_pod s pod_uid node comms)
        no_sells
        (λ b j d.
          at_addr (find s.entity_maps container_pod pod_uid) b
          && (node.uid == j && has_commodity comms d))
bought_step s pod_uid node [] h =
    Adds-map (Adds-none s) (λ b d. refl) (λ b j d. ground (arith, has_commodity_nil d))
bought_step s pod_uid node (c ∷ cs) h = add_commodity_bought_by_pod-Adds s pod_uid node (c ∷ cs) h

add_affinity_access_commodities-Adds :
    (s : State) (pod_uid : String) (node : Node) (hosting : Option Node)
    (sold bought : List CommodityDto)
    → Indexed s
    → Adds s
        (add_affinity_access_commodities s pod_uid node hosting sold bought)
        (λ b d. at_addr (find s.entity_maps virtual_machine node.uid) b && has_commodity sold d)
        (λ b j d.
          at_addr (find s.entity_maps container_pod pod_uid) b
          && ((provider_node hosting node).uid == j && has_commodity bought d))
unfolding add_affinity_access_commodities
add_affinity_access_commodities-Adds s pod_uid node hosting sold bought h =
    let first = sold_step s node sold h in
    let s' = if is_empty sold then s else add_commodity_sold_by_node s node sold in
    let second =
      bought_step s' pod_uid (provider_node hosting node) bought (Adds-Indexed first h) in
    Adds-map (Adds-trans first second) (λ b d. ground arith)
      (λ b j d. rw (first.finds container_pod pod_uid) refl)

-- Whom the pod buys from on account of a node: the node that it runs on, or that node if it runs on none.
abbrev pub seller : Option Node → Node → String
seller none n = n.uid
seller (some hosting) n = hosting.uid

provider_node-seller :
    (hosting : Option Node) (n : Node) → (provider_node hosting n).uid ≡ seller hosting n
provider_node-seller none n = refl
provider_node-seller (some h) n = refl

-- The Booleans of two steps at one node and those of the nodes behind it.
sells_join : (a x y r : Bool) → (((a && x) || (a && y)) || r) ≡ ((a && (x || y)) || r)
sells_join true x y r = refl
sells_join false x y r = refl

takes_join :
    (a u x y r : Bool)
    → (((a && (u && x)) || (a && (u && y))) || (a && r)) ≡ (a && ((u && (x || y)) || r))
takes_join false u x y r = refl
takes_join true true x y r = refl
takes_join true false x y r = refl

guarded_step :
    (f : ℕ → String → Option Addr) (holds : Bool) (s : State) (pod_uid : String) (node : Node)
    (hosting : Option Node) (sold bought : List CommodityDto)
    → Indexed s
    → ((t : ℕ) (i : String) → find s.entity_maps t i ≡ f t i)
    → Adds s
        (if holds then add_affinity_access_commodities s pod_uid node hosting sold bought else s)
        (λ b d. at_addr (f virtual_machine node.uid) b && (holds && has_commodity sold d))
        (λ b j d.
          at_addr (f container_pod pod_uid) b
          && (seller hosting node == j && (holds && has_commodity bought d)))
guarded_step f true s pod_uid node hosting sold bought h same =
    Adds-map (add_affinity_access_commodities-Adds s pod_uid node hosting sold bought h)
      (λ b d. rw (same virtual_machine node.uid) refl)
      (λ b j d. rw (same container_pod pod_uid) (
        ap (λ u. at_addr (f container_pod pod_uid) b && (u == j && has_commodity bought d))
          (provider_node-seller hosting node)))
guarded_step f false s pod_uid node hosting sold bought h same =
    Adds-map (Adds-none s) (λ b d. ground arith) (λ b j d. ground arith)

module _ (by_node by_pods : Node → Bool) (pod_uid : String) (hosting : Option Node)
    (node_comms pod_comms : List CommodityDto × List CommodityDto) where
  -- The commodities of the rules that hold at the node, as sold and as bought.
  abbrev pub offers : Node → CommodityDto → Bool
  offers n d =
      (by_node n && has_commodity node_comms.0 d) || (by_pods n && has_commodity pod_comms.0 d)

  abbrev pub asks : Node → CommodityDto → Bool
  asks n d =
      (by_node n && has_commodity node_comms.1 d) || (by_pods n && has_commodity pod_comms.1 d)

  -- Over a list of nodes: each sells what it offers, and the pod buys what any of them asks, from its
  -- host, or from the node itself if it has none.
  abbrev pub match_sells : (ℕ → String → Option Addr) → List Node → Addr → CommodityDto → Bool
  match_sells f nodes b d = any (λ n. at_addr (f virtual_machine n.uid) b && offers n d) nodes

  abbrev pub match_takes :
      (ℕ → String → Option Addr) → List Node → Addr → String → CommodityDto → Bool
  match_takes f nodes b j d =
      at_addr (f container_pod pod_uid) b && any (λ n. seller hosting n == j && asks n d) nodes

  pub match_nodes-Adds :
      (f : ℕ → String → Option Addr) (s : State) (nodes : List Node)
      → Indexed s
      → ((t : ℕ) (i : String) → find s.entity_maps t i ≡ f t i)
      → Adds s
          (match_nodes by_node by_pods pod_uid hosting node_comms pod_comms s nodes)
          (match_sells f nodes)
          (match_takes f nodes)
  unfolding match_nodes
  match_nodes-Adds f s [] h same = Adds-map (Adds-none s) (λ b d. refl) (λ b j d. ground arith)
  match_nodes-Adds f s (n ∷ nodes) h same =
      let one = guarded_step f (by_node n) s pod_uid n hosting node_comms.0 node_comms.1 h same in
      let h' = Adds-Indexed one h in
      let s' =
        if by_node n
        then add_affinity_access_commodities s pod_uid n hosting node_comms.0 node_comms.1
        else s in
      let same' : (t : ℕ) (i : String) → find s'.entity_maps t i ≡ f t i =
        λ t i. one.finds t i ∙ same t i in
      let two = guarded_step f (by_pods n) s' pod_uid n hosting pod_comms.0 pod_comms.1 h' same' in
      let s'' =
        if by_pods n
        then add_affinity_access_commodities s' pod_uid n hosting pod_comms.0 pod_comms.1
        else s' in
      let same'' : (t : ℕ) (i : String) → find s''.entity_maps t i ≡ f t i =
        λ t i. two.finds t i ∙ same' t i in
      let rest = match_nodes-Adds f s'' nodes (Adds-Indexed two h') same'' in
      Adds-map (Adds-trans (Adds-trans one two) rest)
        (λ b d.
          sells_join (at_addr (f virtual_machine n.uid) b)
            (by_node n && has_commodity node_comms.0 d) (by_pods n && has_commodity pod_comms.0 d)
            (match_sells f nodes b d))
        (λ b j d.
          takes_join (at_addr (f container_pod pod_uid) b) (seller hosting n == j)
            (by_node n && has_commodity node_comms.1 d) (by_pods n && has_commodity pod_comms.1 d)
            (any (λ m. seller hosting m == j && asks m d) nodes))
