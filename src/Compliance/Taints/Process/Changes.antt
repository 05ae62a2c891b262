-- ===== src/Compliance/Taints/Process/Changes.antt =====
-- The commodities that `Process` of taint_toleration_processor.go in pkg/discovery/worker/compliance
-- adds to each entity.
use mathlib.Core.List.{append-nil}
use kubeturbo.Prelude.{
  ◌≡◌, ◌≢◌, refl, sym, ◌∙◌, ap, subst, ◌⊎◌, Bool, true, false, ◌||◌, not, Option, none, some, List,
  [], ◌∷◌, ◌++◌, String, ◌==◌, nat_eq, string_eq, any, arith, All, Bool-cases, inl, inr, false≢true,
}
use kubeturbo.Prelude.Dict.{lookup}
use kubeturbo.Compliance.Dto.{CommodityDto, CommodityBought, EntityDto, Addr, Heap}
use kubeturbo.Compliance.Taints.{
  Taint, taint_eq, TaintCollection, Node, get_taint_collection, contains,
}
use kubeturbo.Compliance.Taints.Commodities.{
  has_key, DistinctKeys, wants, Builds, create_taint_comms_sold-keys,
  create_taint_comms_bought-keys,
}
use kubeturbo.Compliance.Taints.Process.{
  Pod, TaintTolerationProcessor, buy_at_first, pod_buys_commodities, sell_taints, buy_taints,
  process,
}
use kubeturbo.Compliance.Taints.Process.Effects.{
  Nodup, is_node, is_running_pod, processed, process-processed,
}

-- The first entry of the provider has the commodities at its end, and nothing else changes.
abbrev pub BuysAt : String → List CommodityDto → (old new : List CommodityBought) → Type 0
BuysAt provider comms old new =
    (All (λ b. b.provider_id ≢ provider) old × (new ≡ old))
    ⊎ ((before : List CommodityBought) × (b : CommodityBought) × (after : List CommodityBought)
        × All (λ x. x.provider_id ≢ provider) before
        × (b.provider_id ≡ provider)
        × (old ≡ before ++ (b ∷ after))
        × (new ≡ before ++ (record b { bought = b.bought ++ comms } ∷ after)))

buy_at_first-BuysAt :
    (provider : String) (comms : List CommodityDto) (bs : List CommodityBought)
    → BuysAt provider comms bs (buy_at_first provider comms bs)
unfolding buy_at_first
buy_at_first-BuysAt provider comms [] = inl (tt, refl)
buy_at_first-BuysAt provider comms (b ∷ bs) = elim (Bool-cases (b.provider_id == provider)) [
  | inl here ↦ inr (
    [],
    b,
    bs,
    tt,
    (string_eq.beq_iff b.provider_id provider).0 here,
    refl,
    rw (here, buy_at_first) refl,
  )
  | inr other ↦
      let differs : b.provider_id ≢ provider =
        λ e. false≢true (sym other ∙ (string_eq.beq_iff b.provider_id provider).1 e) in
      elim (buy_at_first-BuysAt provider comms bs) [
        | inl (nowhere, same) ↦
            inl ((differs, nowhere), rw (other, buy_at_first) (ap (λ l. b ∷ l) same))
        | inr (before, x, after, early, at, was, is_now) ↦ inr (
          b ∷ before,
          x,
          after,
          (differs, early),
          at,
          ap (λ l. b ∷ l) was,
          rw (other, buy_at_first) (ap (λ l. b ∷ l) is_now),
        )
      ]
]

buy_at_first_nothing :
    (provider : String) (bs : List CommodityBought) → buy_at_first provider [] bs ≡ bs
unfolding buy_at_first
buy_at_first_nothing provider [] = refl
buy_at_first_nothing provider (b ∷ bs) = elim (Bool-cases (b.provider_id == provider)) [
  | inl here ↦ rw (here, buy_at_first) (λ i. record b { bought = append-nil b.bought i } ∷ bs)
  | inr other ↦ rw (other, buy_at_first) (ap (λ l. b ∷ l) (buy_at_first_nothing provider bs))
]

pod_buys_commodities-buys :
    (e : EntityDto) (comms : List CommodityDto) (provider : String)
    → pod_buys_commodities e comms provider
      ≡ record e { commodities_bought = buy_at_first provider comms e.commodities_bought }
unfolding pod_buys_commodities
pod_buys_commodities-buys e [] provider = λ i. record e {
  commodities_bought = sym (buy_at_first_nothing provider e.commodities_bought) i;
}
pod_buys_commodities-buys e (c ∷ cs) provider = refl

module _ {Toleration : Type 0} (build : String → Option CommodityDto) (builds : Builds build)
    (tolerates : Toleration → Taint → Bool) (p : TaintTolerationProcessor Toleration) where
  abbrev taints : TaintCollection
  taints = get_taint_collection p.nodes

  -- The entity sells at the end of its list, if its node is known, one commodity for each key of a
  -- taint that the node does not have.
  abbrev pub Sells : Option Node → EntityDto → EntityDto → Type 0
  Sells none e e' = e' ≡ e
  Sells (some node) e e' =
      (comms : List CommodityDto) × (e'
        ≡ record e { commodities_sold = e.commodities_sold ++ comms })
      × ((key : String) → has_key comms key ≡ wants (λ t. not (contains node.taints t)) taints key)
      × DistinctKeys comms

  abbrev pub BuysFrom : List Toleration → Option String → EntityDto → EntityDto → Type 0
  BuysFrom tolerations none e e' = e' ≡ e
  BuysFrom tolerations (some provider) e e' =
      (comms : List CommodityDto) × (new : List CommodityBought) × (e'
        ≡ record e { commodities_bought = new })
      × BuysAt provider comms e.commodities_bought new
      × ((key : String)
          → has_key comms key ≡ wants (λ t. not (any (λ x. tolerates x t) tolerations)) taints key)
      × DistinctKeys comms

  -- The entity buys from its provider, if the pod and the UID of its node are known, one commodity for
  -- each key of a taint that the pod does not tolerate.
  abbrev pub Buys : Option (Pod Toleration) → EntityDto → EntityDto → Type 0
  Buys none e e' = e' ≡ e
  Buys (some pod) e e' = BuysFrom pod.tolerations (lookup pod.node_name p.node_name_to_uid) e e'

  sell_taints-Sells :
      (e : EntityDto) (found : Option Node)
      → lookup e.id p.nodes ≡ found
      → Sells found e (sell_taints build tolerates p.nodes taints e)
  unfolding sell_taints
  sell_taints-Sells e none at = rw (at, sell_taints) refl
  sell_taints-Sells e (some node) at =
      let (comms, made, keys, distinct) = create_taint_comms_sold-keys build builds taints node in
      (comms, rw (at, sell_taints) (rw made refl), keys, distinct)

  buy_taints-BuysFrom :
      (e : EntityDto) (pod : Pod Toleration) (found : Option String)
      → lookup e.id p.pods ≡ some pod
      → lookup pod.node_name p.node_name_to_uid ≡ found
      → BuysFrom pod.tolerations found e
          (buy_taints build tolerates p.pods p.node_name_to_uid taints e)
  unfolding buy_taints
  buy_taints-BuysFrom e pod none known at = rw (known, buy_taints) (rw at refl)
  buy_taints-BuysFrom e pod (some provider) known at =
      let (comms, made, keys, distinct) =
        create_taint_comms_bought-keys build builds taints tolerates pod.tolerations in
      (
        comms,
        buy_at_first provider comms e.commodities_bought,
        rw (known, buy_taints) (rw at (rw made (pod_buys_commodities-buys e comms provider))),
        buy_at_first-BuysAt provider comms e.commodities_bought,
        keys,
        distinct,
      )

  buy_taints-Buys :
      (e : EntityDto) (found : Option (Pod Toleration))
      → lookup e.id p.pods ≡ found
      → Buys found e (buy_taints build tolerates p.pods p.node_name_to_uid taints e)
  unfolding buy_taints
  buy_taints-Buys e none at = rw (at, buy_taints) refl
  buy_taints-Buys e (some pod) at =
      buy_taints-BuysFrom e pod (lookup pod.node_name p.node_name_to_uid) at refl

  -- What becomes of an entity of the list: a VM sells, a pod that is powered on buys, and all others
  -- stay as they are.
  abbrev pub Changes : EntityDto → EntityDto → Type 0
  Changes e e' =
      (is_node e ≡ true → Sells (lookup e.id p.nodes) e e')
      × (is_running_pod e ≡ true → Buys (lookup e.id p.pods) e e')
      × ((is_node e || is_running_pod e) ≡ false → e' ≡ e)

  processed_vm :
      (e : EntityDto)
      → is_node e ≡ true
      → processed build tolerates p e ≡ sell_taints build tolerates p.nodes taints e
  processed_vm e vm = ground (arith, vm)

  processed_pod :
      (e : EntityDto)
      → is_running_pod e ≡ true
      → processed build tolerates p e
        ≡ buy_taints build tolerates p.pods p.node_name_to_uid taints e
  processed_pod e running = ground (arith, running)

  processed_other :
      (e : EntityDto) → (is_node e || is_running_pod e) ≡ false → processed build tolerates p e ≡ e
  processed_other e other = ground (arith, other)

  processed-Changes : (e : EntityDto) → Changes e (processed build tolerates p e)
  processed-Changes e = (
    λ vm.
        subst (λ x. Sells (lookup e.id p.nodes) e x) (sym (processed_vm e vm))
          (sell_taints-Sells e (lookup e.id p.nodes) refl),
    λ running.
        subst (λ x. Buys (lookup e.id p.pods) e x) (sym (processed_pod e running))
          (buy_taints-Buys e (lookup e.id p.pods) refl),
    λ other. processed_other e other,
  )

  -- `Process` changes the entities of a list without repetitions each once, and no others. To a VM
  -- whose node is known it adds, at the end of what it sells, one commodity for each key of a taint
  -- of the nodes that counts and that the node does not have. To a ContainerPod that is powered on,
  -- not a VM, whose pod and the UID of whose node are known, it adds, at the end of what it
  -- buys from the first entry of that provider, if there is one, one commodity for each key of
  -- such a taint that the pod does not tolerate. All else stays as it is. The SDK's builder succeeds
  -- and keeps the key.
  pub process-Changes :
      (heap : Heap) (entity_dtos : List Addr) (b : Addr)
      → Nodup entity_dtos
      → let after = process build tolerates p heap entity_dtos in
        (contains entity_dtos b ≡ true → Changes (heap b) (after b))
        × (contains entity_dtos b ≡ false → after b ≡ heap b)
  process-Changes heap l b u =
      let each = process-processed build tolerates p heap l b u in
      (
        λ listed.
            subst (λ e. Changes (heap b) e) (sym (each ∙ rw listed refl))
              (processed-Changes (heap b)),
        λ out. each ∙ rw out refl,
      )
