-- ===== src/Compliance/Taints/Commodities.antt =====
-- The commodity loops of taint_toleration_processor.go in pkg/discovery/worker/compliance.
use kubeturbo.Prelude.{
  ◌≡◌, refl, ◌∙◌, ap, Bool, true, false, ◌&&◌, not, Option, some, List, [], ◌∷◌, String, ◌==◌,
  string_eq, any, arith, Bool-cases, inl, inr, subst,
}
use kubeturbo.Compliance.Dto.{CommodityDto}
use kubeturbo.Compliance.Taints.{
  Taint, taint_eq, TaintCollection, Node, contains, taint_comms, create_taint_comms_sold,
  create_taint_comms_bought,
}

-- Some commodity of the list has the key.
abbrev pub has_key : List CommodityDto → String → Bool
has_key comms key = any (λ c. c.key == key) comms

-- A commodity of the list for each key: no key twice.
abbrev pub DistinctKeys : List CommodityDto → Type 0
DistinctKeys [] = Unit {0}
DistinctKeys (c ∷ cs) = (has_key cs c.key ≡ false) × DistinctKeys cs

-- Some taint of the collection that passes the test has the key.
abbrev pub wants : (Taint → Bool) → TaintCollection → String → Bool
wants wanted coll key = any (λ p. wanted p.0 && p.1 == key) coll

-- The SDK's builder succeeds, and keeps the key that it is given.
abbrev pub Builds : (String → Option CommodityDto) → Type 0
Builds build = (key : String) → (c : CommodityDto) × (build key ≡ some c) × (c.key ≡ key)

module _ (build : String → Option CommodityDto) (builds : Builds build)
    (wanted : Taint → Bool) where
  taint_comms-fresh :
      (visited : List String) (t : Taint) (k : String) (coll : TaintCollection) (c : CommodityDto)
      (cs : List CommodityDto)
      → (not (contains visited k) && wanted t) ≡ true
      → build k ≡ some c
      → taint_comms build wanted (k ∷ visited) coll ≡ some cs
      → taint_comms build wanted visited ((t, k) ∷ coll) ≡ some (c ∷ cs)
  unfolding taint_comms
  taint_comms-fresh visited t k coll c cs fresh built e = ground arith

  taint_comms-stale :
      (visited : List String) (t : Taint) (k : String) (coll : TaintCollection)
      → (not (contains visited k) && wanted t) ≡ false
      → taint_comms build wanted visited ((t, k) ∷ coll) ≡ taint_comms build wanted visited coll
  unfolding taint_comms
  taint_comms-stale visited t k coll stale = ground arith

  abbrev Made : List String → TaintCollection → Type 0
  Made visited coll =
      (comms : List CommodityDto) × (taint_comms build wanted visited coll ≡ some comms)
      × ((key : String) → has_key comms key ≡ (not (contains visited key) && wants wanted coll key))
      × DistinctKeys comms

  -- How the keys change by one entry of the collection.
  fresh-keys :
      (visited : List String) (t : Taint) (k : String) (coll : TaintCollection) (c : CommodityDto)
      (cs : List CommodityDto) (key : String)
      → (not (contains visited k) && wanted t) ≡ true
      → c.key ≡ k
      → has_key cs key ≡ (not (contains (k ∷ visited) key) && wants wanted coll key)
      → has_key (c ∷ cs) key ≡ (not (contains visited key) && wants wanted ((t, k) ∷ coll) key)
  fresh-keys visited t k coll c cs key fresh same h = elim (Bool-cases (k == key)) [
    | inl hit ↦
        let e : k ≡ key = (string_eq.beq_iff k key).0 hit in
        subst
          (λ j. has_key (c ∷ cs) j ≡ (not (contains visited j) && wants wanted ((t, k) ∷ coll) j)) e
          (ground (arith, string_eq.beq_iff c.key k, string_eq.beq_iff k k))
    | inr miss ↦ ground (arith, string_eq.beq_iff c.key key, string_eq.beq_iff k key)
  ]

  stale-keys :
      (visited : List String) (t : Taint) (k : String) (coll : TaintCollection) (key : String)
      → (not (contains visited k) && wanted t) ≡ false
      → (not (contains visited key) && wants wanted coll key)
        ≡ (not (contains visited key) && wants wanted ((t, k) ∷ coll) key)
  stale-keys visited t k coll key stale = elim (Bool-cases (k == key)) [
    | inl hit ↦
        let e : k ≡ key = (string_eq.beq_iff k key).0 hit in
        subst
          (λ j.
            (not (contains visited j) && wants wanted coll j)
            ≡ (not (contains visited j) && wants wanted ((t, k) ∷ coll) j))
          e (ground arith)
    | inr miss ↦ ground (arith, miss)
  ]

  taint_comms-Made : (visited : List String) (coll : TaintCollection) → Made visited coll
  taint_comms-Made visited [] = ([], unfold taint_comms in refl, (λ key. ground arith), tt)
  taint_comms-Made visited ((t, k) ∷ coll) =
      let (c, built, same) = builds k in
      let (cs, e, keys, distinct) = taint_comms-Made (k ∷ visited) coll in
      let (cs', e', keys', distinct') = taint_comms-Made visited coll in
      elim (Bool-cases (not (contains visited k) && wanted t)) [
        | inl fresh ↦ (
          c ∷ cs,
          taint_comms-fresh visited t k coll c cs fresh built e,
          (λ key. fresh-keys visited t k coll c cs key fresh same (keys key)),
          (ap (has_key cs) same ∙ keys k ∙ ground (arith, string_eq.beq_iff k k), distinct),
        )
        | inr stale ↦ (
          cs',
          taint_comms-stale visited t k coll stale ∙ e',
          (λ key. keys' key ∙ stale-keys visited t k coll key stale),
          distinct',
        )
      ]

module _ (build : String → Option CommodityDto) (builds : Builds build)
    (coll : TaintCollection) where
  -- If the SDK's builder succeeds and keeps the key, a node sells one commodity for each key of a
  -- taint in the collection that the node does not have, and no others.
  pub create_taint_comms_sold-keys :
      (node : Node)
      → (comms : List CommodityDto) × (create_taint_comms_sold build node coll ≡ some comms)
        × ((key : String) → has_key comms key ≡ wants (λ t. not (contains node.taints t)) coll key)
        × DistinctKeys comms
  unfolding create_taint_comms_sold
  create_taint_comms_sold-keys node =
      let (cs, e, keys, distinct) =
        taint_comms-Made build builds (λ t. not (contains node.taints t)) [] coll in
      (cs, e, keys, distinct)

  -- If the SDK's builder succeeds and keeps the key, a pod buys one commodity for each key of a taint
  -- in the collection that the pod does not tolerate, and no others.
  pub create_taint_comms_bought-keys :
      {Toleration : Type 0} (tolerates : Toleration → Taint → Bool) (tolerations : List Toleration)
      → (comms : List CommodityDto) × (create_taint_comms_bought build tolerates tolerations coll
          ≡ some comms)
        × ((key : String)
            → has_key comms key ≡ wants (λ t. not (any (λ x. tolerates x t) tolerations)) coll key)
        × DistinctKeys comms
  unfolding create_taint_comms_bought
  create_taint_comms_bought-keys tolerates tolerations =
      taint_comms-Made build builds (λ t. not (any (λ x. tolerates x t) tolerations)) [] coll
