-- ===== src/Compliance/Processor/Bought.antt =====
-- AddCommoditiesBought of pkg/discovery/worker/compliance/compliance_processor.go.
use kubeturbo.Prelude.{
  ◌≡◌, ◌≢◌, refl, ◌∙◌, ap, Bool, false, ◌&&◌, ◌||◌, some, List, [], ◌∷◌, ◌++◌, String, ◌==◌, nat_eq,
  string_eq, arith, if◌then◌else◌, Bool-cases, inl, inr,
}
use kubeturbo.Compliance.Dto.{
  CommodityDto, CommodityBought, EntityDto, Addr, Heap, update, has_commodity,
}
use kubeturbo.Compliance.Processor.Grouping.{heap-update_entity_dto}
use kubeturbo.Compliance.Processor.Sold.{has_commodity-add_missing}
use kubeturbo.Compliance.Processor.{State, Provider, buy_from, has_provider, add_commodities_bought}

-- The entity buys a commodity of that type and key from the provider.
abbrev pub buys : String → List CommodityBought → CommodityDto → Bool
buys id [] d = false
buys id (b ∷ bs) d = (b.provider_id == id && has_commodity b.bought d) || buys id bs d

buys-append :
    (id : String) (xs ys : List CommodityBought) (d : CommodityDto)
    → buys id (xs ++ ys) d ≡ (buys id xs d || buys id ys d)
buys-append id [] ys d = refl
buys-append id (x ∷ xs) ys d = ground (arith, buys-append id xs ys d)

buys-buy_from :
    (id j : String) (cs : List CommodityDto) (bs : List CommodityBought) (d : CommodityDto)
    → buys j (buy_from id cs bs) d
      ≡ (buys j bs d || (id == j && has_provider id bs && has_commodity cs d))
unfolding buy_from
buys-buy_from id j cs [] d = ground arith
buys-buy_from id j cs (b ∷ bs) d = ground (
  arith,
  string_eq.beq_iff id j,
  string_eq.beq_iff b.provider_id id,
  string_eq.beq_iff b.provider_id j,
  has_commodity-add_missing b.bought cs d,
  buys-buy_from id j cs bs d,
)

module _ (s : State) (a : Addr) (p : Provider) (cs : List CommodityDto) where
  abbrev pub bought : List CommodityBought
  bought = (s.heap a).commodities_bought

  abbrev pub from_provider : CommodityBought
  from_provider = record { provider_id = p.id; provider_type = p.provider_type; bought = cs }

  abbrev pub bought_after : List CommodityBought
  bought_after =
      if has_provider p.id bought
      then buy_from p.id cs bought
      else buy_from p.id cs bought ++ from_provider ∷ []

  pub heap-add_commodities_bought :
      (b : Addr)
      → (add_commodities_bought s (some a) (some p) (some cs)).0.heap b
        ≡ update s.heap a (record (s.heap a) { commodities_bought = bought_after }) b
  unfolding add_commodities_bought
  heap-add_commodities_bought b = elim (Bool-cases (has_provider p.id bought)) [
    | inl there ↦ rw there refl
    | inr new ↦ rw new (ap (λ (h : Heap). h b) (heap-update_entity_dto _ a))
  ]

  -- After `AddCommoditiesBought` the entity buys from the provider what it bought from it and what
  -- was asked for, told apart by type and key, and from every other provider what it bought before.
  -- What it sells and all other entities are left alone. All this holds also where it reports an
  -- error.
  pub add_commodities_bought-union :
      let e = s.heap a in
      let t = (add_commodities_bought s (some a) (some p) (some cs)).0 in
      ((j : String) (d : CommodityDto)
        → buys j (t.heap a).commodities_bought d
          ≡ (buys j e.commodities_bought d || (p.id == j && has_commodity cs d)))
      × ((t.heap a).commodities_sold ≡ e.commodities_sold)
      × ((b : Addr) → b ≢ a → t.heap b ≡ s.heap b)
  add_commodities_bought-union =
      let e : EntityDto = record (s.heap a) { commodities_bought = bought_after } in
      let same : (add_commodities_bought s (some a) (some p) (some cs)).0.heap a ≡ e =
        heap-add_commodities_bought a ∙ ground arith in
      (
        (λ j d.
            ap (λ (x : EntityDto). buys j x.commodities_bought d) same
            ∙ elim (Bool-cases (has_provider p.id bought)) [
              | inl there ↦ rw there (buys-buy_from p.id j cs bought d ∙ ground (arith, there))
              | inr new ↦ rw new (
                  buys-append j (buy_from p.id cs bought) (from_provider ∷ []) d
                  ∙ ground (arith, new, buys-buy_from p.id j cs bought d))
            ]),
        ap (λ (x : EntityDto). x.commodities_sold) same,
        (λ b other. heap-add_commodities_bought b ∙ ground arith),
      )
