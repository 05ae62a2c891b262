-- ===== src/Compliance/Processor/Sold.antt =====
-- AddCommoditiesSold of pkg/discovery/worker/compliance/compliance_processor.go: a set of
-- commodities, told apart by type and key.
use kubeturbo.Prelude.{
  ◌≡◌, ◌≢◌, refl, ◌∙◌, sym, ap, ◌↔◌, true, false, ◌||◌, none, some, List, [], ◌∷◌, ◌++◌, nat_eq,
  string_eq, All, arith, Bool-cases, inl, inr, subst, Option-cases,
}
use kubeturbo.Compliance.Dto.{
  CommodityDto, EntityDto, Addr, Heap, update, same_commodity, has_commodity,
}
use kubeturbo.Compliance.Processor.Grouping.{
  find, heap-update_entity_dto, update_entity_dto_known, update_entity_dto_unknown,
}
use kubeturbo.Compliance.Processor.{State, add_missing, add_commodities_sold}

same_commodity_iff :
    (a b : CommodityDto)
    → (same_commodity a b ≡ true) ↔ ((a.commodity_type ≡ b.commodity_type) × (a.key ≡ b.key))
same_commodity_iff a b = (
  λ h. ground (arith, string_eq.beq_iff a.key b.key),
  λ (t, k). ground (arith, string_eq.beq_iff a.key b.key),
)

has_commodity-append :
    (xs ys : List CommodityDto) (d : CommodityDto)
    → has_commodity (xs ++ ys) d ≡ (has_commodity xs d || has_commodity ys d)
unfolding has_commodity
has_commodity-append [] ys d = refl
has_commodity-append (x ∷ xs) ys d = ground (arith, has_commodity-append xs ys d)

has_commodity-cons :
    (c : CommodityDto) (cs : List CommodityDto) (d : CommodityDto)
    → has_commodity (c ∷ cs) d ≡ (same_commodity d c || has_commodity cs d)
unfolding has_commodity
has_commodity-cons c cs d = refl

has_commodity-singleton : (c d : CommodityDto) → has_commodity (c ∷ []) d ≡ same_commodity d c
unfolding has_commodity
has_commodity-singleton c d = ground arith

-- The test sees only the type and the key.
has_commodity_congr :
    (xs : List CommodityDto) (c d : CommodityDto)
    → same_commodity c d ≡ true
    → has_commodity xs c ≡ has_commodity xs d
unfolding has_commodity
has_commodity_congr [] c d h = refl
has_commodity_congr (x ∷ xs) c d h = ground (
  arith,
  string_eq.beq_iff c.key d.key,
  string_eq.beq_iff c.key x.key,
  string_eq.beq_iff d.key x.key,
  has_commodity_congr xs c d h,
)

same_commodity_comm : (a b : CommodityDto) → same_commodity a b ≡ same_commodity b a
same_commodity_comm a b =
    ground (arith, string_eq.beq_iff a.key b.key, string_eq.beq_iff b.key a.key)

pub has_commodity-add_missing :
    (xs cs : List CommodityDto) (d : CommodityDto)
    → has_commodity (add_missing xs cs) d ≡ (has_commodity xs d || has_commodity cs d)
unfolding add_missing
has_commodity-add_missing xs [] d = unfold has_commodity in ground arith
has_commodity-add_missing xs (c ∷ cs) d = elim (Bool-cases (has_commodity xs c)) [
  | inl old ↦ rw old (
      has_commodity-add_missing xs cs d
      ∙ ground (
        arith,
        old,
        has_commodity-cons c cs d,
        has_commodity_congr xs c d,
        same_commodity_comm c d,
      ))
  | inr new ↦ rw new (
      has_commodity-add_missing (xs ++ c ∷ []) cs d
      ∙ ground (
        arith,
        has_commodity-append xs (c ∷ []) d,
        has_commodity-singleton c d,
        has_commodity-cons c cs d,
      ))
]

-- No two commodities have the same type and key.
abbrev pub Distinct : List CommodityDto → Type 0
Distinct [] = Unit {0}
Distinct (x ∷ xs) = (has_commodity xs x ≡ false) × Distinct xs

Distinct-snoc :
    (xs : List CommodityDto) (c : CommodityDto)
    → Distinct xs
    → has_commodity xs c ≡ false
    → Distinct (xs ++ c ∷ [])
Distinct-snoc [] c h new = (unfold has_commodity in refl, tt)
Distinct-snoc (x ∷ xs) c h new = ground (
  arith,
  h.0,
  has_commodity-append xs (c ∷ []) x,
  has_commodity-singleton c x,
  has_commodity-cons x xs c,
  same_commodity_comm c x,
  Distinct-snoc xs c h.1,
)

pub add_missing-Distinct : (xs cs : List CommodityDto) → Distinct xs → Distinct (add_missing xs cs)
unfolding add_missing
add_missing-Distinct xs [] h = h
add_missing-Distinct xs (c ∷ cs) h = elim (Bool-cases (has_commodity xs c)) [
  | inl old ↦ rw old (add_missing-Distinct xs cs h)
  | inr new ↦ rw new (add_missing-Distinct (xs ++ c ∷ []) cs (Distinct-snoc xs c h new))
]

add_missing-All :
    (xs cs : List CommodityDto) → All (λ c. has_commodity xs c ≡ true) cs → add_missing xs cs ≡ xs
unfolding add_missing
add_missing-All xs [] h = refl
add_missing-All xs (c ∷ cs) h = rw h.0 (add_missing-All xs cs h.1)

All-has_commodity :
    (ys cs : List CommodityDto)
    → ((d : CommodityDto) → has_commodity cs d ≡ true → has_commodity ys d ≡ true)
    → All (λ c. has_commodity ys c ≡ true) cs
All-has_commodity ys [] h = tt
All-has_commodity ys (c ∷ cs) h = (
  h c (has_commodity-cons c cs c ∙ ground (arith, string_eq.beq_iff c.key c.key)),
  All-has_commodity ys cs λ d e. h d (has_commodity-cons c cs d ∙ ground (arith, e)),
)

-- Adding the same commodities again adds nothing.
pub add_missing_idem :
    (xs cs : List CommodityDto) → add_missing (add_missing xs cs) cs ≡ add_missing xs cs
add_missing_idem xs cs = add_missing-All (add_missing xs cs) cs (
    All-has_commodity (add_missing xs cs) cs
      λ d e. has_commodity-add_missing xs cs d ∙ ground (arith, e))

pub update_self : (heap : Heap) (a : Addr) (e : EntityDto) → update heap a e a ≡ e
update_self heap a e = ground arith

module _ (s : State) (a : Addr) (cs : List CommodityDto) where
  abbrev pub sold : List CommodityDto
  sold = (s.heap a).commodities_sold

  pub heap-add_commodities_sold :
      (b : Addr)
      → (add_commodities_sold s (some a) (some cs)).0.heap b
        ≡ update s.heap a (record (s.heap a) { commodities_sold = add_missing sold cs }) b
  unfolding add_commodities_sold
  heap-add_commodities_sold b = ap (λ (h : Heap). h b) (heap-update_entity_dto _ a)

  -- `AddCommoditiesSold` makes the commodities sold by the entity the union of what it sold and what
  -- was asked for, told apart by type and key, with no commodity twice if there was none twice
  -- before. It leaves the rest of the entity and all other entities alone. All this holds also where
  -- it reports an error.
  pub add_commodities_sold-union :
      let e = s.heap a in
      let e' = (add_commodities_sold s (some a) (some cs)).0.heap a in
      ((d : CommodityDto)
        → has_commodity e'.commodities_sold d
          ≡ (has_commodity e.commodities_sold d || has_commodity cs d))
      × (Distinct e.commodities_sold → Distinct e'.commodities_sold)
      × (e'.commodities_bought ≡ e.commodities_bought)
      × ((e'.entity_type ≡ e.entity_type) × (e'.id ≡ e.id) × (e'.powered_on ≡ e.powered_on))
      × ((b : Addr) → b ≢ a → (add_commodities_sold s (some a) (some cs)).0.heap b ≡ s.heap b)
  add_commodities_sold-union =
      let e : EntityDto = record (s.heap a) { commodities_sold = add_missing sold cs } in
      let same : (add_commodities_sold s (some a) (some cs)).0.heap a ≡ e =
        heap-add_commodities_sold a ∙ ground arith in
      (
        (λ d.
            ap (λ (x : EntityDto). has_commodity x.commodities_sold d) same
            ∙ has_commodity-add_missing sold cs d),
        (λ h.
            subst (λ (x : EntityDto). Distinct x.commodities_sold) (sym same)
              (add_missing-Distinct sold cs h)),
        ap (λ (x : EntityDto). x.commodities_bought) same,
        (
          ap (λ (x : EntityDto). x.entity_type) same,
          ap (λ (x : EntityDto). x.id) same,
          ap (λ (x : EntityDto). x.powered_on) same,
        ),
        (λ b other. heap-add_commodities_sold b ∙ ground arith),
      )

  -- It reports no error exactly if the entity's type and id are in the maps.
  pub add_commodities_sold-error :
      ((add_commodities_sold s (some a) (some cs)).1 ≡ none)
      ↔ ((b : Addr) × (find s.entity_maps (s.heap a).entity_type (s.heap a).id ≡ some b))
  unfolding add_commodities_sold
  add_commodities_sold-error =
      let e : EntityDto = record (s.heap a) { commodities_sold = add_missing sold cs } in
      let t : State = record s { heap = update s.heap a e } in
      let kept : find s.entity_maps (t.heap a).entity_type (t.heap a).id
          ≡ find s.entity_maps (s.heap a).entity_type (s.heap a).id =
        ap (λ (x : EntityDto). find s.entity_maps x.entity_type x.id) (update_self s.heap a e) in
      (
        (λ quiet. elim (Option-cases (find s.entity_maps (s.heap a).entity_type (s.heap a).id)) [
          | inl unknown ↦ absurd ((update_entity_dto_unknown t a (kept ∙ unknown)).0 quiet)
          | inr known ↦ known
        ]),
        (λ (b, known). (update_entity_dto_known t a {b = b} (kept ∙ known)).0),
      )

-- Asking for the same commodities again changes no entity.
pub add_commodities_sold_idem :
    (s : State) (a : Addr) (cs : List CommodityDto) (b : Addr)
    → let t = (add_commodities_sold s (some a) (some cs)).0 in
      (add_commodities_sold t (some a) (some cs)).0.heap b ≡ t.heap b
add_commodities_sold_idem s a cs b =
    let t = (add_commodities_sold s (some a) (some cs)).0 in
    let same : add_missing (t.heap a).commodities_sold cs ≡ (t.heap a).commodities_sold =
      ap (λ (x : EntityDto). add_missing x.commodities_sold cs)
        (heap-add_commodities_sold s a cs a ∙ update_self s.heap a _)
      ∙ add_missing_idem (s.heap a).commodities_sold cs
      ∙ sym (
          ap (λ (x : EntityDto). x.commodities_sold)
            (heap-add_commodities_sold s a cs a ∙ update_self s.heap a _)) in
    heap-add_commodities_sold t a cs b
    ∙ ap (λ l. update t.heap a (record (t.heap a) { commodities_sold = l }) b) same
    ∙ ground arith
