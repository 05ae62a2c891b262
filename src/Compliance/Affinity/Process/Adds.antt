-- ===== src/Compliance/Affinity/Process/Adds.antt =====
-- How compliance_processor.go and affinity_processor.go of pkg/discovery/worker/compliance add
-- commodities, as a relation between the states before and after that composes.
use kubeturbo.Prelude.{
  ℕ, ◌≡◌, ◌≢◌, refl, ◌∙◌, sym, ap, subst, Bool, false, ◌&&◌, ◌||◌, some, List, String, ◌==◌,
  string_eq, nat_eq, arith, Bool-cases, inl, inr, ==_self,
}
use kubeturbo.Compliance.Dto.{CommodityDto, EntityDto, Addr, update, has_commodity}
use kubeturbo.Compliance.Processor.{
  State, Provider, update_entity_dto, add_commodities_sold, add_commodities_bought, add_missing,
  has_provider,
}
use kubeturbo.Compliance.Processor.Grouping.{find, is_at, update_entity_dto_known}
use kubeturbo.Compliance.Processor.Sold.{add_commodities_sold-union, update_self}
use kubeturbo.Compliance.Processor.Bought.{
  buys, add_commodities_bought-union, heap-add_commodities_bought, bought_after,
}

-- Every entity that the maps know stands there under its own type and id.
abbrev pub Indexed : State → Type 0
Indexed s =
    (t : ℕ) (i : String) (a : Addr)
    → find s.entity_maps t i ≡ some a
    → ((s.heap a).entity_type ≡ t) × ((s.heap a).id ≡ i)

-- The commodities that an entity sells, or buys from a provider, become more by those given; the index
-- and the entities' types and ids stay.
pub record Adds (s s' : State) (sells : Addr → CommodityDto → Bool)
    (takes : Addr → String → CommodityDto → Bool) : Type 0 where
  pub finds : (t : ℕ) (i : String) → find s'.entity_maps t i ≡ find s.entity_maps t i
  pub types : (a : Addr) → (s'.heap a).entity_type ≡ (s.heap a).entity_type
  pub ids : (a : Addr) → (s'.heap a).id ≡ (s.heap a).id
  pub sold :
      (a : Addr) (d : CommodityDto)
      → has_commodity (s'.heap a).commodities_sold d
        ≡ (has_commodity (s.heap a).commodities_sold d || sells a d)
  pub bought :
      (a : Addr) (j : String) (d : CommodityDto)
      → buys j (s'.heap a).commodities_bought d
        ≡ (buys j (s.heap a).commodities_bought d || takes a j d)

abbrev pub no_sells : Addr → CommodityDto → Bool
no_sells a d = false

abbrev pub no_takes : Addr → String → CommodityDto → Bool
no_takes a j d = false

pub Adds-none : (s : State) → Adds s s no_sells no_takes
Adds-none s = record {
  finds = λ t i. refl;
  types = λ a. refl;
  ids = λ a. refl;
  sold = λ a d. ground arith;
  bought = λ a j d. ground arith;
}

pub Adds-trans :
    {s s' s'' : State} {p p' : Addr → CommodityDto → Bool}
    {q q' : Addr → String → CommodityDto → Bool}
    → Adds s s' p q
    → Adds s' s'' p' q'
    → Adds s s'' (λ a d. p a d || p' a d) (λ a j d. q a j d || q' a j d)
Adds-trans {s} {s'} {s''} {p} {p'} {q} {q'} f g = record {
  finds = λ t i. g.finds t i ∙ f.finds t i;
  types = λ a. g.types a ∙ f.types a;
  ids = λ a. g.ids a ∙ f.ids a;
  sold = λ a d. ground (arith, f.sold a d, g.sold a d);
  bought = λ a j d. ground (arith, f.bought a j d, g.bought a j d);
}

pub Adds-map :
    {s s' : State} {p p' : Addr → CommodityDto → Bool} {q q' : Addr → String → CommodityDto → Bool}
    → Adds s s' p q
    → ((a : Addr) (d : CommodityDto) → p a d ≡ p' a d)
    → ((a : Addr) (j : String) (d : CommodityDto) → q a j d ≡ q' a j d)
    → Adds s s' p' q'
Adds-map {s} {s'} {p} {p'} {q} {q'} f h k = record {
  finds = f.finds;
  types = f.types;
  ids = f.ids;
  sold = λ a d. f.sold a d ∙ ap (λ b. has_commodity (s.heap a).commodities_sold d || b) (h a d);
  bought =
      λ a j d. f.bought a j d ∙ ap (λ b. buys j (s.heap a).commodities_bought d || b) (k a j d);
}

pub Adds-Indexed :
    {s s' : State} {p : Addr → CommodityDto → Bool} {q : Addr → String → CommodityDto → Bool}
    → Adds s s' p q
    → Indexed s
    → Indexed s'
Adds-Indexed {s} {s'} f h t i a e =
    let (type, id) = h t i a (sym (f.finds t i) ∙ e) in (f.types a ∙ type, f.ids a ∙ id)

-- Storing an entity again under its own type and id changes nothing that the maps give.
update_entity_dto-find :
    (s : State) (a : Addr) (t : ℕ) (i : String)
    → find s.entity_maps (s.heap a).entity_type (s.heap a).id ≡ some a
    → find (update_entity_dto s a).0.entity_maps t i ≡ find s.entity_maps t i
update_entity_dto-find s a t i own =
    (update_entity_dto_known s a {b = a} own).1 t i ∙ elim (Bool-cases (is_at s.heap t i a)) [
      | inr other ↦ rw other refl
      | inl here ↦ rw here (
          sym own ∙ (λ k.
            find s.entity_maps
              ((nat_eq.beq_iff (s.heap a).entity_type t).0 (ground (arith, here)) k)
              ((string_eq.beq_iff (s.heap a).id i).0 (ground (arith, here)) k)))
    ]

-- One entity changes.
Adds-one :
    (s s' : State) (a : Addr) (p : CommodityDto → Bool) (q : String → CommodityDto → Bool)
    → ((t : ℕ) (i : String) → find s'.entity_maps t i ≡ find s.entity_maps t i)
    → (s'.heap a).entity_type ≡ (s.heap a).entity_type
    → (s'.heap a).id ≡ (s.heap a).id
    → ((d : CommodityDto)
        → has_commodity (s'.heap a).commodities_sold d
          ≡ (has_commodity (s.heap a).commodities_sold d || p d))
    → ((j : String) (d : CommodityDto)
        → buys j (s'.heap a).commodities_bought d
          ≡ (buys j (s.heap a).commodities_bought d || q j d))
    → ((b : Addr) → b ≢ a → s'.heap b ≡ s.heap b)
    → Adds s s' (λ b d. b == a && p d) (λ b j d. b == a && q j d)
Adds-one s s' a p q finds type id sold bought rest =
    let at : (P : Addr → Type 0) → P a → ((b : Addr) → b ≢ a → P b) → (b : Addr) → P b =
      λ P here there b. elim (Bool-cases (b == a)) [
        | inl same ↦ subst P (sym ((nat_eq.beq_iff b a).0 same)) here
        | inr other ↦ there b (λ e. ground (arith, other, nat_eq.beq_iff b a))
      ] in
    record {
      finds = finds;
      types =
          at (λ b. (s'.heap b).entity_type ≡ (s.heap b).entity_type) type
            (λ b other. ap (λ (x : EntityDto). x.entity_type) (rest b other));
      ids =
          at (λ b. (s'.heap b).id ≡ (s.heap b).id) id
            (λ b other. ap (λ (x : EntityDto). x.id) (rest b other));
      sold = λ b d.
          at
            (λ b.
              has_commodity (s'.heap b).commodities_sold d
              ≡ (has_commodity (s.heap b).commodities_sold d || (b == a && p d)))
            (sold d ∙ ground (arith, ==_self a))
            (λ b other.
              ap (λ (x : EntityDto). has_commodity x.commodities_sold d) (rest b other)
              ∙ ground (arith, other, nat_eq.beq_iff b a))
            b;
      bought = λ b j d.
          at
            (λ b.
              buys j (s'.heap b).commodities_bought d
              ≡ (buys j (s.heap b).commodities_bought d || (b == a && q j d)))
            (bought j d ∙ ground (arith, ==_self a))
            (λ b other.
              ap (λ (x : EntityDto). buys j x.commodities_bought d) (rest b other)
              ∙ ground (arith, other, nat_eq.beq_iff b a))
            b;
    }

module _ (s : State) (a : Addr)
    (own : find s.entity_maps (s.heap a).entity_type (s.heap a).id ≡ some a) where
  -- Storing the entity with other commodities keeps the index too.
  restored :
      (e : EntityDto) (t : ℕ) (i : String)
      → e.entity_type ≡ (s.heap a).entity_type
      → e.id ≡ (s.heap a).id
      → find (update_entity_dto (record s { heap = update s.heap a e }) a).0.entity_maps t i
        ≡ find s.entity_maps t i
  restored e t i type id =
      update_entity_dto-find (record s { heap = update s.heap a e }) a t i
        (ap (λ (x : EntityDto). find s.entity_maps x.entity_type x.id) (update_self s.heap a e)
          ∙ (λ k. find s.entity_maps (type k) (id k))
          ∙ own)

  pub add_commodities_sold-Adds :
      (cs : List CommodityDto)
      → Adds s
          (add_commodities_sold s (some a) (some cs)).0
          (λ b d. b == a && has_commodity cs d)
          (λ b j d. b == a && false)
  add_commodities_sold-Adds cs =
      let s' = (add_commodities_sold s (some a) (some cs)).0 in
      let e : EntityDto = record (s.heap a) {
        commodities_sold = add_missing (s.heap a).commodities_sold cs;
      } in
      let (union, distinct, bought, others, rest) = add_commodities_sold-union s a cs in
      Adds-one s s' a (has_commodity cs) (λ j d. false)
        (λ t i. unfold add_commodities_sold in restored e t i refl refl) others.0 others.1 union
        (λ j d. ap (λ l. buys j l d) bought ∙ ground arith) rest

  pub add_commodities_bought-Adds :
      (p : Provider) (cs : List CommodityDto)
      → Adds s
          (add_commodities_bought s (some a) (some p) (some cs)).0
          (λ b d. b == a && false)
          (λ b j d. b == a && (p.id == j && has_commodity cs d))
  unfolding add_commodities_bought
  add_commodities_bought-Adds p cs =
      let s' = (add_commodities_bought s (some a) (some p) (some cs)).0 in
      let e : EntityDto = record (s.heap a) { commodities_bought = bought_after s a p cs } in
      let same : s'.heap a ≡ e = heap-add_commodities_bought s a p cs a ∙ update_self s.heap a e in
      let (union, sold, rest) = add_commodities_bought-union s a p cs in
      Adds-one s s' a (λ d. false) (λ j d. p.id == j && has_commodity cs d)
        (λ t i. elim (Bool-cases (has_provider p.id (s.heap a).commodities_bought)) [
          | inl there ↦ rw there refl
          | inr new ↦ rw new (restored _ t i refl refl)
        ])
        (ap (λ (x : EntityDto). x.entity_type) same) (ap (λ (x : EntityDto). x.id) same)
        (λ d. ap (λ l. has_commodity l d) sold ∙ ground arith) union rest
