-- ===== src/Compliance/Affinity/Store.antt =====
-- The stores of affinity_commodity_manager.go in pkg/discovery/worker/compliance, which cache the
-- commodities built.
use kubeturbo.Prelude.{
  ◌≡◌, refl, ◌∙◌, sym, ap, Option, none, some, List, [], ◌∷◌, String, string_eq, arith,
  Option-cases, inl, inr,
}
use kubeturbo.Prelude.Dict.{lookup, lookup-insert}
use kubeturbo.Compliance.Dto.{CommodityDto}
use kubeturbo.Compliance.Affinity.{
  AffinityCommodityManager, Pair, get_commodity_sold, get_commodity_bought, comm_key,
  get_commodity_sold_and_bought, prepend, access_commodities,
}

module _ (hash : String → Option String)
    (build_sold build_bought : String → Option CommodityDto) where
  -- Every commodity in a store is the one that the builder makes for its key.
  pub record IsCache (m : AffinityCommodityManager) : Type 0 where
    pub sold_built :
        (key : String) (c : CommodityDto)
        → lookup key m.commodity_sold_store ≡ some c
        → build_sold key ≡ some c
    pub bought_built :
        (key : String) (c : CommodityDto)
        → lookup key m.commodity_bought_store ≡ some c
        → build_bought key ≡ some c

  -- The commodities of one term, and of a list of terms, without any store.
  abbrev pub built_key : String → Pair CommodityDto
  built_key key = elim (build_sold key) [
    | none ↦ none
    | some s ↦ elim (build_bought key) [ none ↦ none | some b ↦ some (s, b) ]
  ]

  abbrev pub built_term : String → String → Pair CommodityDto
  built_term display term = elim (hash term) [
    | none ↦ none
    | some hashed ↦ built_key (comm_key hash build_sold build_bought display hashed)
  ]

  abbrev pub built : List (String × String) → Pair (List CommodityDto)
  built [] = some ([], [])
  built ((display, term) ∷ terms) =
      let rest = built terms in
      elim (built_term display term) [
        | none ↦ none
        | some p ↦ prepend hash build_sold build_bought p rest
      ]

  get_commodity_sold-IsCache :
      (m : AffinityCommodityManager) (key : String)
      → IsCache m
      → ((get_commodity_sold hash build_sold build_bought m key).1 ≡ build_sold key)
        × IsCache (get_commodity_sold hash build_sold build_bought m key).0
  unfolding get_commodity_sold
  get_commodity_sold-IsCache m key h = elim (Option-cases (lookup key m.commodity_sold_store)) [
    | inr (c, found) ↦ rw (found, get_commodity_sold) (sym (h.sold_built key c found), h)
    | inl absent ↦ elim (Option-cases (build_sold key)) [
      | inl error ↦ rw (absent, get_commodity_sold) (rw error (refl, h))
      | inr (c, made) ↦
          rw (absent, get_commodity_sold)
            (rw made (
              refl,
              record {
                sold_built = λ k d e. ground (
                  arith,
                  made,
                  string_eq.beq_iff key k,
                  lookup-insert key k c m.commodity_sold_store,
                  h.sold_built k d,
                );
                bought_built = h.bought_built;
              },
            ))
    ]
  ]

  get_commodity_bought-IsCache :
      (m : AffinityCommodityManager) (key : String)
      → IsCache m
      → ((get_commodity_bought hash build_sold build_bought m key).1 ≡ build_bought key)
        × IsCache (get_commodity_bought hash build_sold build_bought m key).0
  unfolding get_commodity_bought
  get_commodity_bought-IsCache m key h = elim (Option-cases (lookup key m.commodity_bought_store)) [
    | inr (c, found) ↦ rw (found, get_commodity_bought) (sym (h.bought_built key c found), h)
    | inl absent ↦ elim (Option-cases (build_bought key)) [
      | inl error ↦ rw (absent, get_commodity_bought) (rw error (refl, h))
      | inr (c, made) ↦
          rw (absent, get_commodity_bought)
            (rw made (
              refl,
              record {
                sold_built = h.sold_built;
                bought_built = λ k d e. ground (
                  arith,
                  made,
                  string_eq.beq_iff key k,
                  lookup-insert key k c m.commodity_bought_store,
                  h.bought_built k d,
                );
              },
            ))
    ]
  ]

  get_commodity_sold_and_bought-IsCache :
      (m : AffinityCommodityManager) (display term : String)
      → IsCache m
      → ((get_commodity_sold_and_bought hash build_sold build_bought m display term).1
          ≡ built_term display term)
        × IsCache (get_commodity_sold_and_bought hash build_sold build_bought m display term).0
  unfolding get_commodity_sold_and_bought
  get_commodity_sold_and_bought-IsCache m display term h = elim (Option-cases (hash term)) [
    | inl error ↦ rw (error, get_commodity_sold_and_bought, built_term) (refl, h)
    | inr (hashed, done) ↦
        let key = comm_key hash build_sold build_bought display hashed in
        let m' = (get_commodity_sold hash build_sold build_bought m key).0 in
        let (sold, cache) = get_commodity_sold-IsCache m key h in
        let (bought, cache') = get_commodity_bought-IsCache m' key cache in
        rw (done, get_commodity_sold_and_bought, built_term)
          (elim (Option-cases (build_sold key)) [
            | inl failed ↦ rw (sold ∙ failed) (rw (failed, built_key) (refl, cache))
            | inr (s, made) ↦ elim (Option-cases (build_bought key)) [
              | inl failed ↦
                  rw (sold ∙ made)
                    (rw (bought ∙ failed) (rw (made, built_key) (rw failed (refl, cache'))))
              | inr (b, made') ↦
                  rw (sold ∙ made)
                    (rw (bought ∙ made') (rw (made, built_key) (rw made' (refl, cache'))))
            ]
          ])
  ]

  -- Over a manager whose stores hold what the builders make, as a new one's do, the loop over the
  -- terms of a rule gives what it would give without stores, errors included, and leaves such a
  -- manager.
  pub access_commodities-built :
      (m : AffinityCommodityManager) (terms : List (String × String))
      → IsCache m
      → ((access_commodities hash build_sold build_bought m terms).1 ≡ built terms)
        × IsCache (access_commodities hash build_sold build_bought m terms).0
  unfolding access_commodities
  access_commodities-built m [] h = (refl, h)
  access_commodities-built m ((display, term) ∷ terms) h =
      let m' = (get_commodity_sold_and_bought hash build_sold build_bought m display term).0 in
      let (pair, cache) = get_commodity_sold_and_bought-IsCache m display term h in
      let (rest, cache') = access_commodities-built m' terms cache in
      elim (Option-cases (built_term display term)) [
        | inl failed ↦ rw (pair ∙ failed, access_commodities) (rw (failed, built) (refl, cache))
        | inr (p, made) ↦
            rw (pair ∙ made, access_commodities)
              (rw (made, built) (ap (prepend hash build_sold build_bought p) rest, cache'))
      ]
