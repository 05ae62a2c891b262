-- ===== src/Quota/Admission.antt =====
-- The admission of new pods by the quotas of pkg/action/executor/quota_util.go after Evaluate.
use kubeturbo.Prelude.{
  ℕ, ◌+◌, ◌≡◌, refl, ◌∙◌, subst, inl, inr, true, false, ◌&&◌, Option, none, some, List, [], ◌∷◌,
  String, ◌==◌, string_eq, nat_eq, if◌then◌else◌, is_some, arith, Option-cases, Bool-cases,
}
use kubeturbo.Prelude.Dict.{lookup}
use kubeturbo.Quota.Resources.{ResourceList, ResourceOps, in_list, amount, above}
use kubeturbo.Quota.{
  ResourceQuota, add_to_spec_hard, requested_usage, masked_new_total_usage, raised,
}

pub lookup-add_to_spec_hard :
    (k : String) (a b : ResourceList) (keys : List String)
    → lookup k (add_to_spec_hard a b keys) ≡ elim (lookup k a) [
      | none ↦ none
      | some v ↦ some (if in_list k keys then v + amount (lookup k b) else v)
    ]
unfolding add_to_spec_hard lookup
lookup-add_to_spec_hard k [] b keys = refl
lookup-add_to_spec_hard k ((key, value) ∷ rest) b keys = elim (Bool-cases (key == k)) [
  | inl same ↦
      let e : key ≡ k = (string_eq.beq_iff key k).0 same in
      subst
        (λ j.
          lookup j (add_to_spec_hard ((key, value) ∷ rest) b keys)
          ≡ (elim (lookup j ((key, value) ∷ rest)) as (λ x. Option ℕ) [
            | none ↦ none
            | some v ↦ some (if in_list j keys then v + amount (lookup j b) else v)
          ]))
        e
        (elim (Option-cases (lookup key b)) [
          | inl absent ↦ ground (arith, absent, string_eq.beq_iff key key)
          | inr (other, found) ↦ ground (arith, found, string_eq.beq_iff key key)
        ])
  | inr other ↦ ground (arith, other, lookup-add_to_spec_hard k rest b keys)
]

-- The quota is in order: its spec is the limit that is enforced, and no usage is above it.
pub record InOrder (q : ResourceQuota) : Type 0 where
  pub enforced : (k : String) → lookup k q.hard ≡ lookup k q.status_hard
  pub within : (k : String) → above (lookup k q.status_used) (lookup k q.status_hard) ≡ false

-- The usage of one resource with the new pods, where there is a limit on it, and the raised limit.
abbrev pub new_usage : Option ℕ → Option ℕ → Option ℕ → Option ℕ
new_usage used total limit =
    if is_some limit && is_some total then some (amount used + amount total) else none

abbrev pub new_limit : Option ℕ → Option ℕ → Option ℕ → Option ℕ
new_limit used total none = none
new_limit used total (some v) =
    some (if above (new_usage used total (some v)) (some v) then v + amount total else v)

module _ (ops : ResourceOps) where
  pub lookup-masked :
      (total : ResourceList) (q : ResourceQuota) (k : String)
      → lookup k (masked_new_total_usage ops total q)
        ≡ new_usage (lookup k q.status_used) (lookup k total) (lookup k q.status_hard)
  lookup-masked total q k = ground (
    arith,
    ops.lookup-mask k (ops.add q.status_used (requested_usage ops total q))
        (ops.resource_names (requested_usage ops total q)),
    ops.lookup-add k q.status_used (requested_usage ops total q),
    ops.lookup-mask k total (ops.resource_names q.status_hard),
    ops.in_list-resource_names k q.status_hard,
    ops.in_list-resource_names k (requested_usage ops total q),
  )

-- Raising an exceeded limit by what is requested is enough, if the usage was not above the limit.
above_raised :
    (used total limit : Option ℕ)
    → above used limit ≡ false
    → above (new_usage used total limit) (new_limit used total limit) ≡ false
above_raised none none none h = refl
above_raised none none (some l) h = refl
above_raised none (some t) none h = refl
above_raised none (some t) (some l) h = ground arith
above_raised (some u) none none h = refl
above_raised (some u) none (some l) h = refl
above_raised (some u) (some t) none h = refl
above_raised (some u) (some t) (some l) h = ground arith

module _ (ops : ResourceOps) (total : ResourceList) where
  -- With the new pods the usage that the quota counts is within the limits.
  abbrev pub Admits : ResourceQuota → ResourceList → Type 0
  Admits q limits = (ops.less_than_or_equal (masked_new_total_usage ops total q) limits).0 ≡ true

  lookup-raised :
      (q : ResourceQuota) (text k : String)
      → InOrder q
      → let exceeded =
          (ops.less_than_or_equal (masked_new_total_usage ops total q) q.status_hard).1 in
        lookup k (raised ops total q exceeded text).hard
        ≡ new_limit (lookup k q.status_used) (lookup k total) (lookup k q.status_hard)
  lookup-raised q text k order =
      let masked = masked_new_total_usage ops total q in
      lookup-add_to_spec_hard k q.hard (requested_usage ops total q)
        (ops.less_than_or_equal masked q.status_hard).1
      ∙ ground (
        arith,
        order.enforced k,
        ops.in_list-exceeded k masked q.status_hard,
        lookup-masked ops total q k,
        ops.lookup-mask k total (ops.resource_names q.status_hard),
        ops.in_list-resource_names k q.status_hard,
      )

  pub raised-Admits :
      (q : ResourceQuota) (text : String)
      → InOrder q
      → let exceeded =
          (ops.less_than_or_equal (masked_new_total_usage ops total q) q.status_hard).1 in
        Admits q (raised ops total q exceeded text).hard
  raised-Admits q text order =
      let masked = masked_new_total_usage ops total q in
      let exceeded = (ops.less_than_or_equal masked q.status_hard).1 in
      let hard = (raised ops total q exceeded text).hard in
      (ops.allowed-exceeded masked hard).1 (λ k.
        ops.in_list-exceeded k masked hard
        ∙ rw (lookup-masked ops total q k, lookup-raised q text k order)
            (above_raised (lookup k q.status_used) (lookup k total) (lookup k q.status_hard)
              (order.within k)))
