-- ===== src/Quota/Backup.antt =====
-- The backups that Evaluate of pkg/action/executor/quota_util.go keeps in the quotas' annotations.
use kubeturbo.Prelude.{
  ℕ, ◌≡◌, refl, subst, inl, inr, Bool, true, false, Option, none, some, List, [], ◌∷◌, String,
  string_eq, nat_eq, All, Any, All-map, arith, Option-cases,
}
use kubeturbo.Prelude.Dict.{lookup, insert, lookup-insert}
use kubeturbo.Quota.Resources.{ResourceList, ResourceOps}
use kubeturbo.Quota.Verdicts.{evaluate_quota_cases}
use kubeturbo.Quota.{
  ResourceQuota, quota_annotation_key, or_empty, copy_quota, remove_zeros, Verdict, keep, raise,
  failed, total_delta_usage, evaluate_quota, evaluate_quotas, evaluate,
}

-- The update carries a text that decodes to the name and the limits of one of the quotas.
abbrev pub Backup : (String → Option ResourceQuota) → List ResourceQuota → ResourceQuota → Type 0
Backup decode quotas u =
    (text : String) × (o : ResourceQuota) × (lookup quota_annotation_key (or_empty u.annotations)
      ≡ some text)
    × (decode text ≡ some o)
    × (u.name ≡ o.name)
    × Any (λ q. (q.name ≡ o.name) × (q.hard ≡ o.hard)) quotas

module _ (ops : ResourceOps) {Pod : Type 0} (usage : Pod → Option ResourceList)
    (matches : ResourceQuota → Pod → Option Bool) (matching_resources : List String → List String)
    (encode : ResourceQuota → Option String) (pod : Pod)
    (decode : String → Option ResourceQuota) where
  -- The decoder undoes the encoder at the quota.
  abbrev pub RoundTrips : ResourceQuota → Type 0
  RoundTrips q =
      (text : String) → encode (copy_quota q) ≡ some text → decode text ≡ some (copy_quota q)

  abbrev Backed : ResourceQuota → Verdict → Type 0
  Backed q (raise u) = Backup decode (q ∷ []) u
  Backed q keep = Unit {0}
  Backed q failed = Unit {0}

  evaluate_quota-Backed :
      (total : ResourceList) (q : ResourceQuota)
      → RoundTrips q
      → Backed q (evaluate_quota ops usage matches matching_resources encode pod total q)
  unfolding copy_quota
  evaluate_quota-Backed total q back =
      evaluate_quota_cases ops usage matches matching_resources encode pod total q (Backed q) tt
        (λ h. tt)
        (λ text kept.
          (text, copy_quota q, annotated text q, back text kept, refl, inl (refl, refl)))
    where
      annotated :
          (text : String) (q : ResourceQuota)
          → lookup quota_annotation_key (insert quota_annotation_key text (or_empty q.annotations))
            ≡ some text
      annotated text q =
          lookup-insert quota_annotation_key quota_annotation_key text (or_empty q.annotations)

  Backup-later :
      (q : ResourceQuota) (qs : List ResourceQuota) (u : ResourceQuota)
      → Backup decode qs u
      → Backup decode (q ∷ qs) u
  Backup-later q qs u (text, o, at, back, same, original) = (text, o, at, back, same, inr original)

  Backup-first :
      (q : ResourceQuota) (qs : List ResourceQuota) (u : ResourceQuota)
      → Backup decode (q ∷ []) u
      → Backup decode (q ∷ qs) u
  Backup-first q qs u (text, o, at, back, same, inl original) =
      (text, o, at, back, same, inl original)
  Backup-first q qs u (text, o, at, back, same, inr no_more) = absurd no_more

  pub evaluate_quotas-Backup :
      (total : ResourceList) (qs updates : List ResourceQuota)
      → All RoundTrips qs
      → evaluate_quotas ops usage matches matching_resources encode pod total qs ≡ some updates
      → All (Backup decode qs) updates
  unfolding evaluate_quotas
  evaluate_quotas-Backup total [] updates back e =
      let same : [] ≡ updates = ground arith in subst (λ us. All (Backup decode []) us) same tt
  evaluate_quotas-Backup total (q ∷ qs) updates back e =
      go (evaluate_quota ops usage matches matching_resources encode pod total q)
        (evaluate_quotas ops usage matches matching_resources encode pod total qs) refl refl
        (evaluate_quota-Backed total q back.0)
        (λ us found. evaluate_quotas-Backup total qs us back.1 found)
    where
      go :
          (v : Verdict) (rest : Option (List ResourceQuota))
          → evaluate_quota ops usage matches matching_resources encode pod total q ≡ v
          → evaluate_quotas ops usage matches matching_resources encode pod total qs ≡ rest
          → Backed q v
          → ((us : List ResourceQuota)
              → evaluate_quotas ops usage matches matching_resources encode pod total qs ≡ some us
              → All (Backup decode qs) us)
          → All (Backup decode (q ∷ qs)) updates
      go failed rest ev er h later = ground (arith, ev)
      go keep none ev er h later = ground (arith, ev, er)
      go keep (some rs) ev er h later =
          All-map (Backup decode qs) (Backup decode (q ∷ qs)) updates (Backup-later q qs)
            (later updates (ground (arith, ev, er)))
      go (raise u) none ev er h later = ground (arith, ev, er)
      go (raise u) (some rs) ev er h later =
          let same : u ∷ rs ≡ updates = ground (arith, ev, er) in
          subst (λ us. All (Backup decode (q ∷ qs)) us) same
            (
              Backup-first q qs u h,
              All-map (Backup decode qs) (Backup decode (q ∷ qs)) rs (Backup-later q qs)
                  (later rs er),
            )

  -- An accessor that has evaluated nothing yet holds backed up updates only, when Evaluate returns.
  pub evaluate-Backup :
      (quotas : List ResourceQuota) (replicas : ℕ)
      → All RoundTrips quotas
      → All
          (Backup decode quotas)
          (evaluate ops usage matches matching_resources encode [] quotas pod replicas).0
  unfolding evaluate
  evaluate-Backup quotas replicas back = elim (Option-cases (usage pod)) [
    | inl error ↦ rw (error, evaluate) tt
    | inr (delta, known) ↦
        rw (known, evaluate) (go (total_delta_usage ops (remove_zeros delta) replicas []))
  ]
    where
      go :
          (total : ResourceList)
          → All
              (Backup decode quotas)
              (elim total as (λ x. List ResourceQuota × Bool) [
                | [] ↦ ([], true)
                | entry ∷ more ↦
                    elim (evaluate_quotas ops usage matches matching_resources encode pod
                      (entry ∷ more)
                      quotas) [ none ↦ ([], false) | some updates ↦ (updates, true) ]
              ]).0
      go [] = tt
      go (entry ∷ more) =
          elim (Option-cases (
            evaluate_quotas ops usage matches matching_resources encode pod (entry ∷ more)
              quotas)) [
                | inl error ↦ rw error tt
                | inr (updates, fine) ↦
                    rw fine (evaluate_quotas-Backup (entry ∷ more) quotas updates back fine)
              ]
