-- ===== src/Garbage/Quotas.antt =====
-- The quotas after the cleanup of pkg/discovery/worker/garbage_collector.go.
use kubeturbo.Prelude.{
  ℕ, ◌≡◌, refl, ◌∙◌, sym, ap, inl, inr, Bool, true, false, Option, some, List, [], ◌∷◌, String,
  ◌==◌, string_eq, if◌then◌else◌, All, Any, All-map, arith, Bool-cases,
}
use kubeturbo.Prelude.Dict.{lookup}
use kubeturbo.Quota.Backup.{Backup, RoundTrips, evaluate-Backup}
use kubeturbo.Quota.Reversal.{Stores, named, original-hard, remove_gc_label_from_quota_lem}
use kubeturbo.Quota.Resources.{ResourceList, ResourceOps}
use kubeturbo.Quota.{ResourceQuota, quota_annotation_key, or_empty, evaluate, check_quotas}
use kubeturbo.Move.Workloads.Retries.{Timing, retried, Calls, once, again, retried-Calls}
use kubeturbo.Garbage.{
  remove_turbo_annotation_from_quota, reverted_quota, revert_quota, revert_quotas, cleanup_quotas,
}

module _ {S : Type 0} (timing : S → Timing) (read_hard : S → String → Option ResourceList)
    (put : S → ResourceQuota → S × Bool) (stores : Stores read_hard put)
    (succeeds : (s : S) (q : ResourceQuota) → (retried 0 (timing s) (λ t. put t q) s).1 ≡ true)
    (decode : String → Option ResourceQuota) (first : S) (quotas : List ResourceQuota)
    (fetched : All (λ q. read_hard first q.name ≡ some q.hard) quotas) where
  annotation_lem :
      (q : ResourceQuota)
      → ((remove_turbo_annotation_from_quota q).name ≡ q.name)
        × ((remove_turbo_annotation_from_quota q).hard ≡ q.hard)
  unfolding remove_turbo_annotation_from_quota
  annotation_lem q = ground arith

  reverted_lem :
      (u : ResourceQuota)
      → Backup decode quotas u
      → ((reverted_quota decode u).name ≡ u.name)
        × (read_hard first u.name ≡ some (reverted_quota decode u).hard)
  unfolding reverted_quota
  reverted_lem u (text, o, at, back, same, origin) =
      let raised = record u { hard = o.hard } in
      let unnoted = annotation_lem raised in
      let unmarked =
        remove_gc_label_from_quota_lem read_hard (remove_turbo_annotation_from_quota raised) in
      let known = original-hard read_hard first o quotas fetched origin in
      rw (at, reverted_quota)
        (rw back (
          unmarked.0 ∙ unnoted.0,
          ap (read_hard first) same ∙ known ∙ ap some (sym (unmarked.1 ∙ unnoted.1)),
        ))

  read_hard-calls :
      (q : ResourceQuota) (n : String) {s : S} {r : S × Bool}
      → Calls (λ t. put t q) s r
      → r.1 ≡ true
      → read_hard r.0 n ≡ (if q.name == n then some q.hard else read_hard s n)
  read_hard-calls q n (once {s = s} e) done =
      ground (arith, ap (λ p. read_hard p.0 n) e, ap (λ p. p.1) e, stores s q n)
  read_hard-calls q n (again {s = s} at refused calls) done =
      let later = read_hard-calls q n calls done in
      ground (arith, ap (λ t. read_hard t n) at, stores s q n)

  read_hard-revert_quota :
      (s : S) (u : ResourceQuota) (n : String)
      → let q = reverted_quota decode u in
        read_hard (revert_quota timing put decode s u) n
        ≡ (if q.name == n then some q.hard else read_hard s n)
  unfolding revert_quota
  read_hard-revert_quota s u n =
      let q = reverted_quota decode u in
      read_hard-calls q n (retried-Calls 0 (timing s) (λ t. put t q) s) (succeeds s q)

  read_hard-revert_quotas :
      (us : List ResourceQuota) (s : S)
      → All (Backup decode quotas) us
      → ((n : String) → named read_hard n us ≡ false → read_hard s n ≡ read_hard first n)
      → (n : String) → read_hard (revert_quotas timing put decode s us) n ≡ read_hard first n
  unfolding revert_quotas
  read_hard-revert_quotas [] s h agrees n = agrees n refl
  read_hard-revert_quotas (u ∷ us) s (h, later) agrees n =
      let (name, known) = reverted_lem u h in
      read_hard-revert_quotas us (revert_quota timing put decode s u) later
        (λ m absent. read_hard-revert_quota s u m ∙ elim (Bool-cases (u.name == m)) [
          | inl hit ↦ ground (
            arith,
            string_eq.beq_iff u.name m,
            ap (read_hard first) ((string_eq.beq_iff u.name m).0 hit),
          )
          | inr miss ↦ ground (arith, agrees m)
        ])
        n

-- The quota has the name and the annotations of one of the updates.
abbrev pub MadeBy : List ResourceQuota → ResourceQuota → Type 0
MadeBy updates u = Any (λ v. (v.name ≡ u.name) × (v.annotations ≡ u.annotations)) updates

Backup-MadeBy :
    (decode : String → Option ResourceQuota) (quotas updates : List ResourceQuota)
    (u : ResourceQuota)
    → All (Backup decode quotas) updates
    → MadeBy updates u
    → Backup decode quotas u
Backup-MadeBy decode quotas [] u backs made = absurd made
Backup-MadeBy decode quotas (v ∷ vs) u ((text, o, at, back, same, origin), later)
      (inl (name, notes)) =
    (
      text,
      o,
      ap (λ m. lookup quota_annotation_key (or_empty m)) (sym notes) ∙ at,
      back,
      sym name ∙ same,
      origin,
    )
Backup-MadeBy decode quotas (v ∷ vs) u (b, later) (inr made) =
    Backup-MadeBy decode quotas vs u later made

module _ (ops : ResourceOps) {Pod : Type 0} (usage : Pod → Option ResourceList)
    (matches : ResourceQuota → Pod → Option Bool) (matching_resources : List String → List String)
    (encode : ResourceQuota → Option String) (decode : String → Option ResourceQuota) {S : Type 0}
    (timing : S → Timing) (read_hard : S → String → Option ResourceList) where
  check_quotas-Backup :
      (get : S → Option (List ResourceQuota)) (put : S → ResourceQuota → S × Bool) (first : S)
      (pod : Pod) (replicas : ℕ) (quotas : List ResourceQuota)
      → get first ≡ some quotas
      → All (RoundTrips ops usage matches matching_resources encode pod decode) quotas
      → All
          (Backup decode quotas)
          (check_quotas ops usage matches matching_resources encode get put [] pod replicas first).0
  unfolding check_quotas
  check_quotas-Backup get put first pod replicas quotas got back =
      let evaluated = evaluate ops usage matches matching_resources encode [] quotas pod replicas in
      let backs =
        evaluate-Backup ops usage matches matching_resources encode pod decode quotas replicas
          back in
      elim (Bool-cases evaluated.1) [
        | inl fine ↦ rw (got, check_quotas) (rw fine backs)
        | inr failed ↦ rw (got, check_quotas) (rw failed backs)
      ]

  -- A program that stops in the middle of an action leaves quotas raised; the cleanup at the next
  -- start gives every quota the limits that it had before `checkQuotas`, however far its updates
  -- came. The decoder undoes the encoder, the server listed the limits that it had, and then lists
  -- quotas that are updates of `checkQuotas`, among them every one whose limits are not as they were
  -- before; an update of a quota changes no other one, and one of the attempts at each update of the
  -- cleanup succeeds.
  pub cleanup_quotas-check_quotas :
      (get : S → Option (List ResourceQuota)) (put later_put : S → ResourceQuota → S × Bool)
      (list : S → Option (List ResourceQuota)) (first crashed : S) (pod : Pod) (replicas : ℕ)
      (quotas marked : List ResourceQuota) (n : String)
      → Stores read_hard later_put
      → ((s : S) (q : ResourceQuota) → (retried 0 (timing s) (λ t. later_put t q) s).1 ≡ true)
      → get first ≡ some quotas
      → All (λ q. read_hard first q.name ≡ some q.hard) quotas
      → All (RoundTrips ops usage matches matching_resources encode pod decode) quotas
      → list crashed ≡ some marked
      → All
          (MadeBy
            (check_quotas ops usage matches matching_resources encode get put [] pod replicas
              first).0)
          marked
      → ((m : String) → named read_hard m marked ≡ false → read_hard crashed m ≡ read_hard first m)
      → read_hard (cleanup_quotas timing later_put decode list crashed) n ≡ read_hard first n
  unfolding cleanup_quotas
  cleanup_quotas-check_quotas get put later_put list first crashed pod replicas quotas marked n
        stores succeeds got fetched back listed made agrees =
      let updates =
        (check_quotas ops usage matches matching_resources encode get put [] pod replicas
          first).0 in
      let backs = check_quotas-Backup get put first pod replicas quotas got back in
      rw (listed, cleanup_quotas)
        (read_hard-revert_quotas timing read_hard later_put stores succeeds decode first quotas
          fetched marked crashed
          (All-map (MadeBy updates) (Backup decode quotas) marked
            (λ u m. Backup-MadeBy decode quotas updates u backs m) made)
          agrees n)
