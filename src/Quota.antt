-- ===== src/Quota.antt =====
-- pkg/action/executor/quota_util.go: an action that starts pods in a namespace raises the quotas that
-- are in its way, and takes them back when it is over.
pub mod Resources
pub mod Admission
pub mod Verdicts
pub mod Evaluation
pub mod Reversal
pub mod Locking
pub mod Concrete
pub mod Examples
pub mod Backup
use kubeturbo.Prelude.{
  ℕ, zero, suc, ◌+◌, Bool, true, false, ◌&&◌, not, Option, none, some, List, [], ◌∷◌, String, ◌==◌,
  string_eq, nat_eq, if◌then◌else◌, is_some,
}
use kubeturbo.Prelude.Dict.{Dict, lookup, insert, delete}
use kubeturbo.Quota.Resources.{ResourceList, ResourceOps, in_list}

-- The fields of `ResourceQuota` that the code reads or resets; nil maps are `none`. `scopes` stands
-- for the rest of the spec.
pub record ResourceQuota : Type 0 where
  pub name : String
  pub uid : String
  pub resource_version : String
  pub annotations : Option (Dict String String)
  pub labels : Option (Dict String String)
  pub hard : ResourceList
  pub scopes : List String
  pub status_hard : ResourceList
  pub status_used : ResourceList

abbrev pub quota_annotation_key : String
quota_annotation_key = "kubeturbo.io/last-good-config"

abbrev pub turbo_gc_label_key : String
turbo_gc_label_key = "kubeturbo.io"

abbrev pub turbo_gc_label_val : String
turbo_gc_label_val = "gc"

abbrev pub or_empty : Option (Dict String String) → Dict String String
or_empty none = []
or_empty (some m) = m

abbrev pub add_gc_label_on_quota : ResourceQuota → ResourceQuota
add_gc_label_on_quota q = record q {
  labels = some (insert turbo_gc_label_key turbo_gc_label_val (or_empty q.labels));
}

unfoldable pub remove_gc_label_from_quota : ResourceQuota → ResourceQuota
remove_gc_label_from_quota q = elim q.labels [
  | none ↦ q
  | some labels ↦
      if is_some (lookup turbo_gc_label_key labels)
      then record q { labels = some (delete turbo_gc_label_key labels) }
      else q
]

unfoldable pub copy_quota : ResourceQuota → ResourceQuota
copy_quota q = record q { uid = ""; resource_version = ""; status_hard = []; status_used = [] }

unfoldable pub remove_zeros : ResourceList → ResourceList
remove_zeros [] = []
remove_zeros ((key, value) ∷ rest) =
    if value == 0 then remove_zeros rest else (key, value) ∷ remove_zeros rest

-- `b` at the keys only.
unfoldable pub add_to_spec_hard : ResourceList → ResourceList → List String → ResourceList
add_to_spec_hard [] b keys = []
add_to_spec_hard ((key, value) ∷ rest) b keys =
    (
      key,
      elim (lookup key b) [
        | some other ↦ if in_list key keys then value + other else value
        | none ↦ value
      ],
    )
    ∷ add_to_spec_hard rest b keys

-- Whether some resource of `hard` is interesting and used.
unfoldable pub usage_stats_loop : ResourceList → ResourceList → List String → Bool
usage_stats_loop [] used interesting = false
usage_stats_loop ((name, limit) ∷ hard) used interesting =
    if in_list name interesting && is_some (lookup name used)
    then true
    else usage_stats_loop hard used interesting

abbrev pub has_usage_stats : ResourceQuota → List String → Bool
has_usage_stats q interesting = usage_stats_loop q.status_hard q.status_used interesting

pub data Verdict : Type 0 where
  keep : Verdict
  raise : ResourceQuota → Verdict
  failed : Verdict

module _ (ops : ResourceOps) where
  -- A negative number of replicas is none.
  unfoldable pub total_delta_usage : ResourceList → ℕ → ResourceList → ResourceList
  total_delta_usage delta zero total = total
  total_delta_usage delta (suc n) total = total_delta_usage delta n (ops.add total delta)

  abbrev pub requested_usage : ResourceList → ResourceQuota → ResourceList
  requested_usage total q = ops.mask total (ops.resource_names q.status_hard)

  abbrev pub masked_new_total_usage : ResourceList → ResourceQuota → ResourceList
  masked_new_total_usage total q =
      ops.mask (ops.add q.status_used (requested_usage total q))
        (ops.resource_names (requested_usage total q))

  -- The quota with the annotation and the label, raised at the resources that are exceeded.
  abbrev pub raised : ResourceList → ResourceQuota → List String → String → ResourceQuota
  raised total q exceeded text = add_gc_label_on_quota (record (copy_quota q) {
    hard = add_to_spec_hard q.hard (requested_usage total q) exceeded;
    annotations = some (insert quota_annotation_key text (or_empty q.annotations));
  })

-- The evaluator of pod_quota_evaluator.go: `usage`, `matches` and `matching_resources`, the first two
-- with an error. `encode` is EncodeQuota behind its copy of the quota.
module _ (ops : ResourceOps) {Pod : Type 0} (usage : Pod → Option ResourceList)
    (matches : ResourceQuota → Pod → Option Bool) (matching_resources : List String → List String)
    (encode : ResourceQuota → Option String) where
  -- One round of Evaluate's loop.
  unfoldable pub evaluate_quota : Pod → ResourceList → ResourceQuota → Verdict
  unfolding copy_quota
  evaluate_quota pod total q = elim (matches q pod) [
    | none ↦ failed
    | some false ↦ keep
    | some true ↦
        if not (has_usage_stats q (matching_resources (ops.resource_names q.status_hard)))
        then keep
        else (let (allowed, exceeded) =
              ops.less_than_or_equal (masked_new_total_usage ops total q) q.status_hard in
            if allowed then keep else elim (encode (copy_quota q)) [
              | none ↦ failed
              | some text ↦ raise (raised ops total q exceeded text)
            ])
  ]

  -- The loop; `none` is an error.
  unfoldable pub evaluate_quotas :
      Pod → ResourceList → List ResourceQuota → Option (List ResourceQuota)
  evaluate_quotas pod total [] = some []
  evaluate_quotas pod total (q ∷ qs) =
      let rest = evaluate_quotas pod total qs in
      elim (evaluate_quota pod total q) [
        | failed ↦ none
        | keep ↦ rest
        | raise q' ↦ elim rest [ none ↦ none | some rs ↦ some (q' ∷ rs) ]
      ]

  -- The accessor's quotas to update, and whether there was no error.
  unfoldable pub evaluate :
      List ResourceQuota → List ResourceQuota → Pod → ℕ → List ResourceQuota × Bool
  evaluate before quotas pod replicas = elim (usage pod) [
    | none ↦ (before, false)
    | some delta ↦ elim (total_delta_usage ops (remove_zeros delta) replicas []) [
      | [] ↦ (before, true)
      | entry ∷ more ↦ elim (evaluate_quotas pod (entry ∷ more) quotas) [
        | none ↦ (before, false)
        | some updates ↦ (updates, true)
      ]
    ]
  ]

-- `put` is the update by the API server, with whether it succeeds.
module _ {Server : Type 0} (put : Server → ResourceQuota → Server × Bool) where
  -- An update that fails ends the loop.
  unfoldable pub update : Server → List ResourceQuota → Server × Bool
  update s [] = (s, true)
  update s (q ∷ qs) =
      let (s', done) = put s q in let rest = update s' qs in if done then rest else (s', false)

  -- A quota that cannot be decoded or written is left; `decode` is DecodeQuota.
  unfoldable pub revert : (String → Option ResourceQuota) → Server → List ResourceQuota → Server
  revert decode s [] = s
  revert decode s (q ∷ qs) = elim (lookup quota_annotation_key (or_empty q.annotations)) [
    | none ↦ revert decode s qs
    | some text ↦ elim (decode text) [
      | none ↦ revert decode s qs
      | some original ↦ revert decode (put s (remove_gc_label_from_quota original)).0 qs
    ]
  ]

-- `get` is the list of the quotas of the namespace from the API server.
module _ (ops : ResourceOps) {Pod : Type 0} (usage : Pod → Option ResourceList)
    (matches : ResourceQuota → Pod → Option Bool) (matching_resources : List String → List String)
    (encode : ResourceQuota → Option String) {Server : Type 0}
    (get : Server → Option (List ResourceQuota))
    (put : Server → ResourceQuota → Server × Bool) where
  -- The accessor's quotas, the server, and whether there was no error.
  unfoldable pub check_quotas :
      List ResourceQuota → Pod → ℕ → Server → List ResourceQuota × Server × Bool
  check_quotas before pod replicas s = elim (get s) [
    | none ↦ (before, s, false)
    | some quotas ↦
        let (updates, fine) =
          evaluate ops usage matches matching_resources encode before quotas pod replicas in
        let (s', done) = update put s updates in
        if fine then (updates, s', done) else (updates, s, false)
  ]
