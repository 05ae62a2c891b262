-- ===== src/Quota/Examples.antt =====
-- A namespace with one quota, as pkg/action/executor/quota_util.go meets it.
use kubeturbo.Prelude.{
  ℕ, ◌+◌, ◌*◌, ◌≡◌, refl, Bool, true, false, Option, none, some, List, [], ◌∷◌, String, ◌==◌,
  string_eq, nat_eq, if◌then◌else◌, All, arith, subst,
}
use kubeturbo.Prelude.Dict.{lookup, insert}
use kubeturbo.Locks.ExpirationMap.Steps.{Event}
use kubeturbo.Locks.LockHelper.{LockMap}
use kubeturbo.Quota.Resources.{ResourceList, in_list, amount}
use kubeturbo.Quota.Concrete.{
  concrete_ops, add_lists, mask, resource_names, less_than_or_equal, filter,
}
use kubeturbo.Quota.Backup.{RoundTrips}
use kubeturbo.Quota.Evaluation.{Served, evaluate-Served}
use kubeturbo.Quota.Reversal.{revert-check_quotas}
use kubeturbo.Quota.{
  ResourceQuota, copy_quota, remove_zeros, total_delta_usage, evaluate, evaluate_quotas,
  evaluate_quota, add_to_spec_hard, usage_stats_loop, check_quotas, revert, quota_annotation_key,
  turbo_gc_label_key, turbo_gc_label_val,
}

abbrev pub quota : ResourceQuota
quota = record {
  name = "compute";
  uid = "u1";
  resource_version = "7";
  annotations = none;
  labels = none;
  hard = ("cpu", 10) ∷ ("memory", 64) ∷ [];
  scopes = [];
  status_hard = ("cpu", 10) ∷ ("memory", 64) ∷ [];
  status_used = ("cpu", 9) ∷ ("memory", 8) ∷ [];
}

-- A pod is what it uses.
abbrev pub usage : ResourceList → Option ResourceList
usage pod = some pod

abbrev pub matches : ResourceQuota → ResourceList → Option Bool
matches q pod = some true

abbrev pub all_of : List String → List String
all_of names = names

abbrev pub encode : ResourceQuota → Option String
encode q = some "backup"

abbrev pub decode : String → Option ResourceQuota
decode text =
    some (record quota { uid = ""; resource_version = ""; status_hard = []; status_used = [] })

abbrev pub pod : ResourceList
pod = ("cpu", 2) ∷ ("memory", 4) ∷ ("pods", 0) ∷ []

-- Two replicas of two CPUs each.
abbrev pub raised_quota : ResourceQuota
raised_quota = record quota {
  uid = "";
  resource_version = "";
  annotations = some ((quota_annotation_key, "backup") ∷ []);
  labels = some ((turbo_gc_label_key, turbo_gc_label_val) ∷ []);
  hard = ("cpu", 14) ∷ ("memory", 64) ∷ [];
  status_hard = [];
  status_used = [];
}

pub evaluate-pod :
    evaluate concrete_ops usage matches all_of encode [] (quota ∷ []) pod 2
    ≡ (raised_quota ∷ [], true)
unfolding evaluate evaluate_quotas evaluate_quota remove_zeros total_delta_usage add_to_spec_hard
    usage_stats_loop copy_quota add_lists mask resource_names less_than_or_equal filter in_list
    lookup insert
evaluate-pod = refl

evaluate-Served_example :
    let total = total_delta_usage concrete_ops (remove_zeros pod) 2 [] in
    ((k : String) → amount (lookup k total) ≡ 2 * amount (lookup k pod))
    × All
        (Served concrete_ops usage matches all_of encode pod total (raised_quota ∷ []))
        (quota ∷ [])
unfolding lookup
evaluate-Served_example =
    evaluate-Served concrete_ops usage matches all_of encode pod [] (quota ∷ []) (raised_quota ∷ [])
      2 pod refl (refl, (refl, (refl, tt))) evaluate-pod

-- A server with one quota: its limits, by name.
abbrev pub Server : Type 0
Server = String → Option ResourceList

abbrev pub read_hard : Server → String → Option ResourceList
read_hard s n = s n

abbrev pub put : Server → ResourceQuota → Server × Bool
put s q = (λ n. if q.name == n then some q.hard else s n, true)

abbrev put_nothing : Server → ResourceQuota → Server × Bool
put_nothing s q = (s, false)

abbrev pub server : Server
server n = if "compute" == n then some quota.hard else none

abbrev pub get : Server → Option (List ResourceQuota)
get s = some (quota ∷ [])

abbrev Fetched : List ResourceQuota → Type 0
Fetched quotas =
    All (λ q. read_hard server q.name ≡ some q.hard) quotas
    × All (RoundTrips concrete_ops usage matches all_of encode pod decode) quotas

fetches : (quotas : List ResourceQuota) → get server ≡ some quotas → Fetched quotas
unfolding copy_quota
fetches quotas e =
    let same : quota ∷ [] ≡ quotas = ground (arith, e) in
    subst Fetched same ((refl, tt), ((λ text kept. refl), tt))

revert-check_quotas_example :
    let (updates, s, fine) =
      check_quotas concrete_ops usage matches all_of encode get put [] pod 2 server in
    read_hard (revert put decode s updates) "compute" ≡ read_hard server "compute"
revert-check_quotas_example =
    revert-check_quotas concrete_ops usage matches all_of encode decode read_hard get put put server
      pod 2 "compute" (λ s q n. refl) (λ s q n. refl) (λ s q. refl) fetches

abbrev emap : LockMap {Call = ℕ} 0
emap = record { items = []; generation = 0; ttl = 4000000000 }

abbrev clock : ℕ → ℕ
clock i = 10 + i

abbrev quiet : ℕ → List (Event String ℕ)
quiet i = []
