-- ===== src/Garbage/Examples.antt =====
-- Cleanups after a crash.
use kubeturbo.Prelude.{
  ◌≡◌, refl, true, false, Option, some, List, [], ◌∷◌, String, ◌==◌, string_eq, if◌then◌else◌,
  arith, inl,
}
use kubeturbo.Locks.Retry.{retry_during, retry_loop}
use kubeturbo.Quota.{copy_quota, check_quotas, ResourceQuota}
use kubeturbo.Quota.Concrete.{concrete_ops}
use kubeturbo.Quota.Examples.{
  quota, raised_quota, usage, matches, all_of, encode, decode, pod, Server, read_hard, put, server,
  get, evaluate-pod,
}
use kubeturbo.Move.Workloads.{
  Workload, Client, change_scheduler, scheduler_once, remove_gc_label, default_scheduler,
}
use kubeturbo.Move.Workloads.Retries.{Timing, retried}
use kubeturbo.Move.Workloads.Settings.{IsClient}
use kubeturbo.Garbage.{cleanup_quotas}
use kubeturbo.Garbage.Quotas.{cleanup_quotas-check_quotas}

abbrev at_once : {S : Type 0} → S → Timing
at_once s = record { start = 0; clock = λ i. 0 }

retried-put : (s : Server) (q : ResourceQuota) → (retried 0 (at_once s) (λ t. put t q) s).1 ≡ true
unfolding retried retry_during retry_loop
retried-put s q = refl

check_quotas-pod :
    (check_quotas concrete_ops usage matches all_of encode get put [] pod 2 server).0
    ≡ raised_quota ∷ []
unfolding check_quotas
check_quotas-pod = ground (arith, evaluate-pod)

-- The update was stored, then the program stopped.
abbrev crashed : Server
crashed = (put server raised_quota).0

abbrev list : Server → Option (List ResourceQuota)
list s = some (raised_quota ∷ [])

cleanup_quotas-check_quotas_example :
    read_hard (cleanup_quotas at_once put decode list crashed) "compute"
    ≡ read_hard server "compute"
unfolding copy_quota
cleanup_quotas-check_quotas_example =
    cleanup_quotas-check_quotas concrete_ops usage matches all_of encode decode at_once read_hard
      get put put list server crashed pod 2 (quota ∷ []) (raised_quota ∷ []) "compute"
      (λ s q n. refl) retried-put refl (refl, tt) ((λ text kept. refl), tt) refl
      (rw check_quotas-pod (inl (refl, refl), tt))
      (λ m absent. ground (arith, string_eq.beq_iff "compute" m))

-- A server that has every workload, by name.
abbrev Cluster : Type 0
Cluster = String → Workload

abbrev stored : String → Workload → Workload
stored name w = record w { name = name; has_paths = true }

abbrev client : Client Cluster
client = record {
  get = λ s n. some (stored n (s n));
  put = λ s w. if w.has_paths then (λ n. if w.name == n then w else s n, true) else (s, false);
}

client-IsClient : IsClient client
client-IsClient = record {
  get-put = λ s w n. ground (arith, string_eq.beq_iff w.name n);
  get-name = λ s n w e. ground arith;
}

remove_gc_label-paths : (w : Workload) → (remove_gc_label w).has_paths ≡ w.has_paths
unfolding remove_gc_label
remove_gc_label-paths w = ground arith

accepts :
    (n : String) (s : Cluster)
    → (retried 0 (at_once s) (change_scheduler (λ f t. f t) client (some n) true) s).1 ≡ true
unfolding retried retry_during retry_loop change_scheduler scheduler_once
accepts n s =
    let w = record (stored n (s n)) { scheduler_name = default_scheduler } in
    ground (arith, remove_gc_label-paths w)

abbrev interrupted : Cluster
interrupted n = record {
  name = n;
  labels = some (("kubeturbo.io", "gc") ∷ []);
  paused = false;
  scheduler_name = "turbo-scheduler";
  has_paths = true;
}
