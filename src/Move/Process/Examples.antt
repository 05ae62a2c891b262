-- ===== src/Move/Process/Examples.antt =====
-- A move on a server with one parent and one grand parent.
use kubeturbo.Prelude.{
  ℕ, ◌≡◌, refl, ◌⊎◌, Bool, true, false, ◌&&◌, none, some, [], ◌∷◌, String, ◌==◌, string_eq,
  if◌then◌else◌, arith,
}
use kubeturbo.Prelude.Dict.{lookup}
use kubeturbo.Locks.Retry.{retry_during, retry_loop}
use kubeturbo.Quota.{turbo_gc_label_key, turbo_gc_label_val, or_empty}
use kubeturbo.Move.Workloads.{
  Workload, Client, change_scheduler, resource_rollout, scheduler_once, rollout_once,
  remove_gc_label, default_scheduler,
}
use kubeturbo.Move.Workloads.Retries.{once, Timing, retried}
use kubeturbo.Move.Workloads.Settings.{IsClient, IsScheduled, IsRolling}
use kubeturbo.Move.Clone.{Pod, empty_pod, clone_pod}
use kubeturbo.Move.Clone.Labels.{clone_pod_lem, source_spec}
use kubeturbo.Move.Process.{
  Env, PodClient, QuotaSteps, Owners, move_pod, default_retry_short_timeout,
}
use kubeturbo.Move.Process.Frame.{KeepsPods, KeepsQuotas}
use kubeturbo.Move.Process.Restored.{move_pod-restored}

-- The parent and the grand parent.
abbrev Server : Type 0
Server = Workload × Workload

abbrev stored : String → Workload → Workload
stored name w = record w { name = name; has_paths = true }

abbrev accepts : String → Workload → Bool
accepts name w = w.name == name && w.has_paths

abbrev replica_sets : Client Server
replica_sets = record {
  get = λ s n. if n == "web-rs" then some (stored "web-rs" s.0) else none;
  put = λ s w. if accepts "web-rs" w then ((w, s.1), true) else (s, false);
}

abbrev deployments : Client Server
deployments = record {
  get = λ s n. if n == "web" then some (stored "web" s.1) else none;
  put = λ s w. if accepts "web" w then ((s.0, w), true) else (s, false);
}

replica_sets-IsClient : IsClient replica_sets
replica_sets-IsClient = record {
  get-put = λ s w n. ground (
    arith,
    string_eq.beq_iff w.name "web-rs",
    string_eq.beq_iff n "web-rs",
    string_eq.beq_iff w.name n,
  );
  get-name = λ s n w e. ground (arith, string_eq.beq_iff n "web-rs");
}

deployments-IsClient : IsClient deployments
deployments-IsClient = record {
  get-put = λ s w n. ground (
    arith,
    string_eq.beq_iff w.name "web",
    string_eq.beq_iff n "web",
    string_eq.beq_iff w.name n,
  );
  get-name = λ s n w e. ground (arith, string_eq.beq_iff n "web");
}

-- Every call for pods succeeds and finds the clone.
abbrev pod_calls : PodClient Server
pod_calls = record {
  create = λ s p. (s, some p);
  delete = λ s n. (s, true);
  get = λ s n. some (record empty_pod { name = n });
  update = λ s p. (s, true);
  list = λ s. some (some []);
  wait_for_pod_ready = λ s name node limits. (s, true);
}

abbrev cluster : Env Server
cluster = record {
  conflict_retry = λ f s. f s;
  parents = replica_sets;
  grand_parents = deployments;
  pods = pod_calls;
  timing = λ s. record { start = 0; clock = λ i. 0 };
}

abbrev no_quotas : QuotaSteps Server
no_quotas = record {
  has_quotas = λ s. some false;
  lock = λ s. (s, true);
  check = λ s. (s, true);
  revert = λ s. s;
  release = λ s. s;
}

abbrev web_owners : Owners
web_owners = record {
  parent = some "web-rs";
  grand_parent = some "web";
  template = some none;
  containers = some [];
}

abbrev workload : Workload
workload = record {
  name = "";
  labels = none;
  paused = false;
  scheduler_name = "default-scheduler";
  has_paths = true;
}

-- A call that succeeds at once is not tried again.
retried_at_once :
    {S : Type 0} (timeout : ℕ) (timing : Timing) (f : S → S × Bool) (s : S)
    → (f s).1 ≡ true
    → (retried timeout timing f s).1 ≡ true
unfolding retried retry_during retry_loop
retried_at_once timeout timing f s done = ground arith

accepts-remove_gc_label :
    (name : String) (w : Workload) → accepts name (remove_gc_label w) ≡ accepts name w
unfolding remove_gc_label
accepts-remove_gc_label name w = ground arith

schedules :
    (s : Server)
    → (retried default_retry_short_timeout
        (cluster.timing s)
        (change_scheduler cluster.conflict_retry replica_sets (some "web-rs") true)
        s).1
      ≡ true
unfolding change_scheduler scheduler_once
schedules s =
    let w = record (stored "web-rs" s.0) { scheduler_name = default_scheduler } in
    retried_at_once _ _ _ s (ground (arith, accepts-remove_gc_label "web-rs" w))

resumes :
    (s : Server)
    → (retried default_retry_short_timeout
        (cluster.timing s)
        (resource_rollout cluster.conflict_retry deployments "web" false)
        s).1
      ≡ true
unfolding resource_rollout rollout_once
resumes s =
    let w = record (stored "web" s.1) { paused = false } in
    retried_at_once _ _ _ s (ground (arith, accepts-remove_gc_label "web" w))

keeps_pods : {A : Type 0} (view : Server → A) → KeepsPods pod_calls view
keeps_pods view = record {
  create = λ s p. refl;
  delete = λ s n. refl;
  update = λ s p. refl;
  wait = λ s name node limits. refl;
}

keeps_quotas : {A : Type 0} (view : Server → A) → KeepsQuotas no_quotas view
keeps_quotas view = record {
  lock = λ s. refl;
  check = λ s. refl;
  revert = λ s. refl;
  release = λ s. refl;
}

separate :
    (s : Server) (w : Workload)
    → replica_sets.get (deployments.put s w).0 "web-rs" ≡ replica_sets.get s "web-rs"
separate s w = ground arith

abbrev web_pod : Pod
web_pod = record empty_pod { namespace = "shop"; name = "web-1" }

abbrev web_server : Server
web_server = (workload, workload)

move_pod-restored_example :
    let final =
      (move_pod cluster no_quotas
        (λ s. some web_owners)
        "7k"
        web_pod
        "node-2"
        3
        false
        false
        web_server).0 in
    ((replica_sets.get final "web-rs" ≡ replica_sets.get web_server "web-rs")
      ⊎ IsScheduled replica_sets final "web-rs")
    × ((deployments.get final "web" ≡ deployments.get web_server "web")
        ⊎ IsRolling deployments final "web")
move_pod-restored_example =
    move_pod-restored cluster no_quotas (λ s. some web_owners) web_owners "web-rs" "web" refl refl
      (λ f s. once refl) replica_sets-IsClient deployments-IsClient separate (keeps_pods _)
      (keeps_pods _) (keeps_quotas _) (keeps_quotas _) schedules resumes "7k" web_pod "node-2" 3
      false false web_server refl

abbrev labelled : Pod
labelled = record web_pod { labels = some (("app", "web") ∷ []) }

clone_pod_example :
    let clone = clone_pod "7k" labelled none "node-2" in
    (clone.spec ≡ record (source_spec labelled none) { node_name = "node-2" })
    × (clone.namespace ≡ "shop")
    × (clone.owner_references ≡ [])
    × (lookup "app" (or_empty clone.labels)
        ≡ (if turbo_gc_label_key == "app" then some turbo_gc_label_val else none))
clone_pod_example = clone_pod_lem "7k" labelled none "node-2" "app"
