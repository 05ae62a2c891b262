-- ===== src/Lib.antt =====
-- kubeturbo makes a Kubernetes cluster known to the Turbonomic market, and carries out what the
-- market decides. This library models parts of both ways and proves what makes them correct.
--
-- The actions of the market are serialized by locks. The file pkg/action/util/expiration_map.go is
-- a map whose entries expire, Locks/ExpirationMap.antt: `add`, `del`, `touch`, `expire_item` and
-- `expire_items` are its methods Add, Del, Touch, expireItem and expireItems, on the struct's
-- fields as a record. A lock of pkg/action/util/lock_helper.go, Locks/LockHelper.antt, is an entry
-- of that map under the action's key. It is taken with `acquire_lock` or `trylock`, kept by the
-- goroutine of KeepRenewLock (`renew_rounds`), and given back with `release_lock`. Trylock waits
-- with RetryDuring of pkg/util/common_util.go, Locks/Retry.antt. The key is made by
-- pkg/action/action_lock_store.go, Locks/ActionLockStore.antt, from the owner of the action's pod,
-- which pkg/discovery/util/owner_util.go and GetPodParentInfo of pkg/discovery/util/pod_util.go
-- find, Owner.antt.
--
-- The entry is pkg/action/action_handler.go, Handler.antt: `execute_action` checks an action, waits
-- for the lock of its pod, reads the pod again, runs the registered executor and gives the lock
-- back. Pods that actions replaced are remembered by pkg/action/util/pod_manager.go,
-- Handler/Pods.antt.
--
-- Three kinds of executors are modelled in part. A move of a pod begins in
-- pkg/action/executor/rescheduler.go, Move/Reschedule.antt, which finds the node and decides. The
-- move itself, move_util.go, is Move/Process.antt: `move_pod` is the steps of movePod, inside out,
-- each with its deferred calls; the changes of schedulers and rollouts are in Move/Workloads.antt
-- and the clone in Move/Clone.antt. A resize of containers, resize_container_util.go, is
-- Resize.antt, what it asks for, resize_container.go, is Resize/Spec.antt, and the update of replicas in k8s_controller_updater.go is Resize/Updater.antt; the horizontal
-- scaler on top of it, horizontal_scaler.go, is Resize/Scale.antt. What
-- an interrupted action leaves behind is undone by pkg/discovery/worker/garbage_collector.go,
-- Garbage.antt.
--
-- An action that starts pods may find a quota of the namespace in its way. The file
-- pkg/action/executor/quota_util.go raises such quotas and takes them back afterwards, Quota.antt,
-- with the lock of lockForQuota in Quota/Locking.antt. What it calls of the Kubernetes library for
-- resource lists is the interface of Quota/Resources.antt, with an instance in Quota/Concrete.antt.
--
-- The rules of the cluster on where a pod may run become commodities: pods buy, nodes sell. In
-- pkg/discovery/worker/compliance the file compliance_processor.go keeps the index of entities and
-- adds commodities to them, Compliance/Processor.antt, and taint_toleration_processor.go does so
-- for taints and tolerations: Compliance/Taints.antt has the commodities,
-- Compliance/Taints/Process.antt the processor. For the affinity of pods to nodes and to other
-- pods, affinity_commodity_manager.go makes the commodities, Compliance/Affinity.antt, and
-- affinity_processor.go adds them, through compliance_processor.go,
-- Compliance/Affinity/Process.antt. The tests of affinity_helper.go are parameters there, and are
-- modelled in Compliance/Affinity/Helper.antt (between pods) and Compliance/Affinity/NodeTerms.antt
-- (to nodes). The entities themselves are in Compliance/Dto.antt.
--
-- What the monitors measured is kept by pkg/discovery/metrics: metric.go is Metrics.antt, with the
-- sum of points over pods in Metrics/Points.antt, and metric_sink.go is Metrics/Sink.antt, on the
-- store of pkg/turbostore/turbo_store.go.
--
-- The workers of a discovery, pkg/discovery/worker, send their results to result_collector.go,
-- Discovery/Collector.antt. What several workers found of one namespace is brought together by
-- namespace_discovery_worker.go on the metrics of pkg/discovery/repository/entity_metrics.go,
-- Discovery/Namespaces.antt, and what they found of one container spec by
-- container_spec_discovery_worker.go, Discovery/ContainerSpecs.antt.
--
-- State is passed explicitly. Each method of the expiration map runs under its mutex, so what
-- goroutines do to the map is a list of calls, `run` of Locks/ExpirationMap/Steps.antt, and a
-- theorem about every list is one about every interleaving. A reading of the clock is an argument,
-- in nanoseconds since some start; a call that reads it twice has two. The version counter is an
-- int64, kept as its bit pattern modulo 2^64. Entities are shared through pointers, so they live in
-- a heap, a function from addresses. Maps are lists of pairs with each key once
-- (Prelude/Dict.antt); their order stands for the order in which Go's `range` may visit them.
-- Panics and errors are results.
--
-- RetryDuring is recursion on fuel, `attempts + 1` rounds: each round counts one attempt and the
-- test of the attempts ends the last. All other loops are structural.
--
-- A value float64 is of a type that is a parameter, and its sum a function; quantities of resources
-- are natural numbers. The count of replicas, an int32, is its bit pattern modulo 2^32. In
-- Move/Process.antt and Handler.antt the state of the cluster is a type that is a parameter too,
-- and each call of the API server is a function on it.
--
-- In Resize/Scale.antt a capacity, a float64 that is a whole number there, is an integer, and in
-- Resize/Spec.antt a number of thousandths.
-- GetPodControllerInfo is a parameter there. The methods get and update of the interface
-- k8sController are parameters of Resize/Updater.antt, and Resize/Scale/Parent.antt has those of
-- k8s_controller.go, with the object that get keeps; the ORM client and the wait for new replicas
-- are parameters there.
--
-- Parameters stand for code that is elsewhere: the library for resource lists, the evaluator of
-- pods against quotas, the codec, the API server's reads and writes, RetryOnConflict and
-- PollImmediate of the Kubernetes libraries, the JSON decoder, the SDK's builder of a commodity,
-- the method ToleratesTaint of the Kubernetes API, the hash and the texts of affinity terms, and
-- the parsing of selectors and of quantities. In Move/Process.antt getPodOwnersInfo, parentsPods
-- and WaitForPodReady
-- ask the API server and are parameters there, as are the executors in Handler.antt and the
-- function that finds the pod of an action in Locks/ActionLockStore.antt, which Handler.antt fills.
-- The accessor of quotas is one in Move/Process.antt; Quota.antt models it.
--
-- Not modelled: the rest of the API server, kubelets and the SDK, the sleeps and log lines, the
-- progress that ExecuteAction reports, and the loops of ExpirationMap.Run and StartCleanup around
-- what they call; further the other executors of actions, the builders of entities, monitoring,
-- stitching and registration.
pub mod Compliance
pub mod Discovery
pub mod Garbage
pub mod Handler
pub mod Locks
pub mod Metrics
pub mod Move
pub mod Owner
pub mod Prelude
pub mod Quota
pub mod Resize
