-- ===== src/Move.antt =====
-- pkg/action/executor/move_util.go: the move of a pod to another node, by a clone of the pod.
pub mod Workloads
pub mod Clone
pub mod Process
pub mod Reschedule
