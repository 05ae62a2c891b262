-- ===== src/Locks.antt =====
-- The locks under which actions run: pkg/action/util, pkg/action/action_lock_store.go and the retry
-- loop of pkg/util/common_util.go.
pub mod ExpirationMap
pub mod Retry
pub mod LockHelper
pub mod ActionLockStore
mod Examples
mod HelperExamples
