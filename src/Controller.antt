-- ===== src/Controller.antt =====
-- pkg/controller: the reconciler, its evaluation of a policy and its deletions.
pub mod Conditions
pub mod Selectors
pub mod Expiry
pub mod Evaluation
pub mod Deletion
pub mod Batches
pub mod Receipt
pub mod Cycle
pub mod Integrity
pub mod Target
pub mod Status
pub mod Tracking
pub mod Reconcile
pub mod Resolver
pub mod Informers
