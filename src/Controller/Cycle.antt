-- ===== src/Controller/Cycle.antt =====
-- One evaluation cycle: `EvaluatePolicy` of pkg/controller/evaluate_policy_refactored.go, from the
-- listed resources to the counts that the status gets, with `deleteBatch` of reconciler_deletion.go.
-- The list of the resources, or an error of the kind or of the lister, is an argument.
pub mod Counts
use zen_cleaner.Prelude.{Bool, Option, none, some, List, [], ◌∷◌}
use zen_cleaner.Prelude.Int.{ℤ}
use zen_cleaner.Unstructured.{Unstructured}
use zen_cleaner.Api.{BehaviorSpec, ZenCleanerPolicySpec}
use zen_cleaner.Safety.{Gate}
use zen_cleaner.Controller.Evaluation.{Surroundings, Plan, evaluate_resources}
use zen_cleaner.Controller.Deletion.{Log, Env, Tally}
use zen_cleaner.Controller.Batches.{
  Run, finished, panicked, out_of_fuel, BatchDeleter, resolve_batch_size,
  delete_resources_in_batches,
}
use zen_cleaner.Controller.Receipt.{Digest, execute_with_receipt}

-- The event that tells of the receipt is left out.
unfoldable pub delete_batch_with_receipt : Env → Digest → Option Gate → BehaviorSpec → BatchDeleter
delete_batch_with_receipt env digest gate behavior batch log =
    let (t, receipt, log') = execute_with_receipt env digest gate behavior batch log in (t, log')

pub record Cycle : Type 0 where
  pub plan : Plan
  pub run : Run

-- What the cycle needs: the surroundings of the evaluation, the API server, the digest of a plan, the
-- gate, whether there is a limiter, and the batch size of the controller.
pub record Service : Type 0 where
  pub surroundings : Surroundings
  pub env : Env
  pub digest : Digest
  pub gate : Option Gate
  pub has_limiter : Bool
  pub batch_size : Option ℤ

unfoldable pub delete_planned_list : Service → BehaviorSpec → List Unstructured → Log → Run
unfolding delete_batch_with_receipt
delete_planned_list s behavior [] log = finished 0 log
delete_planned_list s behavior (resource ∷ more) log =
    delete_resources_in_batches s.env.done s.has_limiter
      (delete_batch_with_receipt s.env s.digest s.gate behavior)
      (resolve_batch_size behavior s.batch_size) (resource ∷ more) log

unfoldable pub evaluate_policy :
    Service → ZenCleanerPolicySpec → Option (List Unstructured) → Log → Option Cycle
evaluate_policy s spec none log = none
evaluate_policy s spec (some resources) log =
    let plan = evaluate_resources s.surroundings s.gate spec resources in
    some (record { plan = plan; run = delete_planned_list s spec.behavior plan.to_delete log })
