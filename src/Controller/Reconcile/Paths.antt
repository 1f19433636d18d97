-- ===== src/Controller/Reconcile/Paths.antt =====
-- The whole of `evaluatePolicy` of pkg/controller/reconciler_evaluation.go: by the service of the
-- policy's target where it is there or can be created, and else directly over the shared informer,
-- with `evaluatePolicyResourcesShared`, `deleteResourcesInBatchesShared` and `updatePolicyStatusShared`
-- of evaluate_policy_shared.go.
pub mod Safe
pub mod Ends
use zen_cleaner.Prelude.{false, ◌+◌, Option, none, some, List, [], ◌++◌, map}
use zen_cleaner.Controller.Target.{TargetErrorType}
use zen_cleaner.Controller.Status.Writes.{condition_reason, is_permanent_target}
use zen_cleaner.Unstructured.{Unstructured}
use zen_cleaner.Api.{BehaviorSpec, ZenCleanerPolicy}
use zen_cleaner.Controller.Deletion.{Log}
use zen_cleaner.Controller.Batches.{Run, resolve_batch_size, delete_resources_in_batches_shared}
use zen_cleaner.Controller.Evaluation.{evaluate_policy_resources_shared}
use zen_cleaner.Controller.Cycle.{Service, Cycle, delete_batch_with_receipt}
use zen_cleaner.Controller.Reconcile.{
  EvaluationError, target_capability, evaluation_failed, State, ConditionWrite,
}
use zen_cleaner.Controller.Reconcile.Evaluation.{
  Cycles, evaluation_service_key, follow_cycle, evaluate,
}
use zen_cleaner.Controller.Informers.{
  World, Shared, InformerError, target_capability as refused_target, not_synced, Evaluated,
  by_service, directly, informer_creation_failed, choose_path,
}

-- What the two calls for the informer meet, in each evaluation.
pub record Worlds : Type 0 where
  pub first : ZenCleanerPolicy → State → World
  pub second : ZenCleanerPolicy → State → World

-- `reconcileTargetCondition`.
unfoldable pub target_write : ZenCleanerPolicy → Option TargetErrorType → ConditionWrite
target_write policy none = record {
  uid = policy.uid;
  type_name = "TargetReady";
  reason = "TargetAvailable";
  permanent = false;
}
target_write policy (some e) = record {
  uid = policy.uid;
  type_name = "TargetReady";
  reason = condition_reason e;
  permanent = is_permanent_target e;
}

unfoldable pub shared_of : State → Shared
shared_of s = record {
  resource_informers = s.resource_informers;
  evaluation_services = s.evaluation_services;
  failures = s.failures;
  probes = s.probes;
  validated = [];
}

unfoldable pub with_shared : ZenCleanerPolicy → Shared → State → State
unfolding target_write
with_shared policy shared s = record s {
  resource_informers = shared.resource_informers;
  evaluation_services = shared.evaluation_services;
  failures = shared.failures;
  probes = shared.probes;
  written = map (target_write policy) shared.validated ++ s.written;
}

unfoldable pub delete_list_shared : Service → BehaviorSpec → List Unstructured → Log → Run
delete_list_shared service behavior planned log =
    delete_resources_in_batches_shared service.env.done
      (delete_batch_with_receipt service.env service.digest service.gate behavior)
      (resolve_batch_size behavior service.batch_size) planned log

-- Over all of the informer's store; the limiter is asked for before the context is looked at.
unfoldable pub evaluate_directly :
    Cycles → ZenCleanerPolicy → State → Option EvaluationError × State
unfolding follow_cycle delete_list_shared evaluation_service_key
evaluate_directly c policy s =
    let plan =
      evaluate_policy_resources_shared c.service.surroundings policy.spec
        (c.store (evaluation_service_key policy)) in
    follow_cycle c false policy s (
      some (record {
        plan = plan;
        run = delete_list_shared c.service policy.spec.behavior plan.to_delete s.log;
      }))

unfoldable pub informer_error : InformerError → EvaluationError
informer_error (refused_target e) = target_capability e
informer_error not_synced = evaluation_failed

unfoldable pub follow_path :
    Cycles → ZenCleanerPolicy → Evaluated → State → Option EvaluationError × State
unfolding evaluate evaluate_directly informer_error
follow_path c policy by_service s = evaluate c policy s
follow_path c policy directly s = evaluate_directly c policy s
follow_path c policy (informer_creation_failed e) s = (some (informer_error e), s)

unfoldable pub evaluate_policy_by_path :
    Cycles → Worlds → ZenCleanerPolicy → State → Option EvaluationError × State
unfolding follow_path choose_path with_shared shared_of
evaluate_policy_by_path c w policy s =
    let (path, shared) = choose_path (w.first policy s) (w.second policy s) policy (shared_of s) in
    follow_path c policy path (with_shared policy shared s)
