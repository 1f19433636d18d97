-- ===== src/Controller/Reconcile/Evaluation.antt =====
-- The evaluation of a reconcile: `evaluatePolicy` of pkg/controller/reconciler_evaluation.go with the
-- service of the policy's target, `EvaluatePolicy` of evaluate_policy_refactored.go and the lister of
-- adapters.go. The service and its informer are there; what the informer's store has is an argument,
-- and so is whether the write of the status fails.
pub mod Ends
pub mod Safe
use zen_cleaner.Prelude.{
  Bool, if◌then◌else◌, ◌*◌, ◌/◌, ◌<◌, String, ◌<>◌, not, ◌&&◌, Option, none, some, List, [], ◌∷◌,
  ◌==◌,
}
use zen_cleaner.Unstructured.{Unstructured}
use zen_cleaner.Api.{ZenCleanerPolicy}
use zen_cleaner.Ttl.{is_nil}
use zen_cleaner.Validation.Gvr.{Parsed, parsed, failed, parse_gvr}
use zen_cleaner.Controller.Deletion.{Log}
use zen_cleaner.Controller.Batches.{Run, finished, panicked, out_of_fuel}
use zen_cleaner.Controller.Cycle.{Service, Cycle, evaluate_policy}
use zen_cleaner.Controller.Tracking.{Tracked, get_or_create_rate_limiter}
use zen_cleaner.Controller.Reconcile.{EvaluationError, evaluation_failed, State, Evaluator}

pub record Cycles : Type 0 where
  pub service : Service
  pub store : String → List Unstructured
  pub parse_group_version : String → Option (String × String)
  pub to_lower : String → String
  pub status_fails : ZenCleanerPolicy → Bool

unfoldable pub evaluation_service_key : ZenCleanerPolicy → String
evaluation_service_key policy =
    let target = policy.spec.target_resource in
    target.api_version <> ("/" <> (target.kind <> ("/" <> target.namespace)))

unfoldable pub list_resources : List Unstructured → String → List Unstructured
list_resources [] namespace = []
list_resources (resource ∷ more) namespace =
    let rest = list_resources more namespace in
    if not (namespace == "") && not (namespace == "*") && not (resource.namespace == namespace)
    then rest
    else resource ∷ rest

-- The log at the end of a run. A run that panics does not come back; it has no empty batch to do so.
abbrev pub log_of : Run → Log → Log
log_of (finished deleted log) before = log
log_of panicked before = before
log_of out_of_fuel before = before

-- The limiter that a deletion list is given, if it has a resource; none where the context is seen to be
-- done before.
unfoldable pub limit : Bool → ZenCleanerPolicy → List Unstructured → Tracked → Tracked
limit done policy [] tracked = tracked
limit done policy (resource ∷ more) tracked =
    if done then tracked else (get_or_create_rate_limiter policy tracked).1

unfoldable pub follow_cycle :
    Cycles → Bool → ZenCleanerPolicy → State → Option Cycle → Option EvaluationError × State
unfolding limit
follow_cycle c done policy s none = (some evaluation_failed, s)
follow_cycle c done policy s (some cycle) = (
  if c.status_fails policy then some evaluation_failed else none,
  record s {
    tracked = limit done policy cycle.plan.to_delete s.tracked;
    log = log_of cycle.run s.log;
  },
)

unfoldable pub resources_of : Cycles → ZenCleanerPolicy → List Unstructured
unfolding list_resources evaluation_service_key
resources_of c policy =
    let namespace = policy.spec.target_resource.namespace in
    list_resources (c.store (evaluation_service_key policy))
      (if namespace == "" then "*" else namespace)

unfoldable pub follow_gvr :
    Cycles → ZenCleanerPolicy → State → Parsed → Option EvaluationError × State
unfolding follow_cycle
follow_gvr c policy s (failed e) = (some evaluation_failed, s)
follow_gvr c policy s (parsed gvr) =
    follow_cycle c (c.service.env.done s.log) policy s
      (evaluate_policy c.service policy.spec (some (resources_of c policy)) s.log)

unfoldable pub evaluate : Cycles → ZenCleanerPolicy → State → Option EvaluationError × State
unfolding follow_gvr
evaluate c policy s =
    let target = policy.spec.target_resource in
    follow_gvr c policy s
      (parse_gvr c.parse_group_version c.to_lower target.api_version target.kind)
