-- ===== src/Controller/Reconcile/Paths/Safe.antt =====
-- Both paths of an evaluation fill the interface of the reconcile loop, and neither sends a DELETE but
-- behind the gate and the UID precondition.
use zen_cleaner.Prelude.{false, refl, some, List}
use zen_cleaner.Unstructured.{Unstructured}
use zen_cleaner.Api.{BehaviorSpec, ZenCleanerPolicy}
use zen_cleaner.Controller.Deletion.{Log}
use zen_cleaner.Controller.Deletion.Safe.{IsSafe}
use zen_cleaner.Controller.Batches.{resolve_batch_size}
use zen_cleaner.Controller.Batches.Keeps.{delete_resources_in_batches_shared-keeps}
use zen_cleaner.Controller.Evaluation.{evaluate_policy_resources_shared}
use zen_cleaner.Controller.Cycle.{delete_batch_with_receipt}
use zen_cleaner.Controller.Reconcile.{State, Evaluator, Reconciler}
use zen_cleaner.Controller.Informers.{
  Shared, Evaluated, by_service, directly, informer_creation_failed, choose_path,
}
use zen_cleaner.Controller.Reconcile.Lifecycle.{Schedule, reconcile_all}
use zen_cleaner.Controller.Reconcile.Evaluation.{
  Cycles, log_of, follow_cycle, evaluation_service_key,
}
use zen_cleaner.Controller.Reconcile.Evaluation.Ends.{Kept, evaluate-Kept, follow_cycle-Kept}
use zen_cleaner.Controller.Reconcile.Evaluation.Safe.{
  SanctionsAll, delete_batch_with_receipt-IsSafe, evaluate-IsSafe, reconcile_all-keeps,
}
use zen_cleaner.Controller.Reconcile.Paths.{
  Worlds, shared_of, with_shared, delete_list_shared, evaluate_directly, follow_path,
  evaluate_policy_by_path,
}

with_shared-Kept :
    (policy : ZenCleanerPolicy) (shared : Shared) (s t : State)
    → Kept (with_shared policy shared s) t
    → Kept s t
unfolding with_shared
with_shared-Kept policy shared s t h = h

follow_path-Kept :
    (c : Cycles) (policy : ZenCleanerPolicy) (path : Evaluated) (s : State)
    → Kept s (follow_path c policy path s).1
unfolding follow_path evaluate_directly
follow_path-Kept c policy by_service s = evaluate-Kept c policy s
follow_path-Kept c policy directly s =
    let plan =
      evaluate_policy_resources_shared c.service.surroundings policy.spec
        (c.store (evaluation_service_key policy)) in
    follow_cycle-Kept c false policy s (
      some (record {
        plan = plan;
        run = delete_list_shared c.service policy.spec.behavior plan.to_delete s.log;
      }))
follow_path-Kept c policy (informer_creation_failed e) s = (refl, refl)

pub evaluate_policy_by_path-Kept :
    (c : Cycles) (w : Worlds) (policy : ZenCleanerPolicy) (s : State)
    → Kept s (evaluate_policy_by_path c w policy s).1
unfolding evaluate_policy_by_path
evaluate_policy_by_path-Kept c w policy s =
    let (path, shared) = choose_path (w.first policy s) (w.second policy s) policy (shared_of s) in
    let t = with_shared policy shared s in
    with_shared-Kept policy shared s (follow_path c policy path t).1
      (follow_path-Kept c policy path t)

abbrev pub evaluator_by_path : Cycles → Worlds → Evaluator
evaluator_by_path c w = record {
  run_evaluation = evaluate_policy_by_path c w;
  keeps_uids = λ p s. (evaluate_policy_by_path-Kept c w p s).0;
  keeps_specs = λ p s. (evaluate_policy_by_path-Kept c w p s).1;
}

module _ (c : Cycles) (allowed : BehaviorSpec → Type 0) where
  abbrev Safe : Log → Type 0
  Safe log = IsSafe c.service.gate allowed log

  delete_list_shared-IsSafe :
      (behavior : BehaviorSpec) (planned : List Unstructured) (log : Log)
      → allowed behavior
      → Safe log
      → Safe (log_of (delete_list_shared c.service behavior planned log) log)
  unfolding delete_list_shared
  delete_list_shared-IsSafe behavior planned log a h =
      let service = c.service in
      delete_resources_in_batches_shared-keeps Safe service.env.done
        (delete_batch_with_receipt service.env service.digest service.gate behavior)
        (λ batch l k.
          delete_batch_with_receipt-IsSafe service.gate allowed service.env service.digest behavior
            batch l a k)
        (resolve_batch_size behavior service.batch_size) planned log h

  follow_path-IsSafe :
      (policy : ZenCleanerPolicy) (path : Evaluated) (s : State)
      → allowed policy.spec.behavior
      → Safe s.log
      → Safe (follow_path c policy path s).1.log
  unfolding follow_path evaluate_directly follow_cycle
  follow_path-IsSafe policy by_service s a h = evaluate-IsSafe c allowed policy s a h
  follow_path-IsSafe policy directly s a h =
      delete_list_shared-IsSafe policy.spec.behavior
        (evaluate_policy_resources_shared c.service.surroundings policy.spec
          (c.store (evaluation_service_key policy))).to_delete
        s.log a h
  follow_path-IsSafe policy (informer_creation_failed e) s a h = h

  evaluate_policy_by_path-IsSafe :
      (w : Worlds) (policy : ZenCleanerPolicy) (s : State)
      → allowed policy.spec.behavior
      → Safe s.log
      → Safe (evaluate_policy_by_path c w policy s).1.log
  unfolding evaluate_policy_by_path with_shared
  evaluate_policy_by_path-IsSafe w policy s a h =
      let (path, shared) =
        choose_path (w.first policy s) (w.second policy s) policy (shared_of s) in
      follow_path-IsSafe policy path (with_shared policy shared s) a h

-- Over any sequence of reconciles, whatever the API server, the limiters, the context, the informers
-- and the checks of the targets answer, be each policy evaluated by its service or directly: where
-- every policy that a reconcile finds runnable has an allowed behavior, and the log of the calls is
-- safe, it stays safe. Every DELETE in it is for a resource that the gate of the deletion path allows,
-- comes right after a Get whose reply was the very UID that was planned, carries the delete options of
-- an allowed behavior, and that behavior is no dry run.
pub reconcile_all-IsSafe :
    (r : Reconciler) (c : Cycles) (w : Worlds) (allowed : BehaviorSpec → Type 0)
    (schedule : Schedule) (s : State)
    → SanctionsAll r allowed schedule
    → IsSafe c.service.gate allowed s.log
    → IsSafe c.service.gate allowed (reconcile_all r (evaluator_by_path c w) schedule s).log
reconcile_all-IsSafe r c w allowed schedule s a h =
    reconcile_all-keeps r (evaluator_by_path c w) (IsSafe c.service.gate allowed) allowed
      (evaluate_policy_by_path-IsSafe c allowed w) schedule s a h
