-- ===== src/Controller/Informers.antt =====
-- The informers and the evaluation services that policies of one target share:
-- `getOrCreateResourceInformer` of pkg/controller/reconciler_informer.go, and
-- `getOrCreateEvaluationService` and `evaluatePolicy` of reconciler_evaluation.go, which falls back to
-- the informer. Both maps are the lists of their keys. The locks make each method one step.
pub mod Sharing
pub mod Counts
use zen_cleaner.Prelude.{String, Bool, Option, none, some, List, ◌∷◌, if◌then◌else◌}
use zen_cleaner.Unstructured.{Time}
use zen_cleaner.Api.{ZenCleanerPolicy}
use zen_cleaner.Safety.{contains}
use zen_cleaner.Controller.Target.{
  TargetErrorType, Cluster, Probes, Failures, validate_target_or_classify,
}
use zen_cleaner.Controller.Reconcile.Evaluation.{evaluation_service_key}

-- What one call meets: the time, the cluster, and whether the cache of a new informer syncs.
pub record World : Type 0 where
  pub now : Time
  pub cluster : Cluster
  pub synced : Bool

-- With what the checks of the target wrote on the conditions of the policy, the latest first.
pub record Shared : Type 0 where
  pub resource_informers : List String
  pub evaluation_services : List String
  pub failures : Failures
  pub probes : Probes
  pub validated : List (Option TargetErrorType)

pub data InformerError : Type 0 where
  target_capability : TargetErrorType → InformerError
  not_synced : InformerError

-- A created informer that does not sync is deleted again. The error of `ResolveGVR` is left out: that
-- method always returns nil for it.
unfoldable pub create_informer :
    World
    → String
    → Option TargetErrorType × Failures × Probes
    → Shared
    → Option InformerError × Shared
create_informer w key (some e, failures, probes) s = (
  some (target_capability e),
  record s { failures = failures; probes = probes; validated = some e ∷ s.validated },
)
create_informer w key (none, failures, probes) s = (
  if w.synced then none else some not_synced,
  record s {
    failures = failures;
    probes = probes;
    validated = none ∷ s.validated;
    resource_informers = if w.synced then key ∷ s.resource_informers else s.resource_informers;
  },
)

unfoldable pub get_or_create_resource_informer :
    World → ZenCleanerPolicy → Shared → Option InformerError × Shared
unfolding create_informer
get_or_create_resource_informer w policy s =
    let key = evaluation_service_key policy in
    let created =
      create_informer w key
        (validate_target_or_classify w.now w.cluster policy.uid policy.spec.target_resource
          s.failures s.probes)
        s in
    if contains s.resource_informers key then (none, s) else created

unfoldable pub create_service :
    String → Option InformerError × Shared → Option InformerError × Shared
create_service key (some e, s) = (some e, s)
create_service key (none, s) =
    (none, record s { evaluation_services = key ∷ s.evaluation_services })

unfoldable pub get_or_create_evaluation_service :
    World → ZenCleanerPolicy → Shared → Option InformerError × Shared
unfolding create_service get_or_create_resource_informer
get_or_create_evaluation_service w policy s =
    let key = evaluation_service_key policy in
    let created = create_service key (get_or_create_resource_informer w policy s) in
    if contains s.evaluation_services key then (none, s) else created

-- Evaluated by the service, or directly over the informer, or not at all.
pub data Evaluated : Type 0 where
  by_service directly : Evaluated
  informer_creation_failed : InformerError → Evaluated

unfoldable pub after_informer : Option InformerError × Shared → Evaluated × Shared
after_informer (none, s) = (directly, s)
after_informer (some e, s) = (informer_creation_failed e, s)

unfoldable pub after_service :
    World → ZenCleanerPolicy → Option InformerError × Shared → Evaluated × Shared
unfolding after_informer get_or_create_resource_informer
after_service w policy (none, s) = (by_service, s)
after_service w policy (some e, s) = after_informer (get_or_create_resource_informer w policy s)

-- The second world is that of the fallback.
unfoldable pub choose_path : World → World → ZenCleanerPolicy → Shared → Evaluated × Shared
unfolding after_service get_or_create_evaluation_service
choose_path w w' policy s = after_service w' policy (get_or_create_evaluation_service w policy s)
