-- ===== src/Controller/Informers/Counts.antt =====
-- How the failures of a target are counted over one evaluation.
use zen_cleaner.Prelude.{
  ◌+◌, ◌*◌, String, ◌≡◌, refl, ap, ◌∙◌, false, Option, none, some, ◌∷◌, arith,
}
use zen_cleaner.Api.{ZenCleanerPolicy}
use zen_cleaner.Safety.{contains}
use zen_cleaner.Controller.Target.{
  TargetErrorType, Probes, Failures, validate_target_or_classify, target_failure_count,
  target_backoff_for, second,
}
use zen_cleaner.Controller.Target.Delay.{target_backoff_for_lem}
use zen_cleaner.Prelude.Int.{pos}
use zen_cleaner.Controller.Target.Capability.{validate_target_or_classify-counts}
use zen_cleaner.Controller.Reconcile.Evaluation.{evaluation_service_key}
use zen_cleaner.Controller.Informers.{
  World, Shared, target_capability, create_informer, get_or_create_resource_informer,
  create_service, get_or_create_evaluation_service, informer_creation_failed, after_informer,
  after_service, choose_path,
}

sixty_seconds : target_backoff_for (pos 2) ≡ 60 * second
sixty_seconds = (target_backoff_for_lem 1).0

-- The check of the policy's target, with the failures and the probes of a state.
abbrev pub check : World → ZenCleanerPolicy → Shared → Option TargetErrorType × Failures × Probes
check w policy s =
    validate_target_or_classify w.now w.cluster policy.uid policy.spec.target_resource s.failures
      s.probes

create_informer-failed :
    (w : World) (key : String) (e : TargetErrorType)
    (v : Option TargetErrorType × Failures × Probes) (s : Shared)
    → v.0 ≡ some e
    → create_informer w key v s ≡ (
      some (target_capability e),
      record s { failures = v.1; probes = v.2; validated = some e ∷ s.validated },
    )
unfolding create_informer
create_informer-failed w key e (some d, f, p) s h = ground (arith, h)
create_informer-failed w key e (none, f, p) s h = absurd (ground (arith, h))

-- The state after a check that refuses the target.
abbrev pub refused_once : World → ZenCleanerPolicy → Shared → TargetErrorType → Shared
refused_once w policy s e = record s {
  failures = (check w policy s).1;
  probes = (check w policy s).2;
  validated = some e ∷ s.validated;
}

informer-failed :
    (w : World) (policy : ZenCleanerPolicy) (s : Shared) (e : TargetErrorType)
    → contains s.resource_informers (evaluation_service_key policy) ≡ false
    → (check w policy s).0 ≡ some e
    → get_or_create_resource_informer w policy s
      ≡ (some (target_capability e), refused_once w policy s e)
unfolding get_or_create_resource_informer
informer-failed w policy s e h v =
    simp h (create_informer-failed w (evaluation_service_key policy) e (check w policy s) s v)

-- Where a policy has neither a service nor an informer for its key, and the capability check of its
-- target fails both for the service and for the fallback, nothing is evaluated, and the count
-- of its consecutive failures has risen by two, and its condition was written twice; so the delay after the first such reconcile is sixty
-- seconds.
pub choose_path-counts :
    (w w' : World) (policy : ZenCleanerPolicy) (s : Shared) (e e' : TargetErrorType)
    → let key = evaluation_service_key policy in
      let t = choose_path w w' policy s in
      contains s.evaluation_services key ≡ false
      → contains s.resource_informers key ≡ false
      → (check w policy s).0 ≡ some e
      → (check w' policy (refused_once w policy s e)).0 ≡ some e'
      → (t.0 ≡ informer_creation_failed (target_capability e'))
        × (t.1.validated ≡ some e' ∷ some e ∷ s.validated)
        × (target_failure_count policy.uid t.1.failures
            ≡ target_failure_count policy.uid s.failures + 2)
        × (target_failure_count policy.uid s.failures ≡ 0
            → target_backoff_for (pos (target_failure_count policy.uid t.1.failures)) ≡ 60 * second)
unfolding choose_path get_or_create_evaluation_service after_service after_informer create_service
choose_path-counts w w' policy s e e' no_service no_informer first again =
    let s1 = refused_once w policy s e in
    let counts =
      (validate_target_or_classify-counts w.now w.cluster policy.uid policy.uid
          policy.spec.target_resource s.failures s.probes).1
        e first in
    let counts' =
      (validate_target_or_classify-counts w'.now w'.cluster policy.uid policy.uid
          policy.spec.target_resource s1.failures s1.probes).1
        e' again in
    let total : target_failure_count policy.uid (check w' policy s1).1
        ≡ target_failure_count policy.uid s.failures + 2 =
      omega (arith, counts, counts') in
    simp
      (
        no_service,
        informer-failed w policy s e no_informer first,
        informer-failed w' policy s1 e' no_informer again,
      )
      (
        refl,
        refl,
        total,
        λ h. ap (λ n. target_backoff_for (pos n)) (total ∙ ap (λ n. n + 2) h) ∙ sixty_seconds,
      )
