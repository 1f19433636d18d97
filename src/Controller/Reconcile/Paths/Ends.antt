-- ===== src/Controller/Reconcile/Paths/Ends.antt =====
-- A runnable policy whose target is served is cleaned up, by the service of its target.
use zen_cleaner.Prelude.{
  ℕ, ◌<◌, String, ◌≡◌, refl, sym, ap, subst, ◌∙◌, ◌⊎◌, inl, inr, true, false, Option, none, some,
  Bool-cases,
}
use zen_cleaner.Prelude.Int.{pos}
use zen_cleaner.Safety.{contains}
use zen_cleaner.Api.{ZenCleanerPolicy}
use zen_cleaner.Validation.Gvr.{GroupVersionResource, parsed}
use zen_cleaner.Controller.Batches.{resolve_batch_size}
use zen_cleaner.Controller.Integrity.{IntegrityVerdict}
use zen_cleaner.Controller.Target.{TargetErrorType, Failures, Probes, validate_target_or_classify}
use zen_cleaner.Controller.Informers.{
  World, Shared, InformerError, create_informer, get_or_create_resource_informer, create_service,
  get_or_create_evaluation_service, by_service, after_service, choose_path,
}
use zen_cleaner.Controller.Reconcile.{
  present, State, Reconciler, verdict, write_condition, receipt_drift, track, after_evaluation,
  reconcile,
}
use zen_cleaner.Controller.Reconcile.Runs.{
  IsRunnable, prepared, prepared-SameWork, reconcile_present_lem,
}
use zen_cleaner.Controller.Reconcile.Evaluation.{Cycles, evaluation_service_key, evaluate}
use zen_cleaner.Controller.Reconcile.Evaluation.Ends.{CleansUp, gvr_parse, evaluate-CleansUp}
use zen_cleaner.Controller.Reconcile.Paths.{
  Worlds, shared_of, with_shared, follow_path, evaluate_policy_by_path,
}
use zen_cleaner.Controller.Reconcile.Paths.Safe.{evaluator_by_path}

-- The service of the target is there, or its informer is, or the target is found available and the
-- cache of a new informer syncs.
abbrev pub IsServed : World → ZenCleanerPolicy → Shared → Type 0
IsServed w policy s =
    let key = evaluation_service_key policy in
    (contains s.evaluation_services key ≡ true)
    ⊎ (contains s.resource_informers key ≡ true)
    ⊎ (((validate_target_or_classify w.now w.cluster policy.uid policy.spec.target_resource
            s.failures s.probes).0
          ≡ none)
        × (w.synced ≡ true))

create_informer-none :
    (w : World) (key : String) (v : Option TargetErrorType × Failures × Probes) (s : Shared)
    → v.0 ≡ none
    → w.synced ≡ true
    → (create_informer w key v s).0 ≡ none
unfolding create_informer
create_informer-none w key (none, f, p) s e h = simp h refl
create_informer-none w key (some x, f, p) s e h = cc

create_service-keeps_error :
    (key : String) (r : Option InformerError × Shared) → (create_service key r).0 ≡ r.0
unfolding create_service
create_service-keeps_error key (none, s) = refl
create_service-keeps_error key (some e, s) = refl

after_service_by_service :
    (w : World) (policy : ZenCleanerPolicy) (r : Option InformerError × Shared)
    → r.0 ≡ none
    → (after_service w policy r).0 ≡ by_service
unfolding after_service
after_service_by_service w policy (none, s) e = refl
after_service_by_service w policy (some x, s) e = cc

service-none :
    (w : World) (policy : ZenCleanerPolicy) (s : Shared)
    → IsServed w policy s
    → (get_or_create_evaluation_service w policy s).0 ≡ none
unfolding get_or_create_evaluation_service get_or_create_resource_informer
service-none w policy s served =
    let key = evaluation_service_key policy in
    elim (Bool-cases (contains s.evaluation_services key)) [
      | inl kept ↦ simp kept refl
      | inr new ↦ simp new (
          create_service-keeps_error key _ ∙ elim (Bool-cases (contains s.resource_informers key)) [
            | inl shared ↦ simp shared refl
            | inr fresh ↦ simp fresh (elim served [
              | inl kept ↦ cc
              | inr (inl shared) ↦ cc
              | inr (inr (available, synced)) ↦ create_informer-none w key _ s available synced
            ])
          ])
    ]

choose_path-by_service :
    (w w' : World) (policy : ZenCleanerPolicy) (s : Shared)
    → IsServed w policy s
    → (choose_path w w' policy s).0 ≡ by_service
unfolding choose_path
choose_path-by_service w w' policy s served =
    after_service_by_service w' policy (get_or_create_evaluation_service w policy s)
      (service-none w policy s served)

-- The preparation of an evaluation changes nothing that is shared.
receipt_drift-shared :
    (policy : ZenCleanerPolicy) (v : Option IntegrityVerdict) (s : State)
    → shared_of (receipt_drift policy v s) ≡ shared_of s
unfolding receipt_drift write_condition shared_of
receipt_drift-shared policy none s = refl
receipt_drift-shared policy (some v) s = refl

prepared-shared :
    (r : Reconciler) (nn : String) (policy : ZenCleanerPolicy) (s : State)
    → shared_of (prepared r nn policy s) ≡ shared_of s
unfolding prepared track shared_of
prepared-shared r nn policy s = receipt_drift-shared policy (verdict r policy) s

with_shared-log :
    (policy : ZenCleanerPolicy) (shared : Shared) (s : State)
    → (with_shared policy shared s).log ≡ s.log
unfolding with_shared
with_shared-log policy shared s = refl

module _ (r : Reconciler) (c : Cycles) (w : Worlds) (nn : String) (p : ZenCleanerPolicy)
    (s : State) where
  -- A runnable policy whose target is served, whose API version and kind parse, whose batch size is
  -- positive and the write of whose status succeeds is cleaned up: a cycle over the resources of its
  -- target ends without a panic, deletes at most what it matched and neither left pending nor
  -- refused, and the policy is reconciled again after its interval.
  pub reconcile-CleansUp_by_path :
      (gvr : GroupVersionResource) (size : ℕ)
      → IsRunnable r p
      → IsServed (w.first p (prepared r nn p s)) p (shared_of s)
      → gvr_parse r c nn p s ≡ parsed gvr
      → c.status_fails p ≡ false
      → resolve_batch_size p.spec.behavior c.service.batch_size ≡ pos size
      → 0 < size
      → CleansUp r c nn p s (reconcile r (evaluator_by_path c w) nn (present p) s)
  unfolding evaluate_policy_by_path follow_path
  reconcile-CleansUp_by_path gvr size runnable served h ok sized positive =
      let t = prepared r nn p s in
      let chosen = choose_path (w.first p t) (w.second p t) p (shared_of t) in
      let t' = with_shared p chosen.1 t in
      let by : chosen.0 ≡ by_service =
        choose_path-by_service (w.first p t) (w.second p t) p (shared_of t)
          (subst (IsServed (w.first p t) p) (sym (prepared-shared r nn p s)) served) in
      let runs : reconcile r (evaluator_by_path c w) nn (present p) s
          ≡ after_evaluation r p (evaluate c p t') =
        (reconcile_present_lem r (evaluator_by_path c w) nn p s).0 runnable
        ∙ ap (λ path. after_evaluation r p (follow_path c p path t')) by in
      subst (CleansUp r c nn p s) (sym runs) (
        evaluate-CleansUp r c nn p s t' gvr size
          (with_shared-log p chosen.1 t ∙ (prepared-SameWork r nn p s).log) h ok sized positive)
