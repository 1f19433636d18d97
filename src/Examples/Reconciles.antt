-- ===== src/Examples/Reconciles.antt =====
-- Reconciles and the resolver on examples.
use zen_cleaner.Prelude.{
  ◌≡◌, refl, inl, inr, true, false, Option, none, some, [], ◌∷◌, arith, ◌==◌, lookup,
}
use zen_cleaner.Safety.{new_gate, contains, is_protected_namespace, evaluate_policy_target}
use zen_cleaner.Validation.{
  is_valid_version, starts_with_digit, validate_api_version, validate_kind, validate_namespace,
  is_protected, validate_namespace_safety, validate_label_selector, validate_target_resource,
  validate_ttl, is_known_propagation, validate_behavior, validate_policy,
}
use zen_cleaner.Validation.Gvr.{GroupVersionResource, parse_gvr, with_resource, pluralize_kind}
use zen_cleaner.Prelude.Text.{trim_space}
use zen_cleaner.Validation.Laws.{validate_policy_iff}
use zen_cleaner.Prelude.Int.{pos}
use zen_cleaner.Controller.Integrity.{Crypto}
use zen_cleaner.Controller.Batches.{resolve_batch_size}
use zen_cleaner.Controller.Reconcile.{
  absent, present, State, Reconciler, after_evaluation, reconcile,
}
use zen_cleaner.Controller.Reconcile.Runs.{
  IsRunnable, SameWork, prepared, Requeues, reconcile_present_lem, reconcile-Requeues,
}
use zen_cleaner.Controller.Reconcile.Lifecycle.{
  Schedule, reconcile_all, step_all, names_of, reconcile_all-step_all,
}
use zen_cleaner.Controller.Reconcile.Ownership.{IsOwned, reconcile_all-IsOwned}
use zen_cleaner.Controller.Reconcile.Evaluation.{Cycles}
use zen_cleaner.Controller.Reconcile.Evaluation.Ends.{evaluator, CleansUp}
use zen_cleaner.Controller.Reconcile.Paths.Ends.{reconcile-CleansUp_by_path}
use zen_cleaner.Controller.Deletion.Safe.{IsSafe}
use zen_cleaner.Controller.Reconcile.Paths.{Worlds, shared_of}
use zen_cleaner.Controller.Reconcile.Paths.Safe.{evaluator_by_path, reconcile_all-IsSafe}
use zen_cleaner.Controller.Target.{
  validate_target_or_classify, validate_target_capability, is_malformed, version_of, cut_slash,
  cached,
}
use zen_cleaner.Controller.Informers.{World}
use zen_cleaner.Controller.Resolver.{GroupVersionKind, Mapper, ask, resolve_gvr}
use zen_cleaner.Controller.Resolver.SelfHealing.{
  Calls, Confirms, no_cache, resolve_all, resolve_all-heals,
}
use zen_cleaner.Examples.{formats, gate_config, clean_policy, clean_jobs, service, objects}

abbrev crypto : Crypto
crypto = record {
  spec_digest = λ spec. some "digest";
  decode_base64 = λ s. none;
  ed25519_verify = λ key message sig. false;
}

-- With a gate, and no overlay.
abbrev reconciler : Reconciler
reconciler = record {
  formats = formats;
  safety_gate = some (new_gate gate_config);
  crypto = crypto;
  policy_integrity = none;
  cleanup_interval = none;
}

abbrev cycles : Cycles
cycles = record {
  service = service;
  store = λ key. objects;
  parse_group_version = λ s. some ("", s);
  to_lower = λ s. s;
  status_fails = λ p. false;
}

abbrev fresh : State
fresh = record {
  tracked = record { rate_limiters = []; policy_uids = []; policy_specs = [] };
  failures = [];
  resource_informers = [];
  evaluation_services = [];
  probes = [];
  written = [];
  log = [];
}

reconcile_present_lem_example :
    (IsRunnable reconciler clean_policy
      → reconcile reconciler (evaluator cycles) "jobs/clean" (present clean_policy) fresh
        ≡ after_evaluation reconciler clean_policy (
            (evaluator cycles).run_evaluation clean_policy
              (prepared reconciler "jobs/clean" clean_policy fresh)))
    × (¬ IsRunnable reconciler clean_policy
        → SameWork fresh
            (reconcile reconciler (evaluator cycles) "jobs/clean" (present clean_policy) fresh).1)
reconcile_present_lem_example =
    reconcile_present_lem reconciler (evaluator cycles) "jobs/clean" clean_policy fresh

reconcile-Requeues_example :
    Requeues (reconcile reconciler (evaluator cycles) "jobs/clean" (present clean_policy) fresh).0
reconcile-Requeues_example =
    reconcile-Requeues reconciler (evaluator cycles) "jobs/clean" clean_policy fresh (omega arith)

-- The policy comes and goes.
abbrev schedule : Schedule
schedule = ("jobs/clean", present clean_policy) ∷ ("jobs/clean", absent) ∷ []

reconcile_all-step_all_example :
    names_of (reconcile_all reconciler (evaluator cycles) schedule fresh)
    ≡ step_all reconciler schedule (names_of fresh)
reconcile_all-step_all_example = reconcile_all-step_all reconciler (evaluator cycles) schedule fresh

reconcile_all-IsOwned_example : IsOwned (reconcile_all reconciler (evaluator cycles) schedule fresh)
unfolding names_of lookup
reconcile_all-IsOwned_example =
    reconcile_all-IsOwned reconciler (evaluator cycles) schedule fresh (inl refl, (tt, tt))
      (λ u h. absurd (h refl))

clean-IsRunnable : IsRunnable reconciler clean_policy
unfolding validate_policy validate_target_resource validate_api_version trim_space is_valid_version
    validate_kind validate_namespace starts_with_digit validate_namespace_safety is_protected
    validate_label_selector validate_ttl validate_behavior is_known_propagation
    evaluate_policy_target contains is_protected_namespace new_gate
clean-IsRunnable = (((validate_policy_iff formats clean_jobs).0 refl, refl), tt, refl)

abbrev widget : GroupVersionKind
widget = record { group = "demo"; version = "v1"; kind = "widget" }

abbrev widgets : GroupVersionResource
widgets = record { group = "demo"; version = "v1"; resource = "widgetry" }

-- The first call has no mapper.
abbrev calls : Calls
calls = (none, widget) ∷ []

resolve_all-heals_example :
    (resolve_all (λ s. s) calls no_cache widget ≡ some widgets → Confirms widget widgets calls)
    × ((mapper : Option Mapper)
        → ask mapper widget ≡ some widgets
        → ((other : GroupVersionResource) → ¬ Confirms widget other calls)
        → (resolve_gvr (λ s. s) mapper widget (resolve_all (λ s. s) calls no_cache)).0 ≡ widgets)
resolve_all-heals_example = resolve_all-heals (λ s. s) calls widget widgets

-- The target is there, and the cache of the informer does not sync.
abbrev world : World
world = record {
  now = pos 0;
  cluster = record {
    discovery = none;
    list = λ group version name ns. none;
    equal_fold = λ a b. a == b;
    has_slash = λ name. false;
    plural_for_kind = λ kind. kind;
  };
  synced = false;
}

abbrev worlds : Worlds
worlds = record { first = λ p s. world; second = λ p s. record world { synced = true } }

-- The policy is evaluated directly; all that is deleted is deleted for the policy that came.
reconcile_all-IsSafe_example :
    IsSafe service.gate
      (λ b. b ≡ clean_jobs.behavior)
      (reconcile_all reconciler (evaluator_by_path cycles worlds) schedule fresh).log
reconcile_all-IsSafe_example =
    reconcile_all-IsSafe reconciler cycles worlds (λ b. b ≡ clean_jobs.behavior) schedule fresh
      ((λ _. refl), (tt, tt)) tt

-- The cache of the informer syncs, so the service of the target is created.
abbrev synced_worlds : Worlds
synced_worlds = record { first = λ p s. record world { synced = true }; second = λ p s. world }

reconcile-CleansUp_by_path_example : CleansUp reconciler cycles "jobs/clean" clean_policy fresh (
    reconcile reconciler
      (evaluator_by_path cycles synced_worlds)
      "jobs/clean"
      (present clean_policy)
      fresh)
unfolding parse_gvr with_resource pluralize_kind resolve_batch_size shared_of
    validate_target_or_classify validate_target_capability is_malformed trim_space version_of
    cut_slash cached lookup
reconcile-CleansUp_by_path_example =
    reconcile-CleansUp_by_path reconciler cycles synced_worlds "jobs/clean" clean_policy fresh
      (record { group = ""; version = "v1"; resource = "ConfigMaps" }) 2 clean-IsRunnable
      (inr (inr (refl, refl))) refl refl refl (omega arith)
