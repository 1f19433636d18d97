-- ===== src/Controller/Reconcile/Runs.antt =====
-- Which policies a reconcile evaluates, and when it runs again.
use zen_cleaner.Prelude.{
  String, ◌≡◌, refl, ◌∙◌, ◌↔◌, ◌⊎◌, inl, inr, false, Option, none, some, arith, if◌then◌else◌,
  Bool-cases, Option-cases,
}
use zen_cleaner.Prelude.Int.{ℤ, pos, ◌<ℤ◌, ltb_ℤ}
use zen_cleaner.Prelude.Text.{Bytes}
use zen_cleaner.Api.{ZenCleanerPolicySpec, ZenCleanerPolicy}
use zen_cleaner.Safety.{Gate, allow, evaluate_policy_target}
use zen_cleaner.Validation.{Formats}
use zen_cleaner.Validation.Defs.{IsValid}
use zen_cleaner.Validation.Laws.{validate_policy_iff}
use zen_cleaner.Controller.Integrity.{IntegrityVerdict, check_integrity}
use zen_cleaner.Controller.Status.{
  interval_of, effective_evaluation_interval, get_requeue_interval_for_policy,
}
use zen_cleaner.Controller.Target.{target_failure_count}
use zen_cleaner.Controller.Target.Delay.{target_backoff_for-positive}
use zen_cleaner.Controller.Tracking.{
  Tracked, track_policy_uid, track_policy_spec, handle_informer_recreation, track_policy,
  should_recreate_informer,
}
use zen_cleaner.Controller.Reconcile.{
  present, EvaluationError, target_capability, evaluation_failed, State, Evaluator, Reconciler,
  Result, requeue_after, done, fetch_error, check_target, runtime_error, write_condition,
  after_evaluation, track, run_policy, verdict, refused, receipt_drift, reconcile_valid,
  reconcile_checked, reconcile,
}

-- With a gate, the policy is valid and its target is allowed.
abbrev pub GateAdmits : Formats → Option Gate → ZenCleanerPolicySpec → Type 0
GateAdmits formats none spec = Unit
GateAdmits formats (some gate) spec =
    IsValid formats spec × (evaluate_policy_target gate spec.target_resource ≡ allow)

abbrev pub OverlayAdmits : Reconciler → ZenCleanerPolicy → Option Bytes → Type 0
OverlayAdmits r policy none = Unit
OverlayAdmits r policy (some key) = (check_integrity r.crypto (some key) policy).refuses ≡ false

abbrev pub IsRunnable : Reconciler → ZenCleanerPolicy → Type 0
IsRunnable r policy =
    GateAdmits r.formats r.safety_gate policy.spec
    × OverlayAdmits r policy r.policy_integrity
    × (policy.spec.paused ≡ false)

-- The deletions and the failures that a state knows of, and its limiters.
pub record SameWork (s t : State) : Type 0 where
  pub log : t.log ≡ s.log
  pub failures : t.failures ≡ s.failures
  pub limiters : t.tracked.rate_limiters ≡ s.tracked.rate_limiters

runtime_error_iff :
    (formats : Formats) (gate : Option Gate) (spec : ZenCleanerPolicySpec)
    → (runtime_error formats gate spec ≡ none) ↔ GateAdmits formats gate spec
unfolding runtime_error check_target
runtime_error_iff formats none spec = ground arith
runtime_error_iff formats (some gate) spec = ground (arith, validate_policy_iff formats spec)

refused_iff :
    (r : Reconciler) (policy : ZenCleanerPolicy)
    → (refused (verdict r policy) ≡ false) ↔ OverlayAdmits r policy r.policy_integrity
unfolding refused verdict
refused_iff r policy = ground (arith, Option-cases r.policy_integrity)

pub IsRunnable-cases :
    (r : Reconciler) (policy : ZenCleanerPolicy) → IsRunnable r policy ⊎ (¬ IsRunnable r policy)
IsRunnable-cases r policy =
    elim (Option-cases (runtime_error r.formats r.safety_gate policy.spec)) [
      | inr (x, e) ↦
          inr (λ (g, _, _). cc (e, (runtime_error_iff r.formats r.safety_gate policy.spec).1 g))
      | inl e ↦ elim (Bool-cases (refused (verdict r policy))) [
        | inl f ↦ inr (λ (_, o, _). cc (f, (refused_iff r policy).1 o))
        | inr f ↦ elim (Bool-cases policy.spec.paused) [
          | inl p ↦ inr (λ (_, _, w). cc (p, w))
          | inr p ↦ inl (
            (runtime_error_iff r.formats r.safety_gate policy.spec).0 e,
            (refused_iff r policy).0 f,
            p,
          )
        ]
      ]
    ]

track_policy-rate_limiters :
    (nn : String) (policy : ZenCleanerPolicy) (t : Tracked)
    → (track_policy nn policy t).rate_limiters ≡ t.rate_limiters
unfolding track_policy track_policy_uid track_policy_spec handle_informer_recreation
track_policy-rate_limiters nn policy t =
    ground (arith, Bool-cases (should_recreate_informer policy (track_policy_uid nn policy.uid t)))

receipt_drift-SameWork :
    (policy : ZenCleanerPolicy) (v : Option IntegrityVerdict) (s : State)
    → SameWork s (receipt_drift policy v s)
unfolding receipt_drift write_condition
receipt_drift-SameWork policy none s = record { log = refl; failures = refl; limiters = refl }
receipt_drift-SameWork policy (some v) s = record { log = refl; failures = refl; limiters = refl }

track-SameWork :
    (nn : String) (policy : ZenCleanerPolicy) (s t : State)
    → SameWork s t
    → SameWork s (track nn policy t)
unfolding track
track-SameWork nn policy s t w = record {
  log = w.log;
  failures = w.failures;
  limiters = track_policy-rate_limiters nn policy t.tracked ∙ w.limiters;
}

-- The state in which a runnable policy is evaluated.
unfoldable pub prepared : Reconciler → String → ZenCleanerPolicy → State → State
prepared r nn policy s = track nn policy (receipt_drift policy (verdict r policy) s)

pub prepared-SameWork :
    (r : Reconciler) (nn : String) (policy : ZenCleanerPolicy) (s : State)
    → SameWork s (prepared r nn policy s)
unfolding prepared
prepared-SameWork r nn policy s =
    track-SameWork nn policy s (receipt_drift policy (verdict r policy) s)
      (receipt_drift-SameWork policy (verdict r policy) s)

-- A positive delay.
abbrev pub Requeues : Result → Type 0
Requeues (requeue_after d) = pos 0 <ℤ d
Requeues done = ⊥
Requeues fetch_error = ⊥

interval-positive :
    (own : Option ℤ) (d : ℤ)
    → pos 0 <ℤ d
    → pos 0 <ℤ (elim own [ none ↦ d | some k ↦ if ltb_ℤ (pos 0) k then k else d ])
interval-positive none d h = h
interval-positive (some k) d h = ground arith

get_requeue_interval_for_policy-positive :
    (config : Option ℤ) (spec : ZenCleanerPolicySpec)
    → pos 0 <ℤ interval_of config
    → pos 0 <ℤ get_requeue_interval_for_policy config spec
unfolding get_requeue_interval_for_policy effective_evaluation_interval
get_requeue_interval_for_policy-positive config spec h =
    interval-positive spec.evaluation_interval (interval_of config) h

module _ (r : Reconciler) (evaluator : Evaluator) (nn : String) (policy : ZenCleanerPolicy)
    (s : State) where
  reconcile_runnable :
      IsRunnable r policy
      → reconcile r evaluator nn (present policy) s
        ≡ after_evaluation r policy (evaluator.run_evaluation policy (prepared r nn policy s))
  unfolding reconcile reconcile_checked reconcile_valid run_policy prepared
  reconcile_runnable (g, o, p) =
      simp
        ((runtime_error_iff r.formats r.safety_gate policy.spec).1 g, (refused_iff r policy).1 o, p)
        refl

  reconcile_valid-idle :
      ¬ (OverlayAdmits r policy r.policy_integrity × (policy.spec.paused ≡ false))
      → SameWork s (reconcile_valid r evaluator nn policy s).1
  unfolding reconcile_valid run_policy write_condition
  reconcile_valid-idle h = elim (Bool-cases (refused (verdict r policy))) [
    | inl e ↦ simp e (record { log = refl; failures = refl; limiters = refl })
    | inr e ↦ elim (Bool-cases policy.spec.paused) [
      | inl p ↦
          simp (e, p)
            (track-SameWork nn policy s _ (receipt_drift-SameWork policy (verdict r policy) s))
      | inr p ↦ absurd (h ((refused_iff r policy).0 e, p))
    ]
  ]

  reconcile_idle :
      ¬ IsRunnable r policy → SameWork s (reconcile r evaluator nn (present policy) s).1
  unfolding reconcile reconcile_checked write_condition
  reconcile_idle h = elim (Option-cases (runtime_error r.formats r.safety_gate policy.spec)) [
    | inl e ↦
        let g = (runtime_error_iff r.formats r.safety_gate policy.spec).0 e in
        simp e (reconcile_valid-idle (λ (o, p). h (g, o, p)))
    | inr (x, e) ↦ simp e (record { log = refl; failures = refl; limiters = refl })
  ]

  -- A reconcile of a policy that it found. Where the policy is runnable, that is, where the gate, if
  -- there is one, finds it valid and allows its target, the integrity overlay, if there is one, does
  -- not refuse it, and it is not paused: the policy is evaluated, once it is tracked, and the
  -- result follows from the evaluation. Where it is not, the reconcile sends nothing for a deletion,
  -- counts no failure and creates no limiter.
  pub reconcile_present_lem :
      (IsRunnable r policy
        → reconcile r evaluator nn (present policy) s
          ≡ after_evaluation r policy (evaluator.run_evaluation policy (prepared r nn policy s)))
      × (¬ IsRunnable r policy → SameWork s (reconcile r evaluator nn (present policy) s).1)
  reconcile_present_lem = (reconcile_runnable, reconcile_idle)

  module _ (positive : pos 0 <ℤ interval_of r.cleanup_interval) where
    after_evaluation-Requeues :
        (e : Option EvaluationError) (t : State) → Requeues (after_evaluation r policy (e, t)).0
    unfolding after_evaluation
    after_evaluation-Requeues none t =
        get_requeue_interval_for_policy-positive r.cleanup_interval policy.spec positive
    after_evaluation-Requeues (some (target_capability e)) t =
        omega (arith, target_backoff_for-positive (target_failure_count policy.uid t.failures))
    after_evaluation-Requeues (some evaluation_failed) t = omega arith

    run_policy-Requeues : (t : State) → Requeues (run_policy r evaluator nn policy t).0
    unfolding run_policy
    run_policy-Requeues t = elim (Bool-cases policy.spec.paused) [
      | inl p ↦ simp p positive
      | inr p ↦ simp p (
          after_evaluation-Requeues (evaluator.run_evaluation policy (track nn policy t)).0
            (evaluator.run_evaluation policy (track nn policy t)).1)
    ]

    reconcile_valid-Requeues : Requeues (reconcile_valid r evaluator nn policy s).0
    unfolding reconcile_valid
    reconcile_valid-Requeues = elim (Bool-cases (refused (verdict r policy))) [
      | inl e ↦ simp e (omega arith)
      | inr e ↦ simp e (run_policy-Requeues (receipt_drift policy (verdict r policy) s))
    ]

    -- With a positive cleanup interval, a policy that is found is reconciled again after a positive
    -- delay, be it invalid, refused, paused, evaluated or failed.
    pub reconcile-Requeues : Requeues (reconcile r evaluator nn (present policy) s).0
    unfolding reconcile reconcile_checked
    reconcile-Requeues = elim (Option-cases (runtime_error r.formats r.safety_gate policy.spec)) [
      | inl e ↦ simp e reconcile_valid-Requeues
      | inr (x, e) ↦ simp e (omega arith)
    ]
