-- ===== src/Controller/Reconcile.antt =====
-- One run of the reconcile loop: `Reconcile` of pkg/controller/reconciler.go with the handlers of
-- reconciler_helpers.go. The answer of the API server for the policy is an argument. The evaluation is
-- an interface, which Reconcile/Evaluation fills. Metrics, the log and errors of the condition writes
-- are left out; a status updater is there.
pub mod Runs
pub mod Lifecycle
pub mod Ownership
pub mod Evaluation
pub mod Paths
use zen_cleaner.Prelude.{
  String, ◌≡◌, Bool, true, false, Option, none, some, List, ◌∷◌, if◌then◌else◌,
}
use zen_cleaner.Prelude.Int.{ℤ, pos}
use zen_cleaner.Prelude.Text.{Bytes, ◌or_else◌}
use zen_cleaner.Api.{ZenCleanerPolicySpec, ZenCleanerPolicy}
use zen_cleaner.Safety.{Gate, Reason, allow, refuse, evaluate_policy_target}
use zen_cleaner.Validation.{Formats, PolicyError, validate_policy}
use zen_cleaner.Controller.Deletion.{Log}
use zen_cleaner.Controller.Integrity.{Crypto, IntegrityVerdict, check_integrity}
use zen_cleaner.Controller.Status.{interval_of, get_requeue_interval_for_policy}
use zen_cleaner.Controller.Target.{
  TargetErrorType, Failures, Probes, target_failure_count, target_backoff_for,
}
use zen_cleaner.Controller.Tracking.{Tracked, track_policy, cleanup_policy_resources}

pub data Fetched : Type 0 where
  absent fetch_failed : Fetched
  present : ZenCleanerPolicy → Fetched

pub data RuntimeError : Type 0 where
  invalid : PolicyError → RuntimeError
  target_refused : Reason → RuntimeError

pub data EvaluationError : Type 0 where
  target_capability : TargetErrorType → EvaluationError
  evaluation_failed : EvaluationError

-- `updateConditionReceipt`: the condition's type, its reason, and whether it is permanent.
pub record ConditionWrite : Type 0 where
  pub uid : String
  pub type_name : String
  pub reason : String
  pub permanent : Bool

-- What the reconciler keeps, the conditions that it wrote, and the log of its calls for deletions. The
-- maps of informers and of evaluation services are the lists of their keys.
pub record State : Type 0 where
  pub tracked : Tracked
  pub failures : Failures
  pub resource_informers : List String
  pub evaluation_services : List String
  pub probes : Probes
  pub written : List ConditionWrite
  pub log : Log

-- The evaluation of a policy: its error, if any, and the state that it leaves. It changes nothing of
-- what is tracked by name, nor the tracked specs.
pub record Evaluator : Type 0 where
  pub run_evaluation : ZenCleanerPolicy → State → Option EvaluationError × State
  pub keeps_uids :
      (p : ZenCleanerPolicy) (s : State)
      → (run_evaluation p s).1.tracked.policy_uids ≡ s.tracked.policy_uids
  pub keeps_specs :
      (p : ZenCleanerPolicy) (s : State)
      → (run_evaluation p s).1.tracked.policy_specs ≡ s.tracked.policy_specs

-- The gate, the verifier of the integrity overlay (which is its key), and the configuration may be nil.
pub record Reconciler : Type 0 where
  pub formats : Formats
  pub safety_gate : Option Gate
  pub crypto : Crypto
  pub policy_integrity : Option Bytes
  pub cleanup_interval : Option ℤ

-- Requeue after a delay in nanoseconds, or no requeue, or the error that controller-runtime retries.
pub data Result : Type 0 where
  requeue_after : ℤ → Result
  done fetch_error : Result

abbrev pub hour : ℤ
hour = pos 3600000000000

abbrev pub thirty_seconds : ℤ
thirty_seconds = pos 30000000000

abbrev pub as_invalid : Option PolicyError → Option RuntimeError
as_invalid none = none
as_invalid (some e) = some (invalid e)

unfoldable pub check_target : Gate → ZenCleanerPolicySpec → Option RuntimeError
check_target gate spec = elim (evaluate_policy_target gate spec.target_resource) [
  | allow ↦ none
  | refuse reason ↦ some (target_refused reason)
]

unfoldable pub runtime_error : Formats → Option Gate → ZenCleanerPolicySpec → Option RuntimeError
unfolding check_target
runtime_error formats none spec = none
runtime_error formats (some gate) spec =
    as_invalid (validate_policy formats spec) or_else check_target gate spec

unfoldable pub write_condition : ZenCleanerPolicy → String → String → Bool → State → State
write_condition policy type_name reason permanent s = record s {
  written =
      record { uid = policy.uid; type_name = type_name; reason = reason; permanent = permanent }
      ∷ s.written;
}

-- `handleEvaluationError`, and the requeue after a success.
unfoldable pub after_evaluation :
    Reconciler → ZenCleanerPolicy → Option EvaluationError × State → Result × State
after_evaluation r policy (none, s) =
    (requeue_after (get_requeue_interval_for_policy r.cleanup_interval policy.spec), s)
after_evaluation r policy (some (target_capability e), s) =
    (requeue_after (pos (target_backoff_for (pos (target_failure_count policy.uid s.failures)))), s)
after_evaluation r policy (some evaluation_failed, s) = (requeue_after thirty_seconds, s)

unfoldable pub track : String → ZenCleanerPolicy → State → State
track nn policy s = record s { tracked = track_policy nn policy s.tracked }

unfoldable pub run_policy :
    Reconciler → Evaluator → String → ZenCleanerPolicy → State → Result × State
unfolding track after_evaluation
run_policy r evaluator nn policy s =
    if policy.spec.paused
    then (requeue_after (interval_of r.cleanup_interval), track nn policy s)
    else after_evaluation r policy (evaluator.run_evaluation policy (track nn policy s))

-- The overlay's verdict, if there is an overlay.
unfoldable pub verdict : Reconciler → ZenCleanerPolicy → Option IntegrityVerdict
verdict r policy = elim r.policy_integrity [
  | none ↦ none
  | some key ↦ some (check_integrity r.crypto (some key) policy)
]

unfoldable pub refused : Option IntegrityVerdict → Bool
refused none = false
refused (some v) = v.refuses

unfoldable pub receipt_drift : ZenCleanerPolicy → Option IntegrityVerdict → State → State
unfolding write_condition
receipt_drift policy none s = s
receipt_drift policy (some v) s =
    write_condition policy "PolicyDrifted"
      (if v.drifted then "DeclaredDigestMismatch" else "InSync") false s

unfoldable pub reconcile_valid :
    Reconciler → Evaluator → String → ZenCleanerPolicy → State → Result × State
unfolding verdict refused receipt_drift run_policy write_condition
reconcile_valid r evaluator nn policy s =
    if refused (verdict r policy)
    then (requeue_after hour, write_condition policy "Ready" "PolicyIntegrityRefused" true s)
    else run_policy r evaluator nn policy (receipt_drift policy (verdict r policy) s)

-- With the error of the runtime validation, if any.
unfoldable pub reconcile_checked :
    Reconciler
    → Evaluator
    → String
    → ZenCleanerPolicy
    → State
    → Option RuntimeError
    → Result × State
unfolding reconcile_valid write_condition
reconcile_checked r evaluator nn policy s none = reconcile_valid r evaluator nn policy s
reconcile_checked r evaluator nn policy s (some e) =
    (requeue_after hour, write_condition policy "Ready" "PolicyInvalid" true s)

unfoldable pub reconcile : Reconciler → Evaluator → String → Fetched → State → Result × State
unfolding reconcile_checked runtime_error
reconcile r evaluator nn absent s =
    (done, record s { tracked = cleanup_policy_resources nn s.tracked })
reconcile r evaluator nn fetch_failed s = (fetch_error, s)
reconcile r evaluator nn (present policy) s =
    reconcile_checked r evaluator nn policy s (runtime_error r.formats r.safety_gate policy.spec)
