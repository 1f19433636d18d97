-- ===== src/Controller/Deletion.antt =====
-- The deletion of resources: `performResourceDeletion` of pkg/controller/reconciler_helpers.go,
-- `deleteResource` of reconciler_deletion.go, `deleteResourceWithBackoffShared` and
-- `deleteBatchShared` of shared.go.
--
-- The API server, the rate limiter and the context are an `Env`: what each answers, as a function of
-- how much has happened before. The run writes a log, the latest event first.
pub mod Safe
pub mod Attempts
pub mod Accounting
pub mod Refusals
pub mod Retries
use zen_cleaner.Prelude.{
  ℕ, zero, suc, ◌+◌, ◌%◌, String, Bool, true, false, ◌&&◌, Option, none, some, List, [], ◌∷◌, ◌==◌,
  eqb, if◌then◌else◌,
}
use zen_cleaner.Prelude.Int.{ℤ}
use zen_cleaner.Unstructured.{Unstructured}
use zen_cleaner.Api.{BehaviorSpec, ZenCleanerPolicySpec}
use zen_cleaner.Safety.{Reason, Verdict, allow, refuse, Gate, evaluate_object, stale_uid}
use zen_cleaner.Backoff.{Config, Backoff, Floats, default_config, new_backoff, is_exhausted, next}

-- The classes of API errors that the code tells apart.
pub data ApiError : Type 0 where
  timeout server_timeout too_many_requests service_unavailable not_found other : ApiError

-- The error that a deletion returns.
pub data Failure : Type 0 where
  api : ApiError → Failure
  limiter_error context_cancelled : Failure
  retries_exhausted : Option ApiError → Failure

-- The answer of a Get: the UID of the live object, or an error.
pub data Reply : Type 0 where
  live : String → Reply
  failed : ApiError → Reply

-- metav1.DeletionPropagation and metav1.DeleteOptions.
pub data Propagation : Type 0 where
  foreground background orphan : Propagation

pub record DeleteOptions : Type 0 where
  pub grace_period_seconds : Option ℤ
  pub propagation_policy : Propagation

pub data Event : Type 0 where
  waited slept : Event
  refused : Reason → Unstructured → Event
  got : Unstructured → Reply → Event
  deletes : Unstructured → DeleteOptions → Event
  reported : Unstructured → Event

abbrev pub Log : Type 0
Log = List Event

-- `wait` is true where the limiter returns an error, `done` where the context is cancelled.
pub record Env : Type 0 where
  pub wait : Log → Bool
  pub done : Log → Bool
  pub get : Log → Unstructured → Reply
  pub delete : Log → Unstructured → Option ApiError
  pub floats : Floats

unfoldable pub get_deletion_propagation_policy : String → Propagation
get_deletion_propagation_policy text =
    if text == "Foreground" then foreground else if text == "Orphan" then orphan else background

unfoldable pub build_delete_options : BehaviorSpec → DeleteOptions
build_delete_options behavior = record {
  grace_period_seconds = behavior.grace_period_seconds;
  propagation_policy = get_deletion_propagation_policy behavior.propagation_policy;
}

-- `err2 != nil && !IsNotFound(err2)`.
delete_error : Option ApiError → Option Failure
delete_error none = none
delete_error (some not_found) = none
delete_error (some e) = some (api e)

delete_live : Env → DeleteOptions → Unstructured → Reply → Log → Option Failure × Log
unfolding delete_error
delete_live env options resource (failed not_found) log = (none, log)
delete_live env options resource (failed e) log = (some (api e), log)
delete_live env options resource (live uid) log =
    if uid == resource.uid
    then (delete_error (env.delete log resource), deletes resource options ∷ log)
    else (none, refused stale_uid resource ∷ log)

-- The Get of `getLiveForPrecondition`, and what follows it.
get_and_delete : Env → DeleteOptions → Unstructured → Log → Option Failure × Log
unfolding delete_live
get_and_delete env options resource log =
    let reply = env.get log resource in
    delete_live env options resource reply (got resource reply ∷ log)

unfoldable pub verdict : Option Gate → Unstructured → BehaviorSpec → Verdict
verdict none resource behavior = allow
verdict (some g) resource behavior = evaluate_object g (some resource) behavior

perform_allowed : Env → Verdict → DeleteOptions → Unstructured → Log → Option Failure × Log
unfolding get_and_delete
perform_allowed env (refuse r) options resource log = (none, refused r resource ∷ log)
perform_allowed env allow options resource log = get_and_delete env options resource log

-- A refusal returns no error.
unfoldable pub perform_resource_deletion :
    Env → Option Gate → BehaviorSpec → DeleteOptions → Unstructured → Log → Option Failure × Log
unfolding perform_allowed
perform_resource_deletion env gate behavior options resource log =
    perform_allowed env (verdict gate resource behavior) options resource log

unfoldable pub delete_resource :
    Env → Option Gate → BehaviorSpec → Unstructured → Log → Option Failure × Log
delete_resource env gate behavior resource log =
    if env.wait log
    then (some limiter_error, waited ∷ log)
    else if behavior.dry_run
    then (none, waited ∷ log)
    else perform_resource_deletion env gate behavior (build_delete_options behavior) resource
        (waited ∷ log)

unfoldable pub is_retryable : ApiError → Bool
is_retryable timeout = true
is_retryable server_timeout = true
is_retryable too_many_requests = true
is_retryable service_unavailable = true
is_retryable _ = false

unfoldable pub is_not_found : ApiError → Bool
is_not_found not_found = true
is_not_found _ = false

-- What one attempt leaves to do: return an error or nil, or retry after a failure.
pub data Step : Type 0 where
  return : Option Failure → Step
  retry : ApiError → Step

unfoldable pub after_attempt : Option Failure → Step
after_attempt none = return none
after_attempt (some (api e)) =
    if is_retryable e
    then retry e
    else if is_not_found e
    then return none
    else return (some (api e))
after_attempt (some e) = return (some e)

abbrev pub Outcome : Type 0
Outcome = Option (Option Failure) × Log

-- The wait for the backoff duration, or for the context.
unfoldable pub sleep_and_retry : Env → ℕ → ApiError → Log → (ApiError → Outcome) → Outcome
sleep_and_retry env delay e log rest =
    if eqb delay 0
    then (some (some (retries_exhausted (some e))), log)
    else if env.done (slept ∷ log)
    then (some (some context_cancelled), slept ∷ log)
    else rest e

unfoldable pub follow_attempt : Env → ℕ → Log → (ApiError → Outcome) → Step → Outcome
follow_attempt env delay log rest (return result) = (some result, log)
follow_attempt env delay log rest (retry e) = sleep_and_retry env delay e log rest

-- `try` is one attempt. The outer `none` of the result is running out of fuel.
unfoldable pub retry_loop :
    Env → (Log → Option Failure × Log) → ℕ → Backoff → Option ApiError → Log → Outcome
retry_loop env try zero b last log = (none, log)
retry_loop env try (suc fuel) b last log =
    let (r, log') = try log in
    let rest = λ (e : ApiError). retry_loop env try fuel (next b).0 (some e) (slept ∷ log') in
    if is_exhausted b
    then (some (some (retries_exhausted last)), log)
    else if env.done log
    then (some (some context_cancelled), log)
    else follow_attempt env (next b).1 log' rest (after_attempt r)

-- One round for each step of the default configuration, and one to leave the loop.
abbrev pub fuel : ℕ
fuel = 6

unfoldable pub delete_resource_with_backoff :
    Env → Option Gate → BehaviorSpec → Unstructured → Log → Option (Option Failure) × Log
delete_resource_with_backoff env gate behavior resource log =
    retry_loop env (delete_resource env gate behavior resource) fuel
      (new_backoff (default_config env.floats)) none log

-- The count and the errors of a batch.
pub record Tally : Type 0 where
  pub deleted : ℕ
  pub errors : ℕ

add_error : Tally → Tally
add_error t = record t { errors = t.errors + 1 }

-- The end of an iteration: an error is appended, a dry run is not counted.
unfoldable pub count_outcome :
    Bool → Unstructured → Option (Option Failure) → Tally → Log → Tally × Log
unfolding add_error
count_outcome dry_run resource none t log = (add_error t, log)
count_outcome dry_run resource (some (some e)) t log = (add_error t, log)
count_outcome dry_run resource (some none) t log =
    if dry_run then (t, log) else (record t { deleted = t.deleted + 1 }, reported resource ∷ log)

delete_one : Env → Option Gate → BehaviorSpec → Unstructured → Tally → Log → Tally × Log
unfolding count_outcome
delete_one env gate behavior resource t log =
    let (outcome, log') = delete_resource_with_backoff env gate behavior resource (waited ∷ log) in
    if env.wait log
    then (add_error t, waited ∷ log)
    else count_outcome behavior.dry_run resource outcome t log'

unfoldable pub delete_batch_from :
    Env → Option Gate → BehaviorSpec → ℕ → List Unstructured → Tally → Log → Tally × Log
unfolding delete_one
delete_batch_from env gate behavior i [] t log = (t, log)
delete_batch_from env gate behavior i (resource ∷ more) t log =
    let (t', log') = delete_one env gate behavior resource t log in
    let rest = delete_batch_from env gate behavior (suc i) more t' log' in
    if eqb (i % 50) 0 && env.done log then (t, log) else rest

unfoldable pub delete_batch :
    Env → Option Gate → BehaviorSpec → List Unstructured → Log → Tally × Log
delete_batch env gate behavior batch log =
    delete_batch_from env gate behavior 0 batch (record { deleted = 0; errors = 0 }) log
