-- ===== src/Controller/Status.antt =====
-- pkg/controller/status_updater.go: what the controller writes into the status of a policy. The
-- status is the record of its known fields; a missing map and a missing key are `none`. A time is a
-- number of nanoseconds, and its RFC 3339 text is left to the reader. The API server's answers are
-- arguments.
pub mod Laws
pub mod Writes
use zen_cleaner.Prelude.{
  ℕ, ◌+◌, ◌-◌, String, Bool, true, false, Option, none, some, List, [], ◌∷◌, ◌==◌, ltb,
  if◌then◌else◌, length, take, drop,
}
use zen_cleaner.Prelude.Int.{ℤ, pos, ◌+ℤ◌, ltb_ℤ}
use zen_cleaner.Unstructured.{Time}
use zen_cleaner.Api.{ZenCleanerPolicySpec, ZenCleanerPolicy}

-- DefaultCleanupInterval, one minute.
abbrev pub default_cleanup_interval : ℤ
default_cleanup_interval = pos 60000000000

-- The policy's own interval, if it is positive.
unfoldable pub effective_evaluation_interval : ZenCleanerPolicySpec → ℤ → ℤ
effective_evaluation_interval spec controller_default = elim spec.evaluation_interval [
  | none ↦ controller_default
  | some d ↦ if ltb_ℤ (pos 0) d then d else controller_default
]

-- The interval of the controller's configuration, if there is one.
abbrev pub interval_of : Option ℤ → ℤ
interval_of none = default_cleanup_interval
interval_of (some d) = d

-- `getRequeueIntervalForPolicy` of reconciler.go: when the reconcile loop runs the policy again.
unfoldable pub get_requeue_interval_for_policy : Option ℤ → ZenCleanerPolicySpec → ℤ
get_requeue_interval_for_policy config spec =
    effective_evaluation_interval spec (interval_of config)

pub record Condition : Type 0 where
  pub type_name : String
  pub status : String
  pub last_transition_time : Time
  pub reason : String
  pub message : String

abbrev pub Refusals : Type 0
Refusals = List (String × ℤ)

pub record Status : Type 0 where
  pub resources_matched : Option ℤ
  pub resources_deleted : Option ℤ
  pub resources_pending : Option ℤ
  pub last_gc_run : Option Time
  pub next_gc_run : Option Time
  pub last_cycle_refusals : Option Refusals
  pub phase : Option String
  pub conditions : Option (List Condition)

abbrev pub no_status : Status
no_status = record {
  resources_matched = none;
  resources_deleted = none;
  resources_pending = none;
  last_gc_run = none;
  next_gc_run = none;
  last_cycle_refusals = none;
  phase = none;
  conditions = none;
}

-- "Error" wins over "Paused", which wins over "Active".
unfoldable pub status_phase_for : ZenCleanerPolicy → String
status_phase_for policy =
    let phase = if policy.spec.paused then "Paused" else "Active" in
    if policy.phase == "Error" then "Error" else phase

ready_condition : Time → Condition
ready_condition now = record {
  type_name = "Ready";
  status = "True";
  last_transition_time = now;
  reason = "PolicyActive";
  message = "Policy is active and processing resources";
}

error_condition : Time → Condition
error_condition now = record {
  type_name = "Error";
  status = "True";
  last_transition_time = now;
  reason = "EvaluationFailed";
  message = "Policy evaluation failed - check logs for details";
}

unfoldable pub status_conditions_for : String → Time → List Condition
unfolding ready_condition error_condition
status_conditions_for phase now =
    if phase == "Error"
    then record (ready_condition now) {
      status = "False";
      reason = "PolicyError";
      message = "Policy evaluation encountered errors";
    }
      ∷ error_condition now
      ∷ []
    else if phase == "Paused"
    then record (ready_condition now) {
      status = "False";
      reason = "PolicyPaused";
      message = "Policy is paused";
    }
      ∷ []
    else ready_condition now ∷ []

-- The first eight entries, in the order of the range.
unfoldable pub capped_refusals : Refusals → Refusals
capped_refusals refusals = take 8 refusals

-- The status that the API server has, without the promise if the policy is paused, and the promise to
-- write.
unfoldable pub apply_next_gc_run :
    Option Status → ZenCleanerPolicySpec → Status → Time → ℤ → Option Status × Status
apply_next_gc_run none spec written now interval = if spec.paused then (none, written) else (
  none,
  record written { next_gc_run = some (now +ℤ effective_evaluation_interval spec interval) },
)
apply_next_gc_run (some existing) spec written now interval =
    if spec.paused then (some (record existing { next_gc_run = none }), written) else (
      some existing,
      record written { next_gc_run = some (now +ℤ effective_evaluation_interval spec interval) },
    )

unfoldable pub prefer : {A : Type 0} → Option A → Option A → Option A
prefer (some a) old = some a
prefer none old = old

-- Every field that is written replaces the old one; the others stay.
unfoldable pub merge_status : Option Status → Status → Status
unfolding prefer
merge_status none written = written
merge_status (some old) written = record {
  resources_matched = prefer written.resources_matched old.resources_matched;
  resources_deleted = prefer written.resources_deleted old.resources_deleted;
  resources_pending = prefer written.resources_pending old.resources_pending;
  last_gc_run = prefer written.last_gc_run old.last_gc_run;
  next_gc_run = prefer written.next_gc_run old.next_gc_run;
  last_cycle_refusals = prefer written.last_cycle_refusals old.last_cycle_refusals;
  phase = prefer written.phase old.phase;
  conditions = prefer written.conditions old.conditions;
}

pub record Counts : Type 0 where
  pub matched : ℤ
  pub deleted : ℤ
  pub pending : ℤ
  pub refusals : Refusals

refusals_of : Refusals → Option Refusals
unfolding capped_refusals
refusals_of [] = none
refusals_of (r ∷ more) = some (capped_refusals (r ∷ more))

-- The status object that the update builds, but for the promise.
unfoldable pub status_object : ZenCleanerPolicy → Counts → Time → Status
unfolding refusals_of
status_object policy counts now = record {
  resources_matched = some counts.matched;
  resources_deleted = some counts.deleted;
  resources_pending = some counts.pending;
  last_gc_run = some now;
  next_gc_run = none;
  last_cycle_refusals = refusals_of counts.refusals;
  phase = some (status_phase_for policy);
  conditions = some (status_conditions_for (status_phase_for policy) now);
}

-- The status to send, where the API server has `existing`.
unfoldable pub update_status : Option Status → ZenCleanerPolicy → Counts → Time → Option ℤ → Status
update_status existing policy counts now config =
    let (kept, written) =
      apply_next_gc_run existing policy.spec (status_object policy counts now) now
        (interval_of config) in
    merge_status kept written

unfoldable pub bool_status : Bool → String
bool_status true = "True"
bool_status false = "False"

-- The first condition of the same type is replaced; otherwise the new one is appended.
unfoldable pub replace_condition : Condition → List Condition → List Condition
replace_condition new [] = new ∷ []
replace_condition new (c ∷ more) =
    let rest = replace_condition new more in
    if c.type_name == new.type_name then new ∷ more else c ∷ rest

abbrev pub max_conditions : ℕ
max_conditions = 16

-- The last sixteen.
unfoldable pub cap_conditions : List Condition → List Condition
cap_conditions conditions =
    if ltb max_conditions (length conditions)
    then drop (length conditions - max_conditions) conditions
    else conditions

abbrev pub or_nil : Option (List Condition) → List Condition
or_nil none = []
or_nil (some cs) = cs

abbrev pub or_no_status : Option Status → Status
or_no_status none = no_status
or_no_status (some s) = s

unfoldable pub update_target_condition :
    Option Status → String → String → String → Bool → Time → Status
update_target_condition existing type_name reason message permanent now =
    let old = or_no_status existing in
    let new : Condition = record {
      type_name = type_name;
      status = bool_status permanent;
      last_transition_time = now;
      reason = reason;
      message = message;
    } in
    let conditions = cap_conditions (replace_condition new (or_nil old.conditions)) in
    record old {
      conditions = some conditions;
      phase = if permanent then some "Error" else old.phase;
    }
