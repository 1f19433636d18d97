-- ===== src/Controller/Status/Writes.antt =====
-- The writes of a policy's status on the API server: the Get and the UpdateStatus of `UpdateStatus` and
-- of `UpdateTargetCondition` in pkg/controller/status_updater.go, with the errors that they return, and
-- the writes of `updatePolicyStatus` and of `reconcileTargetCondition` in
-- evaluate_policy_refactored.go and target_capability.go.
pub mod WellFormed
use zen_cleaner.Prelude.{
  ◌/◌, String, Bool, true, false, Option, none, some, List, [], ◌∷◌, if◌then◌else◌,
}
use zen_cleaner.Prelude.Int.{ℤ}
use zen_cleaner.Unstructured.{Time}
use zen_cleaner.Api.{ZenCleanerPolicy}
use zen_cleaner.Controller.Target.{
  TargetErrorType, target_api_not_found, target_resource_not_discoverable, target_access_denied,
  target_configuration_invalid, target_temporarily_unavailable,
}
use zen_cleaner.Controller.Status.{Status, Counts, update_status, update_target_condition}

-- What the API server answers: whether the Get fails, and whether the update does.
pub record Answers : Type 0 where
  pub get_fails : Bool
  pub update_fails : Bool

pub data StatusError : Type 0 where
  status_get_failed status_update_failed target_condition_get_failed
        target_condition_update_failed :
      StatusError

-- A call of the updater: the counts of an evaluation, or one condition.
pub data Write : Type 0 where
  counts_of : ZenCleanerPolicy → Counts → Time → Option ℤ → Write
  condition : String → String → String → Bool → Time → Write

-- The status to send, where the server has `existing`.
unfoldable pub to_send : Write → Option Status → Status
to_send (counts_of policy counts now config) existing =
    update_status existing policy counts now config
to_send (condition type_name reason message permanent now) existing =
    update_target_condition existing type_name reason message permanent now

unfoldable pub get_error : Write → StatusError
get_error (counts_of policy counts now config) = status_get_failed
get_error (condition type_name reason message permanent now) = target_condition_get_failed

unfoldable pub update_error : Write → StatusError
update_error (counts_of policy counts now config) = status_update_failed
update_error (condition type_name reason message permanent now) = target_condition_update_failed

-- The error, and what the server has then.
unfoldable pub write : Write → Answers → Option Status → Option StatusError × Option Status
unfolding to_send get_error update_error
write w answers existing =
    if answers.get_fails
    then (some (get_error w), existing)
    else if answers.update_fails
    then (some (update_error w), existing)
    else (none, some (to_send w existing))

-- `updatePolicyStatus` takes no error for one where its own context has ended.
unfoldable pub update_policy_status :
    Write → Answers → Bool → Option Status → Option StatusError × Option Status
unfolding write
update_policy_status w answers ended existing =
    let (error, written) = write w answers existing in (if ended then none else error, written)

-- `updatePolicyStatusShared` of the direct path has no refusals to write.
unfoldable update_policy_status_shared :
    ZenCleanerPolicy
    → Counts
    → Time
    → Option ℤ
    → Answers
    → Bool
    → Option Status
    → Option StatusError × Option Status
unfolding update_policy_status
update_policy_status_shared policy counts now config =
    update_policy_status (counts_of policy (record counts { refusals = [] }) now config)

unfoldable pub condition_reason : TargetErrorType → String
condition_reason target_api_not_found = "TARGET_API_NOT_FOUND"
condition_reason target_resource_not_discoverable = "TARGET_RESOURCE_NOT_DISCOVERABLE"
condition_reason target_access_denied = "TARGET_ACCESS_DENIED"
condition_reason target_configuration_invalid = "TARGET_CONFIGURATION_INVALID"
condition_reason target_temporarily_unavailable = "TARGET_TEMPORARILY_UNAVAILABLE"

unfoldable pub is_permanent_target : TargetErrorType → Bool
is_permanent_target target_configuration_invalid = true
is_permanent_target _ = false

-- `reconcileTargetCondition`: the condition after a validation of the target, with the text of its
-- detail as it is cut.
unfoldable pub target_condition : Option TargetErrorType → String → Time → Write
unfolding condition_reason is_permanent_target
target_condition none detail now =
    condition "TargetReady" "TargetAvailable" "target API/resource is served and listable" false now
target_condition (some e) detail now =
    condition "TargetReady" (condition_reason e) detail (is_permanent_target e) now

-- Several writes, each with the answers of the server, the latest last.
unfoldable pub write_all : List (Write × Answers) → Option Status → Option Status
unfolding write
write_all [] existing = existing
write_all ((w, answers) ∷ more) existing = write_all more (write w answers existing).1
