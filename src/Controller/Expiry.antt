-- ===== src/Controller/Expiry.antt =====
-- pkg/controller: `shouldDelete`, whether a resource is due for deletion. `later` is the reading of
-- the clock that follows the calculation of the expiration time.
pub mod Laws
use zen_cleaner.Prelude.{Bool, true, false, Option, none, some, if◌then◌else◌}
use zen_cleaner.Unstructured.{Unstructured, Time}
use zen_cleaner.Api.{TtlSpec, ConditionsSpec, ZenCleanerPolicySpec}
use zen_cleaner.Ttl.{
  TtlError, no_valid_ttl_configuration, field_path_not_found, no_mapping_for_field_value,
  relative_timestamp_field_not_found, invalid_timestamp_format, relative_ttl_expired, TtlResult, ok,
  err, Clock, after, is_zero, calculate_expiration_time,
}
use zen_cleaner.Controller.Conditions.{meets_conditions}

-- The reason strings of shared.go.
pub data DeletionReason : Type 0 where
  ttl_expired not_expired no_ttl condition_not_met : DeletionReason

-- `convertToLocalTTLSpec`: the field-by-field copy into `ttl.Spec`.
unfoldable pub convert_to_local_ttl_spec : TtlSpec → TtlSpec
convert_to_local_ttl_spec s = record {
  seconds_after_creation = s.seconds_after_creation;
  field_path = s.field_path;
  mappings = s.mappings;
  default = s.default;
  relative_to = s.relative_to;
  seconds_after = s.seconds_after;
}

unfoldable pub calculate_expiration_time_shared : Clock → Unstructured → TtlSpec → TtlResult Time
unfolding convert_to_local_ttl_spec
calculate_expiration_time_shared clock resource s =
    calculate_expiration_time clock resource (convert_to_local_ttl_spec s)

-- One evaluation's two readings of the clock.
pub record Reading : Type 0 where
  pub clock : Clock
  pub later : Time

decide : Time → TtlResult Time → Bool × DeletionReason
decide later (err relative_ttl_expired) = (true, ttl_expired)
decide later (err _) = (false, no_ttl)
decide later (ok expiration) =
    if is_zero expiration
    then (false, no_ttl)
    else if after later expiration
    then (true, ttl_expired)
    else (false, not_expired)

-- `shouldDelete` of the evaluation service.
unfoldable pub should_delete_by_ttl : Reading → Unstructured → TtlSpec → Bool × DeletionReason
unfolding decide
should_delete_by_ttl reading resource s =
    decide reading.later (calculate_expiration_time_shared reading.clock resource s)

unfoldable pub meets : Unstructured → Option ConditionsSpec → Bool
meets resource none = true
meets resource (some c) = meets_conditions resource c

-- `shouldDelete` of the reconciler, which looks at the conditions first.
unfoldable pub should_delete : Reading → Unstructured → ZenCleanerPolicySpec → Bool × DeletionReason
should_delete reading resource spec =
    if meets resource spec.conditions
    then should_delete_by_ttl reading resource spec.ttl
    else (false, condition_not_met)
