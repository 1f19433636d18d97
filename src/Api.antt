-- ===== src/Api.antt =====
-- pkg/api/v1alpha1/types.go: the ZenCleanerPolicy resource. A pointer is an `Option`, a map the list
-- of its entries, an int64 or a duration in nanoseconds an integer, a path the bytes of its text.
use zen_cleaner.Prelude.{String, Bool, List, Option}
use zen_cleaner.Prelude.Text.{Bytes}
use zen_cleaner.Prelude.Int.{ℤ}

-- metav1.LabelSelectorRequirement and metav1.LabelSelector.
pub record LabelSelectorRequirement : Type 0 where
  pub key : String
  pub operator : String
  pub values : List String

pub record LabelSelector : Type 0 where
  pub match_labels : List (String × String)
  pub match_expressions : List LabelSelectorRequirement

pub record FieldSelectorSpec : Type 0 where
  pub match_fields : List (Bytes × String)

pub record TargetResourceSpec : Type 0 where
  pub api_version : String
  pub kind : String
  pub namespace : String
  pub label_selector : Option LabelSelector
  pub field_selector : Option FieldSelectorSpec

pub record TtlSpec : Type 0 where
  pub seconds_after_creation : Option ℤ
  pub field_path : Bytes
  pub mappings : List (String × ℤ)
  pub default : Option ℤ
  pub relative_to : Bytes
  pub seconds_after : Option ℤ

pub record LabelCondition : Type 0 where
  pub key : String
  pub value : String
  pub operator : String

pub record AnnotationCondition : Type 0 where
  pub key : String
  pub value : String

pub record FieldCondition : Type 0 where
  pub field_path : Bytes
  pub operator : String
  pub value : String
  pub values : List String

pub record ConditionsSpec : Type 0 where
  pub phase : List String
  pub has_labels : List LabelCondition
  pub has_annotations : List AnnotationCondition
  pub and : List FieldCondition

pub record BehaviorSpec : Type 0 where
  pub max_deletions_per_second : ℤ
  pub batch_size : ℤ
  pub dry_run : Bool
  pub finalizer : String
  pub propagation_policy : String
  pub grace_period_seconds : Option ℤ
  pub allow_workload_deletion : Bool

pub record ZenCleanerPolicySpec : Type 0 where
  pub target_resource : TargetResourceSpec
  pub ttl : TtlSpec
  pub conditions : Option ConditionsSpec
  pub behavior : BehaviorSpec
  pub evaluation_interval : Option ℤ
  pub paused : Bool

-- The part of the status that the controller reads back: `status.phase`.
pub record ZenCleanerPolicy : Type 0 where
  pub namespace : String
  pub name : String
  pub uid : String
  pub annotations : List (String × String)
  pub spec : ZenCleanerPolicySpec
  pub phase : String
