-- ===== src/Controller/Conditions.antt =====
-- pkg/controller/shared.go: whether a resource meets the conditions of a policy.
pub mod Laws
use zen_cleaner.Prelude.{
  String, Bool, true, false, List, [], ◌∷◌, Option, none, some, ◌&&◌, ◌||◌, ◌==◌, not, any, all,
  lookup, if◌then◌else◌,
}
use zen_cleaner.Unstructured.{Unstructured, Nested, found, missing, mistyped}
use zen_cleaner.Api.{LabelCondition, AnnotationCondition, FieldCondition, ConditionsSpec}
use zen_cleaner.Ttl.Path.{split_field_path}
use zen_cleaner.Safety.{status_phase}

-- The loop over the required phases.
phase_is_one_of : List String → Nested String → Bool
phase_is_one_of phases (found phase) = any (λ p. phase == p) phases
phase_is_one_of phases missing = false
phase_is_one_of phases mistyped = false

unfoldable pub meets_phase_conditions : Unstructured → List String → Bool
unfolding phase_is_one_of
meets_phase_conditions resource [] = true
meets_phase_conditions resource (p ∷ phases) =
    phase_is_one_of (p ∷ phases) (resource.nested_string status_phase)

-- The `switch` of the loop over the label conditions; the answer false is its `return false`.
unfoldable pub meets_label_condition : LabelCondition → Option String → Bool
meets_label_condition cond none = if cond.operator == "NotIn" then true else false
meets_label_condition cond (some value) =
    if cond.operator == "Exists"
    then true
    else if cond.operator == "Equals" || cond.operator == ""
    then value == cond.value
    else if cond.operator == "In"
    then not (cond.value == "") && value == cond.value
    else if cond.operator == "NotIn"
    then not (value == cond.value)
    else false

unfoldable pub meets_label_conditions : Unstructured → List LabelCondition → Bool
meets_label_conditions resource conds =
    all (λ cond. meets_label_condition cond (lookup cond.key resource.labels)) conds

has_annotation : AnnotationCondition → Option String → Bool
has_annotation cond none = false
has_annotation cond (some value) = value == cond.value

unfoldable pub meets_annotation_conditions : Unstructured → List AnnotationCondition → Bool
unfolding has_annotation
meets_annotation_conditions resource conds =
    all (λ cond. has_annotation cond (lookup cond.key resource.annotations)) conds

unfoldable pub matches_field_operator : String → FieldCondition → Bool
matches_field_operator value cond =
    if cond.operator == "Equals"
    then value == cond.value
    else if cond.operator == "NotEquals"
    then not (value == cond.value)
    else if cond.operator == "In"
    then any (λ v. value == v) cond.values
    else if cond.operator == "NotIn"
    then not (any (λ v. value == v) cond.values)
    else false

unfoldable pub meets_field_condition : FieldCondition → Nested String → Bool
meets_field_condition cond (found value) = matches_field_operator value cond
meets_field_condition cond missing = false
meets_field_condition cond mistyped = false

unfoldable pub meets_field_conditions : Unstructured → List FieldCondition → Bool
meets_field_conditions resource conds =
    all
      (λ cond.
        meets_field_condition cond (resource.nested_string (split_field_path cond.field_path)))
      conds

unfoldable pub meets_conditions : Unstructured → ConditionsSpec → Bool
meets_conditions resource conditions =
    if not (meets_phase_conditions resource conditions.phase)
    then false
    else if not (meets_label_conditions resource conditions.has_labels)
    then false
    else if not (meets_annotation_conditions resource conditions.has_annotations)
    then false
    else if not (meets_field_conditions resource conditions.and)
    then false
    else true
