-- ===== src/Validation/Laws.antt =====
-- Validation accepts exactly the valid policies.
use zen_cleaner.Prelude.{
  String, ◌≡◌, refl, ◌≢◌, ◌↔◌, ◌⊎◌, true, false, Option, none, some, List, [], ◌∷◌, arith, ◌==◌,
  eq_iff, All,
}
use zen_cleaner.Prelude.Int.{ℤ, pos, ◌<ℤ◌, ltb_ℤ_iff, not_ltb_ℤ_iff}
use zen_cleaner.Prelude.Text.{trim_space, ne_of_eq}
use zen_cleaner.Api.{
  LabelSelectorRequirement, LabelSelector, TargetResourceSpec, TtlSpec, BehaviorSpec,
  ZenCleanerPolicySpec,
}
use zen_cleaner.Ttl.{is_nil}
use zen_cleaner.Validation.{
  Formats, validate_api_version, safety_protected_kind, validate_kind, validate_namespace,
  is_protected, has_selector, validate_namespace_safety, validate_match_labels, validate_values,
  is_known_operator, takes_values, validate_label_expression, validate_match_expressions,
  validate_label_selector, validate_target_resource, is_positive, validate_mappings, validate_ttl,
  is_negative, is_known_propagation, validate_behavior, validate_policy,
}
use zen_cleaner.Validation.Defs.{
  IsApiVersion, IsKind, Selects, IsScope, IsLabel, IsOperator, IsExpression, IsSelector, IsPositive,
  IsTtl, IsNonnegative, IsBehavior, IsValid,
}

is_nil_iff : {A : Type 0} (xs : List A) → (is_nil xs ≡ false) ↔ (xs ≢ [])
is_nil_iff [] = ground arith
is_nil_iff (x ∷ xs) = (λ _ e. cc e, λ _. refl)

validate_api_version_iff :
    (f : Formats) (v : String) → (validate_api_version f v ≡ none) ↔ IsApiVersion f v
unfolding validate_api_version
validate_api_version_iff f v = ground (arith, eq_iff v "", eq_iff (trim_space v) v)

validate_kind_iff : (kind : String) → (validate_kind kind ≡ none) ↔ IsKind kind
unfolding validate_kind safety_protected_kind
validate_kind_iff kind = ground (
  arith,
  eq_iff kind "",
  eq_iff (trim_space kind) kind,
  eq_iff kind "Namespace",
  eq_iff kind "PersistentVolume",
  eq_iff kind "PersistentVolumeClaim",
  eq_iff kind "StorageClass",
  eq_iff kind "CustomResourceDefinition",
  eq_iff kind "ValidatingWebhookConfiguration",
  eq_iff kind "MutatingWebhookConfiguration",
)

has_selector_iff : (s : Option LabelSelector) → (has_selector s ≡ true) ↔ Selects s
unfolding has_selector
has_selector_iff none = ground arith
has_selector_iff (some s) =
    ground (arith, is_nil_iff s.match_labels, is_nil_iff s.match_expressions)

validate_namespace_iff :
    (f : Formats) (t : TargetResourceSpec)
    → ((validate_namespace f t.namespace ≡ none) × (validate_namespace_safety t ≡ none))
      ↔ IsScope f t
unfolding validate_namespace validate_namespace_safety is_protected
validate_namespace_iff f t = ground (
  arith,
  eq_iff t.namespace "",
  eq_iff t.namespace "*",
  eq_iff t.namespace "kube-system",
  eq_iff t.namespace "kube-public",
  eq_iff t.namespace "kube-node-lease",
  has_selector_iff t.label_selector,
  ne_of_eq "*" "" refl,
)

validate_match_labels_iff :
    (f : Formats) (m : List (String × String))
    → (validate_match_labels f m ≡ none) ↔ All (IsLabel f) m
unfolding validate_match_labels
validate_match_labels_iff f [] = ground arith
validate_match_labels_iff f ((key, value) ∷ more) = ground (arith, validate_match_labels_iff f more)

validate_values_iff :
    (f : Formats) (vs : List String)
    → (validate_values f vs ≡ none) ↔ All (λ v. f.is_valid_label_value v ≡ true) vs
unfolding validate_values
validate_values_iff f [] = ground arith
validate_values_iff f (v ∷ more) = ground (arith, validate_values_iff f more)

IsOperator-iff :
    (o : String) (values : List String)
    → ((is_known_operator o ≡ true) × ((takes_values o ≡ false) ⊎ (values ≢ [])))
      ↔ IsOperator o values
unfolding is_known_operator takes_values
IsOperator-iff o values = ground (
  arith,
  eq_iff o "In",
  eq_iff o "NotIn",
  eq_iff o "Exists",
  eq_iff o "DoesNotExist",
  ne_of_eq "In" "Exists" refl,
  ne_of_eq "In" "DoesNotExist" refl,
  ne_of_eq "NotIn" "Exists" refl,
  ne_of_eq "NotIn" "DoesNotExist" refl,
)

known_operator-nonempty : (o : String) → is_known_operator o ≡ true → (o == "") ≡ false
unfolding is_known_operator
known_operator-nonempty o h = ground (
  arith,
  eq_iff o "",
  eq_iff o "In",
  eq_iff o "NotIn",
  eq_iff o "Exists",
  eq_iff o "DoesNotExist",
  ne_of_eq "In" "" refl,
  ne_of_eq "NotIn" "" refl,
  ne_of_eq "Exists" "" refl,
  ne_of_eq "DoesNotExist" "" refl,
)

validate_label_expression_iff :
    (f : Formats) (e : LabelSelectorRequirement)
    → (validate_label_expression f e ≡ none) ↔ IsExpression f e
unfolding validate_label_expression
validate_label_expression_iff f e = ground (
  arith,
  known_operator-nonempty e.operator,
  IsOperator-iff e.operator e.values,
  is_nil_iff e.values,
  validate_values_iff f e.values,
)

validate_match_expressions_iff :
    (f : Formats) (es : List LabelSelectorRequirement)
    → (validate_match_expressions f es ≡ none) ↔ All (IsExpression f) es
unfolding validate_match_expressions
validate_match_expressions_iff f [] = ground arith
validate_match_expressions_iff f (e ∷ more) =
    ground (arith, validate_label_expression_iff f e, validate_match_expressions_iff f more)

validate_label_selector_iff :
    (f : Formats) (s : Option LabelSelector) → (validate_label_selector f s ≡ none) ↔ IsSelector f s
unfolding validate_label_selector
validate_label_selector_iff f none = ground arith
validate_label_selector_iff f (some s) = ground (
  arith,
  validate_match_labels_iff f s.match_labels,
  validate_match_expressions_iff f s.match_expressions,
)

validate_mappings_iff :
    (m : List (String × ℤ)) → (validate_mappings m ≡ none) ↔ All (λ (key, n). pos 0 <ℤ n) m
unfolding validate_mappings
validate_mappings_iff [] = ground arith
validate_mappings_iff ((key, n) ∷ more) =
    ground (arith, ltb_ℤ_iff (pos 0) n, validate_mappings_iff more)

is_positive_iff : (n : Option ℤ) → (is_positive n ≡ true) ↔ IsPositive n
is_positive_iff none = ground arith
is_positive_iff (some n) = ltb_ℤ_iff (pos 0) n

validate_ttl_iff : (ttl : TtlSpec) → (validate_ttl ttl ≡ none) ↔ IsTtl ttl
unfolding validate_ttl
validate_ttl_iff ttl = ground (
  arith,
  is_positive_iff ttl.seconds_after_creation,
  is_positive_iff ttl.seconds_after,
  is_nil_iff ttl.field_path,
  is_nil_iff ttl.relative_to,
  validate_mappings_iff ttl.mappings,
)

is_negative_iff : (n : Option ℤ) → (is_negative n ≡ false) ↔ IsNonnegative n
is_negative_iff none = ground arith
is_negative_iff (some n) = not_ltb_ℤ_iff n (pos 0)

validate_behavior_iff : (b : BehaviorSpec) → (validate_behavior b ≡ none) ↔ IsBehavior b
unfolding validate_behavior is_known_propagation
validate_behavior_iff b = ground (
  arith,
  not_ltb_ℤ_iff b.max_deletions_per_second (pos 0),
  not_ltb_ℤ_iff b.batch_size (pos 0),
  is_negative_iff b.grace_period_seconds,
  eq_iff b.finalizer "",
  eq_iff b.propagation_policy "",
  eq_iff b.propagation_policy "Foreground",
  eq_iff b.propagation_policy "Background",
  eq_iff b.propagation_policy "Orphan",
)

validate_target_resource_iff :
    (f : Formats) (t : TargetResourceSpec)
    → (validate_target_resource f t ≡ none)
      ↔ (IsApiVersion f t.api_version × IsKind t.kind × IsScope f t × IsSelector f t.label_selector)
unfolding validate_target_resource
validate_target_resource_iff f t = ground (
  arith,
  validate_api_version_iff f t.api_version,
  validate_kind_iff t.kind,
  validate_namespace_iff f t,
  validate_label_selector_iff f t.label_selector,
)

-- Validation accepts a policy exactly when its target, its TTL and its behavior are each valid.
pub validate_policy_iff :
    (f : Formats) (spec : ZenCleanerPolicySpec) → (validate_policy f spec ≡ none) ↔ IsValid f spec
unfolding validate_policy
validate_policy_iff f spec = ground (
  arith,
  validate_target_resource_iff f spec.target_resource,
  validate_ttl_iff spec.ttl,
  validate_behavior_iff spec.behavior,
)
