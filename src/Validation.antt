-- ===== src/Validation.antt =====
-- pkg/validation/validator.go: which policies are accepted. An error is the constructor of its
-- sentinel, under the part of the spec that it wraps. The format tests of k8s.io/apimachinery are
-- arguments.
pub mod Laws
pub mod Defs
pub mod Gvr
use Prim.Native.Char.{code}
use zen_cleaner.Prelude.{
  ℕ, ◌-◌, ◌*◌, String, Bool, true, false, not, ◌&&◌, ◌||◌, Option, none, some, List, [], ◌∷◌, ◌==◌,
  leb, eqb, if◌then◌else◌,
}
use zen_cleaner.Prelude.Int.{ℤ, pos, ltb_ℤ}
use zen_cleaner.Prelude.Text.{has_code, ◌or_else◌, trim_space, is_empty}
use zen_cleaner.Api.{
  LabelSelectorRequirement, LabelSelector, TargetResourceSpec, TtlSpec, BehaviorSpec,
  ZenCleanerPolicySpec,
}
use zen_cleaner.Ttl.{is_nil}

-- `IsDNS1123Subdomain`, `IsDNS1123Label`, `IsQualifiedName` and `IsValidLabelValue`, true without errors.
pub record Formats : Type 0 where
  pub is_dns1123_subdomain : String → Bool
  pub is_dns1123_label : String → Bool
  pub is_qualified_name : String → Bool
  pub is_valid_label_value : String → Bool

pub data FieldError : Type 0 where
  api_version_required kind_required no_ttl_option_specified invalid_ttl_mapping
        max_deletions_per_second_negative batch_size_negative invalid_propagation_policy
        grace_period_seconds_negative invalid_namespace invalid_api_version invalid_kind
        invalid_label_key invalid_label_value invalid_label_expression_key
        label_expression_operator_required invalid_label_expression_operator
        label_expression_values_required invalid_label_expression_value namespace_required
        protected_namespace protected_kind unsafe_broad_scope finalizer_unsupported :
      FieldError

pub data PolicyError : Type 0 where
  invalid_target_resource invalid_ttl invalid_behavior : FieldError → PolicyError

abbrev pub check : Bool → FieldError → Option FieldError
check true e = none
check false e = some e

is_digit : ℕ → Bool
is_digit c = leb 0x30 c && leb c 0x39

all_digits : String → Bool
unfolding is_digit
all_digits String.[] = true
all_digits (String.◌∷◌ c s) = is_digit (code c) && all_digits s

unfoldable pub is_valid_version : String → Bool
unfolding is_digit all_digits
is_valid_version String.[] = false
is_valid_version (String.◌∷◌ c s) =
    (eqb (code c) 0x76 && not (is_empty s)) || (is_digit (code c) && all_digits s)

unfoldable pub starts_with_digit : String → Bool
unfolding is_digit
starts_with_digit String.[] = false
starts_with_digit (String.◌∷◌ c s) = is_digit (code c)

unfoldable pub validate_api_version : Formats → String → Option FieldError
validate_api_version f v =
    check (not (v == "")) api_version_required
    or_else check (trim_space v == v) invalid_api_version
    or_else check (has_code 0x2f v || is_valid_version v || f.is_dns1123_subdomain v)
        invalid_api_version

unfoldable pub safety_protected_kind : String → Bool
safety_protected_kind kind =
    kind == "Namespace"
    || kind == "PersistentVolume"
    || kind == "PersistentVolumeClaim"
    || kind == "StorageClass"
    || kind == "CustomResourceDefinition"
    || kind == "ValidatingWebhookConfiguration"
    || kind == "MutatingWebhookConfiguration"

unfoldable pub validate_kind : String → Option FieldError
unfolding safety_protected_kind
validate_kind kind =
    check (not (kind == "")) kind_required
    or_else check (trim_space kind == kind) invalid_kind
    or_else check (not (safety_protected_kind kind)) protected_kind

unfoldable pub validate_namespace : Formats → String → Option FieldError
validate_namespace f ns =
    check (not (ns == "")) namespace_required
    or_else check (ns == "*" || not (starts_with_digit ns)) invalid_namespace
    or_else check (ns == "*" || f.is_dns1123_label ns) invalid_namespace

-- The package's own ProtectedNamespaces.
unfoldable pub is_protected : String → Bool
is_protected ns = ns == "kube-system" || ns == "kube-public" || ns == "kube-node-lease"

unfoldable pub has_selector : Option LabelSelector → Bool
has_selector none = false
has_selector (some s) = not (is_nil s.match_labels) || not (is_nil s.match_expressions)

unfoldable pub validate_namespace_safety : TargetResourceSpec → Option FieldError
unfolding is_protected has_selector
validate_namespace_safety target =
    check (target.namespace == "" || target.namespace == "*" || not (is_protected target.namespace))
      protected_namespace
    or_else check (not (target.namespace == "*") || has_selector target.label_selector)
        unsafe_broad_scope

unfoldable pub validate_match_labels : Formats → List (String × String) → Option FieldError
validate_match_labels f [] = none
validate_match_labels f ((key, value) ∷ more) =
    check (f.is_qualified_name key) invalid_label_key
    or_else check (f.is_valid_label_value value) invalid_label_value
    or_else validate_match_labels f more

unfoldable pub validate_values : Formats → List String → Option FieldError
validate_values f [] = none
validate_values f (value ∷ more) =
    check (f.is_valid_label_value value) invalid_label_expression_value
    or_else validate_values f more

unfoldable pub is_known_operator : String → Bool
is_known_operator o = o == "In" || o == "NotIn" || o == "Exists" || o == "DoesNotExist"

unfoldable pub takes_values : String → Bool
takes_values o = o == "In" || o == "NotIn"

unfoldable pub validate_label_expression : Formats → LabelSelectorRequirement → Option FieldError
unfolding is_known_operator takes_values
validate_label_expression f e =
    check (f.is_qualified_name e.key) invalid_label_expression_key
    or_else check (not (e.operator == "")) label_expression_operator_required
    or_else check (is_known_operator e.operator) invalid_label_expression_operator
    or_else check (not (takes_values e.operator) || not (is_nil e.values))
        label_expression_values_required
    or_else validate_values f e.values

unfoldable pub validate_match_expressions :
    Formats → List LabelSelectorRequirement → Option FieldError
validate_match_expressions f [] = none
validate_match_expressions f (e ∷ more) =
    validate_label_expression f e or_else validate_match_expressions f more

unfoldable pub validate_label_selector : Formats → Option LabelSelector → Option FieldError
validate_label_selector f none = none
validate_label_selector f (some s) =
    validate_match_labels f s.match_labels or_else validate_match_expressions f s.match_expressions

unfoldable pub validate_target_resource : Formats → TargetResourceSpec → Option FieldError
validate_target_resource f target =
    validate_api_version f target.api_version
    or_else validate_kind target.kind
    or_else validate_namespace f target.namespace
    or_else validate_namespace_safety target
    or_else validate_label_selector f target.label_selector

abbrev pub is_positive : Option ℤ → Bool
is_positive none = false
is_positive (some n) = ltb_ℤ (pos 0) n

unfoldable pub validate_mappings : List (String × ℤ) → Option FieldError
validate_mappings [] = none
validate_mappings ((key, value) ∷ more) =
    check (ltb_ℤ (pos 0) value) invalid_ttl_mapping or_else validate_mappings more

unfoldable pub validate_ttl : TtlSpec → Option FieldError
validate_ttl ttl =
    check
      (is_positive ttl.seconds_after_creation
        || not (is_nil ttl.field_path)
        || (not (is_nil ttl.relative_to) && is_positive ttl.seconds_after))
      no_ttl_option_specified
    or_else (if not (is_nil ttl.field_path) then validate_mappings ttl.mappings else none)

abbrev pub is_negative : Option ℤ → Bool
is_negative none = false
is_negative (some n) = ltb_ℤ n (pos 0)

unfoldable pub is_known_propagation : String → Bool
is_known_propagation p = p == "Foreground" || p == "Background" || p == "Orphan"

unfoldable pub validate_behavior : BehaviorSpec → Option FieldError
unfolding is_known_propagation
validate_behavior b =
    check (not (ltb_ℤ b.max_deletions_per_second (pos 0))) max_deletions_per_second_negative
    or_else check (not (ltb_ℤ b.batch_size (pos 0))) batch_size_negative
    or_else check (b.finalizer == "") finalizer_unsupported
    or_else check (b.propagation_policy == "" || is_known_propagation b.propagation_policy)
        invalid_propagation_policy
    or_else check (not (is_negative b.grace_period_seconds)) grace_period_seconds_negative

abbrev pub wrap : (FieldError → PolicyError) → Option FieldError → Option PolicyError
wrap area none = none
wrap area (some e) = some (area e)

unfoldable pub validate_policy : Formats → ZenCleanerPolicySpec → Option PolicyError
validate_policy f spec =
    wrap invalid_target_resource (validate_target_resource f spec.target_resource)
    or_else wrap invalid_ttl (validate_ttl spec.ttl)
    or_else wrap invalid_behavior (validate_behavior spec.behavior)
