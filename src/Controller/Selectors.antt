-- ===== src/Controller/Selectors.antt =====
-- pkg/controller/shared.go: whether a resource matches the target of a policy.
-- `metav1.LabelSelectorAsSelector` and the selector's `Matches` are a parameter: `none` is an invalid
-- selector, and `some` the test of a set of labels.
pub mod Laws
use zen_cleaner.Prelude.{
  String, Bool, true, false, List, Option, none, some, not, ◌&&◌, ◌==◌, all, if◌then◌else◌,
}
use zen_cleaner.Unstructured.{Unstructured, Nested, found, missing, mistyped}
use zen_cleaner.Api.{LabelSelector, FieldSelectorSpec, TargetResourceSpec}
use zen_cleaner.Ttl.Path.{split_field_path}

abbrev pub AsSelector : Type 0
AsSelector = LabelSelector → Option (List (String × String) → Bool)

unfoldable pub namespace_matches : String → String → Bool
namespace_matches target actual =
    let namespace = if target == "" then "*" else target in
    not (not (namespace == "*") && not (actual == namespace))

selector_matches : Option (List (String × String) → Bool) → List (String × String) → Bool
selector_matches none labels = false
selector_matches (some matches) labels = matches labels

unfoldable pub label_selector_matches :
    AsSelector → Option LabelSelector → List (String × String) → Bool
unfolding selector_matches
label_selector_matches as_selector none labels = true
label_selector_matches as_selector (some s) labels = selector_matches (as_selector s) labels

field_has_value : String → Nested String → Bool
field_has_value value (found actual) = actual == value
field_has_value value missing = false
field_has_value value mistyped = false

unfoldable pub field_selector_matches : Option FieldSelectorSpec → Unstructured → Bool
unfolding field_has_value
field_selector_matches none resource = true
field_selector_matches (some s) resource =
    all (λ entry. field_has_value entry.1 (resource.nested_string (split_field_path entry.0)))
      s.match_fields

unfoldable pub matches_selectors : AsSelector → Unstructured → TargetResourceSpec → Bool
matches_selectors as_selector resource target =
    if not (namespace_matches target.namespace resource.namespace)
    then false
    else if not (label_selector_matches as_selector target.label_selector resource.labels)
    then false
    else field_selector_matches target.field_selector resource
