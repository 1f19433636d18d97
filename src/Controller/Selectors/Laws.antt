-- ===== src/Controller/Selectors/Laws.antt =====
-- When a resource matches the target of a policy.
use zen_cleaner.Prelude.{
  Bool-cases, inl, inr, ◌==◌, String, Bool, true, List, Option, none, some, ◌≡◌, ◌↔◌, ◌⊎◌, arith,
  eq_iff, All, all_iff,
}
use zen_cleaner.Unstructured.{Unstructured, Nested, found, missing, mistyped}
use zen_cleaner.Api.{LabelSelector, FieldSelectorSpec, TargetResourceSpec}
use zen_cleaner.Ttl.Path.{split_field_path}
use zen_cleaner.Controller.Selectors.{
  AsSelector, namespace_matches, selector_matches, label_selector_matches, field_has_value,
  field_selector_matches, matches_selectors,
}

abbrev pub Accepts : Option (List (String × String) → Bool) → List (String × String) → Type 0
Accepts none labels = ⊥
Accepts (some matches) labels = matches labels ≡ true

abbrev pub LabelsSelected : AsSelector → Option LabelSelector → List (String × String) → Type 0
LabelsSelected as_selector none labels = Unit
LabelsSelected as_selector (some s) labels = Accepts (as_selector s) labels

abbrev pub FieldsSelected : Option FieldSelectorSpec → Unstructured → Type 0
FieldsSelected none resource = Unit
FieldsSelected (some s) resource =
    All (λ entry. resource.nested_string (split_field_path entry.0) ≡ found entry.1) s.match_fields

-- The target's namespace is "*" or the empty text, or it is the resource's; the label selector, if
-- there is one, is valid and matches; every field of the field selector has the value asked for.
pub record Selects (as_selector : AsSelector) (resource : Unstructured)
    (target : TargetResourceSpec) : Type 0 where
  pub namespace :
      (target.namespace ≡ "") ⊎ (target.namespace ≡ "*") ⊎ (resource.namespace ≡ target.namespace)
  pub labels : LabelsSelected as_selector target.label_selector resource.labels
  pub fields : FieldsSelected target.field_selector resource

namespace_iff :
    (target actual : String)
    → (namespace_matches target actual ≡ true)
      ↔ ((target ≡ "") ⊎ (target ≡ "*") ⊎ (actual ≡ target))
unfolding namespace_matches
namespace_iff target actual = elim (Bool-cases (target == "")) [
  | inl e ↦ rw (e, namespace_matches) (ground (arith, eq_iff target ""))
  | inr e ↦
      rw (e, namespace_matches)
        (ground (arith, eq_iff target "", eq_iff target "*", eq_iff actual target))
]

Accepts-iff :
    (m : Option (List (String × String) → Bool)) (labels : List (String × String))
    → (selector_matches m labels ≡ true) ↔ Accepts m labels
unfolding selector_matches
Accepts-iff none labels = ground arith
Accepts-iff (some matches) labels = ground arith

labels_iff :
    (as_selector : AsSelector) (s : Option LabelSelector) (labels : List (String × String))
    → (label_selector_matches as_selector s labels ≡ true) ↔ LabelsSelected as_selector s labels
unfolding label_selector_matches
labels_iff as_selector none labels = ground arith
labels_iff as_selector (some s) labels = Accepts-iff (as_selector s) labels

value_iff :
    (value : String) (n : Nested String) → (field_has_value value n ≡ true) ↔ (n ≡ found value)
unfolding field_has_value
value_iff value (found actual) = ground (arith, eq_iff actual value)
value_iff value missing = ground arith
value_iff value mistyped = ground arith

fields_iff :
    (s : Option FieldSelectorSpec) (resource : Unstructured)
    → (field_selector_matches s resource ≡ true) ↔ FieldsSelected s resource
unfolding field_selector_matches
fields_iff none resource = ground arith
fields_iff (some s) resource =
    all_iff _ _ (λ entry. value_iff entry.1 (resource.nested_string (split_field_path entry.0)))
      s.match_fields

-- A resource matches the target of a policy exactly when the target's namespace, label selector and
-- field selector all select it.
pub matches_selectors_iff :
    (as_selector : AsSelector) (resource : Unstructured) (target : TargetResourceSpec)
    → (matches_selectors as_selector resource target ≡ true) ↔ Selects as_selector resource target
unfolding matches_selectors
matches_selectors_iff as_selector resource target = ground (
  arith,
  namespace_iff target.namespace resource.namespace,
  labels_iff as_selector target.label_selector resource.labels,
  fields_iff target.field_selector resource,
)
