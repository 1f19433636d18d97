-- ===== src/Validation/Defs.antt =====
-- What a valid policy is, part by part, as the third section of docs/SAFETY_MODEL.md has it, but that the
-- propagation may also be empty and only three infrastructure namespaces are reserved. The rules of
-- docs/API_REFERENCE.md differ more: there the rate and the batch size are positive and the propagation
-- is never empty, the namespace is optional and any DNS-1123 label, and a finalizer may be set.
use zen_cleaner.Prelude.{String, ◌≡◌, ◌≢◌, ◌⊎◌, true, false, Option, none, some, List, [], ◌∷◌, All}
use zen_cleaner.Prelude.Int.{ℤ, pos, ◌<ℤ◌, ◌≤ℤ◌}
use zen_cleaner.Prelude.Text.{has_code, trim_space}
use zen_cleaner.Api.{
  LabelSelectorRequirement, LabelSelector, TargetResourceSpec, TtlSpec, BehaviorSpec,
  ZenCleanerPolicySpec,
}
use zen_cleaner.Safety.{hard_protected_kinds}
use zen_cleaner.Safety.Laws.{Listed}
use zen_cleaner.Validation.{Formats, is_valid_version, starts_with_digit}

-- A text without white space at its ends.
abbrev pub IsTrimmed : String → Type 0
IsTrimmed s = trim_space s ≡ s

abbrev pub IsApiVersion : Formats → String → Type 0
IsApiVersion f v =
    (v ≢ "")
    × IsTrimmed v
    × ((has_code 0x2f v ≡ true) ⊎ (is_valid_version v ≡ true) ⊎ (f.is_dns1123_subdomain v ≡ true))

-- A kind that the safety gate, too, does not protect.
abbrev pub IsKind : String → Type 0
IsKind kind = (kind ≢ "") × IsTrimmed kind × (¬ Listed kind hard_protected_kinds)

abbrev pub reserved_namespaces : List String
reserved_namespaces = "kube-system" ∷ "kube-public" ∷ "kube-node-lease" ∷ []

abbrev pub Selects : Option LabelSelector → Type 0
Selects none = ⊥
Selects (some s) = (s.match_labels ≢ []) ⊎ (s.match_expressions ≢ [])

-- One namespace by its name, or all of them under a label selector.
abbrev pub IsScope : Formats → TargetResourceSpec → Type 0
IsScope f target =
    ((target.namespace ≡ "*") × Selects target.label_selector)
    ⊎ ((target.namespace ≢ "*")
        × (target.namespace ≢ "")
        × (starts_with_digit target.namespace ≡ false)
        × (f.is_dns1123_label target.namespace ≡ true)
        × (¬ Listed target.namespace reserved_namespaces))

abbrev pub IsLabel : Formats → String × String → Type 0
IsLabel f (key, value) = (f.is_qualified_name key ≡ true) × (f.is_valid_label_value value ≡ true)

abbrev pub IsOperator : String → List String → Type 0
IsOperator o values =
    ((o ≡ "In") × (values ≢ []))
    ⊎ ((o ≡ "NotIn") × (values ≢ []))
    ⊎ (o ≡ "Exists")
    ⊎ (o ≡ "DoesNotExist")

abbrev pub IsExpression : Formats → LabelSelectorRequirement → Type 0
IsExpression f e =
    (f.is_qualified_name e.key ≡ true)
    × IsOperator e.operator e.values
    × All (λ v. f.is_valid_label_value v ≡ true) e.values

abbrev pub IsSelector : Formats → Option LabelSelector → Type 0
IsSelector f none = Unit
IsSelector f (some s) = All (IsLabel f) s.match_labels × All (IsExpression f) s.match_expressions

abbrev pub IsPositive : Option ℤ → Type 0
IsPositive none = ⊥
IsPositive (some n) = pos 0 <ℤ n

-- One of the modes is configured, and the mappings of a field path are positive.
abbrev pub IsTtl : TtlSpec → Type 0
IsTtl ttl =
    (IsPositive ttl.seconds_after_creation
      ⊎ (ttl.field_path ≢ [])
      ⊎ ((ttl.relative_to ≢ []) × IsPositive ttl.seconds_after))
    × (ttl.field_path ≢ [] → All (λ (key, n). pos 0 <ℤ n) ttl.mappings)

abbrev pub IsNonnegative : Option ℤ → Type 0
IsNonnegative none = Unit
IsNonnegative (some n) = pos 0 ≤ℤ n

abbrev pub IsBehavior : BehaviorSpec → Type 0
IsBehavior b =
    (pos 0 ≤ℤ b.max_deletions_per_second)
    × (pos 0 ≤ℤ b.batch_size)
    × (b.finalizer ≡ "")
    × ((b.propagation_policy ≡ "")
        ⊎ (b.propagation_policy ≡ "Foreground")
        ⊎ (b.propagation_policy ≡ "Background")
        ⊎ (b.propagation_policy ≡ "Orphan"))
    × IsNonnegative b.grace_period_seconds

pub record IsValid (f : Formats) (spec : ZenCleanerPolicySpec) : Type 0 where
  pub api_version : IsApiVersion f spec.target_resource.api_version
  pub kind : IsKind spec.target_resource.kind
  pub scope : IsScope f spec.target_resource
  pub selector : IsSelector f spec.target_resource.label_selector
  pub ttl : IsTtl spec.ttl
  pub behavior : IsBehavior spec.behavior
