-- ===== src/Safety.antt =====
-- pkg/safety/safety.go: the gate that every deletion passes. A set of namespaces or kinds is the list
-- of its members; a refusal reason is a constructor, and the reason "" of an allowed object is `allow`.
pub mod Laws
use zen_cleaner.Prelude.{
  String, Bool, true, false, List, [], ◌∷◌, Option, none, some, ◌&&◌, ◌||◌, ◌==◌, not, any, lookup,
  if◌then◌else◌,
}
use zen_cleaner.Prelude.Text.{Bytes, codes, trim_space}
use zen_cleaner.Unstructured.{Unstructured, Nested, found, missing, mistyped}
use zen_cleaner.Api.{BehaviorSpec, TargetResourceSpec}

pub data Reason : Type 0 where
  protected_namespace protected_kind excluded_label workload_managed active_workload : Reason
  stale_uid deletes_disabled policy_invalid unknown : Reason

pub data Verdict : Type 0 where
  allow : Verdict
  refuse : Reason → Verdict

abbrev pub exclusion_label_key : String
exclusion_label_key = "zen-cleaner.zen-mesh.io/exclude"

-- `set[key]`, for a Go map of Booleans that are all true.
unfoldable pub contains : List String → String → Bool
contains set key = any (λ k. k == key) set

abbrev pub protected_namespaces : List String
protected_namespaces =
    "kube-system" ∷ "kube-public" ∷ "kube-node-lease" ∷ "kube-flannel" ∷ "kube-registry"
    ∷ "metallb-system" ∷ []

abbrev pub hard_protected_kinds : List String
hard_protected_kinds =
    "Namespace" ∷ "PersistentVolume" ∷ "PersistentVolumeClaim" ∷ "StorageClass"
    ∷ "CustomResourceDefinition" ∷ "ValidatingWebhookConfiguration" ∷ "MutatingWebhookConfiguration"
    ∷ []

abbrev pub workload_kinds : List String
workload_kinds = "Pod" ∷ "Job" ∷ "CronJob" ∷ []

pub record Config : Type 0 where
  pub protected_namespaces : List String
  pub own_namespace : String
  pub deletes_disabled : Bool

pub record Gate : Type 0 where
  pub cfg : Config
  pub protected : List String

-- The loop of `NewGate` over the configured namespaces.
add_configured : List String → List String → List String
add_configured [] protected = protected
add_configured (raw ∷ more) protected =
    let ns = trim_space raw in add_configured more (if ns == "" then protected else ns ∷ protected)

unfoldable pub new_gate : Config → Gate
unfolding add_configured
new_gate cfg = record {
  cfg = cfg;
  protected = add_configured cfg.protected_namespaces (
      if cfg.own_namespace == ""
      then protected_namespaces
      else cfg.own_namespace ∷ protected_namespaces);
}

unfoldable pub is_protected_namespace : Gate → String → Bool
is_protected_namespace g ns = contains g.protected ns

unfoldable pub is_exclusion_entry : Option String → Bool
is_exclusion_entry none = false
is_exclusion_entry (some v) = v == "true"

unfoldable pub excluded_by_label_or_annotation : Unstructured → Bool
excluded_by_label_or_annotation obj =
    is_exclusion_entry (lookup exclusion_label_key obj.labels)
    || is_exclusion_entry (lookup exclusion_label_key obj.annotations)

abbrev pub status_phase : List Bytes
status_phase = codes "status" ∷ codes "phase" ∷ []

unfoldable pub is_terminal_phase : Nested String → Bool
is_terminal_phase (found phase) = phase == "Succeeded" || phase == "Failed"
is_terminal_phase missing = false
is_terminal_phase mistyped = false

unfoldable pub evaluate_present : Gate → Unstructured → BehaviorSpec → Verdict
evaluate_present g obj behavior =
    if obj.name == "" || obj.kind == ""
    then refuse unknown
    else if g.cfg.deletes_disabled
    then refuse deletes_disabled
    else if not (obj.namespace == "") && is_protected_namespace g obj.namespace
    then refuse protected_namespace
    else if contains hard_protected_kinds obj.kind
    then refuse protected_kind
    else if excluded_by_label_or_annotation obj
    then refuse excluded_label
    else if contains workload_kinds obj.kind && not behavior.allow_workload_deletion
    then refuse workload_managed
    else if obj.kind == "Pod" && behavior.allow_workload_deletion
    then (if is_terminal_phase (obj.nested_string status_phase)
        then allow
        else refuse active_workload)
    else allow

-- `none` is the nil object.
unfoldable pub evaluate_object : Gate → Option Unstructured → BehaviorSpec → Verdict
unfolding evaluate_present
evaluate_object g none behavior = refuse unknown
evaluate_object g (some obj) behavior = evaluate_present g obj behavior

unfoldable pub evaluate_policy_target : Gate → TargetResourceSpec → Verdict
evaluate_policy_target g target =
    if contains hard_protected_kinds target.kind
    then refuse protected_kind
    else if not (target.namespace == "")
        && not (target.namespace == "*")
        && is_protected_namespace g target.namespace
    then refuse protected_namespace
    else allow
