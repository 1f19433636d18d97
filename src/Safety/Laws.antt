-- ===== src/Safety/Laws.antt =====
-- What the safety gate lets through.
use zen_cleaner.Prelude.{
  String, true, false, List, [], ◌∷◌, Option, none, some, ◌≡◌, ◌≢◌, ◌↔◌, ◌⊎◌, refl, ap, lookup,
  arith, eq_iff, Any,
}
use zen_cleaner.Prelude.Text.{trim_space}
use zen_cleaner.Unstructured.{Unstructured, Nested, found, missing, mistyped}
use zen_cleaner.Api.{BehaviorSpec, TargetResourceSpec}
use zen_cleaner.Safety.{
  Config, allow, contains, protected_namespaces, hard_protected_kinds, workload_kinds,
  exclusion_label_key, status_phase, add_configured, new_gate, is_protected_namespace,
  excluded_by_label_or_annotation, is_exclusion_entry, is_terminal_phase, evaluate_object,
  evaluate_present, evaluate_policy_target,
}

abbrev pub Listed : String → List String → Type 0
Listed key set = Any (λ k. k ≡ key) set

contains_iff : (set : List String) (key : String) → (contains set key ≡ true) ↔ Listed key set
unfolding contains
contains_iff [] key = ground arith
contains_iff (k ∷ set) key = ground (arith, eq_iff k key, contains_iff set key)

-- The namespaces that a deployment protects: the built-in ones, its own, and those configured, with
-- white space trimmed.
abbrev pub IsProtected : Config → String → Type 0
IsProtected cfg ns =
    Listed ns protected_namespaces
    ⊎ ((cfg.own_namespace ≢ "") × (ns ≡ cfg.own_namespace))
    ⊎ Any (λ raw. (trim_space raw ≢ "") × (trim_space raw ≡ ns)) cfg.protected_namespaces

add_configured_iff :
    (raws protected : List String) (ns : String)
    → (contains (add_configured raws protected) ns ≡ true) ↔ (
        (contains protected ns ≡ true)
        ⊎ Any (λ raw. (trim_space raw ≢ "") × (trim_space raw ≡ ns)) raws)
unfolding add_configured contains
add_configured_iff [] protected ns = ground arith
add_configured_iff (raw ∷ raws) protected ns = ground (
  arith,
  add_configured_iff raws protected ns,
  add_configured_iff raws (trim_space raw ∷ protected) ns,
  eq_iff (trim_space raw) "",
  eq_iff (trim_space raw) ns,
)

-- The gate of a configuration protects a namespace exactly when the configuration does.
pub is_protected_namespace-new_gate :
    (cfg : Config) (ns : String)
    → (is_protected_namespace (new_gate cfg) ns ≡ true) ↔ IsProtected cfg ns
unfolding is_protected_namespace new_gate
is_protected_namespace-new_gate cfg ns = ground (
  arith,
  add_configured_iff cfg.protected_namespaces protected_namespaces ns,
  add_configured_iff cfg.protected_namespaces (cfg.own_namespace ∷ protected_namespaces) ns,
  contains_iff protected_namespaces ns,
  contains_iff (cfg.own_namespace ∷ protected_namespaces) ns,
  eq_iff cfg.own_namespace "",
)

-- The exclusion key is present with the value "true".
abbrev pub IsExcluded : Unstructured → Type 0
IsExcluded obj =
    (lookup exclusion_label_key obj.labels ≡ some "true")
    ⊎ (lookup exclusion_label_key obj.annotations ≡ some "true")

-- What must hold of an object for its deletion to be allowed.
pub record IsDeletable (cfg : Config) (obj : Unstructured) (behavior : BehaviorSpec) : Type 0 where
  pub named : (obj.name ≢ "") × (obj.kind ≢ "")
  pub enabled : cfg.deletes_disabled ≡ false
  pub unprotected : (obj.namespace ≡ "") ⊎ ¬ IsProtected cfg obj.namespace
  pub ordinary : ¬ Listed obj.kind hard_protected_kinds
  pub unmarked : ¬ IsExcluded obj
  pub opted_in : Listed obj.kind workload_kinds → behavior.allow_workload_deletion ≡ true
  pub terminal :
      obj.kind ≡ "Pod"
      → (obj.nested_string status_phase ≡ found "Succeeded")
        ⊎ (obj.nested_string status_phase ≡ found "Failed")

is_exclusion_entry_iff : (o : Option String) → (is_exclusion_entry o ≡ true) ↔ (o ≡ some "true")
unfolding is_exclusion_entry
is_exclusion_entry_iff none = ground arith
is_exclusion_entry_iff (some v) = ground (arith, eq_iff v "true")

IsExcluded-iff :
    (obj : Unstructured) → (excluded_by_label_or_annotation obj ≡ true) ↔ IsExcluded obj
unfolding excluded_by_label_or_annotation
IsExcluded-iff obj = ground (
  arith,
  is_exclusion_entry_iff (lookup exclusion_label_key obj.labels),
  is_exclusion_entry_iff (lookup exclusion_label_key obj.annotations),
)

is_terminal_phase_iff :
    (phase : Nested String)
    → (is_terminal_phase phase ≡ true) ↔ ((phase ≡ found "Succeeded") ⊎ (phase ≡ found "Failed"))
unfolding is_terminal_phase
is_terminal_phase_iff (found phase) =
    ground (arith, eq_iff phase "Succeeded", eq_iff phase "Failed")
is_terminal_phase_iff missing = ground arith
is_terminal_phase_iff mistyped = ground arith

cfg-new_gate : (cfg : Config) → (new_gate cfg).cfg ≡ cfg
unfolding new_gate
cfg-new_gate cfg = refl

-- The gate of a configuration allows the deletion of an object exactly when all of these hold: the
-- object has a name and a kind, the emergency stop is off, its namespace is not protected, its kind
-- is not hard-protected, it does not carry the exclusion key with the value "true", its kind is no
-- workload unless the policy opts in, and a Pod is in a terminal phase.
pub evaluate_object-allow_iff :
    (cfg : Config) (obj : Unstructured) (behavior : BehaviorSpec)
    → (evaluate_object (new_gate cfg) (some obj) behavior ≡ allow) ↔ IsDeletable cfg obj behavior
unfolding evaluate_object evaluate_present
evaluate_object-allow_iff cfg obj behavior = ground (
  arith,
  ap (λ c. c.deletes_disabled) (cfg-new_gate cfg),
  is_protected_namespace-new_gate cfg obj.namespace,
  contains_iff hard_protected_kinds obj.kind,
  contains_iff workload_kinds obj.kind,
  IsExcluded-iff obj,
  is_terminal_phase_iff (obj.nested_string status_phase),
  eq_iff obj.name "",
  eq_iff obj.kind "",
  eq_iff obj.namespace "",
  eq_iff obj.kind "Pod",
)

-- The gate admits a policy target exactly where its kind is not hard-protected, and its namespace is
-- empty, "*" or not protected.
pub evaluate_policy_target-allow_iff :
    (cfg : Config) (target : TargetResourceSpec)
    → (evaluate_policy_target (new_gate cfg) target ≡ allow) ↔ (
        (¬ Listed target.kind hard_protected_kinds)
        × ((target.namespace ≡ "") ⊎ (target.namespace ≡ "*") ⊎ ¬ IsProtected cfg target.namespace))
unfolding evaluate_policy_target
evaluate_policy_target-allow_iff cfg target = ground (
  arith,
  is_protected_namespace-new_gate cfg target.namespace,
  contains_iff hard_protected_kinds target.kind,
  eq_iff target.namespace "",
  eq_iff target.namespace "*",
)
