-- ===== src/Controller/Target.antt =====
-- pkg/controller/target_capability.go: whether the target of a policy is served and listable, the
-- cache of granted probes, the count of consecutive failures and the delay that follows them. The
-- texts of the details are left out. Discovery, the List probe, `strings.EqualFold`,
-- `strings.Contains` and the naive plural are arguments.
pub mod Delay
pub mod Capability
use Prim.Native.Char.{Char, code}
use zen_cleaner.Prelude.{
  ℕ, zero, suc, ◌+◌, ◌-◌, ◌*◌, ◌/◌, ◌<◌, String, ◌<>◌, ◌⊎◌, inl, inr, Bool, true, false, not, ◌&&◌,
  ◌||◌, Option, none, some, List, [], ◌∷◌, ◌==◌, ltb, leb, eqb, if◌then◌else◌, lookup, insert,
  erase,
}
use zen_cleaner.Prelude.Int.{ℤ, pos, negsuc, ◌+ℤ◌, ltb_ℤ}
use zen_cleaner.Prelude.Text.{trim_space}
use zen_cleaner.Unstructured.{Time}
use zen_cleaner.Api.{TargetResourceSpec}

pub data TargetErrorType : Type 0 where
  target_api_not_found target_resource_not_discoverable target_access_denied
        target_configuration_invalid target_temporarily_unavailable :
      TargetErrorType

unfoldable pub retryable : TargetErrorType → Bool
retryable target_temporarily_unavailable = true
retryable _ = false

abbrev pub second : ℕ
second = 1000000000

abbrev pub target_backoff_base : ℕ
target_backoff_base = 30 * second

abbrev pub target_backoff_cap : ℕ
target_backoff_cap = 600 * second

-- The loop, with the rounds that are left.
pub double_backoff : ℕ → ℕ → ℕ
double_backoff zero d = if ltb target_backoff_cap d then target_backoff_cap else d
double_backoff (suc rounds) d =
    let rest = double_backoff rounds (d * 2) in
    if leb target_backoff_cap (d * 2) then target_backoff_cap else rest

unfoldable pub target_backoff_for : ℤ → ℕ
unfolding double_backoff
target_backoff_for (negsuc n) = double_backoff 0 target_backoff_base
target_backoff_for (pos n) = double_backoff (n - 1) target_backoff_base

is_slash : Char → Bool
is_slash c = eqb (code c) 0x2f

-- The text before and after the first "/", if there is one.
unfoldable pub cut_slash : String → Option (String × String)
unfolding is_slash
cut_slash String.[] = none
cut_slash (String.◌∷◌ c s) =
    let rest = cut_slash s in
    if is_slash c
    then some (String.[], s)
    else elim rest [ none ↦ none | some (a, b) ↦ some (String.◌∷◌ c a, b) ]

unfoldable pub group_of : String → String
group_of api_version = elim (cut_slash api_version) [ none ↦ "" | some (group, version) ↦ group ]

unfoldable pub version_of : String → String
version_of api_version = elim (cut_slash api_version) [
  | none ↦ api_version
  | some (group, version) ↦ version
]

-- The errors of discovery and of the List probe that the code tells apart.
pub data DiscoveryError : Type 0 where
  not_served discovery_failed : DiscoveryError

pub data ListError : Type 0 where
  forbidden list_not_found service_unavailable list_failed : ListError

pub data Discovered : Type 0 where
  resources : List (String × String) → Discovered
  undiscovered : DiscoveryError → Discovered

-- `discovery` is the nil client or its answer for a group and a version: kinds with their names.
pub record Cluster : Type 0 where
  pub discovery : Option (String → String → Discovered)
  pub list : String → String → String → String → Option ListError
  pub equal_fold : String → String → Bool
  pub has_slash : String → Bool
  pub plural_for_kind : String → String

unfoldable pub classify_discovery_error : DiscoveryError → TargetErrorType
classify_discovery_error not_served = target_api_not_found
classify_discovery_error discovery_failed = target_temporarily_unavailable

unfoldable pub classify_list_error : ListError → TargetErrorType
classify_list_error forbidden = target_access_denied
classify_list_error list_not_found = target_resource_not_discoverable
classify_list_error _ = target_temporarily_unavailable

pub record TargetProbeEntry : Type 0 where
  pub granted : Bool
  pub class : TargetErrorType
  pub checked_at : Time

abbrev pub Probes : Type 0
Probes = List (String × TargetProbeEntry)

-- Five minutes.
abbrev target_probe_cache_ttl : ℤ
target_probe_cache_ttl = pos (300 * second)

unfoldable pub probe_key : String → String → String
probe_key gvk ns = gvk <> ("|" <> ns)

-- `normalizeNamespace` of reconciler_helpers.go.
unfoldable pub normalize_namespace : String → String
normalize_namespace ns = let ns' = if ns == "" then "*" else ns in if ns' == "*" then "" else ns'

unfoldable pub gvk_of : TargetResourceSpec → String
gvk_of target = group_of target.api_version <> ("/" <> target.kind)

unfoldable pub is_malformed : TargetResourceSpec → Bool
is_malformed target =
    (trim_space target.api_version == "")
    || (trim_space target.kind == "")
    || (version_of target.api_version == "")

-- The answer of the cache, if it has a fresh entry.
cached_entry : Time → Option TargetProbeEntry → Option (Option TargetErrorType)
cached_entry now none = none
cached_entry now (some entry) =
    if ltb_ℤ now (entry.checked_at +ℤ target_probe_cache_ttl)
    then (if entry.granted then some none else some (some entry.class))
    else none

unfoldable pub cached : Time → String → Probes → Option (Option TargetErrorType)
unfolding cached_entry
cached now key probes = cached_entry now (lookup key probes)

unfoldable pub find_resource : Cluster → String → List (String × String) → Option String
find_resource cluster kind [] = none
find_resource cluster kind ((k, name) ∷ more) =
    let rest = find_resource cluster kind more in
    if cluster.equal_fold k kind && not (cluster.has_slash name) then some name else rest

-- The name of the resource, or what discovery lacks.
discover_in : Cluster → String → Discovered → Option String ⊎ DiscoveryError
unfolding find_resource
discover_in cluster kind (undiscovered e) = inr e
discover_in cluster kind (resources names) = inl (find_resource cluster kind names)

list_probe : Cluster → TargetResourceSpec → String → Option TargetErrorType
list_probe cluster target plural =
    elim (cluster.list (group_of target.api_version) (version_of target.api_version) plural
      (normalize_namespace target.namespace)) [
        | none ↦ none
        | some e ↦ some (classify_list_error e)
      ]

probe_discovered :
    Cluster → TargetResourceSpec → Option String ⊎ DiscoveryError → Option TargetErrorType
unfolding list_probe
probe_discovered cluster target (inr e) = some (classify_discovery_error e)
probe_discovered cluster target (inl none) = some target_resource_not_discoverable
probe_discovered cluster target (inl (some name)) = list_probe cluster target name

-- Discovery and the List probe.
probe :
    Cluster → TargetResourceSpec → Option (String → String → Discovered) → Option TargetErrorType
unfolding probe_discovered discover_in
probe cluster target none = list_probe cluster target (cluster.plural_for_kind target.kind)
probe cluster target (some ask) = probe_discovered cluster target (
    discover_in cluster target.kind
      (ask (group_of target.api_version) (version_of target.api_version)))

-- Failures are not cached.
record_probe :
    Time → TargetResourceSpec → Option TargetErrorType → Probes → Option TargetErrorType × Probes
record_probe now target (some e) probes = (some e, probes)
record_probe now target none probes = (
  none,
  insert (probe_key (gvk_of target) (normalize_namespace target.namespace))
      (record { granted = true; class = target_temporarily_unavailable; checked_at = now }) probes,
)

answer :
    Time
    → Cluster
    → TargetResourceSpec
    → Option (Option TargetErrorType)
    → Probes
    → Option TargetErrorType × Probes
unfolding probe record_probe
answer now cluster target (some class) probes = (class, probes)
answer now cluster target none probes =
    record_probe now target (probe cluster target cluster.discovery) probes

unfoldable pub validate_target_capability :
    Time → Cluster → TargetResourceSpec → Probes → Option TargetErrorType × Probes
unfolding answer
validate_target_capability now cluster target probes =
    if is_malformed target
    then (some target_configuration_invalid, probes)
    else answer now cluster target (cached now (probe_key (gvk_of target) target.namespace) probes)
        probes

abbrev pub Failures : Type 0
Failures = List (String × ℕ)

unfoldable pub target_failure_count : String → Failures → ℕ
target_failure_count uid failures = elim (lookup uid failures) [ none ↦ 0 | some n ↦ n ]

unfoldable pub record_target_failure : String → Failures → ℕ × Failures
record_target_failure uid failures =
    let n = target_failure_count uid failures + 1 in (n, insert uid n failures)

unfoldable pub clear_target_failure : String → Failures → Failures
clear_target_failure uid failures = erase uid failures

follow_validation :
    String → Option TargetErrorType × Probes → Failures → Option TargetErrorType × Failures × Probes
follow_validation uid (none, probes) failures = (none, clear_target_failure uid failures, probes)
follow_validation uid (some e, probes) failures =
    (some e, (record_target_failure uid failures).1, probes)

-- The condition that it writes on the policy follows from its error; Controller/Informers.antt gathers it.
unfoldable pub validate_target_or_classify :
    Time
    → Cluster
    → String
    → TargetResourceSpec
    → Failures
    → Probes
    → Option TargetErrorType × Failures × Probes
unfolding follow_validation
validate_target_or_classify now cluster uid target failures probes =
    follow_validation uid (validate_target_capability now cluster target probes) failures
