-- ===== src/Examples.antt =====
-- Objects, policies and environments for the examples.
mod Rules
mod Plans
mod Deletions
mod Receipts
mod Targets
mod Cycles
mod Statuses
mod Validations
mod Webhooks
mod Operations
mod Reconciles
mod Configs
use zen_cleaner.Prelude.{◌-◌, ◌*◌, ◌/◌, String, true, false, not, none, some, List, [], ◌∷◌, ◌==◌}
use zen_cleaner.Prelude.Int.{ℤ, pos, negsuc}
use zen_cleaner.Prelude.Text.{codes}
use zen_cleaner.Unstructured.{Unstructured, Nested, found, missing, mistyped}
use zen_cleaner.Api.{
  TtlSpec, BehaviorSpec, TargetResourceSpec, ZenCleanerPolicySpec, ZenCleanerPolicy, ConditionsSpec,
  FieldCondition, LabelCondition,
}
use zen_cleaner.Safety.{Gate, new_gate}
use zen_cleaner.Safety as Safety
use zen_cleaner.Backoff.{Floats}
use zen_cleaner.Ttl.{Clock}
use zen_cleaner.Controller.Cycle.{Service}
use zen_cleaner.Validation.{Formats}
use zen_cleaner.Controller.Expiry.{Reading}
use zen_cleaner.Controller.Selectors.{AsSelector}
use zen_cleaner.Controller.Evaluation.{Surroundings}
use zen_cleaner.Controller.Deletion.{
  Log, Env, Reply, live, failed, ApiError, not_found, service_unavailable,
}

abbrev pub config_map : String → String → Unstructured
config_map ns name = record {
  kind = "ConfigMap";
  namespace = ns;
  name = name;
  uid = "uid-1";
  labels = ("app", "demo") ∷ [];
  annotations = [];
  creation = pos 1000000000;
  nested_string = λ p. missing;
  nested_int64 = λ p. missing;
}

abbrev pub old_map : Unstructured
old_map = config_map "jobs" "old"

abbrev pub system_map : Unstructured
system_map = config_map "kube-system" "old"

abbrev pub one_minute : TtlSpec
one_minute = record {
  seconds_after_creation = some (pos 60);
  field_path = [];
  mappings = [];
  default = none;
  relative_to = [];
  seconds_after = none;
}

abbrev pub in_jobs : TargetResourceSpec
in_jobs = record {
  api_version = "v1";
  kind = "ConfigMap";
  namespace = "jobs";
  label_selector = none;
  field_selector = none;
}

abbrev pub careful : BehaviorSpec
careful = record {
  max_deletions_per_second = pos 0;
  batch_size = pos 2;
  dry_run = false;
  finalizer = "";
  propagation_policy = "Orphan";
  grace_period_seconds = some (pos 30);
  allow_workload_deletion = false;
}

abbrev pub clean_jobs : ZenCleanerPolicySpec
clean_jobs = record {
  target_resource = in_jobs;
  ttl = one_minute;
  conditions = none;
  behavior = careful;
  evaluation_interval = none;
  paused = false;
}

abbrev pub gate_config : Safety.Config
gate_config = record {
  protected_namespaces = [];
  own_namespace = "cleaner";
  deletes_disabled = false;
}

abbrev pub clock : Clock
clock = record { now = pos 100000000000; parse_rfc3339 = λ text. none }

abbrev pub reading : Reading
reading = record { clock = clock; later = pos 100000000001 }

abbrev pub no_selector : AsSelector
no_selector selector = none

abbrev pub surroundings : Surroundings
surroundings = record {
  as_selector = no_selector;
  cancelled_at_start = false;
  cancelled = λ i. false;
  readings = λ i. reading;
}

abbrev pub floats : Floats
floats = record { double = λ d. d * 2; tenth = λ d. d / 10 }

-- A server that has every object, and deletes it.
abbrev pub calm : Env
calm = record {
  wait = λ l. false;
  done = λ l. false;
  get = λ l o. live o.uid;
  delete = λ l o. none;
  floats = floats;
}

-- A server that has no object.
abbrev pub empty_server : Env
empty_server = record {
  wait = λ l. false;
  done = λ l. false;
  get = λ l o. failed not_found;
  delete = λ l o. none;
  floats = floats;
}

abbrev pub service : Service
service = record {
  surroundings = surroundings;
  env = calm;
  digest = λ ids. "digest";
  gate = some (new_gate gate_config);
  has_limiter = true;
  batch_size = some (pos 50);
}

abbrev pub objects : List Unstructured
objects = old_map ∷ system_map ∷ []

abbrev pub clean_policy : ZenCleanerPolicy
clean_policy = record {
  namespace = "jobs";
  name = "clean";
  uid = "p1";
  annotations = [];
  spec = clean_jobs;
  phase = "";
}

-- Formats that only refuse the empty text.
abbrev pub formats : Formats
formats = record {
  is_dns1123_subdomain = λ s. not (s == "");
  is_dns1123_label = λ s. not (s == "");
  is_qualified_name = λ s. not (s == "");
  is_valid_label_value = λ s. true;
}
