-- ===== src/Config.antt =====
-- pkg/config/config.go: the configuration of the controller and how the environment changes it.
pub mod Env
pub mod Validator
pub mod RateLimit
pub mod Service
pub mod Laws
use zen_cleaner.Prelude.{
  ◌+◌, String, Bool, true, false, ◌||◌, none, some, List, [], ◌++◌, ◌==◌, if◌then◌else◌,
}
use zen_cleaner.Prelude.Int.{ℤ, pos, ltb_ℤ}
use zen_cleaner.Prelude.Text.{split_on}
use zen_cleaner.Config.Env.{System, trimmed}
use zen_cleaner.Config.Validator.{Errors, optional_duration, optional_int}

abbrev pub default_cleanup_interval : ℤ
default_cleanup_interval = pos 60000000000

abbrev pub default_max_deletions_per_second : ℤ
default_max_deletions_per_second = pos 10

abbrev pub default_batch_size : ℤ
default_batch_size = pos 50

abbrev pub default_max_concurrent_evaluations : ℤ
default_max_concurrent_evaluations = pos 5

pub record ControllerConfig : Type 0 where
  pub cleanup_interval : ℤ
  pub max_deletions_per_second : ℤ
  pub batch_size : ℤ
  pub max_concurrent_evaluations : ℤ
  pub delete_enabled : Bool
  pub own_namespace : String
  pub protected_namespaces : List String

unfoldable pub new_controller_config : ControllerConfig
new_controller_config = record {
  cleanup_interval = default_cleanup_interval;
  max_deletions_per_second = default_max_deletions_per_second;
  batch_size = default_batch_size;
  max_concurrent_evaluations = default_max_concurrent_evaluations;
  delete_enabled = false;
  own_namespace = "";
  protected_namespaces = [];
}

-- ZEN_CLEANER_INTERVAL: a text that does not parse keeps the interval.
load_interval : System → String → ControllerConfig → ControllerConfig
load_interval sys val c =
    if val == ""
    then c
    else elim (sys.parse_duration val) [ none ↦ c | some d ↦ record c { cleanup_interval = d } ]

-- A number that is not positive keeps the old one.
abbrev positive_or : ℤ → ℤ → ℤ
positive_or val old = if ltb_ℤ (pos 0) val then val else old

unfoldable pub load_delete_enabled : String → Bool → Bool
load_delete_enabled val old =
    if val == ""
    then true
    else if val == "false" || val == "0" || val == "no"
    then false
    else if val == "true" || val == "1" || val == "yes"
    then true
    else old

unfoldable pub load_protected : String → List String → List String
load_protected val old = if val == "" then old else old ++ trimmed (split_on 0x2c val)

-- The configuration, and the errors of the validator; `Validate` fails where there are some.
unfoldable pub load_from_env : System → ControllerConfig → ControllerConfig × Errors
unfolding load_interval load_delete_enabled load_protected
load_from_env sys c =
    let (interval, e1) = optional_duration sys "ZEN_CLEANER_INTERVAL" "" [] in
    let (rate, e2) = optional_int sys "ZEN_CLEANER_MAX_DELETIONS_PER_SECOND" (pos 0) e1 in
    let (size, e3) = optional_int sys "ZEN_CLEANER_BATCH_SIZE" (pos 0) e2 in
    let (concurrent, e4) = optional_int sys "ZEN_CLEANER_MAX_CONCURRENT_EVALUATIONS" (pos 0) e3 in
    let c1 = load_interval sys interval c in
    let own = sys.getenv "POD_NAMESPACE" in
    (
      record {
        cleanup_interval = c1.cleanup_interval;
        max_deletions_per_second = positive_or rate c.max_deletions_per_second;
        batch_size = positive_or size c.batch_size;
        max_concurrent_evaluations = positive_or concurrent c.max_concurrent_evaluations;
        delete_enabled =
            load_delete_enabled (sys.getenv "ZEN_CLEANER_DELETE_ENABLED") c.delete_enabled;
        own_namespace = if own == "" then c.own_namespace else own;
        protected_namespaces =
            load_protected (sys.getenv "ZEN_CLEANER_PROTECTED_NAMESPACES") c.protected_namespaces;
      },
      e4,
    )

unfoldable pub with_cleanup_interval : ℤ → ControllerConfig → ControllerConfig
with_cleanup_interval interval c = record c { cleanup_interval = interval }

unfoldable pub with_max_deletions_per_second : ℤ → ControllerConfig → ControllerConfig
with_max_deletions_per_second rate c = record c { max_deletions_per_second = rate }

unfoldable pub with_batch_size : ℤ → ControllerConfig → ControllerConfig
with_batch_size size c = record c { batch_size = size }

unfoldable pub with_max_concurrent_evaluations : ℤ → ControllerConfig → ControllerConfig
with_max_concurrent_evaluations concurrent c = record c { max_concurrent_evaluations = concurrent }
