-- ===== src/Config/Laws.antt =====
-- What the environment makes of the configuration.
use zen_cleaner.Prelude.{
  String, ◌≡◌, refl, ◌≢◌, ◌↔◌, ◌⊎◌, Bool, true, false, Option, none, some, [], ◌∷◌, ◌++◌, arith,
  eq_iff, if◌then◌else◌, Bool-cases, Option-cases,
}
use zen_cleaner.Prelude.Int.{ℤ, pos, ◌<ℤ◌, eqb_ℤ}
use zen_cleaner.Prelude.Text.{ne_of_eq}
use zen_cleaner.Api.{BehaviorSpec}
use zen_cleaner.Controller.Batches.{resolve_batch_size}
use zen_cleaner.Config.{ControllerConfig, new_controller_config, load_delete_enabled, load_from_env}
use zen_cleaner.Config.Env.{
  System, is_http, require_env_with_default, require_env_int_with_default,
  require_env_bool_with_default, require_env_url_with_default,
}
use zen_cleaner.Config.Validator.{
  Problem, not_integer, not_duration, Errors, add_error, parsed_or, optional, optional_string,
  check_url, optional_url, check_int, optional_int, check_bool, optional_bool, looks_like_duration,
  check_duration, optional_duration, has_errors,
}
use zen_cleaner.Config.RateLimit.{
  IngesterRateLimitConfig, get_ingester_rate_limit_from_env, from_crd, from_source, from_default,
  limited, load_ingester_rate_limit_config,
}

-- Whatever the environment, the batches of a loaded configuration are positive, for every policy.
pub load_from_env-resolve_batch_size :
    (sys : System) (c : ControllerConfig) (behavior : BehaviorSpec)
    → pos 0 <ℤ c.batch_size
    → pos 0 <ℤ resolve_batch_size behavior (some (load_from_env sys c).0.batch_size)
unfolding load_from_env resolve_batch_size
load_from_env-resolve_batch_size sys c behavior h = ground arith

-- The texts that switch deletions on.
abbrev pub Enables : String → Type 0
Enables val = (val ≡ "") ⊎ (val ≡ "true") ⊎ (val ≡ "1") ⊎ (val ≡ "yes")

-- A new configuration that is loaded has deletions enabled exactly when the variable
-- ZEN_CLEANER_DELETE_ENABLED is missing or empty, or one of "true", "1" and "yes".
load_from_env-delete_enabled_iff :
    (sys : System)
    → ((load_from_env sys new_controller_config).0.delete_enabled ≡ true)
      ↔ Enables (sys.getenv "ZEN_CLEANER_DELETE_ENABLED")
unfolding load_from_env load_delete_enabled new_controller_config
load_from_env-delete_enabled_iff sys =
    let val = sys.getenv "ZEN_CLEANER_DELETE_ENABLED" in
    ground (
      arith,
      eq_iff val "",
      eq_iff val "false",
      eq_iff val "0",
      eq_iff val "no",
      eq_iff val "true",
      eq_iff val "1",
      eq_iff val "yes",
      ne_of_eq "true" "false" refl,
      ne_of_eq "true" "0" refl,
      ne_of_eq "true" "no" refl,
      ne_of_eq "1" "false" refl,
      ne_of_eq "1" "0" refl,
      ne_of_eq "1" "no" refl,
      ne_of_eq "yes" "false" refl,
      ne_of_eq "yes" "0" refl,
      ne_of_eq "yes" "no" refl,
    )

module _ (sys : System) (key : String) where
  optional_string_lem :
      (d : String) → optional_string sys key d ≡ require_env_with_default sys key d
  unfolding optional_string require_env_with_default
  optional_string_lem d = ground arith

  optional_url_lem :
      (d : String) (errors : Errors)
      → (optional_url sys key d errors).0 ≡ require_env_url_with_default sys key d
  unfolding optional_url optional check_url parsed_or require_env_url_with_default add_error
  optional_url_lem d errors = ground (arith, Bool-cases (is_http (sys.url_scheme (sys.getenv key))))

  optional_int_lem :
      (d : ℤ) (errors : Errors)
      → (optional_int sys key d errors).0 ≡ require_env_int_with_default sys key d
  unfolding optional_int optional check_int parsed_or require_env_int_with_default add_error
  optional_int_lem d errors = ground (arith, Option-cases (sys.atoi (sys.getenv key)))

  optional_bool_lem :
      (d : Bool) (errors : Errors)
      → (optional_bool sys key d errors).0 ≡ require_env_bool_with_default sys key d
  unfolding optional_bool optional check_bool parsed_or require_env_bool_with_default add_error
  optional_bool_lem d errors = ground (arith, Option-cases (sys.parse_bool (sys.getenv key)))

  -- The optional variables of the validator have the values that the functions with a default
  -- give, whatever errors were collected: texts, URLs, integers and Booleans.
  pub optional-require_env_with_default :
      (s : String) (n : ℤ) (b : Bool) (errors : Errors)
      → (optional_string sys key s ≡ require_env_with_default sys key s)
        × ((optional_url sys key s errors).0 ≡ require_env_url_with_default sys key s)
        × ((optional_int sys key n errors).0 ≡ require_env_int_with_default sys key n)
        × ((optional_bool sys key b errors).0 ≡ require_env_bool_with_default sys key b)
  optional-require_env_with_default s n b errors = (
    optional_string_lem s,
    optional_url_lem s errors,
    optional_int_lem n errors,
    optional_bool_lem b errors,
  )

  -- The variable is empty or an integer.
  abbrev pub IsInt : Type 0
  IsInt = (sys.getenv key ≡ "") ⊎ (sys.atoi (sys.getenv key) ≢ none)

  -- The variable is empty or ends in "s", "m" or "h".
  abbrev pub IsDuration : Type 0
  IsDuration = (sys.getenv key ≡ "") ⊎ (looks_like_duration (sys.getenv key) ≡ true)

has_errors_of_append :
    (errors : Errors) (e : String × Problem) → has_errors (errors ++ (e ∷ [])) ≡ true
unfolding has_errors
has_errors_of_append [] e = refl
has_errors_of_append (x ∷ more) e = refl

has_errors_of_none : has_errors [] ≡ false
unfolding has_errors
has_errors_of_none = refl

optional_int-has_errors_iff :
    (sys : System) (key : String) (d : ℤ) (errors : Errors)
    → (has_errors (optional_int sys key d errors).1 ≡ false)
      ↔ ((has_errors errors ≡ false) × IsInt sys key)
unfolding optional_int optional check_int parsed_or add_error
optional_int-has_errors_iff sys key d errors = ground (
  arith,
  eq_iff (sys.getenv key) "",
  Option-cases (sys.atoi (sys.getenv key)),
  has_errors_of_append errors (key, not_integer),
)

optional_duration-has_errors_iff :
    (sys : System) (key d : String) (errors : Errors)
    → (has_errors (optional_duration sys key d errors).1 ≡ false)
      ↔ ((has_errors errors ≡ false) × IsDuration sys key)
unfolding optional_duration optional check_duration parsed_or add_error
optional_duration-has_errors_iff sys key d errors = ground (
  arith,
  eq_iff (sys.getenv key) "",
  Bool-cases (looks_like_duration (sys.getenv key)),
  has_errors_of_append errors (key, not_duration),
)

-- Loading reports no error exactly when the interval is empty or ends in a unit, and each of the
-- three numbers is empty or an integer.
load_from_env-has_errors_iff :
    (sys : System) (c : ControllerConfig)
    → (has_errors (load_from_env sys c).1 ≡ false) ↔ (
        IsDuration sys "ZEN_CLEANER_INTERVAL"
        × IsInt sys "ZEN_CLEANER_MAX_DELETIONS_PER_SECOND"
        × IsInt sys "ZEN_CLEANER_BATCH_SIZE"
        × IsInt sys "ZEN_CLEANER_MAX_CONCURRENT_EVALUATIONS")
unfolding load_from_env
load_from_env-has_errors_iff sys c =
    let e1 = (optional_duration sys "ZEN_CLEANER_INTERVAL" "" []).1 in
    let e2 = (optional_int sys "ZEN_CLEANER_MAX_DELETIONS_PER_SECOND" (pos 0) e1).1 in
    let e3 = (optional_int sys "ZEN_CLEANER_BATCH_SIZE" (pos 0) e2).1 in
    ground (
      arith,
      optional_duration-has_errors_iff sys "ZEN_CLEANER_INTERVAL" "" [],
      optional_int-has_errors_iff sys "ZEN_CLEANER_MAX_DELETIONS_PER_SECOND" (pos 0) e1,
      optional_int-has_errors_iff sys "ZEN_CLEANER_BATCH_SIZE" (pos 0) e2,
      optional_int-has_errors_iff sys "ZEN_CLEANER_MAX_CONCURRENT_EVALUATIONS" (pos 0) e3,
      has_errors_of_none,
    )

-- The first of the rates that is not zero, or zero.
abbrev pub first_nonzero : ℤ → ℤ → ℤ → ℤ
first_nonzero a b c =
    let later = if eqb_ℤ b (pos 0) then c else b in if eqb_ℤ a (pos 0) then later else a

abbrev pub crd_rate : Option (ℤ × ℤ) → ℤ
crd_rate none = pos 0
crd_rate (some (rpm, burst)) = rpm

abbrev pub rate_or_zero : Option IngesterRateLimitConfig → ℤ
rate_or_zero none = pos 0
rate_or_zero (some c) = c.requests_per_minute

-- The rate limit of a source is the first of the custom resource's rate, the source's own variable
-- and the default variable that is not zero. There is no limit exactly when all are zero.
pub load_ingester_rate_limit_config_lem :
    (sys : System) (to_upper : String → String) (source : String) (crd_config : Option (ℤ × ℤ))
    → let own = get_ingester_rate_limit_from_env sys to_upper source "RPM" in
      let shared = get_ingester_rate_limit_from_env sys to_upper "DEFAULT" "RPM" in
      let loaded = load_ingester_rate_limit_config sys to_upper source crd_config in
      (rate_or_zero loaded ≡ first_nonzero (crd_rate crd_config) own shared)
      × ((loaded ≡ none) ↔ (first_nonzero (crd_rate crd_config) own shared ≡ pos 0))
unfolding load_ingester_rate_limit_config limited from_default from_source from_crd
load_ingester_rate_limit_config_lem sys to_upper source none = ground arith
load_ingester_rate_limit_config_lem sys to_upper source (some (rpm, burst)) = ground arith
