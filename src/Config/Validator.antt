-- ===== src/Config/Validator.antt =====
-- internal/config/validator.go: the validator that collects the errors of the variables it reads. It
-- is passed on as the list of its errors, and the text of a message is the branch that wrote it.
use zen_cleaner.Prelude.{
  String, Bool, true, false, not, ◌&&◌, ◌||◌, Option, none, some, List, [], ◌∷◌, ◌++◌, ◌==◌,
  if◌then◌else◌, any,
}
use zen_cleaner.Prelude.Int.{ℤ, pos}
use zen_cleaner.Prelude.Text.{split_on, ends_with}
use zen_cleaner.Config.Env.{System, is_http, trimmed}

pub data Problem : Type 0 where
  not_set invalid_url not_integer not_boolean not_duration not_allowed csv_empty forbidden : Problem

abbrev pub Errors : Type 0
Errors = List (String × Problem)

unfoldable pub add_error : String → Problem → Errors → Errors
add_error key problem errors = errors ++ ((key, problem) ∷ [])

unfoldable pub require_string : System → String → Errors → String × Errors
unfolding add_error
require_string sys key errors =
    let val = sys.getenv key in
    if val == "" then ("", add_error key not_set errors) else (val, errors)

unfoldable pub optional_string : System → String → String → String
optional_string sys key default = let val = sys.getenv key in if val == "" then default else val

-- The value that a text parses to, or the default and an error.
unfoldable pub parsed_or : {A : Type 0} → String → Problem → A → Option A → Errors → A × Errors
unfolding add_error
parsed_or key problem default none errors = (default, add_error key problem errors)
parsed_or key problem default (some a) errors = (a, errors)

-- A required value: "" has its error already.
unfoldable pub required :
    {A : Type 0} → A → (String → Errors → A × Errors) → String × Errors → A × Errors
required default f (val, errors) = if val == "" then (default, errors) else f val errors

unfoldable pub optional :
    {A : Type 0} → System → String → A → (String → Errors → A × Errors) → Errors → A × Errors
optional sys key default f errors =
    let val = sys.getenv key in if val == "" then (default, errors) else f val errors

abbrev pub when : {A : Type 0} → Bool → A → Option A
when true a = some a
when false a = none

unfoldable pub check_url : System → String → String → String → Errors → String × Errors
unfolding is_http parsed_or
check_url sys key default val errors =
    parsed_or key invalid_url default (when (is_http (sys.url_scheme val)) val) errors

unfoldable pub require_url : System → String → Errors → String × Errors
unfolding require_string required check_url
require_url sys key errors = required "" (check_url sys key "") (require_string sys key errors)

unfoldable pub optional_url : System → String → String → Errors → String × Errors
unfolding optional check_url
optional_url sys key default errors = optional sys key default (check_url sys key default) errors

unfoldable pub check_int : System → String → ℤ → String → Errors → ℤ × Errors
unfolding parsed_or
check_int sys key default val errors = parsed_or key not_integer default (sys.atoi val) errors

unfoldable pub require_int : System → String → Errors → ℤ × Errors
unfolding require_string required check_int
require_int sys key errors =
    required (pos 0) (check_int sys key (pos 0)) (require_string sys key errors)

unfoldable pub optional_int : System → String → ℤ → Errors → ℤ × Errors
unfolding optional check_int
optional_int sys key default errors = optional sys key default (check_int sys key default) errors

unfoldable pub check_bool : System → String → Bool → String → Errors → Bool × Errors
unfolding parsed_or
check_bool sys key default val errors =
    parsed_or key not_boolean default (sys.parse_bool val) errors

unfoldable pub require_bool : System → String → Errors → Bool × Errors
unfolding require_string required check_bool
require_bool sys key errors =
    required false (check_bool sys key false) (require_string sys key errors)

unfoldable pub optional_bool : System → String → Bool → Errors → Bool × Errors
unfolding optional check_bool
optional_bool sys key default errors = optional sys key default (check_bool sys key default) errors

-- What the validator takes for a duration: the last character only.
unfoldable pub looks_like_duration : String → Bool
looks_like_duration val = ends_with "s" val || ends_with "m" val || ends_with "h" val

unfoldable pub check_duration : String → String → String → Errors → String × Errors
unfolding looks_like_duration parsed_or
check_duration key default val errors =
    parsed_or key not_duration default (when (looks_like_duration val) val) errors

unfoldable pub require_duration : System → String → Errors → String × Errors
unfolding require_string required check_duration
require_duration sys key errors =
    required "" (check_duration key "") (require_string sys key errors)

unfoldable pub optional_duration : System → String → String → Errors → String × Errors
unfolding optional check_duration
optional_duration sys key default errors =
    optional sys key default (check_duration key default) errors

unfoldable pub require_one_of : System → String → List String → Errors → String × Errors
unfolding require_string required parsed_or
require_one_of sys key allowed errors =
    required "" (λ val. parsed_or key not_allowed "" (when (any (λ a. val == a) allowed) val))
      (require_string sys key errors)

unfoldable pub check_csv : String → String → Errors → List String × Errors
unfolding trimmed add_error
check_csv key val errors =
    let parts = trimmed (split_on 0x2c val) in
    (parts, elim parts [ [] ↦ add_error key csv_empty errors | x ∷ xs ↦ errors ])

unfoldable pub require_csv : System → String → Errors → List String × Errors
unfolding require_string required check_csv
require_csv sys key errors = required [] (check_csv key) (require_string sys key errors)

unfoldable pub optional_csv : System → String → List String → List String
unfolding trimmed
optional_csv sys key default =
    let val = sys.getenv key in if val == "" then default else trimmed (split_on 0x2c val)

unfoldable pub forbid_in_production : System → String → Errors → Errors
unfolding add_error
forbid_in_production sys key errors =
    if sys.getenv "ENVIRONMENT" == "production" && not (sys.getenv key == "")
    then add_error key forbidden errors
    else errors

-- `Validate` has no error exactly for the empty list; `HasErrors` is its negation.
unfoldable pub has_errors : Errors → Bool
has_errors [] = false
has_errors (e ∷ more) = true
