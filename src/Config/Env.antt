-- ===== src/Config/Env.antt =====
-- internal/config/env.go: environment variables that are required, or have a default. A variable that
-- is not set reads as "". The parsers of Go's standard library are arguments.
use zen_cleaner.Prelude.{
  ℕ, String, Bool, false, not, ◌&&◌, ◌||◌, Option, none, some, List, [], ◌∷◌, ◌==◌, ltb,
  if◌then◌else◌, any,
}
use zen_cleaner.Prelude.Int.{ℤ}
use zen_cleaner.Prelude.Text.{split_on, trim_space}

-- `os.Getenv`, `strconv.Atoi`, `strconv.ParseBool`, `time.ParseDuration`, the scheme of `url.Parse`,
-- `len`, `strings.Contains` and `strings.ToLower`.
pub record System : Type 0 where
  pub getenv : String → String
  pub atoi : String → Option ℤ
  pub parse_bool : String → Option Bool
  pub parse_duration : String → Option ℤ
  pub url_scheme : String → Option String
  pub len : String → ℕ
  pub contains_text : String → String → Bool
  pub to_lower : String → String

pub data EnvError : Type 0 where
  env_required env_invalid_int env_invalid_bool env_invalid_url env_value_not_allowed
        env_secret_too_short env_secret_weak env_at_least_one production_debug production_db_ssl
        env_invalid_duration env_csv_empty :
      EnvError

pub data Fallible (A : Type 0) : Type 0 where
  value : A → Fallible A
  error : EnvError → Fallible A

unfoldable pub require_env : System → String → Fallible String
require_env sys key =
    let val = sys.getenv key in if val == "" then error env_required else value val

unfoldable pub require_env_with_default : System → String → String → String
require_env_with_default sys key default =
    let val = sys.getenv key in if not (val == "") then val else default

abbrev pub then_try : {A B : Type 0} → Fallible A → (A → Fallible B) → Fallible B
then_try (value a) f = f a
then_try (error e) f = error e

-- A value, or the error where there is none.
abbrev pub or_error : {A : Type 0} → EnvError → Option A → Fallible A
or_error e none = error e
or_error e (some a) = value a

abbrev pub or_default : {A : Type 0} → A → Option A → A
or_default d none = d
or_default d (some a) = a

unfoldable pub require_env_int : System → String → Fallible ℤ
unfolding require_env
require_env_int sys key =
    then_try (require_env sys key) (λ val. or_error env_invalid_int (sys.atoi val))

unfoldable pub require_env_int_with_default : System → String → ℤ → ℤ
require_env_int_with_default sys key default =
    let val = sys.getenv key in
    if not (val == "") then or_default default (sys.atoi val) else default

unfoldable pub require_env_bool : System → String → Fallible Bool
unfolding require_env
require_env_bool sys key =
    then_try (require_env sys key) (λ val. or_error env_invalid_bool (sys.parse_bool val))

unfoldable pub require_env_bool_with_default : System → String → Bool → Bool
require_env_bool_with_default sys key default =
    let val = sys.getenv key in
    if not (val == "") then or_default default (sys.parse_bool val) else default

unfoldable pub is_http : Option String → Bool
is_http none = false
is_http (some scheme) = scheme == "http" || scheme == "https"

unfoldable pub require_env_url : System → String → Fallible String
unfolding require_env is_http
require_env_url sys key =
    then_try (require_env sys key)
      (λ val. if is_http (sys.url_scheme val) then value val else error env_invalid_url)

unfoldable pub require_env_url_with_default : System → String → String → String
unfolding is_http
require_env_url_with_default sys key default =
    let val = sys.getenv key in
    if not (val == "") && is_http (sys.url_scheme val) then val else default

unfoldable pub require_env_one_of : System → String → List String → Fallible String
unfolding require_env
require_env_one_of sys key allowed =
    then_try (require_env sys key)
      (λ val. if any (λ a. val == a) allowed then value val else error env_value_not_allowed)

unfoldable pub require_env_secret : System → String → ℕ → Fallible String
unfolding require_env
require_env_secret sys key min_length = then_try (require_env sys key) (λ val.
    if ltb (sys.len val) min_length
    then error env_secret_too_short
    else if sys.contains_text (sys.to_lower val) "change-me"
    then error env_secret_weak
    else value val)

unfoldable pub require_at_least_one : System → List String → Option EnvError
require_at_least_one sys keys =
    if any (λ key. not (sys.getenv key == "")) keys then none else some env_at_least_one

unfoldable pub validate_production : System → Option EnvError
validate_production sys =
    let primary = sys.getenv "DATABASE_URL" in
    let url = if primary == "" then sys.getenv "CRDB_DSN" else primary in
    if not (sys.getenv "ENVIRONMENT" == "production")
    then none
    else if sys.getenv "DEBUG" == "true"
    then some production_debug
    else if not (url == "") && sys.contains_text url "sslmode=disable"
    then some production_db_ssl
    else none

unfoldable pub require_env_duration : System → String → Fallible ℤ
unfolding require_env
require_env_duration sys key =
    then_try (require_env sys key) (λ val. or_error env_invalid_duration (sys.parse_duration val))

unfoldable pub require_env_duration_with_default : System → String → ℤ → ℤ
require_env_duration_with_default sys key default =
    let val = sys.getenv key in
    if not (val == "") then or_default default (sys.parse_duration val) else default

-- The parts of a CSV, trimmed, without the empty ones.
unfoldable pub trimmed : List String → List String
trimmed [] = []
trimmed (part ∷ more) =
    let rest = trimmed more in if trim_space part == "" then rest else trim_space part ∷ rest

abbrev pub nonempty_or : {A : Type 0} → A → (List String → A) → List String → A
nonempty_or d f [] = d
nonempty_or d f (x ∷ xs) = f (x ∷ xs)

unfoldable pub require_env_csv : System → String → Fallible (List String)
unfolding require_env trimmed
require_env_csv sys key =
    then_try (require_env sys key)
      (λ val. nonempty_or (error env_csv_empty) (λ xs. value xs) (trimmed (split_on 0x2c val)))

unfoldable pub require_env_csv_with_default : System → String → List String → List String
unfolding trimmed
require_env_csv_with_default sys key default =
    let val = sys.getenv key in
    if not (val == "")
    then nonempty_or default (λ xs. xs) (trimmed (split_on 0x2c val))
    else default
