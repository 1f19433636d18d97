-- ===== src/Logging/Categories.antt =====
-- The categories of errors for the log: `CategorizeError` of internal/logging/errors.go, with the tests
-- that tell what to do about an error. The text of an error in lower case is an argument; nil is `none`.
pub mod Classes
use zen_cleaner.Prelude.{
  String, Bool, true, false, not, Option, none, some, List, [], ◌∷◌, if◌then◌else◌, any,
}
use zen_cleaner.Prelude.Text.{includes}

pub data ErrorCategory : Type 0 where
  unknown validation authentication authorization not_found conflict rate_limit timed_out network
        database external internal config temporary :
      ErrorCategory

abbrev pub Rules : Type 0
Rules = List (ErrorCategory × List String)

unfoldable pub error_category_rules : Rules
error_category_rules =
    (not_found, "not found" ∷ "does not exist" ∷ [])
    ∷ (conflict, "already exists" ∷ "duplicate" ∷ "conflict" ∷ [])
    ∷ (authentication, "unauthorized" ∷ "authentication failed" ∷ "invalid token" ∷ [])
    ∷ (authorization, "forbidden" ∷ "permission denied" ∷ "access denied" ∷ [])
    ∷ (validation, "invalid" ∷ "validation" ∷ "malformed" ∷ [])
    ∷ (timed_out, "timeout" ∷ "deadline exceeded" ∷ [])
    ∷ (rate_limit, "rate limit" ∷ "too many requests" ∷ [])
    ∷ (network, "connection refused" ∷ "connection reset" ∷ "network" ∷ [])
    ∷ (database, "database" ∷ "sql" ∷ "transaction" ∷ [])
    ∷ (config, "config" ∷ "configuration" ∷ [])
    ∷ []

unfoldable pub first_match : Rules → String → ErrorCategory
unfolding includes
first_match [] msg = internal
first_match ((category, patterns) ∷ more) msg =
    let rest = first_match more msg in if any (includes msg) patterns then category else rest

unfoldable pub categorize_error : Option String → ErrorCategory
unfolding first_match error_category_rules
categorize_error none = unknown
categorize_error (some msg) = first_match error_category_rules msg

unfoldable pub is_retryable_category : ErrorCategory → Bool
is_retryable_category temporary = true
is_retryable_category timed_out = true
is_retryable_category network = true
is_retryable_category external = true
is_retryable_category rate_limit = true
is_retryable_category _ = false

unfoldable pub is_client_category : ErrorCategory → Bool
is_client_category validation = true
is_client_category authentication = true
is_client_category authorization = true
is_client_category not_found = true
is_client_category conflict = true
is_client_category _ = false

unfoldable pub is_server_category : ErrorCategory → Bool
is_server_category internal = true
is_server_category database = true
is_server_category external = true
is_server_category config = true
is_server_category _ = false

unfoldable pub is_retryable_error : Option String → Bool
unfolding categorize_error is_retryable_category
is_retryable_error none = false
is_retryable_error (some msg) = is_retryable_category (categorize_error (some msg))

unfoldable pub is_client_error : Option String → Bool
unfolding categorize_error is_client_category
is_client_error none = false
is_client_error (some msg) = is_client_category (categorize_error (some msg))

unfoldable pub is_server_error : Option String → Bool
unfolding categorize_error is_server_category
is_server_error none = false
is_server_error (some msg) = is_server_category (categorize_error (some msg))
