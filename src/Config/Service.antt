-- ===== src/Config/Service.antt =====
-- internal/config/env.go: ServiceConfigValidator, which collects the errors of the required variables.
use zen_cleaner.Prelude.{ℕ, String, Bool, true, false, none, some, List, [], ◌∷◌, ◌++◌}
use zen_cleaner.Prelude.Int.{ℤ, pos}
use zen_cleaner.Config.Env.{
  System, EnvError, Fallible, value, error, require_env, require_env_int, require_env_url,
  require_env_secret, require_at_least_one,
}

-- The errors so far; a message also has the name of its variable.
abbrev pub Collected : Type 0
Collected = List EnvError

unfoldable pub collect : {A : Type 0} → A → Fallible A → Collected → A × Collected
collect zero_value (value a) errors = (a, errors)
collect zero_value (error e) errors = (zero_value, errors ++ (e ∷ []))

unfoldable pub service_require : System → String → Collected → String × Collected
service_require sys key = collect "" (require_env sys key)

unfoldable pub service_require_int : System → String → Collected → ℤ × Collected
service_require_int sys key = collect (pos 0) (require_env_int sys key)

unfoldable pub service_require_url : System → String → Collected → String × Collected
service_require_url sys key = collect "" (require_env_url sys key)

unfoldable pub service_require_secret : System → String → ℕ → Collected → String × Collected
service_require_secret sys key min_length = collect "" (require_env_secret sys key min_length)

unfoldable pub service_require_at_least_one : System → List String → Collected → Collected
service_require_at_least_one sys keys errors = elim (require_at_least_one sys keys) [
  | none ↦ errors
  | some e ↦ errors ++ (e ∷ [])
]

unfoldable pub service_has_errors : Collected → Bool
service_has_errors [] = false
service_has_errors (e ∷ more) = true
